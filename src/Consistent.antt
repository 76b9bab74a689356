-- ===== src/Consistent.antt =====
-- system/lib/ConsistentState.ts: a local state that is written to a remote one. States are flat, as the
-- class asks for; a partial state may have a key that is undefined, `none`. `current` and `write_queued`
-- are what the queue tells of the jobs with the ids `read` and `write`; the newest data that the setter
-- was given stands first in `sent`.
pub mod Merges
pub mod Failures
mod Tests
use squidlet.Base.{
  List, [], ◌∷◌, ◌++◌, map, Option, none, some, some_or, String, str_eq, Dict, lookup, insert,
  delete, keys, Bool, true, false, not, ◌||◌, is_some, if◌then◌else◌, Result, ok, throws,
}

pub data Job : Type 0 where
  reading : Job
  writing : Job

abbrev pub Partial : Type 0 → Type 0
Partial V = Dict (Option V)

pub record ConsistentState (V : Type 0) : Type 0 where
  pub local_state : Dict V
  pub actual_remote_state : Option (Dict V)
  pub params_list_to_save : Option (List String)
  pub next_write_partial_state : Option (Dict V)
  pub current : Option Job
  pub write_queued : Bool
  pub sent : List (Partial V)

abbrev pub is_writing : Option Job → Bool
is_writing (some writing) = true
is_writing (some reading) = false
is_writing none = false

abbrev pub is_reading : Option Job → Bool
is_reading (some reading) = true
is_reading (some writing) = false
is_reading none = false

abbrev pub among : String → List String → Bool
among k [] = false
among k (name ∷ names) = str_eq name k || among k names

-- `arraysDifference(keys, samples)`.
abbrev pub apart_from : List String → List String → List String
apart_from samples [] = []
apart_from samples (k ∷ ks) =
    let rest = apart_from samples ks in if among k samples then rest else k ∷ rest

abbrev pub to_save_has_to_be_set : String
to_save_has_to_be_set = "ConsistentState.write: paramsListToSave has to be set"

abbrev pub next_has_to_be_removed : String
next_has_to_be_removed = "ConsistentState.write: nextWritePartialState has to be removed"

abbrev pub remote_has_to_be_removed : String
remote_has_to_be_removed = "ConsistentState.write: actualRemoteState has to be removed"

abbrev pub to_save_has_to_be_removed : String
to_save_has_to_be_removed = "ConsistentState.write: paramsListToSave has to be removed"

abbrev pub no_remote : String
no_remote = "ConsistentState.restorePreviousState: no actualRemoteState"

abbrev pub no_list : String
no_list = "ConsistentState.restorePreviousState: no paramsListToSave"

abbrev pub no_remote_to_save : String
no_remote_to_save = "ConsistentState.collectDataToSave: no actualRemoteState"

abbrev pub no_list_to_save : String
no_list_to_save = "ConsistentState.collectDataToSave: no paramsListToSave"

abbrev pub list_of : Option (List String) → List String
list_of none = []
list_of (some names) = names

module _ {V : Type 0} where
  abbrev pub put : String → Option V → Dict V → Dict V
  put k none d = delete k d
  put k (some v) d = insert k v d

  -- `mergeDeepObjects` of flat objects; the first argument goes over the second.
  pub merge : Partial V → Dict V → Dict V
  merge [] bottom = bottom
  merge (e ∷ top) bottom = put e.0 e.1 (merge top bottom)

  abbrev pub whole : Dict V → Partial V
  whole [] = []
  whole (e ∷ d) = (e.0, some e.1) ∷ whole d

  -- `pickObj(state, ...keys)`: a key that the state has not is undefined.
  abbrev pub pick : Partial V → List String → Partial V
  pick d [] = []
  pick d (k ∷ ks) = (k, some_or none (lookup k d)) ∷ pick d ks

  -- What is over the local state in the spread of two objects: the later one goes over.
  pub generate_safe_new_state : Partial V → ConsistentState V → Partial V
  generate_safe_new_state actual s =
      pick actual (apart_from (list_of s.params_list_to_save) (keys actual)) ++ whole s.local_state

  abbrev pub state_updater : Partial V → ConsistentState V → ConsistentState V
  state_updater part s = record s { local_state = merge part s.local_state }

  abbrev pub remote_of : Option (Dict V) → Dict V
  remote_of none = []
  remote_of (some d) = d

  -- The income of a state while the job is the one given.
  abbrev pub income_in : Option Job → Partial V → ConsistentState V → ConsistentState V
  income_in (some reading) part s = s
  income_in (some writing) part s =
      let s' = state_updater (generate_safe_new_state part s) s in
      record s' { actual_remote_state = some (merge part (remote_of s'.actual_remote_state)) }
  income_in none part s = state_updater part s

  pub set_income_state : Partial V → ConsistentState V → ConsistentState V
  unfolding generate_safe_new_state
  set_income_state part s = income_in s.current part s

  -- `handleLoading` with what the getter gave.
  abbrev pub loaded_in : Option (Dict V) → Dict V → ConsistentState V → ConsistentState V
  loaded_in none result s = state_updater (whole result) s
  loaded_in (some remote) result s =
      let s' = record s { actual_remote_state = some result } in
      state_updater (generate_safe_new_state (whole result) s') s'

  pub handle_loading : Dict V → ConsistentState V → ConsistentState V
  unfolding generate_safe_new_state
  handle_loading result s = loaded_in s.actual_remote_state result s

  pub start_new_write_job : Partial V → ConsistentState V → Result (ConsistentState V)
  start_new_write_job part s =
      if is_some s.next_write_partial_state
      then throws next_has_to_be_removed
      else if is_some s.actual_remote_state
      then throws remote_has_to_be_removed
      else if is_some s.params_list_to_save
      then throws to_save_has_to_be_removed
      else ok (
          state_updater part (record s {
            actual_remote_state = some s.local_state;
            params_list_to_save = some (keys part);
            write_queued = true;
          }))

  abbrev pub collect_params :
      Option (List String) → Partial V → ConsistentState V → Result (ConsistentState V)
  collect_params none part s = throws to_save_has_to_be_set
  collect_params (some names) part s = ok (
      state_updater part
        (record s { params_list_to_save = some (names ++ apart_from names (keys part)) }))

  -- With a setter; the promise that is returned is left out.
  pub write : Partial V → ConsistentState V → Result (ConsistentState V)
  unfolding start_new_write_job
  write part s =
      if is_writing s.current
      then ok (record s {
        next_write_partial_state = some (merge part (remote_of s.next_write_partial_state));
      })
      else if s.write_queued
      then collect_params s.params_list_to_save part s
      else start_new_write_job part s

  -- The values that differ; `same` is `===`.
  abbrev pub changed_of : (Option V → Option V → Bool) → Dict V → Dict V → List String → Partial V
  changed_of same now remote [] = []
  changed_of same now remote (k ∷ ks) =
      let rest = changed_of same now remote ks in
      if same (lookup k now) (lookup k remote) then rest else (k, lookup k now) ∷ rest

  pub collect_data_to_save : (Option V → Option V → Bool) → ConsistentState V → Result (Partial V)
  collect_data_to_save same s = elim s.actual_remote_state [
    | none ↦ throws no_remote_to_save
    | some remote ↦ elim s.params_list_to_save [
      | none ↦ throws no_list_to_save
      | some names ↦ ok (changed_of same s.local_state remote names)
    ]
  ]

  abbrev pub send_filled : Partial V → ConsistentState V → ConsistentState V
  send_filled [] s = s
  send_filled (e ∷ part) s = record s { sent = (e ∷ part) ∷ s.sent }

  -- The job of a write starts: `writeJobCb`.
  pub write_job_cb : (Option V → Option V → Bool) → ConsistentState V → Result (ConsistentState V)
  unfolding collect_data_to_save
  write_job_cb same s = elim (collect_data_to_save same s) [
    | throws err ↦ throws err
    | ok part ↦ ok (send_filled part (record s { current = some writing; write_queued = false }))
  ]

  abbrev pub ended : ConsistentState V → ConsistentState V
  ended s = record s { actual_remote_state = none; params_list_to_save = none; current = none }

  -- The job has ended well: the next write starts, where there is one.
  pub handle_write_success : ConsistentState V → Result (ConsistentState V)
  unfolding start_new_write_job
  handle_write_success s = elim s.next_write_partial_state [
    | none ↦ ok (ended s)
    | some part ↦
        start_new_write_job (whole part) (record (ended s) { next_write_partial_state = none })
  ]

  abbrev pub undefined_of : List String → Partial V
  undefined_of [] = []
  undefined_of (k ∷ ks) = (k, none) ∷ undefined_of ks

  -- The keys that the remote state has not become undefined.
  abbrev pub restore_of : Dict V → List String → Partial V
  restore_of remote names = undefined_of (apart_from (keys remote) names) ++ whole remote

  pub restore_previous_state : ConsistentState V → Result (Partial V)
  restore_previous_state s = elim s.actual_remote_state [
    | none ↦ throws no_remote
    | some remote ↦ elim s.params_list_to_save [
      | none ↦ throws no_list
      | some names ↦ ok (restore_of remote names)
    ]
  ]

  pub handle_write_error : ConsistentState V → Result (ConsistentState V)
  unfolding restore_previous_state
  handle_write_error s = elim (restore_previous_state s) [
    | throws err ↦ throws err
    | ok part ↦ ok (record (ended (state_updater part s)) { next_write_partial_state = none })
  ]
