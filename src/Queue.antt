-- ===== src/Queue.antt =====
-- system/lib/Queue.ts: one job runs at a time, the others wait in the order of arrival.
--
-- What surrounds the object is part of the state: the timers that `setTimeout` armed, the callbacks
-- that were started and have not settled, the log of the events emitted. `on_end` is what the
-- listeners of the event `endJob` do with the queue when it is emitted, since they may call it.
mod Jobs
pub mod Invariant
pub mod Ids
pub mod Ends
pub mod Steps
pub mod Histories
pub mod Fifo
pub mod Ended
mod Tests
unfoldable pub use Jobs.*
use squidlet.Base.{
  ℕ, zero, suc, List, [], ◌∷◌, ◌++◌, map, Option, none, some, option_list, String, str_eq, Bool,
  true, false, not, ◌||◌, ◌==◌, length, get_elem?, remove_at, if◌then◌else◌, decimal, Result, ok,
  throws, is_some,
}

-- What is left of the object after `destroy`: `this.queue` is deleted, so that `getJobIds`, `add`
-- and every other method that reads it throws, and there is no current job.
pub record Destroyed (C : Type 0) : Type 0 where
  pub timers_left : List (Timer C)
  pub flights_left : List (Flight C)

pub record Queue (C : Type 0) : Type 0 where
  pub queue : List (Job C)
  pub current_job : Option (Job C)
  pub running_timeout : Option ℕ
  -- `unnamedJobIdCounter + 1`.
  pub unnamed_counter : ℕ
  pub timers : List (Timer C)
  pub in_flight : List (Flight C)
  pub log : List Event
  -- The next identity of a job, and the next handle of a timer.
  pub next : ℕ

module _ {C : Type 0} where
  pub init : Queue C
  init = record {
    queue = [];
    current_job = none;
    running_timeout = none;
    unnamed_counter = 0;
    timers = [];
    in_flight = [];
    log = [];
    next = 0;
  }

  pub get_queue_length : Queue C → ℕ
  get_queue_length q = length q.queue

  pub get_queued_jobs_id : Queue C → List String
  get_queued_jobs_id q = ids q.queue

  pub get_job_ids : Queue C → List String
  unfolding get_queued_jobs_id
  get_job_ids q = ids (option_list q.current_job) ++ get_queued_jobs_id q

  pub is_in_progress : Queue C → Bool
  is_in_progress q = is_some q.current_job || not (length q.queue == 0)

  pub get_current_job_id : Queue C → Option String
  get_current_job_id q = elim q.current_job [ none ↦ none | some j ↦ some j.id ]

  pub is_job_in_progress : String → Queue C → Bool
  is_job_in_progress id q = has_id id q.current_job

  pub has_job : String → Queue C → Bool
  unfolding get_job_ids
  has_job id q = includes id (get_job_ids q)

  pub start_job : Job C → Queue C → Queue C
  start_job j q = record q {
    log = started j.id ∷ q.log;
    running_timeout = some q.next;
    timers = record { handle = q.next; job = j } ∷ q.timers;
    in_flight = record { job = j; canceled = false } ∷ q.in_flight;
    next = suc q.next;
  }

  abbrev start_next : Option (Job C) → List (Job C) → Queue C → Queue C
  start_next (some c) js q = q
  start_next none [] q = q
  start_next none (j ∷ js) q = start_job j (record q { current_job = some j; queue = js })

  pub start_next_job_if_need : Queue C → Queue C
  unfolding start_job
  start_next_job_if_need q = start_next q.current_job q.queue q

  pub finalize_current_job : Queue C → Queue C
  finalize_current_job q = record q {
    timers = clear_timeout q.running_timeout q.timers;
    running_timeout = none;
    current_job = none;
  }

  abbrev pub resolve_job_id : Option String → Queue C → Queue C × String
  resolve_job_id (some id) q = (q, id)
  resolve_job_id none q =
      (record q { unnamed_counter = suc q.unnamed_counter }, decimal q.unnamed_counter)

  abbrev pub new_job : C → String → Queue C → Job C
  new_job cb id q = record { uid = q.next; id = id; cb = cb }

  pub push_job : C → String → Queue C → Queue C
  push_job cb id q = record q { queue = q.queue ++ new_job cb id q ∷ []; next = suc q.next }

  pub add_resolved : C → String → Queue C → Queue C
  unfolding push_job start_next_job_if_need
  add_resolved cb id q =
      if has_id id q.current_job
      then q
      else if in_queue id q.queue
      then record q { queue = update_cb id cb q.queue }
      else start_next_job_if_need (push_job cb id q)

  pub add : C → Option String → Queue C → Queue C × String
  add cb job_id q = let r = resolve_job_id job_id q in (add_resolved cb r.1 r.0, r.1)

abbrev pub no_current_job : String
no_current_job = "RequestQueue: No current job when the job finished"

abbrev pub other_current_job : String
other_current_job = "RequestQueue: Current job id doesn't match with the finished job id"

abbrev pub timeout_exceeded : String
timeout_exceeded = "RequestQueue: Timeout of job has been exceeded"

module _ {C : Type 0} (on_end : Option String → String → Queue C → Queue C) where
  pub emit_end : Option String → String → Queue C → Queue C
  emit_end err id q = on_end err id (record q { log = ended err id ∷ q.log })

  abbrev finished : Option String → Job C → Option (Job C) → Queue C → Result (Queue C)
  finished err j none q = throws no_current_job
  finished err j (some c) q =
      if str_eq c.id j.id
      then ok (start_next_job_if_need (emit_end err j.id (finalize_current_job q)))
      else throws other_current_job

  pub handle_cb_finished : Option String → Job C → Queue C → Result (Queue C)
  handle_cb_finished err j q = finished err j q.current_job q

  -- The callback started as the `i`-th in flight settles, with or without an error.
  pub settle : ℕ → Option String → Queue C → Result (Queue C)
  unfolding handle_cb_finished
  settle i err q = elim (get_elem? q.in_flight i) [
    | none ↦ ok q
    | some f ↦
        let q' = record q { in_flight = remove_at q.in_flight i } in
        if f.canceled then ok q' else handle_cb_finished err f.job q'
  ]

  -- The `i`-th timer fires: its job is marked as canceled, and finished with an error.
  pub fire : ℕ → Queue C → Result (Queue C)
  unfolding handle_cb_finished
  fire i q = elim (get_elem? q.timers i) [
    | none ↦ ok q
    | some t ↦
        handle_cb_finished (some timeout_exceeded) t.job
          (record q { timers = remove_at q.timers i; in_flight = mark t.job.uid q.in_flight })
  ]

  abbrev cancel_current : String → Option (Job C) → Queue C → Queue C
  cancel_current id none q = q
  cancel_current id (some c) q =
      if str_eq c.id id
      then emit_end none id (finalize_current_job (record q { in_flight = mark c.uid q.in_flight }))
      else q

  pub cancel_job : String → Queue C → Queue C
  unfolding remove_job
  cancel_job id q =
      let q' = cancel_current id q.current_job q in
      start_next_job_if_need (record q' { queue = remove_job id q'.queue })

module _ {C : Type 0} where
  pub destroy : Queue C → Destroyed C
  destroy q = record {
    timers_left = clear_timeout q.running_timeout q.timers;
    flights_left = elim q.current_job [ none ↦ q.in_flight | some j ↦ mark j.uid q.in_flight ];
  }

  -- A callback settles after `destroy`: one that was not canceled finds no current job.
  pub settle_left : ℕ → Destroyed C → Result (Destroyed C)
  settle_left i d = elim (get_elem? d.flights_left i) [
    | none ↦ ok d
    | some f ↦
        if f.canceled
        then ok (record d { flights_left = remove_at d.flights_left i })
        else throws no_current_job
  ]

  -- A timer that was not cleared fires after `destroy`.
  pub fire_left : ℕ → Destroyed C → Result (Destroyed C)
  fire_left i d = elim (get_elem? d.timers_left i) [ none ↦ ok d | some t ↦ throws no_current_job ]
