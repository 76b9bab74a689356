-- ===== src/Queue/Jobs.antt =====
-- The jobs of system/lib/Queue.ts, the callbacks in flight, the timers, and the walks over them.
use squidlet.Base.{
  ℕ, List, [], ◌∷◌, map, Option, none, some, String, str_eq, Bool, true, false, ◌||◌, ◌==◌,
  if◌then◌else◌,
}

-- `[JobId, QueuedCb, isCanceled]`; two jobs with equal ids are still two objects, so a job carries
-- an identity. The flag is only ever read where the callback settles: it stands in `Flight`.
pub record Job (C : Type 0) : Type 0 where
  pub uid : ℕ
  pub id : String
  pub cb : C

pub record Flight (C : Type 0) : Type 0 where
  pub job : Job C
  pub canceled : Bool

pub record Timer (C : Type 0) : Type 0 where
  pub handle : ℕ
  pub job : Job C

pub data Event : Type 0 where
  started : String → Event
  ended : Option String → String → Event

abbrev pub includes : String → List String → Bool
includes id [] = false
includes id (x ∷ xs) = str_eq x id || includes id xs

module _ {C : Type 0} where
  abbrev pub ids : List (Job C) → List String
  ids = map λ j. j.id

  abbrev pub has_id : String → Option (Job C) → Bool
  has_id id none = false
  has_id id (some j) = str_eq j.id id

  -- `job[canceled] = true`, seen where the callback of that very job settles.
  abbrev pub mark : ℕ → List (Flight C) → List (Flight C)
  mark u [] = []
  mark u (f ∷ fs) = (if f.job.uid == u then record f { canceled = true } else f) ∷ mark u fs

  abbrev pub without_handle : ℕ → List (Timer C) → List (Timer C)
  without_handle h [] = []
  without_handle h (t ∷ ts) = if t.handle == h then without_handle h ts else t ∷ without_handle h ts

  abbrev pub clear_timeout : Option ℕ → List (Timer C) → List (Timer C)
  clear_timeout none ts = ts
  clear_timeout (some h) ts = without_handle h ts

  abbrev pub in_queue : String → List (Job C) → Bool
  in_queue id [] = false
  in_queue id (j ∷ js) = str_eq j.id id || in_queue id js

  -- `this.queue[jobIndex][cb] = cb` at the first job with the id.
  abbrev pub update_cb : String → C → List (Job C) → List (Job C)
  update_cb id cb [] = []
  update_cb id cb (j ∷ js) =
      if str_eq j.id id then record j { cb = cb } ∷ js else j ∷ update_cb id cb js

  -- `removeJobFromQueue`: the first job with the id is spliced out.
  unfoldable pub remove_job : String → List (Job C) → List (Job C)
  remove_job id [] = []
  remove_job id (j ∷ js) = if str_eq j.id id then js else j ∷ remove_job id js
