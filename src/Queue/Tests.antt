-- ===== src/Queue/Tests.antt =====
-- Concrete queues for the theorems on system/lib/Queue.ts.
use squidlet.Base.{ℕ, ◌≡◌, refl, List, [], ◌∷◌, none, some, false, ok}
use squidlet.Queue.{
  Queue, Job, init, add, add_resolved, push_job, start_next_job_if_need, start_job, settle, destroy,
}
use squidlet.Queue.Invariant.{Inv, IsSettled, init-Inv}
use squidlet.Queue.Steps.{add-Inv}
use squidlet.Queue.Ended.{settles_late, fires_late, late_run, StillSilent, late_run-destroy}
use squidlet.Queue.Histories.{Call, adds, cancels, settles, fires}
use squidlet.Queue.Fifo.{view, put, rest, Starts, Waits, quiet, add_resolved-put, settle-rest}

abbrev one_job : Queue ℕ
one_job = (add 1 (some "a") init).0

abbrev two_jobs : Queue ℕ
two_jobs = (add 2 (some "b") one_job).0

two_jobs-Inv : Inv two_jobs × IsSettled two_jobs
unfolding init
two_jobs-Inv =
    let (v, s) = add-Inv 1 (some "a") init init-Inv in
    let (w, t) = add-Inv 2 (some "b") one_job v in (w, t (s λ _. refl))

abbrev first_job : Job ℕ
first_job = record { uid = 0; id = "a"; cb = 1 }

abbrev calls : List (Call ℕ)
calls =
    adds 1 (some "a")
    ∷ adds 2 (some "b")
    ∷ adds 3 none
    ∷ fires 0
    ∷ cancels "b"
    ∷ settles 0 none
    ∷ []

late_run-destroy_example :
    StillSilent (late_run (settles_late 0 ∷ fires_late 0 ∷ []) (destroy two_jobs))
late_run-destroy_example =
    late_run-destroy (settles_late 0 ∷ fires_late 0 ∷ []) two_jobs two_jobs-Inv.0

add_resolved-put_example :
    (view (add_resolved 9 "b" two_jobs) ≡ put "b" 9 (view two_jobs))
    × (two_jobs.current_job ≡ none → Starts "b" 9 two_jobs (add_resolved 9 "b" two_jobs))
    × ((c : Job ℕ) → two_jobs.current_job ≡ some c → Waits two_jobs (add_resolved 9 "b" two_jobs))
add_resolved-put_example = add_resolved-put 9 "b" two_jobs two_jobs-Inv.1

settle-rest_example :
    (q : Queue ℕ) × (settle quiet 0 (some "failed") two_jobs ≡ ok q)
    × (view q ≡ rest (view two_jobs))
unfolding add add_resolved push_job start_next_job_if_need start_job init
settle-rest_example =
    settle-rest 0 (some "failed") (record { job = first_job; canceled = false }) two_jobs
      two_jobs-Inv.0 refl refl
