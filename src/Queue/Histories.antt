-- ===== src/Queue/Histories.antt =====
-- system/lib/Queue.ts over any history of calls, ends of callbacks and timeouts on a new queue.
use squidlet.Base.{ℕ, refl, List, [], ◌∷◌, Option, String, Result, ok, ◌>>=◌}
use squidlet.Queue.{Queue, init, add, cancel_job, settle, fire}
use squidlet.Queue.Invariant.{Inv, IsSettled, init-Inv}
use squidlet.Queue.Steps.{Good, add-Inv, cancel_job-Inv, settle-Good, fire-Good}

pub data Call (C : Type 0) : Type 0 where
  adds : C → Option String → Call C
  cancels : String → Call C
  settles : ℕ → Option String → Call C
  fires : ℕ → Call C

module _ {C : Type 0} (on_end : Option String → String → Queue C → Queue C) where
  pub step : Call C → Queue C → Result (Queue C)
  step (adds cb id) q = ok (add cb id q).0
  step (cancels id) q = ok (cancel_job on_end id q)
  step (settles i err) q = settle on_end i err q
  step (fires i) q = fire on_end i q

  pub run : List (Call C) → Queue C → Result (Queue C)
  run [] q = ok q
  run (c ∷ cs) q = step c q >>= run cs

module _ {C : Type 0} (on_end : Option String → String → Queue C → Queue C)
    (keeps : (err : Option String) (id : String) (q : Queue C)
      → Inv q
      → Inv (on_end err id q)) where
  step-Good : (c : Call C) (q : Queue C) → Inv q → IsSettled q → Good (step on_end c q)
  unfolding step
  step-Good (adds cb id) q v s = let (w, t) = add-Inv cb id q v in (_, refl, w, t s)
  step-Good (cancels id) q v s = let (w, t) = cancel_job-Inv on_end keeps id q v in (_, refl, w, t)
  step-Good (settles i err) q v s = settle-Good on_end keeps i err q v s
  step-Good (fires i) q v s = fire-Good on_end keeps i q v s

  run-Good : (cs : List (Call C)) (q : Queue C) → Inv q → IsSettled q → Good (run on_end cs q)
  unfolding run
  run-Good [] q v s = (q, refl, v, s)
  run-Good (c ∷ cs) q v s = let (q', e, w, t) = step-Good c q v s in rw e (run-Good cs q' w t)

  pub history-Good : (cs : List (Call C)) → Good (run on_end cs init)
  unfolding init
  history-Good cs = run-Good cs _ init-Inv (λ _. refl)
