-- ===== src/Promised/Outcomes.antt =====
-- What becomes of a promise over any calls, system/lib/Promised.ts.
use squidlet.Base.{◌≡◌, ◌∙◌, refl, List, [], ◌∷◌, String, false, arith}
use squidlet.Promised.{
  Outcome, pending, fulfilled, failed, Promised, new_promised, destroy, resolve, reject, cancel,
}

pub data Call (A : Type 0) : Type 0 where
  resolves : A → Call A
  rejects : String → Call A
  cancels : Call A
  destroys : Call A

module _ {A : Type 0} where
  pub step : Call A → Promised A → Promised A
  step (resolves a) p = resolve a p
  step (rejects err) p = reject err p
  step cancels p = cancel p
  step destroys p = destroy p

  -- The calls in their order.
  pub run : List (Call A) → Promised A → Promised A
  run [] p = p
  run (c ∷ cs) p = run cs (step c p)

  -- The first call decides.
  abbrev pub first_outcome : List (Call A) → Outcome A
  first_outcome [] = pending
  first_outcome (resolves a ∷ cs) = fulfilled a
  first_outcome (rejects err ∷ cs) = failed err
  first_outcome (cancels ∷ cs) = pending
  first_outcome (destroys ∷ cs) = pending

  closed_step :
      (c : Call A) (p : Promised A)
      → p.at_hand ≡ false
      → ((step c p).at_hand ≡ false) × ((step c p).outcome ≡ p.outcome)
  unfolding step
  closed_step (resolves a) p e = ground arith
  closed_step (rejects err) p e = ground arith
  closed_step cancels p e = ground arith
  closed_step destroys p e = (refl, refl)

  run_closed :
      (cs : List (Call A)) (p : Promised A) → p.at_hand ≡ false → (run cs p).outcome ≡ p.outcome
  unfolding run
  run_closed [] p e = refl
  run_closed (c ∷ cs) p e =
      let (shut, same) = closed_step c p e in run_closed cs (step c p) shut ∙ same

  -- The first call on a new object decides: `resolve` and `reject` settle the promise for good, and
  -- after `cancel` or `destroy` it stays pending whatever is called.
  pub run-first_outcome : (cs : List (Call A)) → (run cs new_promised).outcome ≡ first_outcome cs
  unfolding run step
  run-first_outcome [] = refl
  run-first_outcome (resolves a ∷ cs) = run_closed cs _ refl
  run-first_outcome (rejects err ∷ cs) = run_closed cs _ refl
  run-first_outcome (cancels ∷ cs) = run_closed cs _ refl
  run-first_outcome (destroys ∷ cs) = run_closed cs _ refl
