-- ===== src/Promised/Tests.antt =====
-- Calls on a promise for the theorem on system/lib/Promised.ts.
use squidlet.Base.{ℕ, ◌≡◌, List, [], ◌∷◌}
use squidlet.Promised.{new_promised}
use squidlet.Promised.Outcomes.{
  Call, resolves, rejects, cancels, run, first_outcome, run-first_outcome,
}

abbrev calls : List (Call ℕ)
calls = rejects "first" ∷ resolves 3 ∷ cancels ∷ []

run-first_outcome_example : (run calls new_promised).outcome ≡ first_outcome calls
run-first_outcome_example = run-first_outcome calls
