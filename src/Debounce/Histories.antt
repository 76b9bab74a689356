-- ===== src/Debounce/Histories.antt =====
-- Any history of calls and timers on a new object.
use squidlet.Base.{ℕ, List, [], ◌∷◌, Option, String}
use squidlet.Debounce.{Debounce, Variant, init, invoke, clear, fire}
use squidlet.Debounce.Entries.{Inv, init-Inv, clear-Inv}
use squidlet.Debounce.Steps.{invoke-Inv, fire-Inv}

pub data Call (C : Type 0) : Type 0 where
  invokes : C → ℕ → String → Call C
  clears : String → Call C
  fires : ℕ → Call C

module _ {C : Type 0} (v : Variant) (run : C → Option String) where
  pub step : Call C → Debounce C → Debounce C
  step (invokes cb ms id) d = (invoke v run cb ms id d).0
  step (clears id) d = clear id d
  step (fires h) d = fire run h d

  -- The calls stand newest first.
  pub history : List (Call C) → Debounce C
  history [] = init
  history (c ∷ cs) = step c (history cs)

  step-Inv : (c : Call C) (d : Debounce C) → Inv d → Inv (step c d)
  unfolding step
  step-Inv (invokes cb ms id) d i = invoke-Inv v run cb ms id d i
  step-Inv (clears id) d i = clear-Inv id d i
  step-Inv (fires h) d i = fire-Inv run h d i

  -- After any history of calls of `invoke` and `clear` and of timers that fire, in either class: the
  -- timers that are armed are just those of the entries, one for each; the promise of each entry is
  -- pending; and no two entries share a promise.
  pub history-Inv : (cs : List (Call C)) → Inv (history cs)
  unfolding history
  history-Inv [] = init-Inv
  history-Inv (c ∷ cs) = step-Inv c (history cs) (history-Inv cs)
