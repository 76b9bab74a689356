-- ===== src/Debounce/Tests.antt =====
-- Concrete calls for the theorems on debounced callbacks.
use squidlet.Base.{ℕ, ◌≡◌, List, [], ◌∷◌, Option, some, String, get_elem?}
use squidlet.Timers.{armed_for}
use squidlet.Promised.{Promised, failed}
use squidlet.Debounce.{
  Debounce, debounce_call, debounce_call_increasing, promise, init, invoke, fire,
}
use squidlet.Debounce.Entries.{Inv, init-Inv}
use squidlet.Debounce.Steps.{invoke-Inv, fire-invoke}
use squidlet.Debounce.Histories.{Call, invokes, clears, fires, history, history-Inv}

abbrev run : ℕ → Option String
run n = some "failed"

abbrev calls : List (Call ℕ)
calls = fires 1 ∷ invokes 4 100 "b" ∷ clears "b" ∷ invokes 3 100 "a" ∷ invokes 2 50 "a" ∷ []

abbrev waiting : Debounce ℕ
waiting = (invoke debounce_call run 2 50 "a" init).0

history-Inv_example : Inv (history debounce_call_increasing run calls)
history-Inv_example = history-Inv debounce_call_increasing run calls

fire-invoke_example :
    (h : ℕ) × (n : ℕ) × (armed_for h (invoke debounce_call run 3 100 "a" waiting).0.timers.armed
      ≡ some "a")
    × ((invoke debounce_call run 3 100 "a" waiting).1 ≡ promise n)
    × ((fire run h (invoke debounce_call run 3 100 "a" waiting).0).calls ≡ 3 ∷ waiting.calls)
    × ((q : Promised Unit) × (get_elem?
            (fire run h (invoke debounce_call run 3 100 "a" waiting).0).promises
            n
          ≡ some q)
        × (q.outcome ≡ failed "failed"))
fire-invoke_example =
    fire-invoke debounce_call run 3 99 "a" waiting
      (invoke-Inv debounce_call run 2 50 "a" init init-Inv)
