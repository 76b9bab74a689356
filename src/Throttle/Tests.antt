-- ===== src/Throttle/Tests.antt =====
-- Concrete calls for the theorems on throttled callbacks.
use squidlet.Base.{ℕ, List, [], ◌∷◌, Option, some, String}
use squidlet.Throttle.Windows.{Call, invokes, clears, fires}

abbrev run : ℕ → Option String
run n = some "failed"

abbrev calls : List (Call ℕ)
calls =
    invokes 2 50 "a" ∷ invokes 3 100 "a" ∷ fires 0 ∷ invokes 4 20 "b" ∷ clears "b" ∷ fires 1 ∷ []
