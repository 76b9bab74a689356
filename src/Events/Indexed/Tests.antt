-- ===== src/Events/Indexed/Tests.antt =====
-- A history of calls for the theorem on system/lib/IndexedEvents.ts.
use squidlet.Base.{ℕ, List, [], ◌∷◌, Option, none, some, String, ◌==◌, if◌then◌else◌}
use squidlet.Events.Indexed.Histories.{Call, adds, onces, removes, emits}

-- The handler 3 throws.
abbrev throws_at_three : ℕ → Option String
throws_at_three n = if n == 3 then some "three" else none

abbrev calls : List (Call ℕ)
calls = onces 5 ∷ removes 0 ∷ emits throws_at_three ∷ adds 3 ∷ onces 2 ∷ adds 1 ∷ []
