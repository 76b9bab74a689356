-- ===== src/Arrays/Tests.antt =====
-- A concrete array for the theorem on system/lib/arrays.ts.
use squidlet.Base.{ℕ, List, [], ◌∷◌, ◌==◌, Bool}

abbrev same : ℕ → ℕ → Bool
same a b = a == b

abbrev items : List ℕ
items = 1 ∷ 2 ∷ 1 ∷ 3 ∷ 2 ∷ []
