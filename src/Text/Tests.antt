-- ===== src/Text/Tests.antt =====
-- Concrete texts and paths for the theorems on system/lib/strings.ts and system/lib/paths.ts.
use squidlet.Base.{ℕ, List, [], ◌∷◌}

-- "//a/b/".
abbrev a_path : List ℕ
a_path = 47 ∷ 47 ∷ 97 ∷ 47 ∷ 98 ∷ 47 ∷ []
