-- ===== src/Validate/Tests.antt =====
-- Concrete props for the theorem on system/lib/validate.ts.
use squidlet.Base.{ℕ, [], ◌∷◌, true, false, Dict, Bool}

abbrev props : Dict ℕ
props = ("pin", 4) ∷ []

abbrev schema : Dict Bool
schema = ("pin", true) ∷ ("invert", false) ∷ []
