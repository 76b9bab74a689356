-- ===== src/Promised.antt =====
-- system/lib/Promised.ts: a promise with its two functions at hand.
pub mod Outcomes
mod Tests
use squidlet.Base.{List, [], ◌∷◌, String, Bool, true, false, ◌||◌, if◌then◌else◌}

-- What became of the promise of the language.
pub data Outcome (A : Type 0) : Type 0 where
  pending : Outcome A
  fulfilled : A → Outcome A
  failed : String → Outcome A

-- `at_hand`: `promiseResolve` and `promiseReject` are not deleted, which happens to both at once.
pub record Promised (A : Type 0) : Type 0 where
  pub outcome : Outcome A
  pub at_hand : Bool
  pub resolved : Bool
  pub rejected : Bool
  pub canceled : Bool

module _ {A : Type 0} where
  abbrev pub new_promised : Promised A
  new_promised = record {
    outcome = pending;
    at_hand = true;
    resolved = false;
    rejected = false;
    canceled = false;
  }

  abbrev pub destroy : Promised A → Promised A
  destroy p = record p { at_hand = false }

  abbrev pub resolve : A → Promised A → Promised A
  resolve a p = if p.canceled then p else record p {
    outcome = if p.at_hand then fulfilled a else p.outcome;
    resolved = true;
    at_hand = false;
  }

  abbrev pub reject : String → Promised A → Promised A
  reject err p = if p.canceled then p else record p {
    outcome = if p.at_hand then failed err else p.outcome;
    rejected = true;
    at_hand = false;
  }

  abbrev pub is_resolved : Promised A → Bool
  is_resolved p = p.resolved

  abbrev pub is_rejected : Promised A → Bool
  is_rejected p = p.rejected

  abbrev pub is_canceled : Promised A → Bool
  is_canceled p = p.canceled

  abbrev pub is_fulfilled : Promised A → Bool
  is_fulfilled p = p.resolved || p.rejected

  abbrev pub cancel : Promised A → Promised A
  cancel p = if is_fulfilled p then p else record p { canceled = true; at_hand = false }
