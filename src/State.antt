-- ===== src/State.antt =====
-- system/lib/State.ts: states by category and name, with an event for each change. A category is the
-- text of its number, which is the key. States are flat and their values primitive, which `isEqual` of
-- system/lib/common.ts compares with `===`. The newest event stands first in `emitted`; the listeners
-- are told of it.
pub mod Updates
mod Tests
use squidlet.Base.{
  ℕ, List, [], ◌∷◌, Option, none, some, some_or, String, Dict, lookup, insert, keys, Bool, true,
  false, not, str_eq, ◌==◌, if◌then◌else◌,
}
use squidlet.Consistent.{Partial, merge}

pub data Primitive : Type 0 where
  null : Primitive
  boolean : Bool → Primitive
  number : ℕ → Primitive
  string : String → Primitive

abbrev pub iff : Bool → Bool → Bool
iff a b = if a then b else not b

abbrev pub same_primitive : Primitive → Primitive → Bool
same_primitive null null = true
same_primitive null (boolean b) = false
same_primitive null (number n) = false
same_primitive null (string t) = false
same_primitive (boolean a) null = false
same_primitive (boolean a) (boolean b) = iff a b
same_primitive (boolean a) (number n) = false
same_primitive (boolean a) (string t) = false
same_primitive (number m) null = false
same_primitive (number m) (boolean b) = false
same_primitive (number m) (number n) = m == n
same_primitive (number m) (string t) = false
same_primitive (string t) null = false
same_primitive (string t) (boolean b) = false
same_primitive (string t) (number n) = false
same_primitive (string t) (string u) = str_eq t u

-- `isEqual`, of values that are primitive, null or undefined.
pub is_equal : Option Primitive → Option Primitive → Bool
is_equal none none = true
is_equal none (some b) = false
is_equal (some a) none = false
is_equal (some a) (some b) = same_primitive a b

pub record Change : Type 0 where
  pub category : String
  pub state_name : String
  pub changed_params : List String

pub record State : Type 0 where
  pub state : Dict (Dict (Dict Primitive))
  pub emitted : List Change

abbrev pub told : List String → String → String → List Change → List Change
told [] category state_name changes = changes
told (k ∷ ks) category state_name changes =
    record { category = category; state_name = state_name; changed_params = k ∷ ks } ∷ changes

abbrev pub named : String → Option (Dict (Dict Primitive)) → Option (Dict Primitive)
named state_name none = none
named state_name (some states) = lookup state_name states

pub get_state : String → String → State → Option (Dict Primitive)
get_state category state_name s = named state_name (lookup category s.state)

-- A property of an object; undefined where it is missing.
abbrev pub param : String → Partial Primitive → Option Primitive
param k part = some_or none (lookup k part)

abbrev pub differing : Partial Primitive → Dict Primitive → List String → List String
differing part old [] = []
differing part old (k ∷ ks) =
    let rest = differing part old ks in
    if is_equal (param k part) (lookup k old) then rest else k ∷ rest

pub generate_changed_params : Option (Dict Primitive) → Option (Partial Primitive) → List String
generate_changed_params old none = []
generate_changed_params none (some part) = keys part
generate_changed_params (some old) (some part) = differing part old (keys part)

abbrev pub put_state : String → String → Dict Primitive → State → Dict (Dict (Dict Primitive))
put_state category state_name new s =
    insert category (insert state_name new (some_or [] (lookup category s.state))) s.state

-- `updateState` once the changed parameters are known.
abbrev pub update_with :
    List String
    → String
    → String
    → Option (Partial Primitive)
    → Option (Dict Primitive)
    → State
    → State
update_with [] category state_name part old s = s
update_with (k ∷ ks) category state_name part old s = record s {
  state = put_state category state_name (merge (some_or [] part) (some_or [] old)) s;
  emitted = told (k ∷ ks) category state_name s.emitted;
}

pub update_state : String → String → Option (Partial Primitive) → State → State
unfolding generate_changed_params get_state
update_state category state_name part s =
    let old = get_state category state_name s in
    update_with (generate_changed_params old part) category state_name part old s
