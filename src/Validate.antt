-- ===== src/Validate.antt =====
-- What system/lib/validate.ts says of the names of props, by a schema: which are allowed and which are
-- required. The types of their values are not modelled.
pub mod Required
mod Tests
use squidlet.Base.{
  List, [], ◌∷◌, Option, none, some, String, str_eq, Bool, true, false, not, ◌&&◌, if◌then◌else◌,
  map, Dict, lookup, keys, is_some,
}
use squidlet.Arrays.{arrays_difference}

-- What is told; the names are those of the message.
pub data Complaint : Type 0 where
  forbidden : List (Option String) → Complaint
  required : String → Complaint

abbrev pub complain : List (Option String) → Option Complaint
complain [] = none
complain (d ∷ diff) = some (forbidden (d ∷ diff))

-- Of an object, by its keys, or undefined.
pub white_list : Option (List String) → List String → Option Complaint
white_list none allowed_values = none
white_list (some names) allowed_values =
    complain (arrays_difference str_eq (map some names) allowed_values)

-- A prop that is undefined is missing from the dictionary.
abbrev pub is_missing {ℓ} : {V : Type ℓ} → Dict V → String → Bool
is_missing props name = not (is_some (lookup name props))

-- The loop over the schema, each name with its flag `required`.
pub required_loop {ℓ} : {V : Type ℓ} → Dict V → Dict Bool → Option Complaint
required_loop props [] = none
required_loop props (e ∷ schema) =
    let rest = required_loop props schema in
    if e.1 && is_missing props e.0 then some (required e.0) else rest

pub validate_required_props {ℓ} : {V : Type ℓ} → Dict V → Option (Dict Bool) → Option Complaint
unfolding required_loop
validate_required_props props none = none
validate_required_props props (some schema) = required_loop props schema
