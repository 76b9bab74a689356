-- ===== src/Arrays.antt =====
-- system/lib/arrays.ts over the elements of a type with a test of equality. An item that is undefined
-- is `none` where the code looks for it.
pub mod Members
mod Tests
use squidlet.Base.{
  ℕ, zero, suc, ◌-◌, List, [], ◌∷◌, ◌++◌, Option, none, some, Bool, true, false, not, ◌||◌, ◌==◌,
  if◌then◌else◌, length, get_elem?, take, remove_at, String, Dict, insert, keys,
}

module _ {A : Type 0} where
  pub last_item : List A → Option A
  last_item arr = elim (length arr) [ zero ↦ none | suc n ↦ get_elem? arr n ]

  pub without_last_item : List A → List A
  without_last_item arr = take (length arr - 1) arr

  pub compact_undefined : List (Option A) → List A
  compact_undefined [] = []
  compact_undefined (none ∷ arr) = compact_undefined arr
  compact_undefined (some a ∷ arr) = a ∷ compact_undefined arr

  -- Positions behind the end are undefined; `rounds` are left from `i` on.
  pub sized_from : ℕ → ℕ → List A → List (Option A)
  sized_from zero i arr = []
  sized_from (suc rounds) i arr = get_elem? arr i ∷ sized_from rounds (suc i) arr

  pub make_sized_array : List A → ℕ → List (Option A)
  unfolding sized_from
  make_sized_array arr count = sized_from count 0 arr

  -- What the array holds afterwards, and what is returned.
  pub fill : List A → A → List A × List A
  fill [] value = ([], [])
  fill (a ∷ arr) value = (value ∷ (fill arr value).0, [])

module _ {A : Type 0} (eq : A → A → Bool) where
  -- `samples.indexOf(item) !== -1`, `result.includes(item)`.
  abbrev pub includes : List A → A → Bool
  includes [] a = false
  includes (x ∷ xs) a = eq x a || includes xs a

  pub difference_from : List A → List (Option A) → List A
  difference_from samples [] = []
  difference_from samples (none ∷ arr) = difference_from samples arr
  difference_from samples (some a ∷ arr) =
      let rest = difference_from samples arr in if includes samples a then rest else a ∷ rest

  -- With samples; without any the array is returned as it is.
  pub arrays_difference : List (Option A) → List A → List (Option A)
  unfolding difference_from
  arrays_difference [] samples = []
  arrays_difference (a ∷ arr) [] = a ∷ arr
  arrays_difference (a ∷ arr) (s ∷ samples) = filled (difference_from (s ∷ samples) (a ∷ arr))
    where
      filled : List A → List (Option A)
      filled [] = []
      filled (x ∷ xs) = some x ∷ filled xs

  abbrev pub without_first : A → List A → List A
  without_first item [] = []
  without_first item (x ∷ xs) = if eq x item then xs else x ∷ without_first item xs

  abbrev pub without_all : A → List A → List A
  without_all item [] = []
  without_all item (x ∷ xs) = if eq x item then without_all item xs else x ∷ without_all item xs

  pub remove_item_from_array : Option (List A) → A → Bool → List A
  remove_item_from_array none item first_entry = []
  remove_item_from_array (some arr) item true = without_first item arr
  remove_item_from_array (some arr) item false = without_all item arr

  -- The loop of `uniqueArray`.
  pub unique_from : List A → List A → List A
  unique_from result [] = result
  unique_from result (a ∷ arr) =
      if includes result a then unique_from result arr else unique_from (result ++ a ∷ []) arr

  pub unique_array : List A → List A
  unfolding unique_from
  unique_array arr = unique_from [] arr

abbrev pub put_keys : List String → Dict Bool → Dict Bool
put_keys [] result = result
put_keys (value ∷ arr) result = put_keys arr (insert value true result)

abbrev pub put_each : List (List String) → Dict Bool → Dict Bool
put_each [] result = result
put_each (arr ∷ arrays) result = put_each arrays (put_keys arr result)

-- Of texts that are not those of numbers, whose keys an object puts first.
pub concat_uniq_str_arrays : List (List String) → List String
concat_uniq_str_arrays arrays = keys (put_each arrays [])
