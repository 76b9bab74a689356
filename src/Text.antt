-- ===== src/Text.antt =====
-- system/lib/strings.ts and system/lib/paths.ts: trimming, splitting and joining texts. A text is the
-- list of its character codes, a separator one character.
pub mod Trims
pub mod Splits
pub mod Paths
mod Tests
use squidlet.Base.{
  ℕ, zero, suc, ◌-◌, List, [], ◌∷◌, ◌++◌, Option, none, some, some_or, Bool, true, false, ◌||◌,
  ◌==◌, if◌then◌else◌, length, get_elem?, take, drop, String, Result, ok, throws,
}

-- The loop of `trimCharStart`.
pub count_start : ℕ → List ℕ → ℕ
count_start char [] = 0
count_start char (x ∷ src) = let rest = count_start char src in if x == char then suc rest else 0

pub trim_char_start : List ℕ → ℕ → List ℕ
unfolding count_start
trim_char_start src char = drop (count_start char src) src

abbrev pub is_at : List ℕ → ℕ → ℕ → Bool
is_at src i char = elim (get_elem? src i) [ none ↦ false | some x ↦ x == char ]

-- The loop of `trimCharEnd` over the positions below `i`, downwards.
pub count_end : ℕ → ℕ → List ℕ → ℕ
count_end char zero src = 0
count_end char (suc i) src =
    let rest = count_end char i src in if is_at src i char then suc rest else 0

-- `src.slice(0, -count)`.
abbrev pub cut_end : ℕ → List ℕ → List ℕ
cut_end zero src = src
cut_end (suc count) src = take (length src - suc count) src

unfoldable pub trim_char_end : List ℕ → ℕ → List ℕ
unfolding count_end
trim_char_end src char = cut_end (count_end char (length src) src) src

pub trim_char : List ℕ → ℕ → List ℕ
unfolding trim_char_start trim_char_end
trim_char src char = trim_char_end (trim_char_start src char) char

abbrev pub put_first : ℕ → List (List ℕ) → List (List ℕ)
put_first x [] = (x ∷ []) ∷ []
put_first x (p ∷ ps) = (x ∷ p) ∷ ps

-- `src.split(separator)`.
pub split_on : ℕ → List ℕ → List (List ℕ)
split_on sep [] = [] ∷ []
split_on sep (x ∷ src) =
    let rest = split_on sep src in if x == sep then [] ∷ rest else put_first x rest

-- `parts.join(separator)`.
pub join_with : ℕ → List (List ℕ) → List ℕ
join_with sep [] = []
join_with sep (p ∷ []) = p
join_with sep (p ∷ q ∷ ps) = p ++ sep ∷ join_with sep (q ∷ ps)

-- `parts.pop()`, and the part that it returns.
abbrev pub without_last : List (List ℕ) → List (List ℕ)
without_last [] = []
without_last (p ∷ []) = []
without_last (p ∷ q ∷ ps) = p ∷ without_last (q ∷ ps)

abbrev pub last_part : List (List ℕ) → List ℕ
last_part [] = []
last_part (p ∷ []) = p
last_part (p ∷ q ∷ ps) = last_part (q ∷ ps)

abbrev pub path_required : String
path_required = "fullPath param is required"

abbrev pub first_of : List ℕ → ℕ → List (List ℕ) → List ℕ × Option (List ℕ)
first_of full sep [] = (full, none)
first_of full sep (p ∷ []) = (full, none)
first_of full sep (p ∷ q ∷ ps) = (p, some (join_with sep (q ∷ ps)))

pub split_first_element : List ℕ → ℕ → Result (List ℕ × Option (List ℕ))
unfolding split_on join_with
split_first_element [] sep = throws path_required
split_first_element (x ∷ full) sep = ok (first_of (x ∷ full) sep (split_on sep (x ∷ full)))

abbrev pub last_of : List ℕ → ℕ → List (List ℕ) → List ℕ × Option (List ℕ)
last_of full sep [] = (full, none)
last_of full sep (p ∷ []) = (full, none)
last_of full sep (p ∷ q ∷ ps) =
    (last_part (q ∷ ps), some (join_with sep (without_last (p ∷ q ∷ ps))))

pub split_last_element : List ℕ → ℕ → Result (List ℕ × Option (List ℕ))
unfolding split_on join_with
split_last_element [] sep = throws path_required
split_last_element (x ∷ full) sep = ok (last_of (x ∷ full) sep (split_on sep (x ∷ full)))

abbrev pub path_sep : ℕ
path_sep = b'/'

-- The parts of a path behind the first.
pub clear_rest : List (List ℕ) → List (List ℕ)
unfolding trim_char_start trim_char
clear_rest [] = []
clear_rest (p ∷ []) = trim_char_start p path_sep ∷ []
clear_rest (p ∷ q ∷ ps) = trim_char p path_sep ∷ clear_rest (q ∷ ps)

pub cleared : List (List ℕ) → List (List ℕ)
unfolding trim_char_end clear_rest
cleared [] = []
cleared (p ∷ ps) = trim_char_end p path_sep ∷ clear_rest ps

-- `filter((item) => Boolean(item))`.
abbrev pub keep_filled : List (List ℕ) → List (List ℕ)
keep_filled [] = []
keep_filled ([] ∷ ps) = keep_filled ps
keep_filled ((x ∷ p) ∷ ps) = (x ∷ p) ∷ keep_filled ps

pub path_join : List (List ℕ) → List ℕ
unfolding cleared join_with
path_join paths = join_with path_sep (keep_filled (cleared paths))

unfoldable pub path_is_absolute : List ℕ → Bool
path_is_absolute path = is_at path 0 b'/' || is_at path 0 b'~'

unfoldable pub path_dirname : List ℕ → List ℕ
unfolding trim_char_end split_on join_with
path_dirname path =
    join_with path_sep (without_last (split_on path_sep (trim_char_end path path_sep)))

unfoldable pub path_basename : List ℕ → List ℕ
unfolding split_on
path_basename path = last_part (split_on path_sep path)
