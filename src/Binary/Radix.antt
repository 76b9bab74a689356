-- ===== src/Binary/Radix.antt =====
-- The two conversions of the language that system/lib/binaryHelpers.ts is built on: `toString(radix)`
-- and `parseInt(text, radix)`.
pub mod Laws
use squidlet.Base.{
  ℕ, zero, suc, ◌+◌, ◌-◌, ◌*◌, ◌/◌, ◌%◌, List, [], ◌∷◌, map, Option, none, some, Bool, true, false,
  ◌&&◌, ◌||◌, ltb, leb, ◌==◌, if◌then◌else◌,
}

-- The digits of a number, the most significant first; `n + 1` rounds are enough.
unfoldable pub digits_from : ℕ → ℕ → ℕ → List ℕ → List ℕ
digits_from r zero n acc = acc
digits_from r (suc f) n acc =
    let longer = digits_from r f (n / r) (n % r ∷ acc) in if n / r == 0 then n % r ∷ acc else longer

unfoldable pub digits : ℕ → ℕ → List ℕ
unfolding digits_from
digits r n = digits_from r (suc n) n []

abbrev pub digit_char : ℕ → ℕ
digit_char d = if ltb d 10 then 48 + d else 87 + d

unfoldable pub to_string : ℕ → ℕ → List ℕ
unfolding digits
to_string r n = map digit_char (digits r n)

-- What `parseInt` gives.
pub data Parsed : Type 0 where
  nan : Parsed
  pos : ℕ → Parsed
  neg : ℕ → Parsed

abbrev between : ℕ → ℕ → ℕ → Bool
between lo hi c = leb lo c && leb c hi

abbrev digit_value : ℕ → Option ℕ
digit_value c =
    if between b'0' b'9' c
    then some (c - b'0')
    else if between b'a' b'z' c
    then some (c - 87)
    else if between b'A' b'Z' c
    then some (c - 55)
    else none

abbrev within : ℕ → Option ℕ → Option ℕ
within r none = none
within r (some d) = if ltb d r then some d else none

unfoldable pub digit_in : ℕ → ℕ → Option ℕ
digit_in r c = within r (digit_value c)

unfoldable pub parse_digits : ℕ → ℕ → List ℕ → ℕ
parse_digits r acc [] = acc
parse_digits r acc (c ∷ cs) = elim (digit_in r c) [
  | none ↦ acc
  | some d ↦ parse_digits r (acc * r + d) cs
]

-- The white space that `parseInt` skips.
unfoldable pub is_space : ℕ → Bool
is_space c =
    between 9 13 c
    || c == 32
    || c == 160
    || c == 5760
    || between 8192 8202 c
    || c == 8232
    || c == 8233
    || c == 8239
    || c == 8287
    || c == 12288
    || c == 65279

unfoldable pub skip_space : List ℕ → List ℕ
skip_space [] = []
skip_space (c ∷ cs) = if is_space c then skip_space cs else c ∷ cs

abbrev skip_0x : ℕ → List ℕ → List ℕ
skip_0x r (a ∷ b ∷ cs) = if r == 16 && a == b'0' && (b == b'x' || b == b'X') then cs else a ∷ b ∷ cs
skip_0x r cs = cs

abbrev magnitude : ℕ → (ℕ → Parsed) → List ℕ → Parsed
magnitude r sign [] = nan
magnitude r sign (c ∷ cs) = elim (digit_in r c) [ none ↦ nan | some d ↦ sign (parse_digits r d cs) ]

abbrev signed : ℕ → List ℕ → Parsed
signed r [] = nan
signed r (c ∷ cs) =
    if c == b'-'
    then magnitude r neg (skip_0x r cs)
    else if c == b'+'
    then magnitude r pos (skip_0x r cs)
    else magnitude r pos (skip_0x r (c ∷ cs))

unfoldable pub parse_int : ℕ → List ℕ → Parsed
unfolding parse_digits skip_space
parse_int r cs = signed r (skip_space cs)

-- A number stored into a Uint8Array.
abbrev pub to_uint8 : Parsed → ℕ
to_uint8 nan = 0
to_uint8 (pos n) = n % 256
to_uint8 (neg n) = (256 - n % 256) % 256
