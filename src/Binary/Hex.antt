-- ===== src/Binary/Hex.antt =====
-- The hexadecimal and byte conversions of system/lib/binaryHelpers.ts.
pub mod Digits
pub mod Words
pub mod Concat
mod Tests
use squidlet.Base.{
  ℕ, suc, ◌+◌, ◌-◌, ◌/◌, ◌%◌, List, [], ◌∷◌, ◌++◌, map, Option, none, some, Bool, ltb, ◌==◌,
  if◌then◌else◌, length, replicate, take, drop, String, Result, ok, throws, ◌>>=◌,
}
use squidlet.Binary.Radix.{to_string, parse_int, Parsed, pos, to_uint8}

-- `padStart` of system/lib/strings.ts, padding with one character.
unfoldable pub pad_start : List ℕ → ℕ → ℕ → List ℕ
pad_start src n c = replicate (n - length src) c ++ src

abbrev pub too_short : String
too_short = "Incorrect length of hex data"

abbrev pub not_even : String
not_even = "Incorrect length of hex data. It has to be even"

abbrev pub bad_int16 : String
bad_int16 = "int16ToHexString: Incorrect hexNum"

abbrev pub bad_int32 : String
bad_int32 = "int32ToUint8Arr: Incorrect int32"

-- The loop over pairs of characters.
unfoldable pub byte_pairs : List ℕ → List ℕ
byte_pairs (a ∷ b ∷ cs) = to_uint8 (parse_int 16 (a ∷ b ∷ [])) ∷ byte_pairs cs
byte_pairs cs = []

unfoldable pub hex_string_to_uint8_arr : List ℕ → Result (List ℕ)
unfolding byte_pairs
hex_string_to_uint8_arr hex =
    if ltb (length hex) 2
    then throws too_short
    else if length hex % 2 == 0
    then ok (byte_pairs hex)
    else throws not_even

unfoldable pub int16_to_hex_string : ℕ → Result (List ℕ)
int16_to_hex_string n =
    if ltb 65535 n
    then throws bad_int16
    else if length (to_string 16 n) == 1
    then ok (b'0' ∷ to_string 16 n)
    else ok (to_string 16 n)

unfoldable pub uint8_arr_to_hex_string : List ℕ → Result (List ℕ)
uint8_arr_to_hex_string [] = ok []
uint8_arr_to_hex_string (b ∷ bs) =
    int16_to_hex_string b >>= λ h. uint8_arr_to_hex_string bs >>= λ rest. ok (h ++ rest)

-- On a text; a number is returned as it is.
unfoldable pub hex_string_to_hex_num : List ℕ → Parsed
hex_string_to_hex_num [] = pos 0
hex_string_to_hex_num (c ∷ cs) = parse_int 16 (c ∷ cs)

unfoldable pub num_to_word : ℕ → Result (List ℕ)
num_to_word n = int16_to_hex_string n >>= λ h. ok (if length h == 2 then b'0' ∷ b'0' ∷ h else h)

unfoldable pub num_to_uint8_word : ℕ → Result (List ℕ)
unfolding num_to_word
num_to_uint8_word n = num_to_word n >>= hex_string_to_uint8_arr

unfoldable pub uint8_to_num : List ℕ → Result Parsed
uint8_to_num bs = uint8_arr_to_hex_string bs >>= λ h. ok (hex_string_to_hex_num h)

unfoldable pub int32_to_hex_string : ℕ → Result (List ℕ)
int32_to_hex_string n =
    if ltb 4294967295 n then throws bad_int32 else ok (pad_start (to_string 16 n) 8 b'0')

unfoldable pub int32_to_uint8_arr : ℕ → Result (List ℕ)
unfolding int32_to_hex_string
int32_to_uint8_arr n = int32_to_hex_string n >>= hex_string_to_uint8_arr

-- Of a number; undefined gives "0x00".
unfoldable pub hex_num_to_string : ℕ → List ℕ
hex_num_to_string n =
    if length (to_string 16 n) == 1
    then b'0' ∷ b'x' ∷ b'0' ∷ to_string 16 n
    else b'0' ∷ b'x' ∷ to_string 16 n

abbrev pub total : List (List ℕ) → ℕ
total [] = 0
total (a ∷ as') = length a + total as'

-- `result.set(a, offset)`.
abbrev pub set_from : List ℕ → ℕ → List ℕ → List ℕ
set_from result offset a = take offset result ++ (a ++ drop (offset + length a) result)

unfoldable pub concat_loop : List ℕ → ℕ → List (List ℕ) → List ℕ
concat_loop result offset [] = result
concat_loop result offset (a ∷ as') = concat_loop (set_from result offset a) (offset + length a) as'

-- Of at least one array, `first` and `others`: with none the call of `reduce` throws.
unfoldable pub concat_uint8_arr : List ℕ → List (List ℕ) → List ℕ
unfolding concat_loop
concat_uint8_arr first others =
    concat_loop (replicate (total (first ∷ others)) 0) 0 (first ∷ others)
