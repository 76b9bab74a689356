-- ===== src/Binary/Bits.antt =====
-- Bits in bytes, system/lib/binaryHelpers.ts. The operators `|`, `&`, `~`, `<<` and `>>` are applied
-- to one bit of a natural number, and are written out on its binary digits.
pub mod Laws
pub mod Orders
mod Tests
use squidlet.Base.{
  ℕ, zero, suc, ◌+◌, ◌-◌, ◌*◌, ◌/◌, ◌%◌, List, [], ◌∷◌, ◌++◌, Option, none, some, option_list, Bool,
  true, false, not, ltb, leb, ◌==◌, if◌then◌else◌, length, get_elem?, set, drop, map, replicate,
  String, Result, ok, throws, ◌>>=◌, some_or,
}
use squidlet.Binary.Radix.{to_string, parse_int, Parsed, nan, pos, neg, to_uint8}
use squidlet.Binary.Hex.{pad_start, hex_num_to_string}

-- `byte >> position`.
unfoldable pub shift_right : ℕ → ℕ → ℕ
shift_right byte zero = byte
shift_right byte (suc p) = shift_right (byte / 2) p

abbrev pub bit : Bool → ℕ
bit true = 1
bit false = 0

-- `byte | 1 << position` for true, `byte & ~(1 << position)` for false.
unfoldable pub with_bit : ℕ → ℕ → Bool → ℕ
with_bit byte zero value = byte / 2 * 2 + bit value
with_bit byte (suc p) value = with_bit (byte / 2) p value * 2 + byte % 2

abbrev pub incorrect_position : String
incorrect_position = "updateBitInByte: incorrect position it has to be 0-7."

abbrev pub incorrect_get_position : String
incorrect_get_position = "getBitFromByte: incorrect position it has to be 0-7."

pub update_bit_in_byte : ℕ → ℕ → Bool → Result ℕ
update_bit_in_byte byte position value =
    if leb 8 position then throws incorrect_position else ok (with_bit byte position value)

pub get_bit_from_byte : ℕ → ℕ → Result Bool
get_bit_from_byte byte position =
    if leb 8 position
    then throws incorrect_get_position
    else ok (not (shift_right byte position % 2 == 0))

abbrev byte_count : ℕ → ℕ
byte_count bits = (bits + 7) / 8

-- The loop of `bitsToBytes` from the bit `i` on. A bit that is undefined counts as false.
pub bits_from : ℕ → List (Option Bool) → List ℕ → Result (List ℕ)
unfolding update_bit_in_byte
bits_from i [] result = ok result
bits_from i (b ∷ bits) result =
    update_bit_in_byte (some_or 0 (get_elem? result (i / 8))) (i - i / 8 * 8) (some_or false b)
    >>= λ byte. bits_from (suc i) bits (set result (i / 8) (byte % 256))

pub bits_to_bytes : List (Option Bool) → Result (List ℕ)
unfolding bits_from
bits_to_bytes bits = bits_from 0 bits (replicate (byte_count (length bits)) 0)

pub byte_to_string : ℕ → List ℕ
byte_to_string value = pad_start (to_string 2 value) 8 b'0'

-- `Boolean(number)`.
abbrev truthy : Parsed → Bool
truthy nan = false
truthy (pos n) = not (n == 0)
truthy (neg n) = not (n == 0)

-- `rounds` positions from `i` on are left.
pub bin_from : ℕ → ℕ → List ℕ → List Bool
bin_from zero i chars = []
bin_from (suc rounds) i chars =
    truthy (parse_int 10 (option_list (get_elem? chars i))) ∷ bin_from rounds (suc i) chars

pub byte_to_bin_arr : ℕ → List Bool
unfolding bin_from byte_to_string
byte_to_bin_arr value = bin_from 8 0 (byte_to_string value)

pub bytes_to_bits : List ℕ → List Bool
unfolding byte_to_bin_arr
bytes_to_bits [] = []
bytes_to_bits (b ∷ bytes) = byte_to_bin_arr b ++ bytes_to_bits bytes

-- Two numbers of four bits in one byte: the text of the second before that of the first.
pub combine_2_number_to_byte : ℕ → ℕ → Parsed
combine_2_number_to_byte one two =
    parse_int 2 (pad_start (to_string 2 two) 4 b'0' ++ pad_start (to_string 2 one) 4 b'0')

pub extract_2_numbers_from_byte : ℕ → ℕ × ℕ
extract_2_numbers_from_byte byte = (byte % 16, shift_right byte 4)

abbrev pub incorrect_ascii : String
incorrect_ascii = "getAsciiNumber: Incorrect number to convert"

pub get_ascii_number : ℕ → Result ℕ
get_ascii_number n = if ltb 9 n then throws incorrect_ascii else ok (n + 48)

pub string_to_uint8_array : List ℕ → List ℕ
string_to_uint8_array = map λ c. c % 256

abbrev pub invalid_length : String
invalid_length = "RangeError: Invalid typed array length"

-- `new Uint8Array(-1)` throws.
pub without_first_item_uint8_arr : List ℕ → Result (List ℕ)
without_first_item_uint8_arr [] = throws invalid_length
without_first_item_uint8_arr (a ∷ arr) = ok arr

pub add_first_item_uint8_arr : List ℕ → ℕ → List ℕ
add_first_item_uint8_arr arr item = item % 256 ∷ arr

abbrev pub not_number : String
not_number = "Value is not number"

-- Of a text; a number that is negative is left out.
pub normalize_hex_string : List ℕ → Result (List ℕ)
normalize_hex_string value = elim (parse_int 16 value) [
  | pos n ↦ ok (hex_num_to_string n)
  | _ ↦ throws not_number
]

-- `arr.toString()`: the numbers in decimal, with commas between them.
abbrev pub comma_text : List ℕ → List ℕ
comma_text [] = []
comma_text (b ∷ []) = to_string 10 b
comma_text (b ∷ c ∷ arr) = to_string 10 b ++ b',' ∷ comma_text (c ∷ arr)

abbrev pub same_text : List ℕ → List ℕ → Bool
same_text [] [] = true
same_text (c ∷ cs) (d ∷ ds) = if c == d then same_text cs ds else false
same_text cs ds = false

-- What is no Uint8Array is `none`.
pub is_equal_uint8_array : Option (List ℕ) → Option (List ℕ) → Bool
is_equal_uint8_array (some first) (some second) = same_text (comma_text first) (comma_text second)
is_equal_uint8_array first second = false

pub uint8_array_keys_from : ℕ → List ℕ → List ℕ
uint8_array_keys_from i [] = []
uint8_array_keys_from i (b ∷ arr) = i ∷ uint8_array_keys_from (suc i) arr

pub uint8_array_keys : List ℕ → List ℕ
unfolding uint8_array_keys_from
uint8_array_keys arr = uint8_array_keys_from 0 arr
