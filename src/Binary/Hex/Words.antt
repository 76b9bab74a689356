-- ===== src/Binary/Hex/Words.antt =====
-- Numbers of 16 and 32 bits as bytes, system/lib/binaryHelpers.ts.
use squidlet.Base.{
  ℕ, zero, suc, dec_lt, ◌+◌, ◌-◌, ◌*◌, ◌/◌, ◌%◌, ◌<◌, ◌≤◌, ◌≡◌, refl, sym, ap, ap₂, ◌∙◌, List, [],
  ◌∷◌, map, Bool, true, false, ◌&&◌, ltb, if◌then◌else◌, arith, Bool-cases, inl, inr, length,
  length-map, map-append, replicate, ok, throws,
}
use squidlet.Binary.Radix.{digits, digit_char, to_string, pos, parse_int, to_uint8}
use squidlet.Binary.Radix.Laws.{parse_int-digit_char, fixed, padded_digits}
use squidlet.Binary.Hex.{
  hex_string_to_uint8_arr, int16_to_hex_string, num_to_uint8_word, int32_to_uint8_arr, uint8_to_num,
  pad_start, bad_int16, bad_int32, not_even,
}
use squidlet.Binary.Hex.Digits.{
  digits_three, digits_four, to_string-digits, int16_to_hex_string-byte, uint8_to_num-bytes,
}

-- Two characters are one byte.
pair-byte :
    (a b : ℕ)
    → a < 16
    → b < 16
    → to_uint8 (parse_int 16 (digit_char a ∷ digit_char b ∷ [])) ≡ a * 16 + b
pair-byte a b ha hb = rw (parse_int-digit_char a (b ∷ []) ha (hb, tt)) (omega arith)

short_word : (n : ℕ) → n < 256 → num_to_uint8_word n ≡ ok (0 ∷ n ∷ [])
unfolding num_to_uint8_word hex_string_to_uint8_arr
short_word n h =
    let zeros : to_uint8 (parse_int 16 (48 ∷ 48 ∷ [])) ≡ 0 =
      pair-byte 0 0 (omega arith) (omega arith) in
    rw
      (int16_to_hex_string-byte n h, pair-byte (n / 16) (n % 16) (omega arith) (omega arith), zeros)
      (ap (λ k. ok (0 ∷ k ∷ [])) (omega arith))

three_chars : (n : ℕ) → 256 ≤ n → n < 4096 → num_to_uint8_word n ≡ throws not_even
unfolding num_to_uint8_word hex_string_to_uint8_arr int16_to_hex_string
three_chars n lo hi =
    let fits : ltb 65535 n ≡ false = ground arith in
    let text = to_string-digits n ∙ ap (map digit_char) (digits_three n lo hi) in rw (fits, text)

four_chars : (n : ℕ) → 4096 ≤ n → n < 65536 → num_to_uint8_word n ≡ ok (n / 256 ∷ n % 256 ∷ [])
unfolding num_to_uint8_word hex_string_to_uint8_arr int16_to_hex_string
four_chars n lo hi =
    let fits : ltb 65535 n ≡ false = ground arith in
    let text = to_string-digits n ∙ ap (map digit_char) (digits_four n lo hi) in
    rw
      (
        fits,
        text,
        pair-byte (n / 16 / 16 / 16) (n / 16 / 16 % 16) (omega arith) (omega arith),
        pair-byte (n / 16 % 16) (n % 16) (omega arith) (omega arith),
      )
      (ap₂ (λ j k. ok (j ∷ k ∷ [])) (omega arith) (omega arith))

too_big : (n : ℕ) → 65536 ≤ n → num_to_uint8_word n ≡ throws bad_int16
unfolding num_to_uint8_word int16_to_hex_string
too_big n h = let over : ltb 65535 n ≡ true = ground arith in rw over

abbrev pub in_gap : ℕ → Bool
in_gap n = ltb 255 n && ltb n 4096

-- `numToUint8Word` on every number: the two bytes of the number, most significant first, below 256
-- and from 4096 to 65535; from 256 to 4095 it throws, since `toString(16)` gives three characters
-- there, which nothing pads; above 65535 it throws as well.
pub num_to_uint8_word_lem :
    (n : ℕ)
    → num_to_uint8_word n ≡ (
        if ltb 65535 n
        then throws bad_int16
        else if in_gap n
        then throws not_even
        else ok (n / 256 ∷ n % 256 ∷ []))
num_to_uint8_word_lem n = elim (dec_lt n 256) [
  | yes small ↦ short_word n small ∙ ground arith
  | no above ↦ elim (dec_lt n 4096) [
    | yes gap ↦ three_chars n (omega arith) gap ∙ ground arith
    | no high ↦ elim (dec_lt n 65536) [
      | yes fits ↦ four_chars n (omega arith) fits ∙ ground arith
      | no big ↦ too_big n (omega arith) ∙ ground arith
    ]
  ]
]

pub word_value :
    (n : ℕ) (bs : List ℕ) → bs ≡ n / 256 ∷ n % 256 ∷ [] → n < 65536 → uint8_to_num bs ≡ ok (pos n)
word_value n bs e h =
    rw (e, uint8_to_num-bytes (n / 256 ∷ n % 256 ∷ []) (omega arith, (omega arith, tt)))
      (ap (λ k. ok (pos k)) (omega arith))

-- What `numToUint8Word` gives, `uint8ToNum` reads back.
pub uint8_to_num-num_to_uint8_word :
    (n : ℕ) (bs : List ℕ) → num_to_uint8_word n ≡ ok bs → uint8_to_num bs ≡ ok (pos n)
uint8_to_num-num_to_uint8_word n bs e =
    let e' = sym (num_to_uint8_word_lem n) ∙ e in word_value n bs (ground arith) (ground arith)

map-zeros : (k : ℕ) → map digit_char (replicate k 0) ≡ replicate k 48
map-zeros zero = refl
map-zeros (suc k) = ap (λ xs. 48 ∷ xs) (map-zeros k)

padded_text :
    (n : ℕ) → n < 4294967296 → pad_start (to_string 16 n) 8 48 ≡ map digit_char (fixed 8 n [])
unfolding pad_start digits
padded_text n h =
    rw
      (
        to_string-digits n,
        length-map (digits 16 n) digit_char,
        ← map-zeros (8 - length (digits 16 n)),
        ← map-append digit_char (replicate (8 - length (digits 16 n)) 0) (digits 16 n),
      )
      (ap (map digit_char) (padded_digits 7 (suc n) n [] (omega arith) h))

pair_of :
    (m : ℕ)
    → to_uint8 (parse_int 16 (digit_char (m / 16 % 16) ∷ digit_char (m % 16) ∷ [])) ≡ m % 256
pair_of m = pair-byte (m / 16 % 16) (m % 16) (omega arith) (omega arith) ∙ omega arith

four_bytes :
    (n : ℕ)
    → n < 4294967296
    → int32_to_uint8_arr n ≡ ok (n / 16777216 ∷ n / 65536 % 256 ∷ n / 256 % 256 ∷ n % 256 ∷ [])
unfolding int32_to_uint8_arr hex_string_to_uint8_arr
four_bytes n h =
    let fits : ltb 4294967295 n ≡ false = ground arith in
    let m2 : ℕ = n / 16 / 16 in
    let m4 : ℕ = n / 16 / 16 / 16 / 16 in
    let m6 : ℕ = n / 16 / 16 / 16 / 16 / 16 / 16 in
    let b1 : m2 % 256 ≡ n / 256 % 256 = omega arith in
    let b2 : m4 % 256 ≡ n / 65536 % 256 = omega arith in
    let b3 : m6 % 256 ≡ n / 16777216 = omega arith in
    rw (fits, padded_text n h, pair_of m6, pair_of m4, pair_of m2, pair_of n, b1, b2, b3)

-- `int32ToUint8Arr` on every number: its four bytes, most significant first, below 2 ^ 32, and an
-- error above.
pub int32_to_uint8_arr_lem :
    (n : ℕ)
    → int32_to_uint8_arr n ≡ (
        if ltb 4294967295 n
        then throws bad_int32
        else ok (n / 16777216 ∷ n / 65536 % 256 ∷ n / 256 % 256 ∷ n % 256 ∷ []))
unfolding int32_to_uint8_arr
int32_to_uint8_arr_lem n = elim (Bool-cases (ltb 4294967295 n)) [
  | inl over ↦ rw over
  | inr fits ↦ four_bytes n (ground arith) ∙ rw fits
]

-- Below 2 ^ 32 what `int32ToUint8Arr` gives is read back by `uint8ToNum`.
pub uint8_to_num-int32_to_uint8_arr :
    (n : ℕ)
    → n < 4294967296
    → (bs : List ℕ) × (int32_to_uint8_arr n ≡ ok bs) × (uint8_to_num bs ≡ ok (pos n))
uint8_to_num-int32_to_uint8_arr n h = (
  n / 16777216 ∷ n / 65536 % 256 ∷ n / 256 % 256 ∷ n % 256 ∷ [],
  four_bytes n h,
  uint8_to_num-bytes _ (omega arith, (omega arith, (omega arith, (omega arith, tt))))
      ∙ ap (λ k. ok (pos k)) (omega arith),
)
