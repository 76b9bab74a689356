-- ===== src/Binary/Hex/Digits.antt =====
-- How many characters `toString(16)` gives, and which, for the numbers of up to 16 bits.
use squidlet.Base.{
  ℕ, zero, suc, dec_lt, ◌+◌, ◌/◌, ◌%◌, ◌<◌, ◌≤◌, ◌≡◌, refl, ap, ◌∙◌, List, [], ◌∷◌, map, true,
  false, ◌==◌, ==_iff, arith, All, ltb, ◌*◌, Bool-cases, inl, inr, ok,
}
use squidlet.Binary.Radix.{digits_from, digits, digit_char, to_string, pos}
use squidlet.Binary.Radix.Laws.{parse_int-digit_char, of_digits}
use squidlet.Binary.Hex.{
  int16_to_hex_string, uint8_arr_to_hex_string, uint8_to_num, hex_string_to_hex_num,
}

last_digit : (f n : ℕ) (acc : List ℕ) → n < f → n < 16 → digits_from 16 f n acc ≡ n ∷ acc
unfolding digits_from
last_digit zero n acc h b = elim h [ ]
last_digit (suc f) n acc h b =
    let last : (n / 16 == 0) ≡ true = (==_iff (n / 16) 0).1 (omega arith) in
    rw last (ap (λ k. k ∷ acc) (omega arith))

next_digit :
    (f n : ℕ) (acc : List ℕ)
    → n < f
    → 16 ≤ n
    → (g : ℕ) × (digits_from 16 f n acc ≡ digits_from 16 g (n / 16) (n % 16 ∷ acc)) × (n / 16 < g)
unfolding digits_from
next_digit zero n acc h b = elim h [ ]
next_digit (suc f) n acc h b = elim (Bool-cases (n / 16 == 0)) [
  | inl last ↦ absurd (ground arith)
  | inr more ↦ (f, rw more, omega arith)
]

pub digits_one : (n : ℕ) → n < 16 → digits 16 n ≡ n ∷ []
unfolding digits
digits_one n b = last_digit (suc n) n [] (omega arith) b

pub digits_two : (n : ℕ) → 16 ≤ n → n < 256 → digits 16 n ≡ n / 16 ∷ n % 16 ∷ []
unfolding digits
digits_two n lo hi =
    let (g, e, h) = next_digit (suc n) n [] (omega arith) lo in
    e ∙ last_digit g (n / 16) _ h (omega arith)

pub digits_three :
    (n : ℕ) → 256 ≤ n → n < 4096 → digits 16 n ≡ n / 16 / 16 ∷ n / 16 % 16 ∷ n % 16 ∷ []
unfolding digits
digits_three n lo hi =
    let (g, e, h) = next_digit (suc n) n [] (omega arith) (omega arith) in
    let (g', e', h') = next_digit g (n / 16) (n % 16 ∷ []) h (omega arith) in
    e ∙ e' ∙ last_digit g' (n / 16 / 16) _ h' (omega arith)

pub digits_four :
    (n : ℕ)
    → 4096 ≤ n
    → n < 65536
    → digits 16 n ≡ n / 16 / 16 / 16 ∷ n / 16 / 16 % 16 ∷ n / 16 % 16 ∷ n % 16 ∷ []
unfolding digits
digits_four n lo hi =
    let (g, e, h) = next_digit (suc n) n [] (omega arith) (omega arith) in
    let (g', e', h') = next_digit g (n / 16) (n % 16 ∷ []) h (omega arith) in
    let (g'', e'', h'') =
      next_digit g' (n / 16 / 16) (n / 16 % 16 ∷ n % 16 ∷ []) h' (omega arith) in
    e ∙ e' ∙ e'' ∙ last_digit g'' (n / 16 / 16 / 16) _ h'' (omega arith)

pub to_string-digits : (n : ℕ) → to_string 16 n ≡ map digit_char (digits 16 n)
unfolding to_string
to_string-digits n = refl

-- A byte is two characters.
pub int16_to_hex_string-byte :
    (n : ℕ) → n < 256 → int16_to_hex_string n ≡ ok (map digit_char (n / 16 ∷ n % 16 ∷ []))
unfolding int16_to_hex_string
int16_to_hex_string-byte n h =
    let fits : ltb 65535 n ≡ false = ground arith in
    elim (dec_lt n 16) [
      | yes small ↦
          let high : n / 16 ≡ 0 = omega arith in
          let low : n % 16 ≡ n = omega arith in
          let text = to_string-digits n ∙ ap (map digit_char) (digits_one n small) in
          rw (text, fits, high, low)
      | no large ↦
          let text = to_string-digits n ∙ ap (map digit_char) (digits_two n (omega arith) h) in
          rw (text, fits)
    ]

-- The digits of a text of bytes.
abbrev pub byte_digits : List ℕ → List ℕ
byte_digits [] = []
byte_digits (b ∷ bs) = b / 16 ∷ b % 16 ∷ byte_digits bs

pub uint8_arr_to_hex_string-bytes :
    (bs : List ℕ)
    → All (λ b. b < 256) bs
    → uint8_arr_to_hex_string bs ≡ ok (map digit_char (byte_digits bs))
unfolding uint8_arr_to_hex_string
uint8_arr_to_hex_string-bytes [] h = refl
uint8_arr_to_hex_string-bytes (b ∷ bs) h =
    rw (int16_to_hex_string-byte b h.0, uint8_arr_to_hex_string-bytes bs h.1)

pub byte_digits-lt : (bs : List ℕ) → All (λ b. b < 256) bs → All (λ d. d < 16) (byte_digits bs)
byte_digits-lt [] h = tt
byte_digits-lt (b ∷ bs) h = (omega (arith, h.0), (omega arith, byte_digits-lt bs h.1))

-- The number that a list of bytes stands for, the most significant byte first.
abbrev pub of_bytes : ℕ → List ℕ → ℕ
of_bytes acc [] = acc
of_bytes acc (b ∷ bs) = of_bytes (acc * 256 + b) bs

pub of_digits-byte_digits :
    (acc : ℕ) (bs : List ℕ) → of_digits 16 acc (byte_digits bs) ≡ of_bytes acc bs
of_digits-byte_digits acc [] = refl
of_digits-byte_digits acc (b ∷ bs) =
    ap (λ k. of_digits 16 k (byte_digits bs)) (omega arith)
    ∙ of_digits-byte_digits (acc * 256 + b) bs

-- `uint8ToNum` reads any bytes as one number, the most significant byte first.
pub uint8_to_num-bytes :
    (bs : List ℕ) → All (λ b. b < 256) bs → uint8_to_num bs ≡ ok (pos (of_bytes 0 bs))
unfolding uint8_to_num hex_string_to_hex_num
uint8_to_num-bytes [] h = rw (uint8_arr_to_hex_string-bytes [] tt)
uint8_to_num-bytes (b ∷ bs) h =
    let small : b / 16 < 16 = omega (arith, h.0) in
    rw
      (
        uint8_arr_to_hex_string-bytes (b ∷ bs) h,
        parse_int-digit_char (b / 16) (b % 16 ∷ byte_digits bs) small
            ((omega arith), byte_digits-lt bs h.1),
      )
      (ap (λ k. ok (pos k))
        (ap (λ k. of_digits 16 k (byte_digits bs)) (omega arith)
          ∙ of_digits-byte_digits (0 * 256 + b) bs))
