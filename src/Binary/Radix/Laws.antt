-- ===== src/Binary/Radix/Laws.antt =====
-- Printing a number in a radix and parsing it again, and the digits of a bounded number.
use squidlet.Base.{
  ℕ, zero, suc, ◌+◌, ◌-◌, ◌*◌, ◌/◌, ◌%◌, ◌^◌, ◌<◌, ◌≡◌, refl, sym, ap, ◌∙◌, List, [], ◌∷◌, ◌++◌,
  map, some, true, false, ◌==◌, ==_iff, arith, All, Bool-cases, inl, inr, length, replicate,
}
use native.Mathlib.Nat.{pow-suc}
use squidlet.Binary.Radix.{
  digits_from, digit_char, pos, digit_in, parse_digits, is_space, skip_space, skip_0x, magnitude,
  parse_int,
}

-- The number that a list of digits stands for, behind those that make `acc`.
abbrev pub of_digits : ℕ → ℕ → List ℕ → ℕ
of_digits r acc [] = acc
of_digits r acc (d ∷ ds) = of_digits r (acc * r + d) ds

digits_from-value :
    (f n : ℕ) (acc : List ℕ) → n < f → of_digits 16 0 (digits_from 16 f n acc) ≡ of_digits 16 n acc
unfolding digits_from
digits_from-value zero n acc h = elim h [ ]
digits_from-value (suc f) n acc h = elim (Bool-cases (n / 16 == 0)) [
  | inl last ↦ rw last (ap (λ k. of_digits 16 k acc) (omega (arith, (==_iff (n / 16) 0).0 last)))
  | inr more ↦ rw more (
      digits_from-value f (n / 16) (n % 16 ∷ acc) (ground arith)
      ∙ ap (λ k. of_digits 16 k acc) (omega arith))
]

-- The `k` lowest digits, leading zeros included.
abbrev pub fixed : ℕ → ℕ → List ℕ → List ℕ
fixed zero n acc = acc
fixed (suc k) n acc = fixed k (n / 16) (n % 16 ∷ acc)

snoc_replicate : (k : ℕ) (acc : List ℕ) → replicate k 0 ++ 0 ∷ acc ≡ 0 ∷ replicate k 0 ++ acc
snoc_replicate zero acc = refl
snoc_replicate (suc k) acc = ap (λ xs. 0 ∷ xs) (snoc_replicate k acc)

fixed-zero : (k : ℕ) (acc : List ℕ) → fixed k 0 acc ≡ replicate k 0 ++ acc
fixed-zero zero acc = refl
fixed-zero (suc k) acc = fixed-zero k (0 ∷ acc) ∙ snoc_replicate k acc

-- A number below 16 ^ k, padded with zeros to k digits.
pub padded_digits :
    (k f n : ℕ) (acc : List ℕ)
    → n < f
    → n < 16 ^ suc k
    → replicate (suc k + length acc - length (digits_from 16 f n acc)) 0 ++ digits_from 16 f n acc
      ≡ fixed (suc k) n acc
unfolding digits_from
padded_digits k zero n acc h b = elim h [ ]
padded_digits zero (suc f) n acc h b =
    let last : (n / 16 == 0) ≡ true = (==_iff (n / 16) 0).1 (omega (arith, pow-suc 16 0)) in
    let one : suc zero + length acc - suc (length acc) ≡ 0 = omega arith in rw (last, one)
padded_digits (suc k) (suc f) n acc h b = elim (Bool-cases (n / 16 == 0)) [
  | inl last ↦
      let one : suc (suc k) + length acc - suc (length acc) ≡ suc k = omega arith in
      let none_left : n / 16 ≡ 0 = (==_iff (n / 16) 0).0 last in
      rw (last, one, none_left) (sym (fixed-zero (suc k) (n % 16 ∷ acc)))
  | inr more ↦
      let shift : suc (suc k) + length acc ≡ suc k + suc (length acc) = omega arith in
      rw (more, shift)
        (padded_digits k f (n / 16) (n % 16 ∷ acc) (ground arith)
          (omega (arith, pow-suc 16 (suc k))))
]

-- Digits below 16 are read back.
digit_in-digit_char : (d : ℕ) → d < 16 → digit_in 16 (digit_char d) ≡ some d
unfolding digit_in
digit_in-digit_char d h = ground arith

parse_digits-digit_char :
    (acc : ℕ) (ds : List ℕ)
    → All (λ d. d < 16) ds
    → parse_digits 16 acc (map digit_char ds) ≡ of_digits 16 acc ds
unfolding parse_digits
parse_digits-digit_char acc [] h = refl
parse_digits-digit_char acc (d ∷ ds) h =
    rw (digit_in-digit_char d h.0, parse_digits) (parse_digits-digit_char (acc * 16 + d) ds h.1)

-- No digit is white space, a sign or the `x` of a prefix.
record IsDigitChar (c : ℕ) : Type 0 where
  not_space : is_space c ≡ false
  not_minus : (c == b'-') ≡ false
  not_plus : (c == b'+') ≡ false
  not_x : (c == b'x') ≡ false
  not_upper_x : (c == b'X') ≡ false

digit_char-IsDigitChar : (d : ℕ) → d < 16 → IsDigitChar (digit_char d)
unfolding is_space
digit_char-IsDigitChar d h = record {
  not_space = ground arith;
  not_minus = ground arith;
  not_plus = ground arith;
  not_x = ground arith;
  not_upper_x = ground arith;
}

skip_0x-digit_char :
    (c : ℕ) (ds : List ℕ)
    → All (λ e. e < 16) ds
    → skip_0x 16 (c ∷ map digit_char ds) ≡ c ∷ map digit_char ds
skip_0x-digit_char c [] h = refl
skip_0x-digit_char c (e ∷ ds) h =
    let k = digit_char-IsDigitChar e h.0 in
    elim (Bool-cases (c == b'0')) [
      | inl is0 ↦ rw (is0, k.not_x, k.not_upper_x)
      | inr not0 ↦ rw not0
    ]

-- A text of hexadecimal digits is read as the number that it stands for.
pub parse_int-digit_char :
    (d : ℕ) (ds : List ℕ)
    → d < 16
    → All (λ e. e < 16) ds
    → parse_int 16 (map digit_char (d ∷ ds)) ≡ pos (of_digits 16 d ds)
unfolding parse_int
parse_int-digit_char d ds h hs =
    let k = digit_char-IsDigitChar d h in
    rw
      (
        k.not_space,
        parse_int,
        skip_space,
        k.not_minus,
        k.not_plus,
        skip_0x-digit_char (digit_char d) ds hs,
        magnitude,
        digit_in-digit_char d h,
      )
      (ap pos (parse_digits-digit_char d ds hs))
