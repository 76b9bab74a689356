-- ===== src/Binary/Bits/Orders.antt =====
-- In which order the bits of a byte are written and read, system/lib/binaryHelpers.ts. There are 256
-- bytes, and pairs of numbers of four bits: each statement is computed at every one of them.
use squidlet.Base.{
  ℕ, zero, suc, ◌<◌, ◌≡◌, refl, ap, ap₂, List, [], ◌∷◌, map, some, Bool, true, false, not, ◌==◌,
  ==_iff, length, ok, Result, ◌>>=◌, arith, Bool-cases, inl, inr,
}
use squidlet.Binary.Radix.{Parsed, pos, nan, neg, parse_int, to_string, digit_in, is_space}
use squidlet.Binary.Hex.{pad_start}
use squidlet.Binary.Bits.{
  shift_right, with_bit, bits_to_bytes, bytes_to_bits, combine_2_number_to_byte,
  extract_2_numbers_from_byte,
}

abbrev both : Bool → Bool → Bool
both true b = b
both false b = false

abbrev all_below : (ℕ → Bool) → ℕ → Bool
all_below p zero = true
all_below p (suc n) = both (p n) (all_below p n)

both_lem : (a b : Bool) → both a b ≡ true → (a ≡ true) × (b ≡ true)
both_lem true b e = (refl, e)
both_lem false b e = cc

all_below_lem : (p : ℕ → Bool) (n k : ℕ) → all_below p n ≡ true → k < n → p k ≡ true
all_below_lem p zero k e h = elim h [ ]
all_below_lem p (suc n) k e h =
    let (here, below) = both_lem (p n) (all_below p n) e in
    elim (Bool-cases (k == n)) [
      | inl same ↦ rw ((==_iff k n).0 same) here
      | inr other ↦ all_below_lem p n k below (ground arith)
    ]

abbrev all_bits : ℕ → (List Bool → Bool) → Bool
all_bits zero p = p []
all_bits (suc n) p = both (all_bits n λ bs. p (true ∷ bs)) (all_bits n λ bs. p (false ∷ bs))

all_bits_lem :
    (n : ℕ) (p : List Bool → Bool) (bs : List Bool)
    → all_bits n p ≡ true
    → length bs ≡ n
    → p bs ≡ true
all_bits_lem zero p [] e h = e
all_bits_lem zero p (b ∷ bs) e h = absurd (omega arith)
all_bits_lem (suc n) p [] e h = absurd (omega arith)
all_bits_lem (suc n) p (true ∷ bs) e h =
    all_bits_lem n (λ xs. p (true ∷ xs)) bs (both_lem _ _ e).0 (omega arith)
all_bits_lem (suc n) p (false ∷ bs) e h =
    all_bits_lem n (λ xs. p (false ∷ xs)) bs (both_lem _ _ e).1 (omega arith)

abbrev same_bit : Bool → Bool → Bool
same_bit true b = b
same_bit false b = not b

abbrev same_bits : List Bool → List Bool → Bool
same_bits [] [] = true
same_bits (a ∷ as') (b ∷ bs) = both (same_bit a b) (same_bits as' bs)
same_bits as' bs = false

same_bit_lem : (a b : Bool) → same_bit a b ≡ true → a ≡ b
same_bit_lem true true e = refl
same_bit_lem true false e = cc
same_bit_lem false true e = cc
same_bit_lem false false e = refl

same_bits_lem : (as' bs : List Bool) → same_bits as' bs ≡ true → as' ≡ bs
same_bits_lem [] [] e = refl
same_bits_lem [] (b ∷ bs) e = cc
same_bits_lem (a ∷ as') [] e = cc
same_bits_lem (a ∷ as') (b ∷ bs) e =
    let (head, tail) = both_lem (same_bit a b) (same_bits as' bs) e in
    rw (same_bit_lem a b head, same_bits_lem as' bs tail)

abbrev pub reversed : List Bool → List Bool → List Bool
reversed acc [] = acc
reversed acc (b ∷ bs) = reversed (b ∷ acc) bs

abbrev is_ok : Result (List Bool) → List Bool → Bool
is_ok (ok as') bs = same_bits as' bs
is_ok (Result.throws e) bs = false

is_ok_lem : (r : Result (List Bool)) (bs : List Bool) → is_ok r bs ≡ true → r ≡ ok bs
is_ok_lem (ok as') bs e = ap ok (same_bits_lem as' bs e)
is_ok_lem (Result.throws err) bs e = cc

abbrev is_reversed : List Bool → Bool
is_reversed bs =
    is_ok (bits_to_bytes (map some bs) >>= λ bytes. ok (bytes_to_bits bytes)) (reversed [] bs)

every_byte : all_bits 8 is_reversed ≡ true
unfolding bits_to_bytes bytes_to_bits to_string parse_int with_bit pad_start is_space digit_in
every_byte = refl

-- Eight bits that `bitsToBytes` made a byte of are read back by `bytesToBits` in the reverse order:
-- the first bit is the lowest of the byte, and the byte is read from its highest bit on.
pub bytes_to_bits-bits_to_bytes :
    (bs : List Bool)
    → length bs ≡ 8
    → (bits_to_bytes (map some bs) >>= λ bytes. ok (bytes_to_bits bytes)) ≡ ok (reversed [] bs)
bytes_to_bits-bits_to_bytes bs h =
    is_ok_lem _ (reversed [] bs) (all_bits_lem 8 is_reversed bs every_byte h)

abbrev same_pair : ℕ × ℕ → ℕ → ℕ → Bool
same_pair p one two = both (p.0 == one) (p.1 == two)

abbrev is_extracted : ℕ → ℕ → Bool
is_extracted one two = elim (combine_2_number_to_byte one two) [
  | pos n ↦ same_pair (extract_2_numbers_from_byte n) one two
  | _ ↦ false
]

every_pair : all_below (λ one. all_below (is_extracted one) 16) 16 ≡ true
unfolding combine_2_number_to_byte extract_2_numbers_from_byte to_string parse_int pad_start
    shift_right is_space digit_in
every_pair = refl

-- Two numbers below 16 that `combine2numberToByte` put into one byte are given back, in their order,
-- by `extract2NumbersFromByte`.
pub extract_2_numbers_from_byte-combine :
    (one two : ℕ)
    → one < 16
    → two < 16
    → (n : ℕ) × (combine_2_number_to_byte one two ≡ pos n)
      × (extract_2_numbers_from_byte n ≡ (one, two))
extract_2_numbers_from_byte-combine one two h k =
    let row = all_below_lem (λ a. all_below (is_extracted a) 16) 16 one every_pair h in
    read (combine_2_number_to_byte one two) (all_below_lem (is_extracted one) 16 two row k)
  where
    read :
        (r : Parsed)
        → (elim r [ pos n ↦ same_pair (extract_2_numbers_from_byte n) one two | _ ↦ false ]) ≡ true
        → (n : ℕ) × (r ≡ pos n) × (extract_2_numbers_from_byte n ≡ (one, two))
    read nan e = cc
    read (neg n) e = cc
    read (pos n) e =
        let (a, b) = both_lem _ _ e in
        (
          n,
          refl,
          ap₂ (λ x y. (x, y)) ((==_iff (extract_2_numbers_from_byte n).0 one).0 a)
              ((==_iff (extract_2_numbers_from_byte n).1 two).0 b),
        )
