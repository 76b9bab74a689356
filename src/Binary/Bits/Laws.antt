-- ===== src/Binary/Bits/Laws.antt =====
-- Reading a bit that was written, system/lib/binaryHelpers.ts.
use squidlet.Base.{
  ℕ, zero, suc, ◌*◌, ◌+◌, ◌/◌, ◌%◌, ◌≡◌, ap, ◌∙◌, Bool, true, false, not, ◌==◌, leb, if◌then◌else◌,
  ok, throws, ◌>>=◌, arith, ◌<◌, Bool-cases, inl, inr,
}
use squidlet.Binary.Bits.{
  shift_right, with_bit, bit, update_bit_in_byte, get_bit_from_byte, incorrect_position,
  incorrect_get_position,
}

abbrev pub is_set : ℕ → ℕ → Bool
is_set byte p = not (shift_right byte p % 2 == 0)

pub is_set-with_bit :
    (byte p q : ℕ) (v : Bool) → is_set (with_bit byte p v) q ≡ (if p == q then v else is_set byte q)
unfolding shift_right with_bit
is_set-with_bit byte zero zero true = ground arith
is_set-with_bit byte zero zero false = ground arith
is_set-with_bit byte zero (suc q) v =
    let same : (byte / 2 * 2 + bit v) / 2 ≡ byte / 2 = half byte v in
    let tests : (0 == suc q) ≡ false = ground arith in rw (same, tests)
  where
    half : (b : ℕ) (v : Bool) → (b / 2 * 2 + bit v) / 2 ≡ b / 2
    half b true = omega arith
    half b false = omega arith
is_set-with_bit byte (suc p) zero v =
    let low : (with_bit (byte / 2) p v * 2 + byte % 2) % 2 ≡ byte % 2 = omega arith in
    let tests : (suc p == 0) ≡ false = ground arith in rw (low, tests)
is_set-with_bit byte (suc p) (suc q) v =
    let high : (with_bit (byte / 2) p v * 2 + byte % 2) / 2 ≡ with_bit (byte / 2) p v =
      omega arith in
    let tests : (suc p == suc q) ≡ (p == q) = ground arith in
    rw (high, tests) (is_set-with_bit (byte / 2) p q v)

-- `getBitFromByte` at any position after `updateBitInByte` at any position: an error if one of the
-- two is over 7, else the value that was written, if the positions are the same, and what stood
-- there before, if not.
pub get_bit_from_byte-update_bit_in_byte :
    (byte p q : ℕ) (v : Bool)
    → (update_bit_in_byte byte p v >>= λ b. get_bit_from_byte b q) ≡ (
        if leb 8 p
        then throws incorrect_position
        else if p == q
        then (if leb 8 q then throws incorrect_get_position else ok v)
        else get_bit_from_byte byte q)
unfolding update_bit_in_byte get_bit_from_byte
get_bit_from_byte-update_bit_in_byte byte p q v = elim (Bool-cases (leb 8 p)) [
  | inl over ↦ rw over
  | inr fits ↦ elim (Bool-cases (leb 8 q)) [
    | inl over ↦ rw (fits, over) (ground arith)
    | inr near ↦ rw (fits, near) (ap ok (is_set-with_bit byte p q v) ∙ ground arith)
  ]
]

abbrev pub pow2 : ℕ → ℕ
pow2 zero = 1
pow2 (suc n) = pow2 n * 2

-- A byte stays a byte.
pub with_bit-lt : (byte p n : ℕ) (v : Bool) → p < n → byte < pow2 n → with_bit byte p v < pow2 n
unfolding with_bit
with_bit-lt byte p zero v h b = absurd (omega arith)
with_bit-lt byte zero (suc n) true h b = omega arith
with_bit-lt byte zero (suc n) false h b = omega arith
with_bit-lt byte (suc p) (suc n) v h b =
    omega (arith, with_bit-lt (byte / 2) p n v (omega arith) (omega arith))

-- At a position below 8 the two functions give no error.
pub update_bit_in_byte_ok :
    (byte p : ℕ) (v : Bool) → p < 8 → update_bit_in_byte byte p v ≡ ok (with_bit byte p v)
unfolding update_bit_in_byte
update_bit_in_byte_ok byte p v h = let fits : leb 8 p ≡ false = ground arith in rw fits

pub get_bit_from_byte_ok : (byte p : ℕ) → p < 8 → get_bit_from_byte byte p ≡ ok (is_set byte p)
unfolding get_bit_from_byte
get_bit_from_byte_ok byte p h = let fits : leb 8 p ≡ false = ground arith in rw fits
