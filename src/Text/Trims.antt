-- ===== src/Text/Trims.antt =====
-- What trimming leaves, system/lib/strings.ts.
use squidlet.Base.{
  ℕ, zero, suc, ◌-◌, ◌≤◌, ◌<◌, ◌≡◌, ◌≢◌, refl, sym, ap, ◌∙◌, List, [], ◌∷◌, ◌++◌, append-nil,
  append_assoc, Option, none, some, Bool, true, false, ◌==◌, ==_iff, if◌then◌else◌, length,
  get_elem?, take, replicate, arith, Bool-cases, inl, inr,
}
use squidlet.Text.{
  count_start, trim_char_start, count_end, cut_end, trim_char_end, trim_char, is_at,
}

abbrev pub head : List ℕ → Option ℕ
head [] = none
head (x ∷ xs) = some x

abbrev pub last : List ℕ → Option ℕ
last [] = none
last (x ∷ []) = some x
last (x ∷ y ∷ xs) = last (y ∷ xs)

pub last-snoc : (xs : List ℕ) (x : ℕ) → last (xs ++ x ∷ []) ≡ some x
last-snoc [] x = refl
last-snoc (y ∷ []) x = refl
last-snoc (y ∷ z ∷ xs) x = last-snoc (z ∷ xs) x

pub trim_char_start_lem :
    (src : List ℕ) (char : ℕ)
    → (src ≡ replicate (count_start char src) char ++ trim_char_start src char)
      × (head (trim_char_start src char) ≢ some char)
unfolding trim_char_start count_start
trim_char_start_lem [] char = (refl, λ e. cc)
trim_char_start_lem (x ∷ src) char = elim (Bool-cases (x == char)) [
  | inl same ↦
      let (whole, rest) = trim_char_start_lem src char in
      let eq : x ≡ char = (==_iff x char).0 same in
      rw same (
        ap (λ xs. x ∷ xs) whole
            ∙ ap (λ k. k ∷ replicate (count_start char src) char ++ trim_char_start src char) eq,
        rest,
      )
  | inr other ↦ rw other (refl, λ e. cc ((==_iff x char).1 (cc e)))
]

take-suc :
    (src : List ℕ) (i x : ℕ) → get_elem? src i ≡ some x → take (suc i) src ≡ take i src ++ x ∷ []
take-suc [] i x e = cc
take-suc (y ∷ src) zero x e = ap (λ k. k ∷ []) (cc)
take-suc (y ∷ src) (suc i) x e = ap (λ xs. y ∷ xs) (take-suc src i x e)

replicate_snoc : (k x : ℕ) → replicate k x ++ x ∷ [] ≡ x ∷ replicate k x
replicate_snoc zero x = refl
replicate_snoc (suc k) x = ap (λ xs. x ∷ xs) (replicate_snoc k x)

get_lt : (src : List ℕ) (i : ℕ) → i < length src → (x : ℕ) × (get_elem? src i ≡ some x)
get_lt [] i h = absurd (omega arith)
get_lt (x ∷ src) zero h = (x, refl)
get_lt (x ∷ src) (suc i) h = get_lt src i (omega arith)

-- `k` characters can be cut at the end of the first `i`.
record Cut (char i : ℕ) (src : List ℕ) (k : ℕ) : Type 0 where
  fits : k ≤ i
  whole : take i src ≡ take (i - k) src ++ replicate k char
  trimmed : last (take (i - k) src) ≢ some char

extend-Cut :
    (char i x k : ℕ) (src : List ℕ) (b : Bool)
    → get_elem? src i ≡ some x
    → (x == char) ≡ b
    → Cut char i src k
    → Cut char (suc i) src (if b then suc k else 0)
extend-Cut char i x k src true found same cut =
    let eq : x ≡ char = (==_iff x char).0 same in
    let shift : suc i - suc k ≡ i - k = omega arith in
    record {
      fits = omega (arith, cut.fits);
      whole = rw shift (
          take-suc src i x found
          ∙ ap (λ xs. xs ++ x ∷ []) cut.whole
          ∙ append_assoc (take (i - k) src) (replicate k char) (x ∷ [])
          ∙ ap (λ y. take (i - k) src ++ (replicate k char ++ y ∷ [])) eq
          ∙ ap (λ ys. take (i - k) src ++ ys) (replicate_snoc k char));
      trimmed = rw shift cut.trimmed;
    }
extend-Cut char i x k src false found other cut =
    let taken = take-suc src i x found in
    let all : suc i - 0 ≡ suc i = omega arith in
    record {
      fits = omega arith;
      whole = rw all (sym (append-nil (take (suc i) src)));
      trimmed = rw all (λ e.
          let same : x ≡ char = cc (sym (last-snoc (take i src) x) ∙ ap last (sym taken) ∙ e) in
          cc ((==_iff x char).1 same));
    }

is_at-get :
    (src : List ℕ) (i x char : ℕ) → get_elem? src i ≡ some x → is_at src i char ≡ (x == char)
is_at-get src i x char e = rw (e, is_at)

count_end_lem : (char i : ℕ) (src : List ℕ) → i ≤ length src → Cut char i src (count_end char i src)
unfolding count_end
count_end_lem char zero src h = record { fits = omega arith; whole = refl; trimmed = λ e. cc }
count_end_lem char (suc i) src h =
    let (x, found) = get_lt src i h in
    extend-Cut char i x (count_end char i src) src (is_at src i char) found
      (sym (is_at-get src i x char found)) (count_end_lem char i src (omega arith))

take-length : (xs : List ℕ) → take (length xs) xs ≡ xs
take-length [] = refl
take-length (x ∷ xs) = ap (λ ys. x ∷ ys) (take-length xs)

cut_end_lem : (k : ℕ) (src : List ℕ) → cut_end k src ≡ take (length src - k) src
cut_end_lem zero src =
    let all : length src - 0 ≡ length src = omega arith in rw all (sym (take-length src))
cut_end_lem (suc k) src = refl

pub trim_char_end_lem :
    (src : List ℕ) (char : ℕ)
    → (src ≡ trim_char_end src char ++ replicate (count_end char (length src) src) char)
      × (last (trim_char_end src char) ≢ some char)
unfolding trim_char_end
trim_char_end_lem src char =
    let k : ℕ = count_end char (length src) src in
    let cut = count_end_lem char (length src) src (omega arith) in
    (rw (cut_end_lem k src) (sym (take-length src) ∙ cut.whole), rw (cut_end_lem k src) cut.trimmed)

head-append : (xs ys : List ℕ) (c : ℕ) → head xs ≡ some c → head (xs ++ ys) ≡ some c
head-append [] ys c e = cc
head-append (x ∷ xs) ys c e = e

-- `trimChar` cuts only copies of the character, at both ends, and what is left neither begins nor
-- ends with it.
pub trim_char_lem :
    (src : List ℕ) (char : ℕ)
    → (k : ℕ) × (m : ℕ) × (src ≡ replicate k char ++ (trim_char src char ++ replicate m char))
      × (head (trim_char src char) ≢ some char)
      × (last (trim_char src char) ≢ some char)
unfolding trim_char
trim_char_lem src char =
    let mid : List ℕ = trim_char_start src char in
    let (front, begins) = trim_char_start_lem src char in
    let (back, ends) = trim_char_end_lem mid char in
    (
      count_start char src,
      count_end char (length mid) mid,
      front ∙ ap (λ ys. replicate (count_start char src) char ++ ys) back,
      λ e. begins (ap head back ∙ head-append _ _ char e),
      ends,
    )

-- A text that does not begin, or end, with the character stays as it is.
pub trim_char_start_same :
    (x : ℕ) (src : List ℕ) (char : ℕ) → x ≢ char → trim_char_start (x ∷ src) char ≡ x ∷ src
unfolding trim_char_start count_start
trim_char_start_same x src char ne = elim (Bool-cases (x == char)) [
  | inl same ↦ absurd (ne ((==_iff x char).0 same))
  | inr other ↦ rw other
]

pub trim_char_end_same :
    (xs : List ℕ) (x char : ℕ) → x ≢ char → trim_char_end (xs ++ x ∷ []) char ≡ xs ++ x ∷ []
trim_char_end_same xs x char ne =
    none_cut (count_end char (length (xs ++ x ∷ [])) (xs ++ x ∷ []))
      (trim_char_end (xs ++ x ∷ []) char) (trim_char_end_lem (xs ++ x ∷ []) char).0
  where
    last-append : (ys : List ℕ) (k : ℕ) → last (ys ++ replicate (suc k) char) ≡ some char
    last-append ys k =
        ap (λ zs. last (ys ++ zs)) (sym (replicate_snoc k char))
        ∙ ap last (sym (append_assoc ys (replicate k char) (char ∷ [])))
        ∙ last-snoc (ys ++ replicate k char) char

    none_cut : (k : ℕ) (out : List ℕ) → xs ++ x ∷ [] ≡ out ++ replicate k char → out ≡ xs ++ x ∷ []
    none_cut zero out e = sym (e ∙ append-nil out)
    none_cut (suc k) out e = absurd (ne (cc (sym (last-snoc xs x) ∙ ap last e ∙ last-append out k)))
