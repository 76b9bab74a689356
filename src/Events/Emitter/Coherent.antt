-- ===== src/Events/Emitter/Coherent.antt =====
-- When the indexes of an emitter agree with its handlers, whatever keeps the indexes: `f ev` are
-- those of the event `ev`.
use squidlet.Base.{
  ℕ, zero, suc, ◌<◌, ◌≡◌, sym, ap, subst, ◌≢◌, ◌∙◌, List, [], ◌∷◌, ◌++◌, Option, none, some,
  some_or, String, length, set, remove_at, ◌==◌, ==_iff, if◌then◌else◌, arith, All, In, Distinct,
  Bool-cases, Option-cases, inl, inr, get_elem?-append_left, get_elem?-set_ne,
}
use squidlet.Events.Emitter.{Listener, plain, wrapper, handler_at, find_index}

-- Without the first `i`.
abbrev pub erase : ℕ → List ℕ → List ℕ
erase i [] = []
erase i (j ∷ js) = if j == i then js else j ∷ erase i js

pub remove_at-find_index :
    (i : ℕ) (js : List ℕ) (p : ℕ)
    → find_index i js ≡ some p
    → (remove_at js p ≡ erase i js) × In i js
unfolding find_index
remove_at-find_index i [] p e = cc
remove_at-find_index i (j ∷ js) p e = elim (Option-cases (find_index i js)) [
  | inl missing ↦ ground arith
  | inr (q, found) ↦ ground (arith, remove_at-find_index i js q found)
]

pub find_index_of_In : (i : ℕ) (js : List ℕ) → In i js → (p : ℕ) × (find_index i js ≡ some p)
unfolding find_index
find_index_of_In i [] m = elim m [ ]
find_index_of_In i (j ∷ js) (inl same) = (0, rw ((==_iff j i).1 same))
find_index_of_In i (j ∷ js) (inr m) =
    let (p, found) = find_index_of_In i js m in
    elim (Bool-cases (j == i)) [ inl same ↦ (0, rw same) | inr other ↦ (suc p, rw (other, found)) ]

pub All-erase {κ} : (P : ℕ → Type κ) (i : ℕ) (js : List ℕ) → All P js → All P (erase i js)
All-erase P i [] h = tt
All-erase P i (j ∷ js) h = elim (Bool-cases (j == i)) [
  | inl same ↦ rw same h.1
  | inr other ↦ rw other (h.0, All-erase P i js h.1)
]

pub erase_ne : (i : ℕ) (js : List ℕ) → Distinct js → All (λ j. j ≢ i) (erase i js)
erase_ne i [] d = tt
erase_ne i (j ∷ js) d = elim (Bool-cases (j == i)) [
  | inl same ↦ rw same (subst (λ k. All (λ x. x ≢ k) js) ((==_iff j i).0 same) d.0)
  | inr other ↦ rw other ((λ e. cc ((==_iff j i).1 e)), erase_ne i js d.1)
]

pub erase-Distinct : (i : ℕ) (js : List ℕ) → Distinct js → Distinct (erase i js)
erase-Distinct i [] d = tt
erase-Distinct i (j ∷ js) d = elim (Bool-cases (j == i)) [
  | inl same ↦ rw same d.1
  | inr other ↦ rw other (All-erase (λ x. x ≢ j) i js d.0, erase-Distinct i js d.1)
]

-- No index of one list stands in the other.
abbrev pub Apart : List ℕ → List ℕ → Type 0
Apart is js = All (λ j. All (λ i. i ≢ j) is) js

module _ {H : Type 0} where
  abbrev pub Own : ℕ → String → Listener H → Type 0
  Own i ev (plain h) = Unit
  Own i ev (wrapper h w ev') = (w ≡ i) × (ev' ≡ ev)

  -- A listener stands at the index, and a wrapper there removes just itself.
  abbrev pub Owned : String → List (Option (Listener H)) → ℕ → Type 0
  Owned ev hs i = (h : Listener H) × (handler_at hs i ≡ some h) × Own i ev h

  pub record Coherent (f : String → List ℕ) (hs : List (Option (Listener H))) : Type 0 where
    pub owned : (ev : String) → All (Owned ev hs) (f ev)
    pub distinct : (ev : String) → Distinct (f ev)
    pub apart : (ev ev' : String) → ev ≢ ev' → Apart (f ev) (f ev')

  pub handler_at-lt :
      (hs : List (Option (Listener H))) (i : ℕ) (h : Listener H)
      → handler_at hs i ≡ some h
      → i < length hs
  handler_at-lt [] i h e = cc
  handler_at-lt (x ∷ hs) zero h e = omega arith
  handler_at-lt (x ∷ hs) (suc i) h e = omega (arith, handler_at-lt hs i h e)

  pub Owned-append :
      (ev : String) (hs : List (Option (Listener H))) (x : Listener H) (i : ℕ)
      → Owned ev hs i
      → Owned ev (hs ++ some x ∷ []) i
  Owned-append ev hs x i (h, at, own) = (
    h,
    ap (some_or none) (get_elem?-append_left hs (some x ∷ []) i (handler_at-lt hs i h at)) ∙ at,
    own,
  )

  pub Owned-set :
      (ev : String) (hs : List (Option (Listener H))) (i j : ℕ)
      → j ≢ i
      → Owned ev hs j
      → Owned ev (set hs i none) j
  Owned-set ev hs i j ne (h, at, own) =
      (h, ap (some_or none) (get_elem?-set_ne hs none (λ e. ne (sym e))) ∙ at, own)

  pub Owned-ne-length :
      (ev : String) (hs : List (Option (Listener H))) (i : ℕ) → Owned ev hs i → i ≢ length hs
  Owned-ne-length ev hs i (h, at, own) e = absurd (omega (arith, handler_at-lt hs i h at))
