-- ===== src/Timers/Without.antt =====
-- A list of armed timers without those of one handle.
use squidlet.Base.{
  ℕ, ◌≡◌, ◌≢◌, sym, ap, ◌∙◌, List, [], ◌∷◌, some, String, ◌==◌, ==_iff, All, All-lookup, In,
  Distinct, map, true, refl, Bool-cases, inl, inr,
}
use squidlet.Timers.{without, armed_for}

abbrev pub handles : List (ℕ × String) → List ℕ
handles = map λ t. t.0

pub All-without {κ} :
    (P : ℕ × String → Type κ) (Q : ℕ × String → Type κ) (h : ℕ) (ts : List (ℕ × String))
    → ((t : ℕ × String) → t.0 ≢ h → P t → Q t)
    → All P ts
    → All Q (without h ts)
All-without P Q h [] f a = tt
All-without P Q h (t ∷ ts) f a = elim (Bool-cases (t.0 == h)) [
  | inl same ↦ rw same (All-without P Q h ts f a.1)
  | inr other ↦ rw other (f t (λ e. cc ((==_iff t.0 h).1 e)) a.0, All-without P Q h ts f a.1)
]

pub handles-without :
    (P : ℕ → Type 0) (h : ℕ) (ts : List (ℕ × String))
    → All P (handles ts)
    → All P (handles (without h ts))
handles-without P h [] a = tt
handles-without P h (t ∷ ts) a = elim (Bool-cases (t.0 == h)) [
  | inl same ↦ rw same (handles-without P h ts a.1)
  | inr other ↦ rw other (a.0, handles-without P h ts a.1)
]

pub Distinct-without :
    (h : ℕ) (ts : List (ℕ × String)) → Distinct (handles ts) → Distinct (handles (without h ts))
Distinct-without h [] d = tt
Distinct-without h (t ∷ ts) d = elim (Bool-cases (t.0 == h)) [
  | inl same ↦ rw same (Distinct-without h ts d.1)
  | inr other ↦ rw other (handles-without (λ x. x ≢ t.0) h ts d.0, Distinct-without h ts d.1)
]

pub In-without :
    (h k : ℕ) (id : String) (ts : List (ℕ × String))
    → k ≢ h
    → In {A = ℕ × String} (k, id) ts
    → In {A = ℕ × String} (k, id) (without h ts)
In-without h k id [] ne m = elim m [ ]
In-without h k id (t ∷ ts) ne (inl e) = elim (Bool-cases (t.0 == h)) [
  | inl same ↦ absurd (ne (sym (ap (λ x. x.0) e) ∙ (==_iff t.0 h).0 same))
  | inr other ↦ rw other (inl e)
]
In-without h k id (t ∷ ts) ne (inr m) = elim (Bool-cases (t.0 == h)) [
  | inl same ↦ rw same (In-without h k id ts ne m)
  | inr other ↦ rw other (inr (In-without h k id ts ne m))
]

pub In-handles :
    (h : ℕ) (id : String) (ts : List (ℕ × String))
    → In {A = ℕ × String} (h, id) ts
    → In h (handles ts)
In-handles h id [] m = elim m [ ]
In-handles h id (t ∷ ts) (inl e) = inl (ap (λ x. x.0) e)
In-handles h id (t ∷ ts) (inr m) = inr (In-handles h id ts m)

-- A handle is armed for one id.
pub one_id :
    (h : ℕ) (id k : String) (ts : List (ℕ × String))
    → Distinct (handles ts)
    → In {A = ℕ × String} (h, id) ts
    → In {A = ℕ × String} (h, k) ts
    → id ≡ k
one_id h id k [] d m n = elim m [ ]
one_id h id k (t ∷ ts) d (inl e) (inl f) = sym (ap (λ x. x.1) e) ∙ ap (λ x. x.1) f
one_id h id k (t ∷ ts) d (inl e) (inr n) =
    absurd
      (All-lookup (λ x. x ≢ t.0) (handles ts) h d.0 (In-handles h k ts n) (sym (ap (λ x. x.0) e)))
one_id h id k (t ∷ ts) d (inr m) (inl f) =
    absurd
      (All-lookup (λ x. x ≢ t.0) (handles ts) h d.0 (In-handles h id ts m) (sym (ap (λ x. x.0) f)))
one_id h id k (t ∷ ts) d (inr m) (inr n) = one_id h id k ts d.1 m n

pub armed_for-In :
    (h : ℕ) (id : String) (ts : List (ℕ × String))
    → Distinct (handles ts)
    → In {A = ℕ × String} (h, id) ts
    → armed_for h ts ≡ some id
armed_for-In h id [] d m = elim m [ ]
armed_for-In h id (t ∷ ts) d (inl e) =
    let here : (t.0 == h) ≡ true = (==_iff t.0 h).1 (ap (λ x. x.0) e) in
    rw here (ap (λ x. some x.1) e)
armed_for-In h id (t ∷ ts) d (inr m) = elim (Bool-cases (t.0 == h)) [
  | inl same ↦ absurd (
      All-lookup (λ x. x ≢ t.0) (handles ts) h d.0 (In-handles h id ts m)
        (sym ((==_iff t.0 h).0 same)))
  | inr other ↦ rw other (armed_for-In h id ts d.1 m)
]

pub without_twice : (h : ℕ) (ts : List (ℕ × String)) → without h (without h ts) ≡ without h ts
without_twice h [] = refl
without_twice h (t ∷ ts) = elim (Bool-cases (t.0 == h)) [
  | inl same ↦ rw same (without_twice h ts)
  | inr other ↦ rw (other, other) (ap (λ xs. t ∷ xs) (without_twice h ts))
]
