-- ===== src/Consistent/Merges.antt =====
-- What a key has after states were merged.
use squidlet.Base.{
  ◌≡◌, refl, sym, ap, ◌∙◌, List, [], ◌∷◌, ◌++◌, Option, none, some, some_or, String, str_eq, eq_iff,
  Dict, lookup, keys, lookup-insert, lookup-delete, Bool, true, false, not, ◌&&◌, is_some,
  if◌then◌else◌, Bool-cases, inl, inr,
}
use squidlet.Consistent.{Partial, among, apart_from, put, merge, whole, pick, undefined_of}

-- The value of a key over another.
abbrev pub over {ℓ} : {A : Type ℓ} → Option A → A → A
over none b = b
over (some a) b = a

abbrev pub first_of {ℓ} : {A : Type ℓ} → Option A → Option A → Option A
first_of none b = b
first_of (some a) b = some a

abbrev pub wrap {ℓ} : {A : Type ℓ} → Option A → Option (Option A)
wrap none = none
wrap (some a) = some (some a)

pub among-apart_from :
    (samples ks : List String) (k : String)
    → among k (apart_from samples ks) ≡ (not (among k samples) && among k ks)
among-apart_from samples [] k = by_sample (among k samples)
  where
    by_sample : (b : Bool) → false ≡ (not b && false)
    by_sample true = refl
    by_sample false = refl
among-apart_from samples (name ∷ ks) k =
    let ih = among-apart_from samples ks k in
    elim (Bool-cases (among name samples)) [
      | inl here ↦ elim (Bool-cases (str_eq name k)) [
        | inl same ↦
            let also : among k samples ≡ true =
              ap (λ x. among x samples) (sym ((eq_iff name k).0 same)) ∙ here in
            rw (here, ih, also)
        | inr other ↦ rw (here, other) ih
      ]
      | inr apart ↦ elim (Bool-cases (str_eq name k)) [
        | inl same ↦
            let also : among k samples ≡ false =
              ap (λ x. among x samples) (sym ((eq_iff name k).0 same)) ∙ apart in
            rw (apart, same, also)
        | inr other ↦ rw (apart, other) ih
      ]
    ]

module _ {V : Type 0} where
  pub among-keys : (k : String) (d : Dict V) → among k (keys d) ≡ is_some (lookup k d)
  unfolding lookup
  among-keys k [] = refl
  among-keys k (e ∷ d) = elim (Bool-cases (str_eq e.0 k)) [
    | inl same ↦ rw same
    | inr other ↦ rw other (among-keys k d)
  ]

  lookup-put :
      (key k : String) (v : Option V) (d : Dict V)
      → lookup k (put key v d) ≡ (if str_eq key k then v else lookup k d)
  lookup-put key k none d = lookup-delete key k d
  lookup-put key k (some v) d = lookup-insert key k v d

  pub lookup-merge :
      (k : String) (top : Partial V) (bottom : Dict V)
      → lookup k (merge top bottom) ≡ over (lookup k top) (lookup k bottom)
  unfolding merge lookup
  lookup-merge k [] bottom = refl
  lookup-merge k (e ∷ top) bottom =
      lookup-put e.0 k e.1 (merge top bottom) ∙ elim (Bool-cases (str_eq e.0 k)) [
        | inl same ↦ rw same
        | inr other ↦ rw other (lookup-merge k top bottom)
      ]

  pub lookup-append :
      (k : String) (a b : Dict V) → lookup k (a ++ b) ≡ first_of (lookup k a) (lookup k b)
  unfolding lookup
  lookup-append k [] b = refl
  lookup-append k (e ∷ a) b = elim (Bool-cases (str_eq e.0 k)) [
    | inl same ↦ rw same
    | inr other ↦ rw other (lookup-append k a b)
  ]

  pub lookup-whole : (k : String) (d : Dict V) → lookup k (whole d) ≡ wrap (lookup k d)
  unfolding lookup
  lookup-whole k [] = refl
  lookup-whole k (e ∷ d) = elim (Bool-cases (str_eq e.0 k)) [
    | inl same ↦ rw same
    | inr other ↦ rw other (lookup-whole k d)
  ]

  pub lookup-pick :
      (k : String) (d : Partial V) (ks : List String)
      → lookup k (pick d ks) ≡ (if among k ks then some (some_or none (lookup k d)) else none)
  unfolding lookup
  lookup-pick k d [] = refl
  lookup-pick k d (name ∷ ks) = elim (Bool-cases (str_eq name k)) [
    | inl same ↦ rw same (ap (λ x. some (some_or none (lookup x d))) ((eq_iff name k).0 same))
    | inr other ↦ rw other (lookup-pick k d ks)
  ]

  pub lookup-undefined_of :
      (k : String) (ks : List String)
      → lookup k (undefined_of {V = V} ks) ≡ (if among k ks then some none else none)
  unfolding lookup
  lookup-undefined_of k [] = refl
  lookup-undefined_of k (name ∷ ks) = elim (Bool-cases (str_eq name k)) [
    | inl same ↦ rw same
    | inr other ↦ rw other (lookup-undefined_of k ks)
  ]
