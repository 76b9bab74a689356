-- ===== src/Arrays/Members.antt =====
-- Which items are left, system/lib/arrays.ts.
use squidlet.Base.{
  ◌≡◌, ◌≢◌, ◌⊎◌, ◌↔◌, subst, List, [], ◌∷◌, ◌++◌, Bool, true, false, All, In, Distinct,
  Distinct-snoc, Bool-cases, inl, inr,
}
use squidlet.Arrays.{includes, unique_from, unique_array}

module _ {A : Type 0} (eq : A → A → Bool) (eq_lem : (a b : A) → (eq a b ≡ true) ↔ (a ≡ b)) where
  includes-In : (xs : List A) (a : A) → includes eq xs a ≡ true → In a xs
  includes-In [] a e = cc
  includes-In (x ∷ xs) a e = elim (Bool-cases (eq x a)) [
    | inl same ↦ inl ((eq_lem x a).0 same)
    | inr other ↦ inr (includes-In xs a (rw other at e))
  ]

  not_included : (xs : List A) (a : A) → includes eq xs a ≡ false → All (λ x. x ≢ a) xs
  not_included [] a e = tt
  not_included (x ∷ xs) a e = elim (Bool-cases (eq x a)) [
    | inl same ↦ absurd (cc (rw same at e))
    | inr other ↦ (λ q. cc (other, (eq_lem x a).1 q), not_included xs a (rw other at e))
  ]

  In-append : (xs ys : List A) (a : A) → In a (xs ++ ys) ↔ (In a xs ⊎ In a ys)
  In-append [] ys a = (inr, λ s. elim s [ inl m ↦ elim m [ ] | inr m ↦ m ])
  In-append (x ∷ xs) ys a = (
    λ m. elim m [
      | inl e ↦ inl (inl e)
      | inr m' ↦ elim ((In-append xs ys a).0 m') [ inl l ↦ inl (inr l) | inr r ↦ inr r ]
    ],
    λ s. elim s [
      | inl m ↦ elim m [ inl e ↦ inl e | inr m' ↦ inr ((In-append xs ys a).1 (inl m')) ]
      | inr r ↦ inr ((In-append xs ys a).1 (inr r))
    ],
  )

  unique_from_lem :
      (result arr : List A)
      → Distinct result
      → Distinct (unique_from eq result arr)
        × ((a : A) → In a (unique_from eq result arr) ↔ (In a result ⊎ In a arr))
  unfolding unique_from
  unique_from_lem result [] d = (d, λ a. (inl, λ s. elim s [ inl m ↦ m | inr m ↦ elim m [ ] ]))
  unique_from_lem result (x ∷ arr) d = elim (Bool-cases (includes eq result x)) [
    | inl seen ↦
        let (d', same) = unique_from_lem result arr d in
        rw seen (
          d',
          λ a. (
            λ m. elim ((same a).0 m) [ inl l ↦ inl l | inr r ↦ inr (inr r) ],
            λ s. elim s [
              | inl l ↦ (same a).1 (inl l)
              | inr r ↦ elim r [
                | inl e ↦ (same a).1 (inl (subst (λ y. In y result) e (includes-In result x seen)))
                | inr r' ↦ (same a).1 (inr r')
              ]
            ],
          ),
        )
    | inr new ↦
        let (d', same) =
          unique_from_lem (result ++ x ∷ []) arr
            (Distinct-snoc result x d (not_included result x new)) in
        rw new (
          d',
          λ a. (
            λ m. elim ((same a).0 m) [
              | inl l ↦ elim ((In-append result (x ∷ []) a).0 l) [
                | inl l' ↦ inl l'
                | inr r ↦ elim r [ inl e ↦ inr (inl e) | inr q ↦ elim q [ ] ]
              ]
              | inr r ↦ inr (inr r)
            ],
            λ s. elim s [
              | inl l ↦ (same a).1 (inl ((In-append result (x ∷ []) a).1 (inl l)))
              | inr r ↦ elim r [
                | inl e ↦ (same a).1 (inl ((In-append result (x ∷ []) a).1 (inr (inl e))))
                | inr r' ↦ (same a).1 (inr r')
              ]
            ],
          ),
        )
  ]

  -- `uniqueArray` gives no item twice, and just the items of the array.
  pub unique_array_lem :
      (arr : List A)
      → Distinct (unique_array eq arr) × ((a : A) → In a (unique_array eq arr) ↔ In a arr)
  unfolding unique_array
  unique_array_lem arr =
      let (d, same) = unique_from_lem [] arr tt in
      (
        d,
        λ a. (λ m. elim ((same a).0 m) [ inl l ↦ elim l [ ] | inr r ↦ r ], λ r. (same a).1 (inr r)),
      )
