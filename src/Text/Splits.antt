-- ===== src/Text/Splits.antt =====
-- Splitting a text at its first or its last separator, system/lib/strings.ts.
use squidlet.Base.{
  ℕ, ◌≡◌, ◌≢◌, refl, sym, ap, ◌∙◌, List, [], ◌∷◌, ◌++◌, append_assoc, Option, none, some, ◌==◌,
  ==_iff, All, ok, Bool-cases, inl, inr,
}
use squidlet.Text.{
  put_first, split_on, join_with, without_last, last_part, first_of, last_of, split_first_element,
  split_last_element,
}

-- No part is left with the separator.
abbrev pub Apart : ℕ → List ℕ → Type 0
Apart sep p = All (λ x. x ≢ sep) p

abbrev pub Parts : ℕ → List (List ℕ) → Type 0
Parts sep [] = ⊥
Parts sep (p ∷ ps) = All (Apart sep) (p ∷ ps)

join-put_first :
    (sep x : ℕ) (ps : List (List ℕ))
    → Parts sep ps
    → join_with sep (put_first x ps) ≡ x ∷ join_with sep ps
unfolding join_with
join-put_first sep x [] h = elim h [ ]
join-put_first sep x (p ∷ []) h = refl
join-put_first sep x (p ∷ q ∷ ps) h = refl

put_first-Parts :
    (sep x : ℕ) (ps : List (List ℕ)) → x ≢ sep → Parts sep ps → Parts sep (put_first x ps)
put_first-Parts sep x [] ne h = elim h [ ]
put_first-Parts sep x (p ∷ ps) ne h = ((ne, h.0), h.1)

empty_first-Parts : (sep : ℕ) (ps : List (List ℕ)) → Parts sep ps → Parts sep ([] ∷ ps)
empty_first-Parts sep [] h = elim h [ ]
empty_first-Parts sep (p ∷ ps) h = (tt, h)

join-empty_first :
    (sep : ℕ) (ps : List (List ℕ)) → Parts sep ps → join_with sep ([] ∷ ps) ≡ sep ∷ join_with sep ps
unfolding join_with
join-empty_first sep [] h = elim h [ ]
join-empty_first sep (p ∷ ps) h = refl

-- Splitting never gives no part, no part has the separator, and joining the parts gives the text.
pub split_on_lem :
    (sep : ℕ) (src : List ℕ)
    → Parts sep (split_on sep src) × (join_with sep (split_on sep src) ≡ src)
unfolding split_on join_with
split_on_lem sep [] = ((tt, tt), refl)
split_on_lem sep (x ∷ src) =
    let (parts, whole) = split_on_lem sep src in
    elim (Bool-cases (x == sep)) [
      | inl same ↦ rw same (
        empty_first-Parts sep (split_on sep src) parts,
        join-empty_first sep (split_on sep src) parts
            ∙ ap (λ k. k ∷ join_with sep (split_on sep src)) (sym ((==_iff x sep).0 same))
            ∙ ap (λ xs. x ∷ xs) whole,
      )
      | inr other ↦ rw other (
        put_first-Parts sep x (split_on sep src) (λ e. cc ((==_iff x sep).1 e)) parts,
        join-put_first sep x (split_on sep src) parts ∙ ap (λ xs. x ∷ xs) whole,
      )
    ]

abbrev pub behind : ℕ → Option (List ℕ) → List ℕ
behind sep none = []
behind sep (some rest) = sep ∷ rest

abbrev pub before : ℕ → Option (List ℕ) → List ℕ
before sep none = []
before sep (some rest) = rest ++ sep ∷ []

first_lem :
    (full : List ℕ) (sep : ℕ) (ps : List (List ℕ))
    → Parts sep ps
    → join_with sep ps ≡ full
    → ((first_of full sep ps).0 ++ behind sep (first_of full sep ps).1 ≡ full)
      × Apart sep (first_of full sep ps).0
unfolding join_with
first_lem full sep [] h e = elim h [ ]
first_lem full sep (p ∷ []) h e = (append-nil' full, subst' h.0)
  where
    append-nil' : (xs : List ℕ) → xs ++ [] ≡ xs
    append-nil' [] = refl
    append-nil' (x ∷ xs) = ap (λ ys. x ∷ ys) (append-nil' xs)

    subst' : Apart sep p → Apart sep full
    subst' a = rw (← e) a
first_lem full sep (p ∷ q ∷ ps) h e = (e, h.0)

-- `splitFirstElement` on any text that is not empty: no error, the first element has no separator,
-- and the element, the separator and the rest, if there is one, make the text.
pub split_first_element_lem :
    (x : ℕ) (src : List ℕ) (sep : ℕ)
    → (first : List ℕ) × (rest : Option (List ℕ)) × (split_first_element (x ∷ src) sep
        ≡ ok (first, rest))
      × (first ++ behind sep rest ≡ x ∷ src)
      × Apart sep first
unfolding split_first_element
split_first_element_lem x src sep =
    let (parts, whole) = split_on_lem sep (x ∷ src) in
    let (glued, apart) = first_lem (x ∷ src) sep (split_on sep (x ∷ src)) parts whole in
    (
      (first_of (x ∷ src) sep (split_on sep (x ∷ src))).0,
      (first_of (x ∷ src) sep (split_on sep (x ∷ src))).1,
      refl,
      glued,
      apart,
    )

-- Joining with the last part put aside.
pub join-last :
    (sep : ℕ) (p q : List ℕ) (ps : List (List ℕ))
    → join_with sep (p ∷ q ∷ ps)
      ≡ join_with sep (without_last (p ∷ q ∷ ps)) ++ (sep ∷ last_part (p ∷ q ∷ ps))
unfolding join_with
join-last sep p q [] = refl
join-last sep p q (r ∷ ps) =
    ap (λ xs. p ++ sep ∷ xs) (join-last sep q r ps)
    ∙ sym (append_assoc p (sep ∷ join_with sep (without_last (q ∷ r ∷ ps))) _)

pub last_part-Apart :
    (sep : ℕ) (p : List ℕ) (ps : List (List ℕ))
    → All (Apart sep) (p ∷ ps)
    → Apart sep (last_part (p ∷ ps))
last_part-Apart sep p [] h = h.0
last_part-Apart sep p (q ∷ ps) h = last_part-Apart sep q ps h.1

last_lem :
    (full : List ℕ) (sep : ℕ) (ps : List (List ℕ))
    → Parts sep ps
    → join_with sep ps ≡ full
    → (before sep (last_of full sep ps).1 ++ (last_of full sep ps).0 ≡ full)
      × Apart sep (last_of full sep ps).0
unfolding join_with
last_lem full sep [] h e = elim h [ ]
last_lem full sep (p ∷ []) h e = (refl, rw (← e) h.0)
last_lem full sep (p ∷ q ∷ ps) h e = (
  append_assoc (join_with sep (without_last (p ∷ q ∷ ps))) (sep ∷ []) (last_part (q ∷ ps))
      ∙ sym (join-last sep p q ps)
      ∙ e,
  last_part-Apart sep q ps h.1,
)

-- `splitLastElement` on any text that is not empty: no error, the last element has no separator, and
-- the rest, if there is one, the separator and the element make the text.
pub split_last_element_lem :
    (x : ℕ) (src : List ℕ) (sep : ℕ)
    → (last : List ℕ) × (rest : Option (List ℕ)) × (split_last_element (x ∷ src) sep
        ≡ ok (last, rest))
      × (before sep rest ++ last ≡ x ∷ src)
      × Apart sep last
unfolding split_last_element
split_last_element_lem x src sep =
    let (parts, whole) = split_on_lem sep (x ∷ src) in
    let (glued, apart) = last_lem (x ∷ src) sep (split_on sep (x ∷ src)) parts whole in
    (
      (last_of (x ∷ src) sep (split_on sep (x ∷ src))).0,
      (last_of (x ∷ src) sep (split_on sep (x ∷ src))).1,
      refl,
      glued,
      apart,
    )
