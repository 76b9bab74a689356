-- ===== src/Text/Paths.antt =====
-- A path that was joined is taken apart again, system/lib/paths.ts.
use squidlet.Base.{
  ℕ, ◌≡◌, ◌≢◌, refl, sym, ap, subst, ◌∙◌, List, [], ◌∷◌, ◌++◌, append_assoc, true, ◌==◌, ==_iff,
  Bool-cases, inl, inr, arith,
}
use squidlet.Text.{
  put_first, split_on, join_with, without_last, last_part, path_sep, cleared, clear_rest, path_join,
  path_dirname, path_basename, trim_char_end,
}
use squidlet.Text.Trims.{trim_char_start_same, trim_char_end_same}
use squidlet.Text.Splits.{Apart, Parts, split_on_lem}

put_first-append :
    (sep x : ℕ) (ps qs : List (List ℕ))
    → Parts sep ps
    → put_first x (ps ++ qs) ≡ put_first x ps ++ qs
put_first-append sep x [] qs h = elim h [ ]
put_first-append sep x (p ∷ ps) qs h = refl

-- A separator inside parts the list of parts.
split_on-append :
    (sep : ℕ) (xs ys : List ℕ) → split_on sep (xs ++ sep ∷ ys) ≡ split_on sep xs ++ split_on sep ys
unfolding split_on
split_on-append sep [] ys = let same : (sep == sep) ≡ true = ground arith in rw same
split_on-append sep (x ∷ xs) ys = elim (Bool-cases (x == sep)) [
  | inl same ↦ rw same (ap (λ ps. [] ∷ ps) (split_on-append sep xs ys))
  | inr other ↦ rw other (
      ap (put_first x) (split_on-append sep xs ys)
      ∙ put_first-append sep x (split_on sep xs) (split_on sep ys) (split_on_lem sep xs).0)
]

split_on-Apart : (sep : ℕ) (p : List ℕ) → Apart sep p → split_on sep p ≡ p ∷ []
unfolding split_on
split_on-Apart sep [] h = refl
split_on-Apart sep (x ∷ p) h = elim (Bool-cases (x == sep)) [
  | inl same ↦ absurd (h.0 ((==_iff x sep).0 same))
  | inr other ↦ rw (other, split_on-Apart sep p h.1)
]

last_part-snoc : (ps : List (List ℕ)) (p : List ℕ) → last_part (ps ++ p ∷ []) ≡ p
last_part-snoc [] p = refl
last_part-snoc (q ∷ []) p = refl
last_part-snoc (q ∷ r ∷ ps) p = last_part-snoc (r ∷ ps) p

without_last-snoc : (ps : List (List ℕ)) (p : List ℕ) → without_last (ps ++ p ∷ []) ≡ ps
without_last-snoc [] p = refl
without_last-snoc (q ∷ []) p = refl
without_last-snoc (q ∷ r ∷ ps) p = ap (λ qs. q ∷ qs) (without_last-snoc (r ∷ ps) p)

trim_char_end-Apart :
    (pre : List ℕ) (x : ℕ) (xs : List ℕ) (char : ℕ)
    → Apart char (x ∷ xs)
    → trim_char_end (pre ++ x ∷ xs) char ≡ pre ++ x ∷ xs
trim_char_end-Apart pre x [] char h = trim_char_end_same pre x char h.0
trim_char_end-Apart pre x (y ∷ xs) char h =
    let e : pre ++ x ∷ y ∷ xs ≡ (pre ++ x ∷ []) ++ y ∷ xs =
      sym (append_assoc pre (x ∷ []) (y ∷ xs)) in
    subst (λ zs. trim_char_end zs char ≡ zs) (sym e)
      (trim_char_end-Apart (pre ++ x ∷ []) y xs char h.1)

path_join_two :
    (dir : List ℕ) (c x : ℕ) (cs xs : List ℕ)
    → trim_char_end dir path_sep ≡ c ∷ cs
    → x ≢ path_sep
    → path_join (dir ∷ (x ∷ xs) ∷ []) ≡ (c ∷ cs) ++ path_sep ∷ x ∷ xs
unfolding path_join cleared clear_rest join_with
path_join_two dir c x cs xs e ne = rw (e, trim_char_start_same x xs path_sep ne)

-- A file name, with no separator in it, that `pathJoin` puts behind a directory is what
-- `pathBasename` gives back, and `pathDirname` gives the directory without the separators at its
-- end, if anything is left of it.
pub path_basename-path_join :
    (dir : List ℕ) (c x : ℕ) (cs xs : List ℕ)
    → trim_char_end dir path_sep ≡ c ∷ cs
    → Apart path_sep (x ∷ xs)
    → (path_basename (path_join (dir ∷ (x ∷ xs) ∷ [])) ≡ x ∷ xs)
      × (path_dirname (path_join (dir ∷ (x ∷ xs) ∷ [])) ≡ c ∷ cs)
unfolding path_basename path_dirname
path_basename-path_join dir c x cs xs e apart =
    let joined = path_join_two dir c x cs xs e apart.0 in
    let parts =
      split_on-append path_sep (c ∷ cs) (x ∷ xs)
      ∙ ap (λ ps. split_on path_sep (c ∷ cs) ++ ps) (split_on-Apart path_sep (x ∷ xs) apart) in
    let front : (c ∷ cs) ++ path_sep ∷ x ∷ xs ≡ ((c ∷ cs) ++ path_sep ∷ []) ++ x ∷ xs =
      sym (append_assoc (c ∷ cs) (path_sep ∷ []) (x ∷ xs)) in
    let kept =
      subst (λ zs. trim_char_end zs path_sep ≡ zs) (sym front)
        (trim_char_end-Apart ((c ∷ cs) ++ path_sep ∷ []) x xs path_sep apart) in
    (
      ap (λ p. last_part (split_on path_sep p)) joined
          ∙ ap last_part parts
          ∙ last_part-snoc (split_on path_sep (c ∷ cs)) (x ∷ xs),
      ap (λ p. join_with path_sep (without_last (split_on path_sep (trim_char_end p path_sep))))
            joined
          ∙ ap (λ p. join_with path_sep (without_last (split_on path_sep p))) kept
          ∙ ap (λ ps. join_with path_sep (without_last ps)) parts
          ∙ ap (join_with path_sep) (without_last-snoc (split_on path_sep (c ∷ cs)) (x ∷ xs))
          ∙ (split_on_lem path_sep (c ∷ cs)).1,
    )
