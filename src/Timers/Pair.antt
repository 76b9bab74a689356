-- ===== src/Timers/Pair.antt =====
-- An object that keeps the handles of two timers, each in a field of its own.
use squidlet.Base.{
  ℕ, ◌≡◌, sym, ◌∙◌, Option, none, some, String, str_eq, eq_iff, eq_refl, if◌then◌else◌, Bool-cases,
  inl, inr, true, false, ◌⊎◌,
}
use squidlet.Timers.{Timers, no_timers, arm, disarm, armed_for}
use squidlet.Timers.Coherent.{
  Coherent, changed, no_timers-Coherent, arm-Coherent, disarm-Coherent, armed_for-kept,
  kept-armed_for,
}

-- The two fields, as what is kept by the ids `a` and `b`.
abbrev pub two : String → String → Option ℕ → Option ℕ → String → Option ℕ
two a b x y k = if str_eq a k then x else if str_eq b k then y else none

-- `if (this.t) clearTimeout(this.t)` of both.
abbrev pub disarm_both : Option ℕ → Option ℕ → Timers → Timers
disarm_both x y ts = disarm y (disarm x ts)

module _ (a b : String) (apart : str_eq a b ≡ false) where
  first_changed : (x y o : Option ℕ) (k : String) → two a b o y k ≡ changed (two a b x y) a o k
  first_changed x y o k = elim (Bool-cases (str_eq a k)) [ inl e ↦ rw e | inr e ↦ rw e ]

  second_changed : (x y o : Option ℕ) (k : String) → two a b x o k ≡ changed (two a b x y) b o k
  second_changed x y o k = elim (Bool-cases (str_eq a k)) [
    | inl e ↦ rw (e, other_key e)
    | inr e ↦ elim (Bool-cases (str_eq b k)) [ inl e' ↦ rw (e, e') | inr e' ↦ rw (e, e') ]
  ]
    where
      other_key : str_eq a k ≡ true → str_eq b k ≡ false
      other_key e = elim (Bool-cases (str_eq b k)) [
        | inl e' ↦
            let same : a ≡ b = (eq_iff a k).0 e ∙ sym ((eq_iff b k).0 e') in
            absurd (cc (apart, (eq_iff a b).1 same))
        | inr e' ↦ e'
      ]

  second_free : (x y : Option ℕ) → two a b x y b ≡ y
  second_free x y = rw (apart, eq_refl b)

  first_free : (x y : Option ℕ) → two a b x y a ≡ x
  first_free x y = rw (eq_refl a)

  pub no_timers-two : Coherent (two a b none none) no_timers
  no_timers-two = no_timers-Coherent (two a b none none) (λ k. elim (Bool-cases (str_eq a k)) [
    | inl e ↦ rw e
    | inr e ↦ elim (Bool-cases (str_eq b k)) [ inl e' ↦ rw (e, e') | inr e' ↦ rw (e, e') ]
  ])

  pub arm-first :
      (y : Option ℕ) (ts : Timers)
      → Coherent (two a b none y) ts
      → Coherent (two a b (some ts.next) y) (arm a ts)
  arm-first y ts c =
      arm-Coherent (two a b none y) (two a b (some ts.next) y) a ts (first_free none y)
        (first_changed none y (some ts.next)) c

  pub arm-second :
      (x : Option ℕ) (ts : Timers)
      → Coherent (two a b x none) ts
      → Coherent (two a b x (some ts.next)) (arm b ts)
  arm-second x ts c =
      arm-Coherent (two a b x none) (two a b x (some ts.next)) b ts (second_free x none)
        (second_changed x none (some ts.next)) c

  pub disarm-first :
      (x y : Option ℕ) (ts : Timers)
      → Coherent (two a b x y) ts
      → Coherent (two a b none y) (disarm x ts)
  disarm-first x y ts c =
      disarm-Coherent (two a b x y) (two a b none y) a x ts (first_free x y)
        (first_changed x y none) c

  pub disarm-second :
      (x y : Option ℕ) (ts : Timers)
      → Coherent (two a b x y) ts
      → Coherent (two a b x none) (disarm y ts)
  disarm-second x y ts c =
      disarm-Coherent (two a b x y) (two a b x none) b y ts (second_free x y)
        (second_changed x y none) c

  pub disarm_both-two :
      (x y : Option ℕ) (ts : Timers)
      → Coherent (two a b x y) ts
      → Coherent (two a b none none) (disarm_both x y ts)
  disarm_both-two x y ts c = disarm-second none y (disarm x ts) (disarm-first x y ts c)

  -- A timer that fires for a field is the one whose handle the field holds, and the other way round.
  pub fired-first :
      (x y : Option ℕ) (ts : Timers) (h : ℕ)
      → Coherent (two a b x y) ts
      → armed_for h ts.armed ≡ some a
      → x ≡ some h
  fired-first x y ts h c e =
      sym (first_free x y) ∙ armed_for-kept (two a b x y) h a ts.armed c.sound e

  pub fired-second :
      (x y : Option ℕ) (ts : Timers) (h : ℕ)
      → Coherent (two a b x y) ts
      → armed_for h ts.armed ≡ some b
      → y ≡ some h
  fired-second x y ts h c e =
      sym (second_free x y) ∙ armed_for-kept (two a b x y) h b ts.armed c.sound e

  pub held-first :
      (x y : Option ℕ) (ts : Timers) (h : ℕ)
      → Coherent (two a b x y) ts
      → x ≡ some h
      → armed_for h ts.armed ≡ some a
  held-first x y ts h c e = kept-armed_for (two a b x y) h a ts c (first_free x y ∙ e)

  pub held-second :
      (x y : Option ℕ) (ts : Timers) (h : ℕ)
      → Coherent (two a b x y) ts
      → y ≡ some h
      → armed_for h ts.armed ≡ some b
  held-second x y ts h c e = kept-armed_for (two a b x y) h b ts c (second_free x y ∙ e)

  -- Only the two ids are ever armed.
  pub fired_known :
      (x y : Option ℕ) (ts : Timers) (h : ℕ) (id : String)
      → Coherent (two a b x y) ts
      → armed_for h ts.armed ≡ some id
      → (id ≡ a) ⊎ (id ≡ b)
  fired_known x y ts h id c e =
      let k = armed_for-kept (two a b x y) h id ts.armed c.sound e in
      elim (Bool-cases (str_eq a id)) [
        | inl e1 ↦ inl (sym ((eq_iff a id).0 e1))
        | inr e1 ↦ elim (Bool-cases (str_eq b id)) [
          | inl e2 ↦ inr (sym ((eq_iff b id).0 e2))
          | inr e2 ↦ absurd (cc (rw (e1, e2) at k))
        ]
      ]
