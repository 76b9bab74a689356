-- ===== src/Timers/Coherent.antt =====
-- The handles that an object keeps by id, and the timers that are armed.
use squidlet.Base.{
  ℕ, suc, ◌<◌, ◌≡◌, ◌≢◌, sym, ap, ◌∙◌, subst, List, [], ◌∷◌, Option, none, some, String, str_eq,
  eq_iff, eq_refl, ◌==◌, ==_iff, if◌then◌else◌, arith, All, All-mono, All-lookup, In, Distinct,
  Bool-cases, inl, inr,
}
use squidlet.Timers.Without.{
  handles, All-without, handles-without, Distinct-without, In-without, one_id, armed_for-In,
  In-handles,
}
use squidlet.Timers.{Timers, no_timers, without, arm, disarm, armed_for}

-- Each timer that is armed is the one kept for its id, each handle that is kept is that of an armed
-- timer, and no two timers have the same handle.
pub record Coherent (kept : String → Option ℕ) (ts : Timers) : Type 0 where
  pub sound : All (λ t. kept t.1 ≡ some t.0) ts.armed
  pub complete : (id : String) (h : ℕ) → kept id ≡ some h → In {A = ℕ × String} (h, id) ts.armed
  pub fresh : All (λ h. h < ts.next) (handles ts.armed)
  pub distinct : Distinct (handles ts.armed)

-- What is kept after a change at one id.
abbrev pub changed : (String → Option ℕ) → String → Option ℕ → String → Option ℕ
changed kept id o k = if str_eq id k then o else kept k

pub no_timers-Coherent :
    (kept : String → Option ℕ) → ((k : String) → kept k ≡ none) → Coherent kept no_timers
no_timers-Coherent kept e = record {
  sound = tt;
  complete = λ id h q. cc (e id);
  fresh = tt;
  distinct = tt;
}

-- The same handles are kept.
pub same-Coherent :
    (kept kept' : String → Option ℕ) (ts : Timers)
    → ((k : String) → kept' k ≡ kept k)
    → Coherent kept ts
    → Coherent kept' ts
same-Coherent kept kept' ts e c = record {
  sound =
      All-mono (λ t. kept t.1 ≡ some t.0) (λ t. kept' t.1 ≡ some t.0) ts.armed (λ t s. e t.1 ∙ s)
        c.sound;
  complete = λ id h q. c.complete id h (sym (e id) ∙ q);
  fresh = c.fresh;
  distinct = c.distinct;
}

pub arm-Coherent :
    (kept kept' : String → Option ℕ) (id : String) (ts : Timers)
    → kept id ≡ none
    → ((k : String) → kept' k ≡ changed kept id (some ts.next) k)
    → Coherent kept ts
    → Coherent kept' (arm id ts)
arm-Coherent kept kept' id ts free e c = record {
  sound = (
    e id ∙ rw (eq_refl id),
    All-mono (λ t. kept t.1 ≡ some t.0) (λ t. kept' t.1 ≡ some t.0) ts.armed
        (λ t s. e t.1 ∙ elim (Bool-cases (str_eq id t.1)) [
          | inl same ↦ absurd (cc (sym s ∙ ap kept (sym ((eq_iff id t.1).0 same)) ∙ free))
          | inr other ↦ rw other s
        ])
        c.sound,
  );
  complete = λ k h q. found k h (sym (e k) ∙ q);
  fresh = (
    omega arith,
    All-mono (λ h. h < ts.next) (λ h. h < suc ts.next) (handles ts.armed) (λ h b. omega arith)
        c.fresh,
  );
  distinct = (
    All-mono (λ h. h < ts.next) (λ h. h ≢ ts.next) (handles ts.armed)
        (λ h b q. absurd (omega (arith, q))) c.fresh,
    c.distinct,
  );
}
  where
    found :
        (k : String) (h : ℕ)
        → changed kept id (some ts.next) k ≡ some h
        → In {A = ℕ × String} (h, k) ((ts.next, id) ∷ ts.armed)
    found k h q = elim (Bool-cases (str_eq id k)) [
      | inl same ↦
          let eq : id ≡ k = (eq_iff id k).0 same in
          let n : ts.next ≡ h = cc (rw same at q) in inl (rw (eq, n))
      | inr other ↦ inr (c.complete k h (rw other at q))
    ]

disarm_kept :
    (kept kept' : String → Option ℕ) (id : String) (h : ℕ) (ts : Timers)
    → kept id ≡ some h
    → ((k : String) → kept' k ≡ changed kept id none k)
    → Coherent kept ts
    → Coherent kept' (disarm (some h) ts)
disarm_kept kept kept' id h ts here e c = record {
  sound =
      All-without (λ t. kept t.1 ≡ some t.0) (λ t. kept' t.1 ≡ some t.0) h ts.armed
        (λ t ne s. e t.1 ∙ elim (Bool-cases (str_eq id t.1)) [
          | inl same ↦ absurd (ne (cc (sym s ∙ ap kept (sym ((eq_iff id t.1).0 same)) ∙ here)))
          | inr other ↦ rw other s
        ])
        c.sound;
  complete = λ k n q. found k n (sym (e k) ∙ q);
  fresh = handles-without (λ x. x < ts.next) h ts.armed c.fresh;
  distinct = Distinct-without h ts.armed c.distinct;
}
  where
    found :
        (k : String) (n : ℕ)
        → changed kept id none k ≡ some n
        → In {A = ℕ × String} (n, k) (without h ts.armed)
    found k n q = elim (Bool-cases (str_eq id k)) [
      | inl same ↦ absurd (cc (rw same at q))
      | inr other ↦
          let m = c.complete k n (rw other at q) in
          In-without h n k ts.armed
            (λ eq. cc (
              other,
              (eq_iff id k).1 (
                  one_id h id k ts.armed c.distinct (c.complete id h here)
                    (subst (λ x. In {A = ℕ × String} (x, k) ts.armed) eq m)),
            ))
            m
    ]

-- `clearTimeout` of the handle that is kept for an id, if there is one, together with the end of
-- that entry.
pub disarm-Coherent :
    (kept kept' : String → Option ℕ) (id : String) (o : Option ℕ) (ts : Timers)
    → kept id ≡ o
    → ((k : String) → kept' k ≡ changed kept id none k)
    → Coherent kept ts
    → Coherent kept' (disarm o ts)
disarm-Coherent kept kept' id none ts here e c =
    same-Coherent kept kept' ts
      (λ k. e k ∙ elim (Bool-cases (str_eq id k)) [
        | inl same ↦ rw same (sym here ∙ ap kept ((eq_iff id k).0 same))
        | inr other ↦ rw other
      ])
      c
disarm-Coherent kept kept' id (some h) ts here e c = disarm_kept kept kept' id h ts here e c

-- A timer that fires is the one that is kept for its id.
pub armed_for-kept :
    (kept : String → Option ℕ) (h : ℕ) (id : String) (ts : List (ℕ × String))
    → All (λ t. kept t.1 ≡ some t.0) ts
    → armed_for h ts ≡ some id
    → kept id ≡ some h
armed_for-kept kept h id [] a e = cc
armed_for-kept kept h id (t ∷ ts) a e = elim (Bool-cases (t.0 == h)) [
  | inl same ↦
      let here : t.1 ≡ id = cc (rw same at e) in
      ap kept (sym here) ∙ a.0 ∙ ap some ((==_iff t.0 h).0 same)
  | inr other ↦ armed_for-kept kept h id ts a.1 (rw other at e)
]

-- The timer of an entry is armed.
pub kept-armed_for :
    (kept : String → Option ℕ) (h : ℕ) (id : String) (ts : Timers)
    → Coherent kept ts
    → kept id ≡ some h
    → armed_for h ts.armed ≡ some id
kept-armed_for kept h id ts c e = armed_for-In h id ts.armed c.distinct (c.complete id h e)

-- The handle of an entry was given before.
pub kept-next :
    (kept : String → Option ℕ) (h : ℕ) (id : String) (ts : Timers)
    → Coherent kept ts
    → kept id ≡ some h
    → h < ts.next
kept-next kept h id ts c e =
    All-lookup (λ x. x < ts.next) (handles ts.armed) h c.fresh
      (In-handles h id ts.armed (c.complete id h e))
