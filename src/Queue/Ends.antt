-- ===== src/Queue/Ends.antt =====
-- The job that ends, system/lib/Queue.ts: its callback and its timer are those of the current job.
use squidlet.Base.{
  ℕ, zero, suc, ◌≡◌, refl, ap, ◌∙◌, List, [], ◌∷◌, ◌++◌, Option, none, some, option_list, false,
  length, get_elem?, remove_at, arith, In, Distinct, inl, inr,
}
use squidlet.Queue.{Job, Flight, Timer, ids, mark, clear_timeout}
use squidlet.Queue.Invariant.{Armed, live, live-mark_current, live-remove_at}

module _ {C : Type 0} where
  pub waiting_of :
      (c : Option (Job C)) (js : List (Job C))
      → Distinct (ids (option_list c ++ js))
      → Distinct (ids js)
  waiting_of none js d = d
  waiting_of (some j) js d = d.1

  pub Armed-cleared :
      (c : Option (Job C)) (r : Option ℕ) (ts : List (Timer C))
      → Armed c r ts
      → clear_timeout r ts ≡ []
  Armed-cleared none r ts a = rw (a.0, a.1)
  Armed-cleared (some j) r ts (h, e, t) = rw (e, t) (ground arith)

  pub Armed-fired :
      (c : Option (Job C)) (r : Option ℕ) (ts : List (Timer C)) (i : ℕ) (t : Timer C)
      → Armed c r ts
      → get_elem? ts i ≡ some t
      → (c ≡ some t.job) × (clear_timeout r (remove_at ts i) ≡ [])
  Armed-fired none r ts i t a e = absurd (cc (rw a.1 at e))
  Armed-fired (some j) r ts zero t (h, er, et) e =
      let same : record { handle = h; job = j } ≡ t = cc (rw et at e) in
      (ap (λ x. some x.job) same, rw (er, et) (refl))
  Armed-fired (some j) r ts (suc i) t (h, er, et) e = absurd (cc (rw et at e))

  pub empty_of_length : (fs : List (Job C)) → 1 ≡ suc (length fs) → fs ≡ []
  empty_of_length [] e = refl
  empty_of_length (x ∷ fs) e = absurd (omega arith)

  pub settled_alive :
      (c : Option (Job C)) (fs : List (Flight C)) (i : ℕ) (f : Flight C)
      → live fs ≡ option_list c
      → get_elem? fs i ≡ some f
      → f.canceled ≡ false
      → (c ≡ some f.job) × (live (remove_at fs i) ≡ [])
  settled_alive none fs i f r e on = elim (rw r at (live-remove_at fs i f e on).0) [ ]
  settled_alive (some j) fs i f r e on =
      let both = live-remove_at fs i f e on in
      (only (rw r at both.0), empty_of_length _ (rw r at both.1))
    where
      only : In f.job (j ∷ []) → some j ≡ some f.job
      only (inl same) = ap some same
      only (inr m) = elim m [ ]

  pub alive_marked :
      (c : Option (Job C)) (j : Job C) (fs : List (Flight C))
      → c ≡ some j
      → live fs ≡ option_list c
      → live (mark j.uid fs) ≡ []
  alive_marked c j fs e r = live-mark_current j fs (r ∙ ap option_list e)
