-- ===== src/Debounce/Entries.antt =====
-- What holds of the entries, the timers and the promises between calls.
use squidlet.Base.{
  ℕ, zero, suc, ◌<◌, ◌≡◌, ◌≢◌, ◌⊎◌, refl, sym, ap, ◌∙◌, List, [], ◌∷◌, ◌++◌, Option, none, some,
  String, str_eq, eq_iff, eq_refl, length, get_elem?, get_elem?-append_left, get_elem?-append_self,
  lt-length_of_get, lookup, insert, delete, lookup-insert, lookup-delete, arith, Bool-cases, inl,
  inr,
}
use squidlet.Timers.{disarm}
use squidlet.Timers.Coherent.{Coherent, changed, no_timers-Coherent, arm-Coherent, disarm-Coherent}
use squidlet.Promised.{Promised, new_promised, destroy}
use squidlet.Debounce.{Debounce, Item, modify, init, clear, clear_item, new_item, add_item}

module _ {ℓ} {A : Type ℓ} where
  get_elem?-modify_ne :
      (f : A → A) (i j : ℕ) (xs : List A) → i ≢ j → get_elem? (modify f i xs) j ≡ get_elem? xs j
  get_elem?-modify_ne f i j [] ne = refl
  get_elem?-modify_ne f zero zero (x ∷ xs) ne = absurd (ne refl)
  get_elem?-modify_ne f zero (suc j) (x ∷ xs) ne = refl
  get_elem?-modify_ne f (suc i) zero (x ∷ xs) ne = refl
  get_elem?-modify_ne f (suc i) (suc j) (x ∷ xs) ne =
      get_elem?-modify_ne f i j xs (λ e. ne (ap suc e))

  pub get_elem?-modify_self :
      (f : A → A) (i : ℕ) (xs : List A) (x : A)
      → get_elem? xs i ≡ some x
      → get_elem? (modify f i xs) i ≡ some (f x)
  get_elem?-modify_self f i [] x e = cc
  get_elem?-modify_self f zero (y ∷ xs) x e =
      ap (λ o. elim o [ none ↦ none | some z ↦ some (f z) ]) e
  get_elem?-modify_self f (suc i) (y ∷ xs) x e = get_elem?-modify_self f i xs x e

module _ {C : Type 0} where
  abbrev pub timeout_of : Option (Item C) → Option ℕ
  timeout_of none = none
  timeout_of (some it) = some it.timeout

  abbrev pub kept : Debounce C → String → Option ℕ
  kept d id = timeout_of (lookup id d.items)

  -- The timers are those of the entries, the promise of each entry is pending, and no two entries
  -- share one.
  pub record Inv (d : Debounce C) : Type 0 where
    pub timers : Coherent (kept d) d.timers
    pub waits :
        (id : String) (it : Item C)
        → lookup id d.items ≡ some it
        → get_elem? d.promises it.promise_for_whole_debounce ≡ some new_promised
    pub apart :
        (id k : String) (a b : Item C)
        → lookup id d.items ≡ some a
        → lookup k d.items ≡ some b
        → a.promise_for_whole_debounce ≡ b.promise_for_whole_debounce
        → id ≡ k

  pub init-Inv : Inv (init {C = C})
  unfolding lookup
  init-Inv = record {
    timers = no_timers-Coherent _ (λ k. refl);
    waits = λ id it e. cc;
    apart = λ id k a b e f g. cc;
  }

  pub kept-insert :
      (id k : String) (it : Item C) (d : Debounce C)
      → timeout_of (lookup k (insert id it d.items)) ≡ changed (kept d) id (some it.timeout) k
  kept-insert id k it d =
      rw (lookup-insert id k it d.items)
        (elim (Bool-cases (str_eq id k)) [ inl same ↦ rw same | inr other ↦ rw other ])

  pub kept-delete :
      (id k : String) (d : Debounce C)
      → timeout_of (lookup k (delete id d.items)) ≡ changed (kept d) id none k
  kept-delete id k d =
      rw (lookup-delete id k d.items)
        (elim (Bool-cases (str_eq id k)) [ inl same ↦ rw same | inr other ↦ rw other ])

  -- An entry found after a deletion is another entry found before.
  pub found-delete :
      (id k : String) (a : Item C) (d : Debounce C)
      → lookup k (delete id d.items) ≡ some a
      → (lookup k d.items ≡ some a) × (id ≢ k)
  found-delete id k a d e = elim (Bool-cases (str_eq id k)) [
    | inl same ↦ absurd (cc (rw (lookup-delete id k d.items, same) at e))
    | inr other ↦ (rw (lookup-delete id k d.items, other) at e, λ q. cc (other, (eq_iff id k).1 q))
  ]

  pub found-insert :
      (id k : String) (it a : Item C) (d : Debounce C)
      → lookup k (insert id it d.items) ≡ some a
      → ((id ≡ k) × (it ≡ a)) ⊎ (lookup k d.items ≡ some a)
  found-insert id k it a d e = elim (Bool-cases (str_eq id k)) [
    | inl same ↦ inl ((eq_iff id k).0 same, cc (rw (lookup-insert id k it d.items, same) at e))
    | inr other ↦ inr (rw (lookup-insert id k it d.items, other) at e)
  ]

  -- The end of an entry, whatever becomes of its promise.
  abbrev pub ended : (Promised Unit → Promised Unit) → String → Item C → Debounce C → Debounce C
  ended f id it d = record d {
    timers = disarm (some it.timeout) d.timers;
    items = delete id d.items;
    promises = modify f it.promise_for_whole_debounce d.promises;
  }

  pub ended-Inv :
      (f : Promised Unit → Promised Unit) (id : String) (it : Item C) (d : Debounce C)
      → lookup id d.items ≡ some it
      → Inv d
      → Inv (ended f id it d)
  ended-Inv f id it d here v = record {
    timers =
        disarm-Coherent (kept d) (kept (ended f id it d)) id (some it.timeout) d.timers
          (ap timeout_of here) (λ k. kept-delete id k d) v.timers;
    waits = λ k a e.
        let (there, ne) = found-delete id k a d e in
        get_elem?-modify_ne f it.promise_for_whole_debounce a.promise_for_whole_debounce d.promises
          (λ q. ne (v.apart id k it a here there q))
        ∙ v.waits k a there;
    apart =
        λ k l a b e g q. v.apart k l a b (found-delete id k a d e).0 (found-delete id l b d g).0 q;
  }

  clear_item-Inv :
      (id : String) (o : Option (Item C)) (d : Debounce C)
      → lookup id d.items ≡ o
      → Inv d
      → Inv (clear_item id o d)
  clear_item-Inv id none d e v = v
  clear_item-Inv id (some it) d e v = ended-Inv destroy id it d e v

  pub clear-Inv : (id : String) (d : Debounce C) → Inv d → Inv (clear id d)
  unfolding clear
  clear-Inv id d v = clear_item-Inv id (lookup id d.items) d refl v

  pub add_item-Inv :
      (id : String) (cb : C) (d : Debounce C)
      → lookup id d.items ≡ none
      → Inv d
      → Inv (add_item id cb d)
  unfolding add_item
  add_item-Inv id cb d free v =
      let older : (k : String) (a : Item C)
          → lookup k d.items ≡ some a
          → a.promise_for_whole_debounce < length d.promises =
        λ k a e.
          lt-length_of_get d.promises a.promise_for_whole_debounce new_promised (v.waits k a e) in
      record {
        timers =
            arm-Coherent (kept d) _ id d.timers (ap timeout_of free)
              (λ k. kept-insert id k (new_item cb d) d) v.timers;
        waits = λ k a e. elim (found-insert id k (new_item cb d) a d e) [
          | inl (_, eq) ↦
              ap (λ x. get_elem? (d.promises ++ new_promised ∷ []) x.promise_for_whole_debounce)
                (sym eq)
              ∙ get_elem?-append_self d.promises new_promised
          | inr there ↦
              get_elem?-append_left d.promises (new_promised ∷ []) a.promise_for_whole_debounce
                (older k a there)
              ∙ v.waits k a there
        ];
        apart = λ k l a b e g q. elim (found-insert id k (new_item cb d) a d e) [
          | inl (hk, ea) ↦ elim (found-insert id l (new_item cb d) b d g) [
            | inl (hl, eb) ↦ sym hk ∙ hl
            | inr there ↦
                absurd
                  (omega (arith, older l b there, q, ap (λ x. x.promise_for_whole_debounce) ea))
          ]
          | inr there ↦ elim (found-insert id l (new_item cb d) b d g) [
            | inl (hl, eb) ↦
                absurd
                  (omega (arith, older k a there, q, ap (λ x. x.promise_for_whole_debounce) eb))
            | inr there' ↦ v.apart k l a b there there' q
          ]
        ];
      }

  pub lookup-add_item :
      (id : String) (cb : C) (d : Debounce C)
      → lookup id (add_item id cb d).items ≡ some (new_item cb d)
  unfolding add_item
  lookup-add_item id cb d = lookup-insert id id (new_item cb d) d.items ∙ rw (eq_refl id)
