-- ===== src/Debounce/Steps.antt =====
-- Each call keeps what holds of the entries, and what a timer does when it fires.
use squidlet.Base.{
  ℕ, zero, suc, ◌≡◌, refl, sym, ap, subst, ◌∙◌, ◌∷◌, Option, none, some, String, str_eq, eq_iff,
  eq_refl, get_elem?, lookup, insert, Dict, lookup-insert, lookup-delete, Bool-cases, Option-cases,
  inl, inr,
}
use squidlet.Timers.{Timers, arm, disarm, armed_for}
use squidlet.Timers.Without.{without_twice}
use squidlet.Timers.Coherent.{
  Coherent, changed, same-Coherent, arm-Coherent, disarm-Coherent, armed_for-kept, kept-armed_for,
}
use squidlet.Promised.{Promised, Outcome, fulfilled, failed, new_promised}
use squidlet.Debounce.{
  Debounce, Item, Variant, debounce_call, debounce_call_increasing, promise, finish, update_item,
  new_item, add_item, invoke, invoke_later, call_cb_immediately, end_of_debounce, call_cb, fire,
}
use squidlet.Debounce.Entries.{
  timeout_of, kept, Inv, kept-insert, found-insert, ended, ended-Inv, clear-Inv, add_item-Inv,
  get_elem?-modify_self,
}

-- What becomes of a promise by what its callback gave.
abbrev pub outcome_of : Option String → Outcome Unit
outcome_of none = fulfilled tt
outcome_of (some err) = failed err

outcome-finish : (r : Option String) → (finish r new_promised).outcome ≡ outcome_of r
outcome-finish none = refl
outcome-finish (some err) = refl

module _ {C : Type 0} where
  -- An entry is replaced by one with the same promise.
  put-Inv :
      (id : String) (it it' : Item C) (ts : Timers) (d : Debounce C)
      → lookup id d.items ≡ some it
      → it'.promise_for_whole_debounce ≡ it.promise_for_whole_debounce
      → Coherent (λ k. timeout_of (lookup k (insert id it' d.items))) ts
      → Inv d
      → Inv (record d { items = insert id it' d.items; timers = ts })
  put-Inv id it it' ts d here same c v =
      let old : (k : String) (a : Item C)
          → lookup k (insert id it' d.items) ≡ some a
          → (b : Item C) × (lookup k d.items ≡ some b)
            × (a.promise_for_whole_debounce ≡ b.promise_for_whole_debounce) =
        λ k a e. elim (found-insert id k it' a d e) [
          | inl (hk, ea) ↦ (
            it,
            ap (λ x. lookup x d.items) (sym hk) ∙ here,
            ap (λ x. x.promise_for_whole_debounce) (sym ea) ∙ same,
          )
          | inr there ↦ (a, there, refl)
        ] in
      record {
        timers = c;
        waits = λ k a e.
            let (b, there, eq) = old k a e in ap (get_elem? d.promises) eq ∙ v.waits k b there;
        apart = λ k l a b e g q.
            let (a', there, eq) = old k a e in
            let (b', there', eq') = old l b g in v.apart k l a' b' there there' (sym eq ∙ q ∙ eq');
      }

  update_item-Inv :
      (w : Variant) (it : Item C) (id : String) (cb : C) (d : Debounce C)
      → lookup id d.items ≡ some it
      → Inv d
      → Inv (update_item w it id cb d)
  unfolding update_item
  update_item-Inv debounce_call it id cb d here v =
      put-Inv id it (record it { last_cb_to_call = cb }) d.timers d here refl
        (same-Coherent (kept d) _ d.timers
          (λ k.
            kept-insert id k (record it { last_cb_to_call = cb }) d
            ∙ elim (Bool-cases (str_eq id k)) [
              | inl same ↦ rw same (sym (ap timeout_of here) ∙ ap (kept d) ((eq_iff id k).0 same))
              | inr other ↦ rw other
            ])
          v.timers)
        v
  update_item-Inv debounce_call_increasing it id cb d here v =
      let gone : String → Option ℕ = changed (kept d) id none in
      put-Inv id it (record it { last_cb_to_call = cb; timeout = d.timers.next })
        (arm id (disarm (some it.timeout) d.timers)) d here refl
        (arm-Coherent gone _ id (disarm (some it.timeout) d.timers) (rw (eq_refl id))
          (λ k.
            kept-insert id k (record it { last_cb_to_call = cb; timeout = d.timers.next }) d
            ∙ elim (Bool-cases (str_eq id k)) [ inl same ↦ rw same | inr other ↦ rw other ])
          (disarm-Coherent (kept d) gone id (some it.timeout) d.timers (ap timeout_of here)
            (λ k. refl) v.timers))
        v

  invoke_later-Inv :
      (w : Variant) (cb : C) (id : String) (o : Option (Item C)) (d : Debounce C)
      → lookup id d.items ≡ o
      → Inv d
      → Inv (invoke_later w cb id o d).0
  invoke_later-Inv w cb id none d e v = add_item-Inv id cb d e v
  invoke_later-Inv w cb id (some it) d e v = update_item-Inv w it id cb d e v

  pub invoke-Inv :
      (w : Variant) (run : C → Option String) (cb : C) (ms : ℕ) (id : String) (d : Debounce C)
      → Inv d
      → Inv (invoke w run cb ms id d).0
  unfolding invoke call_cb_immediately
  invoke-Inv w run cb zero id d v =
      let c = clear-Inv id d v in record { timers = c.timers; waits = c.waits; apart = c.apart }
  invoke-Inv w run cb (suc ms) id d v = invoke_later-Inv w cb id (lookup id d.items) d refl v

  -- The entry's callback is logged, and the entry ends.
  abbrev called : (C → Option String) → String → Item C → Debounce C → Debounce C
  called run id it d =
      ended (finish (run it.last_cb_to_call)) id it
        (record d { calls = it.last_cb_to_call ∷ d.calls })

  fire-called :
      (run : C → Option String) (h : ℕ) (id : String) (d : Debounce C)
      → armed_for h d.timers.armed ≡ some id
      → Inv d
      → (it : Item C) × (lookup id d.items ≡ some it) × (fire run h d ≡ called run id it d)
  unfolding fire call_cb end_of_debounce
  fire-called run h id d e v =
      let k = armed_for-kept (kept d) h id d.timers.armed v.timers.sound e in
      elim (Option-cases (lookup id d.items)) [
        | inl absent ↦ absurd (cc (sym (ap timeout_of absent) ∙ k))
        | inr (it, there) ↦
            let own : it.timeout ≡ h = cc (sym (ap timeout_of there) ∙ k) in
            (
              it,
              there,
              rw (e, fire, there, there, ← own)
                  (ap
                    (λ ts. record (called run id it d) { timers = record d.timers { armed = ts } })
                    (without_twice it.timeout d.timers.armed)),
            )
      ]

  fire_armed-Inv :
      (run : C → Option String) (h : ℕ) (id : String) (d : Debounce C)
      → armed_for h d.timers.armed ≡ some id
      → Inv d
      → Inv (fire run h d)
  fire_armed-Inv run h id d e v =
      let (it, there, same) = fire-called run h id d e v in
      let before : Inv (record d { calls = it.last_cb_to_call ∷ d.calls }) = record {
        timers = v.timers;
        waits = v.waits;
        apart = v.apart;
      } in
      subst Inv (sym same) (ended-Inv (finish (run it.last_cb_to_call)) id it _ there before)

  idle_fire :
      (run : C → Option String) (h : ℕ) (d : Debounce C)
      → armed_for h d.timers.armed ≡ none
      → fire run h d ≡ d
  unfolding fire
  idle_fire run h d idle = rw (idle, fire)

  pub fire-Inv : (run : C → Option String) (h : ℕ) (d : Debounce C) → Inv d → Inv (fire run h d)
  fire-Inv run h d v = elim (Option-cases (armed_for h d.timers.armed)) [
    | inl idle ↦ subst Inv (sym (idle_fire run h d idle)) v
    | inr (id, e) ↦ fire_armed-Inv run h id d e v
  ]

  -- A timer that fires has an entry: its callback, and no other, is called, the promise of the entry
  -- is fulfilled or fails as the callback does, and the entry is gone.
  pub fire_lem :
      (run : C → Option String) (h : ℕ) (id : String) (d : Debounce C)
      → armed_for h d.timers.armed ≡ some id
      → Inv d
      → (it : Item C) × (lookup id d.items ≡ some it)
        × ((fire run h d).calls ≡ it.last_cb_to_call ∷ d.calls)
        × (lookup id (fire run h d).items ≡ none)
        × (get_elem? (fire run h d).promises it.promise_for_whole_debounce
            ≡ some (finish (run it.last_cb_to_call) new_promised))
  fire_lem run h id d e v =
      let (it, there, same) = fire-called run h id d e v in
      (
        it,
        there,
        ap (λ x. x.calls) same,
        ap (λ x. lookup id x.items) same ∙ lookup-delete id id d.items ∙ rw (eq_refl id),
        ap (λ x. get_elem? x.promises it.promise_for_whole_debounce) same
            ∙ get_elem?-modify_self (finish (run it.last_cb_to_call)) it.promise_for_whole_debounce
                d.promises new_promised (v.waits id it there),
      )

  inserted : (id : String) (it : Item C) (m : Dict (Item C)) → lookup id (insert id it m) ≡ some it
  inserted id it m = lookup-insert id id it m ∙ rw (eq_refl id)

  entry_of_update :
      (w : Variant) (it : Item C) (id : String) (cb : C) (d : Debounce C)
      → (it' : Item C) × (lookup id (update_item w it id cb d).items ≡ some it')
        × (it'.last_cb_to_call ≡ cb)
        × (it'.promise_for_whole_debounce ≡ it.promise_for_whole_debounce)
        × ((update_item w it id cb d).calls ≡ d.calls)
  unfolding update_item
  entry_of_update debounce_call it id cb d = (_, inserted id _ d.items, refl, refl, refl)
  entry_of_update debounce_call_increasing it id cb d = (_, inserted id _ d.items, refl, refl, refl)

  entry_of_invoke :
      (w : Variant) (cb : C) (id : String) (o : Option (Item C)) (d : Debounce C)
      → (it : Item C) × (lookup id (invoke_later w cb id o d).0.items ≡ some it)
        × (it.last_cb_to_call ≡ cb)
        × ((invoke_later w cb id o d).1 ≡ promise it.promise_for_whole_debounce)
        × ((invoke_later w cb id o d).0.calls ≡ d.calls)
  unfolding add_item
  entry_of_invoke w cb id none d = (_, inserted id (new_item cb d) d.items, refl, refl, refl)
  entry_of_invoke w cb id (some it) d =
      let (it', there, a, b, c) = entry_of_update w it id cb d in
      (it', there, a, ap promise (sym b), c)

  -- On an object that keeps the invariant, after `invoke` with a time that is not 0, a timer is armed
  -- for the id; when it fires next, the callback of this call is called, not that of an earlier one,
  -- and the promise that this call returned is fulfilled, or fails with the error of the callback.
  pub fire-invoke :
      (w : Variant) (run : C → Option String) (cb : C) (ms : ℕ) (id : String) (d : Debounce C)
      → Inv d
      → (h : ℕ) × (n : ℕ) × (armed_for h (invoke w run cb (suc ms) id d).0.timers.armed ≡ some id)
        × ((invoke w run cb (suc ms) id d).1 ≡ promise n)
        × ((fire run h (invoke w run cb (suc ms) id d).0).calls ≡ cb ∷ d.calls)
        × ((q : Promised Unit) × (get_elem?
                (fire run h (invoke w run cb (suc ms) id d).0).promises
                n
              ≡ some q)
            × (q.outcome ≡ outcome_of (run cb)))
  unfolding invoke
  fire-invoke w run cb ms id d v =
      let d' : Debounce C = (invoke_later w cb id (lookup id d.items) d).0 in
      let (it, there, last, given, calls) = entry_of_invoke w cb id (lookup id d.items) d in
      let v' = invoke_later-Inv w cb id (lookup id d.items) d refl v in
      let armed =
        kept-armed_for (kept d') it.timeout id d'.timers v'.timers (ap timeout_of there) in
      let (it', there', called', gone, settled) = fire_lem run it.timeout id d' armed v' in
      let same : it' ≡ it = cc (sym there' ∙ there) in
      (
        it.timeout,
        it.promise_for_whole_debounce,
        armed,
        given,
        called' ∙ ap (λ x. x.last_cb_to_call ∷ d'.calls) same ∙ rw (last, calls),
        (
          finish (run cb) new_promised,
          ap (λ x. get_elem? (fire run it.timeout d').promises x.promise_for_whole_debounce)
                (sym same)
              ∙ settled
              ∙ ap (λ x. some (finish (run x.last_cb_to_call) new_promised)) same
              ∙ ap (λ c. some (finish (run c) new_promised)) last,
          outcome-finish (run cb),
        ),
      )
