-- ===== src/Throttle/Windows.antt =====
-- The window that a first call opens, and any history of calls on a new object.
use squidlet.Base.{
  ℕ, zero, suc, ◌≡◌, refl, sym, ap, ◌∙◌, List, [], ◌∷◌, Option, none, some, String, lookup,
  Option-cases, inl, inr, Result, ok, ◌>>=◌,
}
use squidlet.Timers.{armed_for}
use squidlet.Timers.Without.{without_twice}
use squidlet.Timers.Coherent.{armed_for-kept}
use squidlet.Promised.{resolve}
use squidlet.Debounce.{Item, init}
use squidlet.Debounce.Entries.{
  timeout_of, kept, Inv, init-Inv, ended, ended-Inv, add_item-Inv, lookup-add_item,
}
use squidlet.Throttle.{
  Throttle, clear_item, clear, call_cb_immediately, invoke_later, invoke, finish, end_of_timeout,
  fire,
}

pub data Call (C : Type 0) : Type 0 where
  invokes : C → ℕ → String → Call C
  clears : String → Call C
  fires : ℕ → Call C

module _ {C : Type 0} where
  clear_item-Inv :
      (id : String) (o : Option (Item C)) (d : Throttle C)
      → lookup id d.items ≡ o
      → Inv d
      → Inv (clear_item id o d)
  clear_item-Inv id none d e v = v
  clear_item-Inv id (some it) d e v = ended-Inv (resolve tt) id it d e v

  invoke_later-Inv :
      (cb : C) (id : String) (o : Option (Item C)) (d : Throttle C)
      → lookup id d.items ≡ o
      → Inv d
      → Inv (invoke_later cb id o d).0
  invoke_later-Inv cb id none d e v =
      let w = add_item-Inv id cb d e v in
      record { timers = w.timers; waits = w.waits; apart = w.apart }
  invoke_later-Inv cb id (some it) d e v = v

  invoke-Inv :
      (run : C → Option String) (cb : C) (ms : ℕ) (id : String) (d : Throttle C)
      → Inv d
      → Inv (invoke run cb ms id d).0
  unfolding invoke call_cb_immediately clear
  invoke-Inv run cb zero id d v =
      let w = clear_item-Inv id (lookup id d.items) d refl v in
      record { timers = w.timers; waits = w.waits; apart = w.apart }
  invoke-Inv run cb (suc ms) id d v = invoke_later-Inv cb id (lookup id d.items) d refl v

  -- A timer that fires has an entry: nothing is thrown, and the entry ends.
  fire-ended :
      (h : ℕ) (id : String) (d : Throttle C)
      → armed_for h d.timers.armed ≡ some id
      → Inv d
      → (it : Item C) × (lookup id d.items ≡ some it) × (fire h d ≡ ok (ended finish id it d))
  unfolding fire end_of_timeout
  fire-ended h id d e v =
      let k = armed_for-kept (kept d) h id d.timers.armed v.timers.sound e in
      elim (Option-cases (lookup id d.items)) [
        | inl absent ↦ absurd (cc (sym (ap timeout_of absent) ∙ k))
        | inr (it, there) ↦
            let own : it.timeout ≡ h = cc (sym (ap timeout_of there) ∙ k) in
            (
              it,
              there,
              rw (e, fire, there, ← own)
                  (ap
                    (λ ts.
                      ok
                        (record (ended finish id it d) { timers = record d.timers { armed = ts } }))
                    (without_twice it.timeout d.timers.armed)),
            )
      ]

  abbrev pub Good : Result (Throttle C) → Type 0
  Good r = (d : Throttle C) × (r ≡ ok d) × Inv d

  fire-Good : (h : ℕ) (d : Throttle C) → Inv d → Good (fire h d)
  unfolding fire
  fire-Good h d v = elim (Option-cases (armed_for h d.timers.armed)) [
    | inl idle ↦ (d, rw (idle, fire), v)
    | inr (id, e) ↦
        let (it, there, same) = fire-ended h id d e v in
        (ended finish id it d, same, ended-Inv finish id it d there v)
  ]

  -- Right after a call of `invoke` with a time that is not 0, a second one for the same id changes
  -- nothing, so its callback is not called, and returns the promise of the first.
  pub invoke-invoke :
      (run : C → Option String) (first later : C) (ms ms' : ℕ) (id : String) (d : Throttle C)
      → invoke run later (suc ms') id (invoke run first (suc ms) id d).0
        ≡ invoke run first (suc ms) id d
  unfolding invoke
  invoke-invoke run first later ms ms' id d = again (lookup id d.items) refl
    where
      again :
          (o : Option (Item C))
          → lookup id d.items ≡ o
          → let r = invoke_later first id o d in invoke_later later id (lookup id r.0.items) r.0 ≡ r
      again (some it) e = rw e
      again none e = rw (lookup-add_item id first d)

module _ {C : Type 0} (run : C → Option String) where
  pub step : Call C → Throttle C → Result (Throttle C)
  step (invokes cb ms id) d = ok (invoke run cb ms id d).0
  step (clears id) d = ok (clear id d)
  step (fires h) d = fire h d

  pub history : List (Call C) → Throttle C → Result (Throttle C)
  history [] d = ok d
  history (c ∷ cs) d = step c d >>= history cs

  step-Good : (c : Call C) (d : Throttle C) → Inv d → Good (step c d)
  unfolding step clear
  step-Good (invokes cb ms id) d v = (_, refl, invoke-Inv run cb ms id d v)
  step-Good (clears id) d v = (_, refl, clear_item-Inv id (lookup id d.items) d refl v)
  step-Good (fires h) d v = fire-Good h d v

  history-Good : (cs : List (Call C)) (d : Throttle C) → Inv d → Good (history cs d)
  unfolding history
  history-Good [] d v = (d, refl, v)
  history-Good (c ∷ cs) d v = let (d', e, w) = step-Good c d v in rw e (history-Good cs d' w)

  -- Over any history of calls of `invoke` and `clear` and of timers that fire on a new object no
  -- timer finds its entry gone, which would throw, and afterwards just the entries have an armed
  -- timer, one each, and a pending promise of their own.
  pub throttle-Good : (cs : List (Call C)) → Good (history cs init)
  throttle-Good cs = history-Good cs init init-Inv
