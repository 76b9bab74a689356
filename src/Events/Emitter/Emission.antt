-- ===== src/Events/Emitter/Emission.antt =====
-- What `emit` and `getListeners` of system/lib/IndexedEventEmitter.ts give on a coherent emitter.
use squidlet.Base.{
  ℕ, ◌≡◌, refl, sym, ap, ◌≢◌, ◌∙◌, List, [], ◌∷◌, ◌++◌, Option, none, some, some_or, String, All,
  All-both, Distinct, Option-cases, inl, inr, ◌⊎◌, set, ok, lookup, map, get_elem?-set_ne,
}
use squidlet.Events.Handler.{deliver, call_and}
use squidlet.Events.Emitter.{
  quiet, Emitter, Listener, plain, wrapper, call_listener, Emitted, emit_loop, emit, handler_at,
  target, collect, get_listeners, remove_listener, find_index,
}
use squidlet.Events.Emitter.Coherent.{Own, Owned, Owned-set}
use squidlet.Events.Emitter.Invariant.{IsCoherent, indexes_of}

module _ {H : Type 0} where
  abbrev pub entry : Option (Listener H) → List (Listener H)
  entry none = []
  entry (some h) = h ∷ []

  -- The listeners at the given indexes.
  abbrev pub standing : List (Option (Listener H)) → List ℕ → List (Listener H)
  standing hs [] = []
  standing hs (i ∷ is) = entry (handler_at hs i) ++ standing hs is

  abbrev pub outcome : Emitted H → List H × Option String
  outcome r = (r.calls, r.error)

  pub standing-set :
      (hs : List (Option (Listener H))) (i : ℕ) (is : List ℕ)
      → All (λ j. j ≢ i) is
      → standing (set hs i none) is ≡ standing hs is
  standing-set hs i [] ne = refl
  standing-set hs i (j ∷ is) ne =
      rw (get_elem?-set_ne hs {i = i} {j = j} none (λ e. ne.0 (sym e)), standing-set hs i is ne.1)

  -- Calling a listener leaves the handlers, but for the place of a wrapper.
  call_listener-handlers :
      (h : Listener H) (ev : String) (i : ℕ) (e : Emitter H)
      → Own i ev h
      → ((call_listener h e).handlers ≡ e.handlers)
        ⊎ ((call_listener h e).handlers ≡ set e.handlers i none)
  unfolding call_listener
  call_listener-handlers (plain h) ev i e own = inl refl
  call_listener-handlers (wrapper h w ev') ev i e own = elim (Option-cases (lookup ev' e.indexes)) [
    | inl absent ↦ inl (rw (absent, remove_listener))
    | inr (is, there) ↦ elim (Option-cases (find_index w is)) [
      | inl missing ↦ inl (rw (there, remove_listener, missing))
      | inr (p, found) ↦ inr (rw (there, remove_listener, found, own.0))
    ]
  ]

  after_own :
      (P : List (Option (Listener H)) → Type 0) (h : Listener H) (ev : String) (i : ℕ)
      (e : Emitter H)
      → Own i ev h
      → P e.handlers
      → P (set e.handlers i none)
      → P (call_listener h e).handlers
  after_own P h ev i e own p q = elim (call_listener-handlers h ev i e own) [
    | inl same ↦ rw same p
    | inr cleared ↦ rw cleared q
  ]

  emit_loop_lem :
      (run : H → Option String) (ev : String) (is : List ℕ) (e : Emitter H)
      → Distinct is
      → All (Owned ev e.handlers) is
      → outcome (emit_loop quiet run is e) ≡ deliver run (map target (standing e.handlers is))
  unfolding emit_loop
  emit_loop_lem run ev [] e d o = refl
  emit_loop_lem run ev (i ∷ is) e d o =
      let (h, at, own) = o.0 in
      let e' = call_listener h e in
      let same : standing e'.handlers is ≡ standing e.handlers is =
        after_own (λ hs. standing hs is ≡ standing e.handlers is) h ev i e own refl
          (standing-set e.handlers i is d.0) in
      let still : All (Owned ev e'.handlers) is =
        after_own (λ hs. All (Owned ev hs) is) h ev i e own o.1
          (All-both (λ j. j ≢ i) (Owned ev e.handlers) _ is (λ j. Owned-set ev e.handlers i j) d.0
            o.1) in
      let ih = emit_loop_lem run ev is e' d.1 still in
      elim (Option-cases (run (target h))) [
        | inl fine ↦
            rw (at, emit_loop, fine)
              (ap (call_and none (target h)) (ih ∙ ap (λ ls. deliver run (map target ls)) same))
        | inr (err, bad) ↦ rw (at, emit_loop, bad)
      ]

  collect_lem :
      (ev : String) (hs : List (Option (Listener H))) (is : List ℕ)
      → All (Owned ev hs) is
      → collect hs is ≡ ok (standing hs is)
  unfolding collect
  collect_lem ev hs [] o = refl
  collect_lem ev hs (i ∷ is) o = rw (o.0.1, collect, collect_lem ev hs is o.1)

  -- On a coherent emitter `emit` never misses a handler: it calls the listeners of the event in the
  -- order of registration, up to the first that throws, and throws just that error; the wrappers
  -- that remove themselves meanwhile change nothing of this.
  pub emit-delivers :
      (run : H → Option String) (ev : String) (e : Emitter H)
      → IsCoherent e
      → outcome (emit quiet run ev e)
        ≡ deliver run (map target (standing e.handlers (indexes_of e ev)))
  unfolding emit
  emit-delivers run ev e c = elim (Option-cases (lookup ev e.indexes)) [
    | inl absent ↦ rw (absent, emit)
    | inr (is, there) ↦
        let here : indexes_of e ev ≡ is = ap (some_or []) there in
        rw (there, emit)
          (emit_loop_lem run ev is e (rw here at (c.distinct ev)) (rw here at (c.owned ev)))
  ]

  -- On a coherent emitter `getListeners` never throws.
  pub get_listeners-standing :
      (ev : String) (e : Emitter H)
      → IsCoherent e
      → get_listeners ev e ≡ ok (standing e.handlers (indexes_of e ev))
  unfolding get_listeners
  get_listeners-standing ev e c = elim (Option-cases (lookup ev e.indexes)) [
    | inl absent ↦ rw (absent, get_listeners)
    | inr (is, there) ↦
        let here : indexes_of e ev ≡ is = ap (some_or []) there in
        rw (there, get_listeners) (collect_lem ev e.handlers is (rw here at (c.owned ev)))
  ]
