-- ===== src/Events/Emitter/Unnamed.antt =====
-- `removeListener(handlerIndex)` with no event name, system/lib/IndexedEventEmitter.ts: it splices
-- its event's list at the handler's index, not at the place where the index was found.
use squidlet.Base.{
  ℕ, suc, ◌≡◌, refl, sym, ap, ◌≢◌, ◌∙◌, ◌≤◌, List, [], ◌∷◌, Option, none, some, some_or, subst,
  Dict, String, length, All, All-mono, All-lookup, In, Bool-cases, Option-cases, inl, inr, str_eq,
  eq_iff, set, lookup, keys, remove_at, remove_at-of_ge, lookup-insert, eq_refl, zero, ==_iff, ◌==◌,
}
use squidlet.Events.Emitter.{
  quiet, Emitter, Listener, plain, wrapper, handler_at, remove_listener, remove_listener_unnamed,
  remove_anywhere, find_index, emit, emit_loop, call_listener, call_then, put_indexes,
  clear_handler, target, Emitted,
}
use squidlet.Events.Emitter.Coherent.{find_index_of_In}
use squidlet.Events.Emitter.Invariant.{IsCoherent, indexes_of}

find_index-none : (i : ℕ) (js : List ℕ) → All (λ j. j ≢ i) js → find_index i js ≡ none
unfolding find_index
find_index-none i [] h = refl
find_index-none i (j ∷ js) h = elim (Bool-cases (j == i)) [
  | inl same ↦ absurd (h.0 ((==_iff j i).0 same))
  | inr other ↦ rw (other, find_index-none i js h.1)
]

In-keys : {V : Type 0} (ev : String) (v : V) (m : Dict V) → lookup ev m ≡ some v → In ev (keys m)
unfolding lookup
In-keys ev v [] e = cc
In-keys ev v ((k, w) ∷ m) e = elim (Bool-cases (str_eq k ev)) [
  | inl same ↦ inl ((eq_iff k ev).0 same)
  | inr other ↦ inr (In-keys ev v m (rw (other, lookup) at e))
]

module _ {H : Type 0} where
  pub handler_at-cleared :
      (hs : List (Option (Listener H))) (i : ℕ) → handler_at (set hs i none) i ≡ none
  handler_at-cleared [] i = refl
  handler_at-cleared (h ∷ hs) zero = refl
  handler_at-cleared (h ∷ hs) (suc i) = handler_at-cleared hs i

  handler_at-set :
      (hs : List (Option (Listener H))) (i j : ℕ)
      → handler_at hs i ≡ none
      → handler_at (set hs j none) i ≡ none
  handler_at-set [] i j e = refl
  handler_at-set (h ∷ hs) zero zero e = refl
  handler_at-set (h ∷ hs) zero (suc j) e = e
  handler_at-set (h ∷ hs) (suc i) zero e = e
  handler_at-set (h ∷ hs) (suc i) (suc j) e = handler_at-set hs i j e

  call_listener-hole :
      (h : Listener H) (i : ℕ) (e : Emitter H)
      → handler_at e.handlers i ≡ none
      → handler_at (call_listener h e).handlers i ≡ none
  unfolding call_listener
  call_listener-hole (plain h) i e hole = hole
  call_listener-hole (wrapper h w ev) i e hole = elim (Option-cases (lookup ev e.indexes)) [
    | inl absent ↦ rw (absent, remove_listener) hole
    | inr (is, there) ↦ elim (Option-cases (find_index w is)) [
      | inl missing ↦ rw (there, remove_listener, missing) hole
      | inr (p, found) ↦ rw (there, remove_listener, found) (handler_at-set e.handlers i w hole)
    ]
  ]

  call_then-hole :
      (r : Option String) (h : Listener H) (i : ℕ) (e : Emitter H) (rest : Emitter H → Emitted H)
      → ((e' : Emitter H) → handler_at e'.handlers i ≡ none → (rest e').error ≢ none)
      → handler_at e.handlers i ≡ none
      → (call_then quiet r h e rest).error ≢ none
  call_then-hole (some err) h i e rest keep hole = λ q. cc
  call_then-hole none h i e rest keep hole = keep _ (call_listener-hole h i e hole)

  -- A loop over indexes that meets a hole ends with an error.
  emit_loop-hole :
      (run : H → Option String) (i : ℕ) (is : List ℕ) (e : Emitter H)
      → In i is
      → handler_at e.handlers i ≡ none
      → (emit_loop quiet run is e).error ≢ none
  unfolding emit_loop
  emit_loop-hole run i [] e m hole = elim m [ ]
  emit_loop-hole run i (j ∷ is) e (inl same) hole = rw (same, hole, emit_loop) (λ q. cc)
  emit_loop-hole run i (j ∷ is) e (inr m) hole = elim (Option-cases (handler_at e.handlers j)) [
    | inl empty ↦ rw (empty, emit_loop) (λ q. cc)
    | inr (h, at) ↦
        rw (at, emit_loop)
          (call_then-hole (run (target h)) h i e (emit_loop quiet run is)
            (λ e'. emit_loop-hole run i is e' m) hole)
  ]

  abbrev spliced : ℕ → String → Emitter H → Emitter H
  spliced i ev e = record e {
    handlers = clear_handler i e.handlers;
    indexes = put_indexes ev (remove_at (indexes_of e ev) i) e.indexes;
  }

  remove_anywhere_lem :
      (i : ℕ) (ev : String) (evs : List String) (e : Emitter H)
      → In ev evs
      → In i (indexes_of e ev)
      → ((k : String) → ev ≢ k → All (λ j. j ≢ i) (indexes_of e k))
      → remove_anywhere i evs e ≡ spliced i ev e
  unfolding remove_anywhere
  remove_anywhere_lem i ev [] e m listed others = elim m [ ]
  remove_anywhere_lem i ev (k ∷ evs) e m listed others = elim (Bool-cases (str_eq ev k)) [
    | inl same ↦
        let eq : ev ≡ k = (eq_iff ev k).0 same in
        let (p, found) =
          find_index_of_In i (indexes_of e k) (subst (λ x. In i (indexes_of e x)) eq listed) in
        rw (found, remove_anywhere) (ap (λ x. spliced i x e) (sym eq))
    | inr other ↦
        let ne : ev ≢ k = λ q. cc ((eq_iff ev k).1 q) in
        rw (find_index-none i (indexes_of e k) (others k ne), remove_anywhere)
          (remove_anywhere_lem i ev evs e (rest ne m) listed others)
  ]
    where
      rest : ev ≢ k → In ev (k ∷ evs) → In ev evs
      rest ne (inl same) = absurd (ne (sym same))
      rest ne (inr m') = m'

  emit-hole :
      (run : H → Option String) (ev : String) (is : List ℕ) (i : ℕ) (e : Emitter H)
      → lookup ev e.indexes ≡ some is
      → In i is
      → handler_at e.handlers i ≡ none
      → (emit quiet run ev e).error ≢ none
  unfolding emit
  emit-hole run ev is i e there m hole = rw (there, emit) (emit_loop-hole run i is e m hole)

  -- The call without an event name, on a coherent emitter and an index `i` that is not smaller than
  -- the number of its event's listeners, no handler calling the emitter: the handler is gone, the list
  -- of the event's indexes is as it was, with the index in it, and an `emit` of the event that comes
  -- next ends with an error.
  pub emit-remove_listener_unnamed :
      (run : H → Option String) (i : ℕ) (ev : String) (is : List ℕ) (e : Emitter H)
      → IsCoherent e
      → lookup ev e.indexes ≡ some is
      → In i is
      → length is ≤ i
      → (handler_at (remove_listener_unnamed i e).handlers i ≡ none)
        × (lookup ev (remove_listener_unnamed i e).indexes ≡ some is)
        × ((emit quiet run ev (remove_listener_unnamed i e)).error ≢ none)
  unfolding remove_listener_unnamed
  emit-remove_listener_unnamed run i ev [] e c there m h = elim m [ ]
  emit-remove_listener_unnamed run i ev (j ∷ js) e c there m h =
      let here : indexes_of e ev ≡ j ∷ js = ap (some_or []) there in
      let listed : In i (indexes_of e ev) = rw here m in
      let others : (k : String) → ev ≢ k → All (λ j. j ≢ i) (indexes_of e k) = λ k ne.
        All-mono (λ j. All (λ x. x ≢ j) (indexes_of e ev)) (λ j. j ≢ i) (indexes_of e k)
          (λ x d q. All-lookup (λ y. y ≢ x) (indexes_of e ev) i d listed (sym q))
          (c.apart ev k ne) in
      let changed : remove_listener_unnamed i e ≡ spliced i ev e =
        remove_anywhere_lem i ev (keys e.indexes) e (In-keys ev (j ∷ js) e.indexes there) listed
          others in
      let kept : remove_at (indexes_of e ev) i ≡ j ∷ js = rw here (remove_at-of_ge (j ∷ js) i h) in
      let found : lookup ev (spliced i ev e).indexes ≡ some (j ∷ js) =
        ap (λ xs. lookup ev (put_indexes ev xs e.indexes)) kept
        ∙ lookup-insert ev ev (j ∷ js) e.indexes
        ∙ rw (eq_refl ev) in
      rw changed (
        handler_at-cleared e.handlers i,
        found,
        emit-hole run ev (j ∷ js) i (spliced i ev e) found m (handler_at-cleared e.handlers i),
      )
