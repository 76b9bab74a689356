-- ===== src/Events/Emitter/Invariant.antt =====
-- system/lib/IndexedEventEmitter.ts: the indexes of an emitter agree with its handlers, and each
-- method but `removeListener` with no event name keeps that.
use squidlet.Base.{
  ℕ, ◌≡◌, sym, ap, subst, List, [], ◌∷◌, ◌++◌, Option, none, some, some_or, String, length,
  remove_at, Bool-cases, Option-cases, inl, inr, str_eq, fun_ext, Dict, lookup, insert, delete,
  lookup-insert, lookup-delete,
}
use squidlet.Events.Emitter.{
  quiet, Emitter, Listener, plain, wrapper, clear_handler, clear_all, put_indexes, find_index, init,
  add_listener, remove_listener, remove_all_listeners, call_listener, Emitted, emit_loop, emit,
  call_then, handler_at, target,
}
use squidlet.Events.Emitter.Coherent.{Coherent, Own, remove_at-find_index}
use squidlet.Events.Emitter.Changes.{at_name, Coherent-append, Coherent-erase, Coherent-clear_all}

pub indexes-insert :
    (ev k : String) (is : List ℕ) (m : Dict (List ℕ))
    → some_or [] (lookup k (insert ev is m)) ≡ at_name ev is (λ j. some_or [] (lookup j m)) k
indexes-insert ev k is m =
    rw (lookup-insert ev k is m)
      (elim (Bool-cases (str_eq ev k)) [ inl same ↦ rw same | inr other ↦ rw other ])

pub indexes-delete :
    (ev k : String) (m : Dict (List ℕ))
    → some_or [] (lookup k (delete ev m)) ≡ at_name ev [] (λ j. some_or [] (lookup j m)) k
indexes-delete ev k m =
    rw (lookup-delete ev k m)
      (elim (Bool-cases (str_eq ev k)) [ inl same ↦ rw same | inr other ↦ rw other ])

pub indexes-put :
    (ev k : String) (is : List ℕ) (m : Dict (List ℕ))
    → some_or [] (lookup k (put_indexes ev is m)) ≡ at_name ev is (λ j. some_or [] (lookup j m)) k
indexes-put ev k [] m = indexes-delete ev k m
indexes-put ev k (i ∷ is) m = indexes-insert ev k (i ∷ is) m

module _ {H : Type 0} where
  -- The indexes of an event, in the order of registration.
  abbrev pub indexes_of : Emitter H → String → List ℕ
  indexes_of e ev = some_or [] (lookup ev e.indexes)

  abbrev pub IsCoherent : Emitter H → Type 0
  IsCoherent e = Coherent (indexes_of e) e.handlers

  pub init-IsCoherent : IsCoherent (init {H = H})
  unfolding init lookup
  init-IsCoherent = record { owned = λ ev. tt; distinct = λ ev. tt; apart = λ ev ev' ne. tt }

  pub add_listener-IsCoherent :
      (ev : String) (x : Listener H) (e : Emitter H)
      → Own (length e.handlers) ev x
      → IsCoherent e
      → IsCoherent (add_listener ev x e).0
  unfolding add_listener
  add_listener-IsCoherent ev x e own c =
      subst (λ f. Coherent f (e.handlers ++ some x ∷ []))
        (sym (fun_ext (λ k. indexes-insert ev k _ e.indexes)))
        (Coherent-append (indexes_of e) e.handlers c ev x own)

  pub remove_listener-IsCoherent :
      (i : ℕ) (ev : String) (e : Emitter H) → IsCoherent e → IsCoherent (remove_listener i ev e)
  unfolding remove_listener
  remove_listener-IsCoherent i ev e c = elim (Option-cases (lookup ev e.indexes)) [
    | inl absent ↦ rw (absent, remove_listener) c
    | inr (is, there) ↦ elim (Option-cases (find_index i is)) [
      | inl missing ↦ rw (there, remove_listener, missing) c
      | inr (p, found) ↦ rw (there, remove_listener, found) (removed is there p found)
    ]
  ]
    where
      removed :
          (is : List ℕ)
          → lookup ev e.indexes ≡ some is
          → (p : ℕ) → find_index i is ≡ some p
          → IsCoherent (record e {
            handlers = clear_handler i e.handlers;
            indexes = put_indexes ev (remove_at is p) e.indexes;
          })
      removed is there p found =
          let here : indexes_of e ev ≡ is = ap (some_or []) there in
          let (cut, listed) = remove_at-find_index i is p found in
          subst (λ f. Coherent f (clear_handler i e.handlers))
            (sym (fun_ext (λ k. indexes-put ev k (remove_at is p) e.indexes)))
            (rw (cut, ← here) (Coherent-erase (indexes_of e) e.handlers c ev i (rw here listed)))

  pub remove_all_listeners-IsCoherent :
      (ev : String) (e : Emitter H) → IsCoherent e → IsCoherent (remove_all_listeners ev e)
  unfolding remove_all_listeners
  remove_all_listeners-IsCoherent ev e c = elim (Option-cases (lookup ev e.indexes)) [
    | inl absent ↦ rw (absent, remove_all_listeners) c
    | inr (is, there) ↦
        let here : indexes_of e ev ≡ is = ap (some_or []) there in
        rw (there, remove_all_listeners)
          (subst (λ f. Coherent f (clear_all is e.handlers))
            (sym (fun_ext (λ k. indexes-delete ev k e.indexes)))
            (rw (← here) (Coherent-clear_all (indexes_of e) e.handlers c ev)))
  ]

  call_listener-IsCoherent :
      (h : Listener H) (e : Emitter H) → IsCoherent e → IsCoherent (call_listener h e)
  unfolding call_listener
  call_listener-IsCoherent (plain h) e c = c
  call_listener-IsCoherent (wrapper h i ev) e c = remove_listener-IsCoherent i ev e c

  abbrev then-IsCoherent :
      (r : Option String) (h : Listener H) (e : Emitter H) (rest : Emitter H → Emitted H)
      → ((e' : Emitter H) → IsCoherent e' → IsCoherent (rest e').emitter)
      → IsCoherent e
      → IsCoherent (call_then quiet r h e rest).emitter
  then-IsCoherent (some err) h e rest keep c = call_listener-IsCoherent h e c
  then-IsCoherent none h e rest keep c = keep _ (call_listener-IsCoherent h e c)

  emit_loop-IsCoherent :
      (run : H → Option String) (is : List ℕ) (e : Emitter H)
      → IsCoherent e
      → IsCoherent (emit_loop quiet run is e).emitter
  unfolding emit_loop
  emit_loop-IsCoherent run [] e c = c
  emit_loop-IsCoherent run (i ∷ is) e c = elim (Option-cases (handler_at e.handlers i)) [
    | inl hole ↦ rw (hole, emit_loop) c
    | inr (h, at) ↦
        rw (at, emit_loop)
          (then-IsCoherent (run (target h)) h e (emit_loop quiet run is)
            (λ e'. emit_loop-IsCoherent run is e') c)
  ]

  pub emit-IsCoherent :
      (run : H → Option String) (ev : String) (e : Emitter H)
      → IsCoherent e
      → IsCoherent (emit quiet run ev e).emitter
  unfolding emit
  emit-IsCoherent run ev e c = elim (Option-cases (lookup ev e.indexes)) [
    | inl absent ↦ rw (absent, emit) c
    | inr (is, there) ↦ rw (there, emit) (emit_loop-IsCoherent run is e c)
  ]
