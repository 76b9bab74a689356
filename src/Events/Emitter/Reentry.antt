-- ===== src/Events/Emitter/Reentry.antt =====
-- A handler that calls the emitter while it emits, system/lib/IndexedEventEmitter.ts: the loop of `emit`
-- walks a clone of the indexes, and looks for each handler when its turn comes.
use squidlet.Base.{
  ℕ, ◌≡◌, refl, ap, ◌∙◌, List, [], ◌∷◌, Option, none, some, String, lookup, inl, inr,
}
use squidlet.Events.Emitter.{
  Emitter, plain, handler_at, remove_listener, emit, emit_loop, call_listener, no_handler,
}
use squidlet.Events.Emitter.Coherent.{find_index_of_In}
use squidlet.Events.Emitter.Emission.{outcome}
use squidlet.Events.Emitter.Unnamed.{handler_at-cleared}

module _ {H : Type 0} where
  removed_hole :
      (ev : String) (i j : ℕ) (is : List ℕ) (e : Emitter H)
      → lookup ev e.indexes ≡ some (i ∷ j ∷ is)
      → handler_at (remove_listener j ev e).handlers j ≡ none
  unfolding remove_listener
  removed_hole ev i j is e there =
      let (p, found) = find_index_of_In j (i ∷ j ∷ is) (inr (inl refl)) in
      rw (there, remove_listener, found) (handler_at-cleared e.handlers j)

  -- Where the first two listeners of an event stand at `i` and `j`, the first a handler that does not
  -- throw and removes the second by its index and name: `emit` calls the first, and then throws that it
  -- can't find a handler, the listeners behind never being called.
  pub emit-remove_listener :
      (does : H → Emitter H → Emitter H) (run : H → Option String) (ev : String) (i j : ℕ)
      (is : List ℕ) (h : H) (e : Emitter H)
      → lookup ev e.indexes ≡ some (i ∷ j ∷ is)
      → handler_at e.handlers i ≡ some (plain h)
      → run h ≡ none
      → does h e ≡ remove_listener j ev e
      → outcome (emit does run ev e) ≡ (h ∷ [], some no_handler)
  unfolding emit emit_loop call_listener
  emit-remove_listener does run ev i j is h e there at fine removes =
      let hole : handler_at (does h e).handlers j ≡ none =
        ap (λ x. handler_at x.handlers j) removes ∙ removed_hole ev i j is e there in
      rw (there, emit, at, emit_loop, fine, hole) refl
