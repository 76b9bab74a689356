-- ===== src/Events/Emitter/Views.antt =====
-- What adding and removing a listener does to the lists that `getListeners` of
-- system/lib/IndexedEventEmitter.ts returns.
use squidlet.Base.{
  ℕ, ◌≡◌, refl, sym, ap, ap₂, ◌≢◌, ◌∙◌, List, [], ◌∷◌, ◌++◌, append_assoc, append-nil, Option, none,
  some, some_or, String, length, if◌then◌else◌, All, All-mono, All-lookup, fun_ext, remove_at, In,
  Bool-cases, Option-cases, inl, inr, str_eq, eq_iff, set, ok, lookup, get_elem?-append_left,
  get_elem?-append_self,
}
use squidlet.Events.Emitter.{Emitter, Listener, add_listener, get_listeners, remove_listener}
use squidlet.Events.Emitter.Coherent.{
  Own, Owned, handler_at-lt, find_index_of_In, erase, erase_ne, remove_at-find_index,
}
use squidlet.Events.Emitter.Changes.{at_name}
use squidlet.Events.Emitter.Invariant.{
  IsCoherent, indexes_of, indexes-insert, indexes-put, add_listener-IsCoherent,
  remove_listener-IsCoherent,
}
use squidlet.Events.Emitter.Emission.{standing, entry, get_listeners-standing, standing-set}

module _ {H : Type 0} where
  standing-append :
      (hs : List (Option (Listener H))) (is js : List ℕ)
      → standing hs (is ++ js) ≡ standing hs is ++ standing hs js
  standing-append hs [] js = refl
  standing-append hs (i ∷ is) js = rw (standing-append hs is js, append_assoc)

  standing-grow :
      (ev : String) (hs : List (Option (Listener H))) (x : Option (Listener H)) (is : List ℕ)
      → All (Owned ev hs) is
      → standing (hs ++ x ∷ []) is ≡ standing hs is
  standing-grow ev hs x [] o = refl
  standing-grow ev hs x (i ∷ is) o =
      ap₂ (λ a b. entry a ++ b)
        (ap (some_or none) (get_elem?-append_left hs (x ∷ []) i (handler_at-lt hs i o.0.0 o.0.1)))
        (standing-grow ev hs x is o.1)

  abbrev pub if_same : String → String → List (Listener H) → List (Listener H)
  if_same ev ev' xs = if str_eq ev ev' then xs else []

  standing-at_name :
      (ev ev' : String) (x : Listener H) (e : Emitter H)
      → IsCoherent e
      → standing
          (e.handlers ++ some x ∷ [])
          (at_name ev (indexes_of e ev ++ length e.handlers ∷ []) (indexes_of e) ev')
        ≡ standing e.handlers (indexes_of e ev') ++ if_same ev ev' (x ∷ [])
  standing-at_name ev ev' x e c = elim (Bool-cases (str_eq ev ev')) [
    | inl same ↦
        let eq : ev ≡ ev' = (eq_iff ev ev').0 same in
        rw (
          same,
          standing-append,
          standing-grow ev e.handlers (some x) _ (c.owned ev),
          get_elem?-append_self e.handlers (some x),
          eq,
        )
    | inr other ↦ rw (other, standing-grow ev' e.handlers (some x) _ (c.owned ev'), append-nil)
  ]

  -- `addListener` puts the listener at the end of the list of its event, and the lists of the other
  -- events stay as they are; `getListeners` throws for none of them.
  pub get_listeners-add_listener :
      (ev ev' : String) (x : Listener H) (e : Emitter H)
      → Own (length e.handlers) ev x
      → IsCoherent e
      → (ls : List (Listener H)) × (get_listeners ev' e ≡ ok ls)
        × (get_listeners ev' (add_listener ev x e).0 ≡ ok (ls ++ if_same ev ev' (x ∷ [])))
  unfolding add_listener
  get_listeners-add_listener ev ev' x e own c = (
    standing e.handlers (indexes_of e ev'),
    get_listeners-standing ev' e c,
    get_listeners-standing ev' _ (add_listener-IsCoherent ev x e own c)
        ∙ ap ok (
            ap (standing (e.handlers ++ some x ∷ [])) (indexes-insert ev ev' _ e.indexes)
            ∙ standing-at_name ev ev' x e c),
  )

  removed :
      (i : ℕ) (ev : String) (e : Emitter H)
      → In i (indexes_of e ev)
      → ((remove_listener i ev e).handlers ≡ set e.handlers i none)
        × (indexes_of (remove_listener i ev e)
            ≡ at_name ev (erase i (indexes_of e ev)) (indexes_of e))
  unfolding remove_listener
  removed i ev e m = elim (Option-cases (lookup ev e.indexes)) [
    | inl absent ↦ absurd (rw absent at m)
    | inr (is, there) ↦
        let here : indexes_of e ev ≡ is = ap (some_or []) there in
        let (p, found) = find_index_of_In i is (rw here at m) in
        let cut = (remove_at-find_index i is p found).0 in
        rw (there, remove_listener, found)
          (
            refl,
            fun_ext (λ k. indexes-put ev k (remove_at is p) e.indexes)
                ∙ ap (λ js. at_name ev js (indexes_of e)) cut,
          )
  ]

  -- Whatever list is asked for, the index that was removed is not in it.
  not_listed :
      (i : ℕ) (ev : String) (e : Emitter H)
      → IsCoherent e
      → In i (indexes_of e ev)
      → (ev' : String)
      → All (λ j. j ≢ i) (at_name ev (erase i (indexes_of e ev)) (indexes_of e) ev')
  not_listed i ev e c m ev' = elim (Bool-cases (str_eq ev ev')) [
    | inl same ↦ rw same (erase_ne i (indexes_of e ev) (c.distinct ev))
    | inr other ↦ rw other (
        All-mono (λ j. All (λ x. x ≢ j) (indexes_of e ev)) (λ j. j ≢ i) (indexes_of e ev')
          (λ j h q. All-lookup (λ x. x ≢ j) (indexes_of e ev) i h m (sym q))
          (c.apart ev ev' (λ q. cc ((eq_iff ev ev').1 q))))
  ]

  -- `removeListener(i, eventName)` for an index of that event takes exactly the listener at `i` out
  -- of the list of that event, and the lists of the other events stay as they are.
  pub get_listeners-remove_listener :
      (i : ℕ) (ev ev' : String) (e : Emitter H)
      → IsCoherent e
      → In i (indexes_of e ev)
      → get_listeners ev' (remove_listener i ev e)
        ≡ ok (standing e.handlers (at_name ev (erase i (indexes_of e ev)) (indexes_of e) ev'))
  get_listeners-remove_listener i ev ev' e c m =
      let (hs, is) = removed i ev e m in
      get_listeners-standing ev' _ (remove_listener-IsCoherent i ev e c)
      ∙ ap ok (
          ap₂ (λ xs f. standing xs (f ev')) hs is
          ∙ standing-set e.handlers i _ (not_listed i ev e c m ev'))
