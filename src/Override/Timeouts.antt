-- ===== src/Override/Timeouts.antt =====
-- One timeout is kept for all the ids, system/lib/QueueOverride.ts.
use squidlet.Base.{
  ℕ, ◌≡◌, ◌≢◌, refl, sym, ap, ◌∙◌, [], ◌∷◌, none, some, String, true, false, str_eq, eq_iff,
  eq_refl, lookup, lookup-insert, lookup-delete, ◌==◌, Bool-cases, inl, inr, is_some,
}
use squidlet.Timers.{armed_for}
use squidlet.Override.{Item, QueueOverride, init, add, add_to, stop, stop_item, is_pending}

differ : (a b : String) → a ≢ b → str_eq a b ≡ false
differ a b ne = elim (Bool-cases (str_eq a b)) [
  | inl same ↦ absurd (ne ((eq_iff a b).0 same))
  | inr other ↦ other
]

only_first : (h : ℕ) (a b : String) → a ≢ b → armed_for h ((0, a) ∷ []) ≢ some b
only_first h a b ne e = elim (Bool-cases (0 == h)) [
  | inl same ↦ ne (cc (rw same at e))
  | inr other ↦ cc (rw other at e)
]

module _ {C : Type 0} where
  add-new :
      (cb : C) (id : String) (q : QueueOverride C)
      → lookup id q.items ≡ none
      → add cb id q ≡ add_to cb id none q
  unfolding add
  add-new cb id q e = rw (add, e)

  stop-there :
      (id : String) (it : Item C) (q : QueueOverride C)
      → lookup id q.items ≡ some it
      → stop id q ≡ stop_item id (some it) q
  unfolding stop
  stop-there id it q e = rw (stop, e)

  abbrev item_at : ℕ → Item C
  item_at n = record { pending_promised = n; queued_cb = none; finish_promised = none }

  abbrev with_first : C → String → QueueOverride C
  with_first first a = (add_to first a none init).0

  abbrev with_both : C → C → String → String → QueueOverride C
  with_both first second a b = (add_to second b none (with_first first a)).0

  -- What is left when the first is stopped.
  abbrev second_left : C → C → String → String → QueueOverride C
  second_left first second a b = stop_item a (some (item_at 0)) (with_both first second a b)

  stop-second_left :
      (first second : C) (a b : String)
      → a ≢ b
      → stop a (add second b (add first a init).0).0 ≡ second_left first second a b
  unfolding lookup
  stop-second_left first second a b ne =
      let one = add-new first a init refl in
      let free : lookup b (with_first first a).items ≡ none =
        lookup-insert a b (item_at 0) [] ∙ rw (differ a b ne) in
      let here : lookup a (with_both first second a b).items ≡ some (item_at 0) =
        lookup-insert b a (item_at 1) (with_first first a).items
        ∙ rw (differ b a (λ e. ne (sym e))) (lookup-insert a a (item_at 0) [] ∙ rw (eq_refl a)) in
      ap (λ r. stop a (add second b r.0).0) one
      ∙ ap (λ r. stop a r.0) (add-new second b (with_first first a) free)
      ∙ stop-there a (item_at 0) (with_both first second a b) here

  second_pending :
      (first second : C) (a b : String) → a ≢ b → is_pending b (second_left first second a b) ≡ true
  second_pending first second a b ne =
      let there : lookup b (second_left first second a b).items ≡ some (item_at 1) =
        lookup-delete a b (with_both first second a b).items
        ∙ rw (differ a b ne)
            (lookup-insert b b (item_at 1) (with_first first a).items ∙ rw (eq_refl b)) in
      ap is_some there

  -- Of two callbacks that were added for different ids, the stop of the first takes the timeout of the
  -- second: that one is pending with no timer armed for it, and the timer of the first is still armed.
  pub stop-add :
      (first second : C) (a b : String)
      → a ≢ b
      → (is_pending b (stop a (add second b (add first a init).0).0) ≡ true)
        × ((h : ℕ)
            → armed_for h (stop a (add second b (add first a init).0).0).timers.armed ≢ some b)
        × (armed_for 0 (stop a (add second b (add first a init).0).0).timers.armed ≡ some a)
  stop-add first second a b ne =
      let e = stop-second_left first second a b ne in
      (
        ap (is_pending b) e ∙ second_pending first second a b ne,
        λ h q. only_first h a b ne (ap (λ x. armed_for h x.timers.armed) (sym e) ∙ q),
        ap (λ x. armed_for 0 x.timers.armed) e,
      )
