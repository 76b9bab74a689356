-- ===== src/Events/Indexed/Histories.antt =====
-- system/lib/IndexedEvents.ts over any history of calls on a new object.
use squidlet.Base.{
  ◌≡◌, refl, ℕ, List, [], ◌∷◌, Option, none, some, String, get_elem?, length, arith, subst, sym,
}
use squidlet.Events.Handler.{Handler, plain, wrapper}
use squidlet.Events.Indexed.{Events, init, add_listener, once, remove_listener, remove_all, emit}
use squidlet.Events.Indexed.Laws.{
  SelfWrapped, SelfWrapped-append, SelfWrapped-set, SelfWrapped-left_over, pass, emit_lem,
}

pub data Call (H : Type 0) : Type 0 where
  adds : H → Call H
  onces : H → Call H
  removes : ℕ → Call H
  clears : Call H
  emits : (H → Option String) → Call H

module _ {H : Type 0} where
  pub step : Call H → Events H → Events H
  step (adds h) e = (add_listener (plain h) e).0
  step (onces h) e = (once h e).0
  step (removes i) e = remove_listener i e
  step clears e = remove_all e
  step (emits run) e = (emit run e).events

  pub history : List (Call H) → Events H
  history [] = init
  history (c ∷ cs) = step c (history cs)

  remove_listener-SelfWrapped :
      (i : ℕ) (e : Events H) (o : Option (Option (Handler H)))
      → get_elem? e.handlers i ≡ o
      → SelfWrapped 0 e.handlers
      → SelfWrapped 0 (remove_listener i e).handlers
  unfolding remove_listener
  remove_listener-SelfWrapped i e none eq own = rw (eq, remove_listener) own
  remove_listener-SelfWrapped i e (some none) eq own = rw (eq, remove_listener) own
  remove_listener-SelfWrapped i e (some (some h)) eq own =
      rw (eq, remove_listener) (SelfWrapped-set 0 i e.handlers own)

  step-SelfWrapped :
      (c : Call H) (e : Events H) → SelfWrapped 0 e.handlers → SelfWrapped 0 (step c e).handlers
  unfolding step add_listener once remove_all
  step-SelfWrapped (adds h) e own = SelfWrapped-append 0 e.handlers (plain h) own tt
  step-SelfWrapped (onces h) e own =
      SelfWrapped-append 0 e.handlers (wrapper h (length e.handlers)) own (omega arith)
  step-SelfWrapped (removes i) e own = remove_listener-SelfWrapped i e _ refl own
  step-SelfWrapped clears e own = tt
  step-SelfWrapped (emits run) e own =
      subst (λ r. SelfWrapped 0 r.events.handlers) (sym (emit_lem run e own))
        (SelfWrapped-left_over run 0 e.handlers own)

  history-SelfWrapped : (cs : List (Call H)) → SelfWrapped 0 (history cs).handlers
  unfolding history init
  history-SelfWrapped [] = tt
  history-SelfWrapped (c ∷ cs) = step-SelfWrapped c (history cs) (history-SelfWrapped cs)

  -- After any calls on a new object, newest first, `emit` makes one pass over the handlers that
  -- stand in the array: it calls those listening in the order of registration up to the first that
  -- throws, throws that error, and leaves the array without the `once` wrappers that it called.
  pub emit-history :
      (run : H → Option String) (cs : List (Call H))
      → emit run (history cs) ≡ pass run [] (history cs).handlers
  emit-history run cs = emit_lem run (history cs) (history-SelfWrapped cs)
