-- ===== src/Events/Emitter/Histories.antt =====
-- system/lib/IndexedEventEmitter.ts over any history of calls on a new object, `removeListener`
-- always with its event name. No handler calls the emitter.
use squidlet.Base.{ℕ, ◌≡◌, refl, List, [], ◌∷◌, Option, String, ok, length, map}
use squidlet.Events.Handler.{deliver}
use squidlet.Events.Emitter.{
  quiet, Emitter, Listener, plain, wrapper, init, add_listener, once, remove_listener,
  remove_all_listeners, emit, get_listeners, target,
}
use squidlet.Events.Emitter.Invariant.{
  IsCoherent, indexes_of, init-IsCoherent, add_listener-IsCoherent, remove_listener-IsCoherent,
  remove_all_listeners-IsCoherent, emit-IsCoherent,
}
use squidlet.Events.Emitter.Emission.{standing, outcome, emit-delivers, get_listeners-standing}

pub data Call (H : Type 0) : Type 0 where
  adds : String → H → Call H
  onces : String → H → Call H
  removes : ℕ → String → Call H
  clears : String → Call H
  emits : (H → Option String) → String → Call H

module _ {H : Type 0} where
  unfoldable pub step : Call H → Emitter H → Emitter H
  step (adds ev h) e = (add_listener ev (plain h) e).0
  step (onces ev h) e = (once ev h e).0
  step (removes i ev) e = remove_listener i ev e
  step (clears ev) e = remove_all_listeners ev e
  step (emits run ev) e = (emit quiet run ev e).emitter

  -- The calls stand newest first.
  pub history : List (Call H) → Emitter H
  history [] = init
  history (c ∷ cs) = step c (history cs)

  pub step-IsCoherent : (c : Call H) (e : Emitter H) → IsCoherent e → IsCoherent (step c e)
  unfolding step once
  step-IsCoherent (adds ev h) e c = add_listener-IsCoherent ev (plain h) e tt c
  step-IsCoherent (onces ev h) e c =
      add_listener-IsCoherent ev (wrapper h (length e.handlers) ev) e (refl, refl) c
  step-IsCoherent (removes i ev) e c = remove_listener-IsCoherent i ev e c
  step-IsCoherent (clears ev) e c = remove_all_listeners-IsCoherent ev e c
  step-IsCoherent (emits run ev) e c = emit-IsCoherent run ev e c

  -- After any history of calls, no handler calling the emitter, the indexes and the handlers agree: at each index of an event a
  -- listener stands, a wrapper there captured that index and that event, no index stands twice
  -- under one event, and no index stands under two events.
  pub history-IsCoherent : (cs : List (Call H)) → IsCoherent (history cs)
  unfolding history
  history-IsCoherent [] = init-IsCoherent
  history-IsCoherent (c ∷ cs) = step-IsCoherent c (history cs) (history-IsCoherent cs)

  -- After any history of calls, no handler calling the emitter, `getListeners` returns a list, without throwing, and `emit` calls
  -- exactly the listeners of that list in its order, up to the first that throws, and throws no
  -- error but that one's.
  pub emit-get_listeners :
      (run : H → Option String) (ev : String) (cs : List (Call H))
      → (ls : List (Listener H)) × (get_listeners ev (history cs) ≡ ok ls)
        × (outcome (emit quiet run ev (history cs)) ≡ deliver run (map target ls))
  emit-get_listeners run ev cs = (
    standing (history cs).handlers (indexes_of (history cs) ev),
    get_listeners-standing ev (history cs) (history-IsCoherent cs),
    emit-delivers run ev (history cs) (history-IsCoherent cs),
  )
