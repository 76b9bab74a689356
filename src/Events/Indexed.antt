-- ===== src/Events/Indexed.antt =====
-- system/lib/IndexedEvents.ts: handlers in an array by index, a removed one leaves a hole. A handler may
-- throw; it does not call the object.
pub mod Laws
pub mod Histories
mod Tests
use squidlet.Base.{
  ℕ, zero, suc, ◌+◌, List, [], ◌∷◌, ◌++◌, Option, none, some, String, length, get_elem?, set, Bool,
  true, false, not, ◌==◌,
}
use squidlet.Events.Handler.{Handler, plain, wrapper, target}

pub record Events (H : Type 0) : Type 0 where
  pub handlers : List (Option (Handler H))

-- What a call of `emit` leaves: the object, the handlers called in order, the error thrown.
pub record Emitted (H : Type 0) : Type 0 where
  pub events : Events H
  pub calls : List H
  pub error : Option String

module _ {H : Type 0} where
  pub init : Events H
  init = record { handlers = [] }

  -- True once anything was ever registered: the holes count.
  pub has_listeners : Events H → Bool
  has_listeners e = not (length e.handlers == 0)

  pub add_listener : Handler H → Events H → Events H × ℕ
  add_listener h e = (record e { handlers = e.handlers ++ some h ∷ [] }, length e.handlers)

  pub once : H → Events H → Events H × ℕ
  unfolding add_listener
  once h e = add_listener (wrapper h (length e.handlers)) e

  pub remove_listener : ℕ → Events H → Events H
  remove_listener i e = elim (get_elem? e.handlers i) [
    | some (some h) ↦ record e { handlers = set e.handlers i none }
    | _ ↦ e
  ]

  pub remove_all : Events H → Events H
  remove_all e = record e { handlers = [] }

  -- Calling one handler: a wrapper first removes the listener at the index it captured.
  pub call_handler : Handler H → Events H → Events H
  unfolding remove_listener
  call_handler (plain h) e = e
  call_handler (wrapper h w) e = remove_listener w e

  abbrev pub after_call : H → Emitted H → Emitted H
  after_call h r = record r { calls = h ∷ r.calls }

  -- `handler(...args)`: an error that it throws ends the loop.
  abbrev pub call_then :
      (H → Option String) → Handler H → Events H → (Events H → Emitted H) → Emitted H
  call_then run h e rest = elim (run (target h)) [
    | some err ↦ record { events = call_handler h e; calls = target h ∷ []; error = some err }
    | none ↦ after_call (target h) (rest (call_handler h e))
  ]

  -- The loop of `emit` over the live array; `rounds` positions from `i` on are left.
  pub emit_from : (H → Option String) → ℕ → ℕ → Events H → Emitted H
  emit_from run zero i e = record { events = e; calls = []; error = none }
  emit_from run (suc rounds) i e = elim (get_elem? e.handlers i) [
    | some (some h) ↦ call_then run h e (emit_from run rounds (suc i))
    | _ ↦ emit_from run rounds (suc i) e
  ]

  pub emit : (H → Option String) → Events H → Emitted H
  unfolding emit_from call_handler
  emit run e = emit_from run (length e.handlers) 0 e
