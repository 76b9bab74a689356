-- ===== src/Events/Emitter.antt =====
-- system/lib/IndexedEventEmitter.ts: one array of handlers, and for each event name the indexes of
-- its handlers. An event name that is a number stands as its text. A handler may
-- throw, `run`, and do something with the object, `does`.
pub mod Coherent
pub mod Changes
pub mod Invariant
pub mod Emission
pub mod Views
pub mod Histories
pub mod Unnamed
pub mod Reentry
mod Tests
use squidlet.Base.{
  ℕ, suc, List, [], ◌∷◌, ◌++◌, Option, none, some, some_or, String, length, get_elem?, set,
  remove_at, Bool, not, ◌==◌, if◌then◌else◌, Dict, lookup, insert, delete, keys, Result, ok, throws,
  ◌>>=◌,
}

-- The function that `once` registers removes itself by the index and the name that it captured.
pub data Listener (H : Type 0) : Type 0 where
  plain : H → Listener H
  wrapper : H → ℕ → String → Listener H

pub record Emitter (H : Type 0) : Type 0 where
  pub handlers : List (Option (Listener H))
  pub indexes : Dict (List ℕ)

-- What a call of `emit` leaves: the object, the handlers called in order, the error thrown.
pub record Emitted (H : Type 0) : Type 0 where
  pub emitter : Emitter H
  pub calls : List H
  pub error : Option String

unfoldable pub find_index : ℕ → List ℕ → Option ℕ
find_index i [] = none
find_index i (j ∷ js) =
    if j == i then some 0 else elim (find_index i js) [ none ↦ none | some p ↦ some (suc p) ]

abbrev pub no_handler : String
no_handler = "IndexedEventEmitter: can't find handler of event by index"

-- `this.indexes[eventName] = is`, or `delete` if nothing is left.
abbrev pub put_indexes : String → List ℕ → Dict (List ℕ) → Dict (List ℕ)
put_indexes ev [] m = delete ev m
put_indexes ev (i ∷ is) m = insert ev (i ∷ is) m

module _ {H : Type 0} where
  pub init : Emitter H
  init = record { handlers = []; indexes = [] }

  -- `this.handlers[i]`: a hole and a position behind the end are both undefined.
  abbrev pub handler_at : List (Option (Listener H)) → ℕ → Option (Listener H)
  handler_at hs i = some_or none (get_elem? hs i)

  pub add_listener : String → Listener H → Emitter H → Emitter H × ℕ
  add_listener ev h e = (
    record e {
      handlers = e.handlers ++ some h ∷ [];
      indexes = insert ev (some_or [] (lookup ev e.indexes) ++ length e.handlers ∷ []) e.indexes;
    },
    length e.handlers,
  )

  pub once : String → H → Emitter H → Emitter H × ℕ
  unfolding add_listener
  once ev h e = add_listener ev (wrapper h (length e.handlers) ev) e

  -- The loop of `getListeners`.
  pub collect : List (Option (Listener H)) → List ℕ → Result (List (Listener H))
  collect hs [] = ok []
  collect hs (i ∷ is) = elim (handler_at hs i) [
    | none ↦ throws no_handler
    | some h ↦ collect hs is >>= λ rest. ok (h ∷ rest)
  ]

  pub get_listeners : String → Emitter H → Result (List (Listener H))
  unfolding collect
  get_listeners ev e = elim (lookup ev e.indexes) [ none ↦ ok [] | some is ↦ collect e.handlers is ]

  pub has_listeners : String → Emitter H → Bool
  has_listeners ev e = not (length (some_or [] (lookup ev e.indexes)) == 0)

  abbrev pub clear_handler : ℕ → List (Option (Listener H)) → List (Option (Listener H))
  clear_handler i hs = set hs i none

  -- `removeListener(handlerIndex, eventName)`.
  pub remove_listener : ℕ → String → Emitter H → Emitter H
  remove_listener i ev e = elim (lookup ev e.indexes) [
    | none ↦ e
    | some is ↦ elim (find_index i is) [
      | none ↦ e
      | some p ↦ record e {
        handlers = clear_handler i e.handlers;
        indexes = put_indexes ev (remove_at is p) e.indexes;
      }
    ]
  ]

  -- `removeListener(handlerIndex)`: the loop over the event names that are left to try. The position
  -- that is spliced out is the handler's index, as in the source.
  pub remove_anywhere : ℕ → List String → Emitter H → Emitter H
  remove_anywhere i [] e = e
  remove_anywhere i (ev ∷ evs) e = elim (find_index i (some_or [] (lookup ev e.indexes))) [
    | none ↦ remove_anywhere i evs e
    | some p ↦ record e {
      handlers = clear_handler i e.handlers;
      indexes = put_indexes ev (remove_at (some_or [] (lookup ev e.indexes)) i) e.indexes;
    }
  ]

  pub remove_listener_unnamed : ℕ → Emitter H → Emitter H
  unfolding remove_anywhere
  remove_listener_unnamed i e = remove_anywhere i (keys e.indexes) e

  abbrev pub clear_all : List ℕ → List (Option (Listener H)) → List (Option (Listener H))
  clear_all [] hs = hs
  clear_all (i ∷ is) hs = clear_all is (clear_handler i hs)

  pub remove_all_listeners : String → Emitter H → Emitter H
  remove_all_listeners ev e = elim (lookup ev e.indexes) [
    | none ↦ e
    | some is ↦ record e { handlers = clear_all is e.handlers; indexes = delete ev e.indexes }
  ]

  abbrev pub target : Listener H → H
  target (plain h) = h
  target (wrapper h i ev) = h

  pub call_listener : Listener H → Emitter H → Emitter H
  unfolding remove_listener
  call_listener (plain h) e = e
  call_listener (wrapper h i ev) e = remove_listener i ev e

  abbrev pub after_call : H → Emitted H → Emitted H
  after_call h r = record r { calls = h ∷ r.calls }

  -- What a handler does with the object while it is called; the handlers that leave it alone.
  abbrev pub quiet : H → Emitter H → Emitter H
  quiet h e = e

  -- `handler(...args)`: an error that it throws ends the loop.
  abbrev pub call_then :
      (H → Emitter H → Emitter H)
      → Option String
      → Listener H
      → Emitter H
      → (Emitter H → Emitted H)
      → Emitted H
  call_then does (some err) h e rest = record {
    emitter = does (target h) (call_listener h e);
    calls = target h ∷ [];
    error = some err;
  }
  call_then does none h e rest = after_call (target h) (rest (does (target h) (call_listener h e)))

  -- The loop of `emit` over its clone of the event's indexes.
  pub emit_loop : (H → Emitter H → Emitter H) → (H → Option String) → List ℕ → Emitter H → Emitted H
  emit_loop does run [] e = record { emitter = e; calls = []; error = none }
  emit_loop does run (i ∷ is) e = elim (handler_at e.handlers i) [
    | none ↦ record { emitter = e; calls = []; error = some no_handler }
    | some h ↦ call_then does (run (target h)) h e (emit_loop does run is)
  ]

  pub emit : (H → Emitter H → Emitter H) → (H → Option String) → String → Emitter H → Emitted H
  unfolding emit_loop call_listener
  emit does run ev e = elim (lookup ev e.indexes) [
    | none ↦ record { emitter = e; calls = []; error = none }
    | some is ↦ emit_loop does run is e
  ]
