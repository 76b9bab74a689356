-- ===== src/Throttle.antt =====
-- system/lib/debounceCall/ThrottleCall.ts: for each id the first callback is called, and the others
-- are refused until the timer of the id fires. The entries are those of DebounceCall.ts.
pub mod Windows
mod Tests
use squidlet.Base.{
  ℕ, zero, suc, List, [], ◌∷◌, Option, none, some, String, length, Dict, lookup, delete, keys, Bool,
  is_some, Result, ok, throws,
}
use squidlet.Timers.{disarm, armed_for}
use squidlet.Promised.{Promised, destroy, resolve}
use squidlet.Debounce.{Debounce, Item, Returned, promise, at_once, modify, add_item}

-- The fields are those of the class DebounceCall.
abbrev pub Throttle : Type 0 → Type 0
Throttle C = Debounce C

abbrev pub no_item : String
no_item = "TypeError: Cannot read property of undefined"

-- `promised.resolve()`, then `promised.destroy()`.
abbrev pub finish : Promised Unit → Promised Unit
finish p = destroy (resolve tt p)

module _ {C : Type 0} where
  abbrev pub is_invoking : String → Throttle C → Bool
  is_invoking id d = is_some (lookup id d.items)

  -- The promise is resolved, and not destroyed.
  abbrev pub clear_item : String → Option (Item C) → Throttle C → Throttle C
  clear_item id none d = d
  clear_item id (some it) d = record d {
    timers = disarm (some it.timeout) d.timers;
    promises = modify (resolve tt) it.promise_for_whole_debounce d.promises;
    items = delete id d.items;
  }

  unfoldable pub clear : String → Throttle C → Throttle C
  clear id d = clear_item id (lookup id d.items) d

  pub clear_each : List String → Throttle C → Throttle C
  clear_each [] d = d
  clear_each (id ∷ ids) d = clear_each ids (clear id d)

  pub clear_all : Throttle C → Throttle C
  clear_all d = clear_each (keys d.items) d

  abbrev pub destroy_item : String → Option (Item C) → Throttle C → Throttle C
  destroy_item id none d = d
  destroy_item id (some it) d = record d {
    timers = disarm (some it.timeout) d.timers;
    promises = modify destroy it.promise_for_whole_debounce d.promises;
    items = delete id d.items;
  }

  pub destroy_each : List String → Throttle C → Throttle C
  destroy_each [] d = d
  destroy_each (id ∷ ids) d = destroy_each ids (destroy_item id (lookup id d.items) d)

  pub destroy_all : Throttle C → Throttle C
  destroy_all d = destroy_each (keys d.items) d

  unfoldable pub call_cb_immediately :
      (C → Option String) → String → C → Throttle C → Throttle C × Returned
  unfolding clear
  call_cb_immediately run id cb d =
      let d' = clear id d in (record d' { calls = cb ∷ d'.calls }, at_once (run cb))

  -- What a new entry's callback throws is caught and dropped.
  abbrev pub invoke_later : C → String → Option (Item C) → Throttle C → Throttle C × Returned
  invoke_later cb id (some it) d = (d, promise it.promise_for_whole_debounce)
  invoke_later cb id none d =
      let d' = add_item id cb d in
      (record d' { calls = cb ∷ d'.calls }, promise (length d.promises))

  pub invoke : (C → Option String) → C → ℕ → String → Throttle C → Throttle C × Returned
  unfolding call_cb_immediately
  invoke run cb zero id d = call_cb_immediately run id cb d
  invoke run cb (suc ms) id d = invoke_later cb id (lookup id d.items) d

  abbrev pub end_item : String → Option (Item C) → Throttle C → Result (Throttle C)
  end_item id none d = throws no_item
  end_item id (some it) d = ok (record d {
    timers = disarm (some it.timeout) d.timers;
    items = delete id d.items;
    promises = modify finish it.promise_for_whole_debounce d.promises;
  })

  pub end_of_timeout : String → Throttle C → Result (Throttle C)
  end_of_timeout id d = end_item id (lookup id d.items) d

  -- The timer with the handle fires, if it is armed.
  pub fire : ℕ → Throttle C → Result (Throttle C)
  unfolding end_of_timeout
  fire h d = elim (armed_for h d.timers.armed) [
    | none ↦ ok d
    | some id ↦ end_of_timeout id (record d { timers = disarm (some h) d.timers })
  ]
