-- ===== src/Debounce.antt =====
-- system/lib/debounceCall/DebounceCall.ts and DebounceCallIncreasing.ts: for each id the last callback
-- is called when the timer of the id fires. `run` is what a callback gives, nothing or an error; it
-- does not call the object itself.
pub mod Entries
pub mod Steps
pub mod Histories
mod Tests
use squidlet.Base.{
  ℕ, zero, suc, List, [], ◌∷◌, ◌++◌, Option, none, some, String, length, Dict, lookup, insert,
  delete, keys, Bool, is_some,
}
use squidlet.Timers.{Timers, no_timers, arm, disarm, armed_for}
use squidlet.Promised.{Promised, new_promised, destroy, resolve, reject}

pub data Variant : Type 0 where
  debounce_call : Variant
  debounce_call_increasing : Variant

pub record Item (C : Type 0) : Type 0 where
  pub last_cb_to_call : C
  -- Its place among the promises.
  pub promise_for_whole_debounce : ℕ
  pub timeout : ℕ

-- The promises that were ever made stand in a list, since the callers keep them.
pub record Debounce (C : Type 0) : Type 0 where
  pub items : Dict (Item C)
  pub promises : List (Promised Unit)
  pub timers : Timers
  pub calls : List C

-- What `invoke` returns: the promise of an entry, or one of its own that is settled at once.
pub data Returned : Type 0 where
  promise : ℕ → Returned
  at_once : Option String → Returned

abbrev pub modify {ℓ} : {A : Type ℓ} → (A → A) → ℕ → List A → List A
modify f i [] = []
modify f zero (x ∷ xs) = f x ∷ xs
modify f (suc i) (x ∷ xs) = x ∷ modify f i xs

-- `err ? promised.reject(err) : promised.resolve()`, then `promised.destroy()`.
abbrev pub finish : Option String → Promised Unit → Promised Unit
finish none p = destroy (resolve tt p)
finish (some err) p = destroy (reject err p)

module _ {C : Type 0} where
  abbrev pub init : Debounce C
  init = record { items = []; promises = []; timers = no_timers; calls = [] }

  abbrev pub is_invoking : String → Debounce C → Bool
  is_invoking id d = is_some (lookup id d.items)

  abbrev pub clear_item : String → Option (Item C) → Debounce C → Debounce C
  clear_item id none d = d
  clear_item id (some it) d = record d {
    timers = disarm (some it.timeout) d.timers;
    promises = modify destroy it.promise_for_whole_debounce d.promises;
    items = delete id d.items;
  }

  pub clear : String → Debounce C → Debounce C
  clear id d = clear_item id (lookup id d.items) d

  -- The loop of `clearAll`, and of `destroy`.
  pub clear_each : List String → Debounce C → Debounce C
  clear_each [] d = d
  clear_each (id ∷ ids) d = clear_each ids (clear id d)

  pub clear_all : Debounce C → Debounce C
  clear_all d = clear_each (keys d.items) d

  -- The method that the two classes do not share.
  pub update_item : Variant → Item C → String → C → Debounce C → Debounce C
  update_item debounce_call it id cb d = record d {
    items = insert id (record it { last_cb_to_call = cb }) d.items;
  }
  update_item debounce_call_increasing it id cb d = record d {
    items = insert id (record it { last_cb_to_call = cb; timeout = d.timers.next }) d.items;
    timers = arm id (disarm (some it.timeout) d.timers);
  }

  abbrev pub new_item : C → Debounce C → Item C
  new_item cb d = record {
    last_cb_to_call = cb;
    promise_for_whole_debounce = length d.promises;
    timeout = d.timers.next;
  }

  pub add_item : String → C → Debounce C → Debounce C
  add_item id cb d = record d {
    items = insert id (new_item cb d) d.items;
    promises = d.promises ++ new_promised ∷ [];
    timers = arm id d.timers;
  }

  abbrev pub invoke_later :
      Variant → C → String → Option (Item C) → Debounce C → Debounce C × Returned
  invoke_later v cb id (some it) d =
      (update_item v it id cb d, promise it.promise_for_whole_debounce)
  invoke_later v cb id none d = (add_item id cb d, promise (length d.promises))

  -- The entry is cleared before the callback is called.
  pub call_cb_immediately : (C → Option String) → String → C → Debounce C → Debounce C × Returned
  call_cb_immediately run id cb d =
      let d' = clear id d in (record d' { calls = cb ∷ d'.calls }, at_once (run cb))

  -- A time that is undefined counts as 0.
  pub invoke : Variant → (C → Option String) → C → ℕ → String → Debounce C → Debounce C × Returned
  unfolding update_item add_item call_cb_immediately
  invoke v run cb zero id d = call_cb_immediately run id cb d
  invoke v run cb (suc ms) id d = invoke_later v cb id (lookup id d.items) d

  abbrev pub end_item : Option String → String → Option (Item C) → Debounce C → Debounce C
  end_item err id none d = d
  end_item err id (some it) d = record d {
    timers = disarm (some it.timeout) d.timers;
    items = delete id d.items;
    promises = modify (finish err) it.promise_for_whole_debounce d.promises;
  }

  -- It throws where there is no entry; `callCb` has looked for one.
  pub end_of_debounce : Option String → String → Debounce C → Debounce C
  end_of_debounce err id d = end_item err id (lookup id d.items) d

  abbrev pub call_item : (C → Option String) → String → Option (Item C) → Debounce C → Debounce C
  call_item run id none d = d
  call_item run id (some it) d =
      end_of_debounce (run it.last_cb_to_call) id
        (record d { calls = it.last_cb_to_call ∷ d.calls })

  pub call_cb : (C → Option String) → String → Debounce C → Debounce C
  unfolding end_of_debounce
  call_cb run id d = call_item run id (lookup id d.items) d

  -- The timer with the handle fires, if it is armed.
  pub fire : (C → Option String) → ℕ → Debounce C → Debounce C
  unfolding call_cb
  fire run h d = elim (armed_for h d.timers.armed) [
    | none ↦ d
    | some id ↦ call_cb run id (record d { timers = disarm (some h) d.timers })
  ]
