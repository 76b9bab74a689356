-- ===== src/Override.antt =====
-- system/lib/QueueOverride.ts: for each id one callback runs, and the last that was added meanwhile
-- waits. The callbacks that were started and have not settled are part of the state.
pub mod Pairs
pub mod Timeouts
mod Tests
use squidlet.Base.{
  ℕ, zero, suc, List, [], ◌∷◌, ◌++◌, Option, none, some, String, length, get_elem?, remove_at, Dict,
  lookup, insert, delete, Bool, false, is_some,
}
use squidlet.Timers.{Timers, no_timers, arm, disarm, armed_for}
use squidlet.Promised.{
  Promised, Outcome, pending, fulfilled, failed, new_promised, destroy, resolve, reject,
}
use squidlet.Debounce.{modify}

-- The two promises by their places.
pub record Item (C : Type 0) : Type 0 where
  pub pending_promised : ℕ
  pub queued_cb : Option C
  pub finish_promised : Option ℕ

pub record QueueOverride (C : Type 0) : Type 0 where
  pub items : Dict (Item C)
  pub running_timeout : Option ℕ
  pub timers : Timers
  pub promises : List (Promised Unit)
  pub in_flight : List (String × C)
  -- A promise, and the one that settles after it as it does.
  pub followers : List (ℕ × ℕ)

abbrev pub no_queued_cb : String
no_queued_cb = "No queuedCb"

abbrev pub no_finish_promised : String
no_finish_promised = "No finishPromised"

abbrev pub no_queue : String
no_queue = "No queue but there is finishPromised"

abbrev pub timeout_exceeded : String
timeout_exceeded = "Timeout of job has been exceeded"

-- `resolve()` or `reject(err)`.
abbrev pub conclude : Option String → Promised Unit → Promised Unit
conclude none p = resolve tt p
conclude (some err) p = reject err p

abbrev pub conclude_and_destroy : Option String → Promised Unit → Promised Unit
conclude_and_destroy err p = destroy (conclude err p)

-- A promise that may be missing.
abbrev pub modify_if :
    (Promised Unit → Promised Unit) → Option ℕ → List (Promised Unit) → List (Promised Unit)
modify_if f none ps = ps
modify_if f (some i) ps = modify f i ps

module _ {C : Type 0} where
  abbrev pub init : QueueOverride C
  init = record {
    items = [];
    running_timeout = none;
    timers = no_timers;
    promises = [];
    in_flight = [];
    followers = [];
  }

  abbrev pub is_pending : String → QueueOverride C → Bool
  is_pending id q = is_some (lookup id q.items)

  abbrev queue_of : Option (Item C) → Bool
  queue_of none = false
  queue_of (some it) = is_some it.queued_cb

  abbrev pub has_queue : String → QueueOverride C → Bool
  has_queue id q = queue_of (lookup id q.items)

  abbrev pub clear_timeout : QueueOverride C → QueueOverride C
  clear_timeout q = record q { timers = disarm q.running_timeout q.timers; running_timeout = none }

  -- The end of an item: both its promises are settled and destroyed.
  abbrev pub end_item : Option String → String → Item C → QueueOverride C → QueueOverride C
  end_item err id it q = record q {
    promises =
        modify_if (conclude_and_destroy err) it.finish_promised
          (modify (conclude_and_destroy err) it.pending_promised q.promises);
    items = delete id q.items;
  }

  abbrev pub stop_item : String → Option (Item C) → QueueOverride C → QueueOverride C
  stop_item id none q = q
  stop_item id (some it) q = end_item none id it (clear_timeout q)

  pub stop : String → QueueOverride C → QueueOverride C
  stop id q = stop_item id (lookup id q.items) q

  -- The timeout that ran before is not cleared.
  abbrev pub start_cb : C → String → QueueOverride C → QueueOverride C
  start_cb cb id q = record q {
    running_timeout = some q.timers.next;
    timers = arm id q.timers;
    in_flight = (id, cb) ∷ q.in_flight;
  }

  abbrev pub put_finish : C → String → Item C → Option ℕ → QueueOverride C → QueueOverride C × ℕ
  put_finish cb id it (some f) q =
      (record q { items = insert id (record it { queued_cb = some cb }) q.items }, f)
  put_finish cb id it none q = (
    record q {
      items =
          insert id (record it { queued_cb = some cb; finish_promised = some (length q.promises) })
            q.items;
      promises = q.promises ++ new_promised ∷ [];
    },
    length q.promises,
  )

  abbrev pub add_to : C → String → Option (Item C) → QueueOverride C → QueueOverride C × ℕ
  add_to cb id (some it) q = put_finish cb id it it.finish_promised q
  add_to cb id none q = (
    start_cb cb id (record q {
      items =
          insert id
            (record {
              pending_promised = length q.promises;
              queued_cb = none;
              finish_promised = none;
            })
            q.items;
      promises = q.promises ++ new_promised ∷ [];
    }),
    length q.promises,
  )

  -- The object, and the place of the promise that is returned.
  pub add : C → String → QueueOverride C → QueueOverride C × ℕ
  add cb id q = add_to cb id (lookup id q.items) q

  abbrev pub error_item : String → String → Option (Item C) → QueueOverride C → QueueOverride C
  error_item err id none q = q
  error_item err id (some it) q = end_item (some err) id it (clear_timeout q)

  pub handle_cb_error : String → String → QueueOverride C → QueueOverride C
  handle_cb_error err id q = error_item err id (lookup id q.items) q

  abbrev pub start_waiting :
      String → Option C → Option ℕ → QueueOverride C → QueueOverride C × Option String
  start_waiting id none f q = (q, some no_queued_cb)
  start_waiting id (some cb) none q = (q, some no_finish_promised)
  start_waiting id (some cb) (some f) q = (
    start_cb cb id (record q {
      items =
          insert id
            (record {
              pending_promised = length q.promises;
              queued_cb = none;
              finish_promised = none;
            })
            q.items;
      promises = q.promises ++ new_promised ∷ [];
      followers = (length q.promises, f) ∷ q.followers;
    }),
    none,
  )

  -- Without a callback that waits the item ends.
  abbrev pub next_step :
      String → Item C → Option C → QueueOverride C → QueueOverride C × Option String
  next_step id it (some cb) q = start_waiting id (some cb) it.finish_promised q
  next_step id it none q = (
    record q {
      promises = modify_if (reject no_queue) it.finish_promised q.promises;
      items = delete id q.items;
    },
    none,
  )

  abbrev pub success_item :
      String → Option (Item C) → QueueOverride C → QueueOverride C × Option String
  success_item id none q = (q, none)
  success_item id (some it) q =
      let q' = clear_timeout q in
      next_step id it it.queued_cb (record q' {
        promises = modify (conclude_and_destroy none) it.pending_promised q'.promises;
      })

  -- The object as it is left, and what is thrown.
  pub handle_cb_success : String → QueueOverride C → QueueOverride C × Option String
  handle_cb_success id q = success_item id (lookup id q.items) q

  -- `.then(handleCbSuccess).catch(handleCbError)`: what the first throws comes to the second.
  abbrev pub caught : String → QueueOverride C × Option String → QueueOverride C
  caught id (q, none) = q
  caught id (q, some err) = handle_cb_error err id q

  abbrev pub settled : String → Option String → QueueOverride C → QueueOverride C
  settled id none q = caught id (handle_cb_success id q)
  settled id (some err) q = handle_cb_error err id q

  -- The callback started as the `i`-th in flight settles.
  pub settle : ℕ → Option String → QueueOverride C → QueueOverride C
  unfolding handle_cb_success handle_cb_error
  settle i err q = elim (get_elem? q.in_flight i) [
    | none ↦ q
    | some f ↦ settled f.0 err (record q { in_flight = remove_at q.in_flight i })
  ]

  -- The timeout is not forgotten.
  abbrev pub timeout_item : String → Option (Item C) → QueueOverride C → QueueOverride C
  timeout_item id none q = q
  timeout_item id (some it) q = end_item (some timeout_exceeded) id it q

  pub handle_job_timeout : String → QueueOverride C → QueueOverride C
  handle_job_timeout id q = timeout_item id (lookup id q.items) q

  pub fire : ℕ → QueueOverride C → QueueOverride C
  unfolding handle_job_timeout
  fire h q = elim (armed_for h q.timers.armed) [
    | none ↦ q
    | some id ↦ handle_job_timeout id (record q { timers = disarm (some h) q.timers })
  ]

  abbrev pub follow_as : Outcome Unit → ℕ → QueueOverride C → QueueOverride C
  follow_as pending f q = q
  follow_as (fulfilled a) f q = record q { promises = modify (resolve a) f q.promises }
  follow_as (failed err) f q = record q { promises = modify (reject err) f q.promises }

  -- The `i`-th promise that follows another settles as that has, if it has.
  pub follow : ℕ → QueueOverride C → QueueOverride C
  follow i q = elim (get_elem? q.followers i) [
    | none ↦ q
    | some l ↦ elim (get_elem? q.promises l.0) [ none ↦ q | some p ↦ follow_as p.outcome l.1 q ]
  ]
