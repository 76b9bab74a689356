-- ===== src/Output.antt =====
-- entities/drivers/BinaryOutput/BinaryOutput.ts: levels written to a pin, one at a time, with a time
-- after each in which nothing is written. The handlers neither throw nor call the object. The pin is
-- set up already. In a run, what the caller of `doWrite` does behind its `await`, `go_on`, follows the end of
-- `doWrite`, `end_write`, with no other call between the two. The newest stands first in what is emitted, written and returned.
pub mod Levels
pub mod Writing
pub mod Runs
pub mod Deferred
mod Tests
use squidlet.Base.{
  ℕ, List, [], ◌∷◌, ◌++◌, Option, none, some, String, Bool, true, false, not, ◌||◌, ◌&&◌, is_some,
  some_or, length, get_elem?, remove_at, if◌then◌else◌,
}
use squidlet.Timers.{Timers, no_timers, arm, disarm, armed_for, is_used}
use squidlet.Promised.{Promised, new_promised, resolve, reject}
use squidlet.Promised
use squidlet.Debounce.{modify}
use squidlet.Digital.{Value, is_digital_pin_inverted, invert_if_need, resolve_level}

pub data BlockMode : Type 0 where
  refuse : BlockMode
  defer : BlockMode

pub record BinaryOutputProps : Type 0 where
  pub block_time : Option ℕ
  pub block_mode : BlockMode
  pub invert : Option Bool
  pub invert_on_open_drain : Option Bool
  pub open_drain : Option Bool
  pub initial : Value

-- Who waits for a write of the pin: a caller of `write`, or the promise of a deferred value.
pub data Waiting : Type 0 where
  caller : Waiting
  deferred_promise : Option ℕ → Waiting

-- The promises that were ever made stand in a list, since the callers keep them.
pub record BinaryOutput : Type 0 where
  pub writing : Bool
  pub deferred_write_promise : Option ℕ
  pub last_deferred_value : Option Bool
  pub current_io_value : Bool
  pub block_timeout : Option ℕ
  pub inverted : Bool
  pub timers : Timers
  pub promises : List (Promised Unit)
  pub in_flight : List Waiting
  pub written : List Bool
  pub emitted : List Bool
  pub returned : List (Option String)

abbrev pub differ : Bool → Bool → Bool
differ a b = if a then not b else b

abbrev pub is_defer : BlockMode → Bool
is_defer refuse = false
is_defer defer = true

abbrev pub block_id : String
block_id = "blockTimeout"

abbrev pub io_value : Bool → Bool → Bool
io_value level inverted = invert_if_need (some level) (some inverted)

abbrev pub is_blocked : BinaryOutput → Bool
is_blocked o = is_some o.block_timeout

abbrev pub is_writing : BinaryOutput → Bool
is_writing o = o.writing

abbrev pub is_in_progress : BinaryOutput → Bool
is_in_progress o = is_writing o || is_blocked o

pub cancel_promise : Option ℕ → List (Promised Unit) → List (Promised Unit)
cancel_promise none ps = ps
cancel_promise (some n) ps = modify Promised.cancel n ps

pub settle_promise : Option String → Option ℕ → List (Promised Unit) → List (Promised Unit)
settle_promise err none ps = ps
settle_promise none (some n) ps = modify (resolve tt) n ps
settle_promise (some err) (some n) ps = modify (reject err) n ps

pub cancel : BinaryOutput → BinaryOutput
unfolding cancel_promise
cancel o = record o {
  timers = disarm o.block_timeout o.timers;
  promises = cancel_promise o.deferred_write_promise o.promises;
  deferred_write_promise = none;
  block_timeout = none;
  last_deferred_value = none;
  writing = false;
}

-- What the owner of a write that has ended is told.
pub tell : Option String → Waiting → BinaryOutput → BinaryOutput
unfolding settle_promise
tell err caller o = record o { returned = err ∷ o.returned }
tell err (deferred_promise n) o = record o { promises = settle_promise err n o.promises }

pub set_deferred_value : Bool → BinaryOutput → BinaryOutput
set_deferred_value level o =
    let o' = record o { last_deferred_value = some level } in
    if is_some o.deferred_write_promise then o' else record o' {
      deferred_write_promise = some (length o.promises);
      promises = o.promises ++ new_promised ∷ [];
    }

-- The new value is kept, and emitted where it differs.
abbrev pub take_level : Bool → Bool → BinaryOutput → BinaryOutput
take_level level io o =
    if differ o.current_io_value io
    then record o { current_io_value = io; emitted = level ∷ o.emitted }
    else o

-- `doWrite` up to the wait for the pin.
pub do_write : Bool → Waiting → BinaryOutput → BinaryOutput
do_write level who o =
    let io = io_value level o.inverted in
    let o' = take_level level io o in
    record o' { writing = true; in_flight = o'.in_flight ++ who ∷ []; written = io ∷ o'.written }

-- The end of `doWrite`, when the pin has taken the write.
abbrev pub end_write : BinaryOutput → BinaryOutput
end_write o = record o { writing = false }

pub poll : Bool → BinaryOutput → BinaryOutput
poll io o = take_level (io_value io o.inverted) io o

pub start_deferred : BinaryOutput → BinaryOutput
unfolding do_write
start_deferred o =
    do_write (some_or false o.last_deferred_value) (deferred_promise o.deferred_write_promise)
      (record o { last_deferred_value = none; deferred_write_promise = none })

module _ (p : BinaryOutputProps) where
  pub init : BinaryOutput
  init =
      let inverted = is_digital_pin_inverted p.invert p.invert_on_open_drain p.open_drain in
      record {
        writing = false;
        deferred_write_promise = none;
        last_deferred_value = none;
        current_io_value = io_value (resolve_level p.initial) inverted;
        block_timeout = none;
        inverted = inverted;
        timers = no_timers;
        promises = [];
        in_flight = [];
        written = [];
        emitted = [];
        returned = [];
      }

  pub start_blocking : BinaryOutput → BinaryOutput
  start_blocking o =
      if is_used p.block_time
      then record o { block_timeout = some o.timers.next; timers = arm block_id o.timers }
      else o

  -- A deferred value that has to be written: there is one, and it is not the level of the pin.
  abbrev pub has_deferred : BinaryOutput → Bool
  has_deferred o = elim o.last_deferred_value [
    | none ↦ false
    | some level ↦ is_defer p.block_mode && differ (io_value level o.inverted) o.current_io_value
  ]

  pub handle_success_writing : BinaryOutput → BinaryOutput
  unfolding start_deferred start_blocking
  handle_success_writing o = if has_deferred o then start_deferred o else start_blocking o

  pub handle_error : String → BinaryOutput → BinaryOutput
  unfolding cancel start_blocking settle_promise
  handle_error err o = start_blocking (
      cancel (record o {
        promises = settle_promise (some err) o.deferred_write_promise o.promises;
        deferred_write_promise = none;
      }))

  pub write : Bool → BinaryOutput → BinaryOutput
  unfolding do_write set_deferred_value
  write level o =
      if is_in_progress o
      then (if is_defer p.block_mode
          then set_deferred_value level o
          else record o { returned = none ∷ o.returned })
      else do_write level caller o

  -- What the caller of `doWrite` does behind its `await`, when the write went well.
  abbrev pub go_on : Waiting → BinaryOutput → BinaryOutput
  go_on who o = handle_success_writing (tell none who o)

  -- The rest of `doWrite` and of its caller, when the pin has answered. A write that went well has two
  -- steps, here one after the other: the end of `doWrite`, and what its caller does.
  pub after_write : Option String → Waiting → BinaryOutput → BinaryOutput
  unfolding handle_success_writing handle_error tell
  after_write none who o = go_on who (end_write o)
  after_write (some err) who o =
      tell (some err) who (handle_error err (record o { writing = false }))

  -- The pin has answered the write at a place among those that it has not answered.
  pub answer : Option String → ℕ → BinaryOutput → BinaryOutput
  unfolding after_write
  answer err i o = elim (get_elem? o.in_flight i) [
    | none ↦ o
    | some who ↦ after_write err who (record o { in_flight = remove_at o.in_flight i })
  ]

-- The timer with the handle fires, if it is armed; there are only timers of the block.
pub fire : ℕ → BinaryOutput → BinaryOutput
fire h o = elim (armed_for h o.timers.armed) [
  | none ↦ o
  | some id ↦ record o { timers = disarm (some h) o.timers; block_timeout = none }
]

-- What callers, the pin and the timers do, `cancel` left out.
pub data Event : Type 0 where
  wrote : Bool → Event
  answered : Option String → ℕ → Event
  fired : ℕ → Event
  polled : Bool → Event

module _ (p : BinaryOutputProps) where
  pub step : Event → BinaryOutput → BinaryOutput
  unfolding write answer fire poll
  step (wrote level) o = write p level o
  step (answered err i) o = answer p err i o
  step (fired h) o = fire h o
  step (polled io) o = poll io o

  pub run : List Event → BinaryOutput → BinaryOutput
  unfolding step
  run [] o = o
  run (e ∷ es) o = run es (step e o)
