-- ===== src/ImpulseOutput.antt =====
-- entities/drivers/ImpulseOutput/ImpulseOutput.ts: impulses of a given length on a pin, in three modes.
-- The handlers neither throw nor call the object. The newest stands first in what is emitted, written,
-- returned and logged.
pub mod Unblocked
pub mod Cycle
mod Tests
use squidlet.Base.{
  ℕ, zero, suc, List, [], ◌∷◌, ◌++◌, Option, none, some, String, str_eq, Bool, true, false, not,
  ◌||◌, ◌&&◌, is_some, length, get_elem?, remove_at, if◌then◌else◌, ◌==◌,
}
use squidlet.Timers.{Timers, no_timers, arm, disarm, armed_for, is_used}
use squidlet.Timers.Pair.{disarm_both}
use squidlet.Promised.{Promised, new_promised, resolve, reject}
use squidlet.Promised
use squidlet.Debounce.{modify}
use squidlet.Digital.{is_digital_pin_inverted}
use squidlet.Output.{io_value, Waiting, caller, deferred_promise, cancel_promise}

pub data BlockMode : Type 0 where
  fixed : BlockMode
  defer : BlockMode
  increasing : BlockMode

pub record ImpulseOutputProps : Type 0 where
  pub block_time : Option ℕ
  pub block_mode : BlockMode
  pub invert : Option Bool
  pub invert_on_open_drain : Option Bool
  pub open_drain : Option Bool

-- The writes that the pin has not answered.
pub data Flight : Type 0 where
  start_write : Waiting → Flight
  end_write : Flight

-- `ends_waiting` counts the calls of `impulseFinished` that wait for the write of the start; in
-- `follows` a promise stands with the one that it settles after, the newest first.
pub record ImpulseOutput : Type 0 where
  pub deferred_impulse : Bool
  pub block_timeout : Option ℕ
  pub impulse_timeout : Option ℕ
  pub writing_start : Bool
  pub writing_end : Bool
  pub deferred_write_promise : Option ℕ
  pub inverted : Bool
  pub timers : Timers
  pub promises : List (Promised Unit)
  pub follows : List (ℕ × ℕ)
  pub in_flight : List Flight
  pub ends_waiting : ℕ
  pub written : List Bool
  pub emitted : List Bool
  pub returned : List (Option String)

abbrev pub impulse_id : String
impulse_id = "impulseTimeout"

abbrev pub block_id : String
block_id = "blockTimeout"

abbrev pub is_blocked : ImpulseOutput → Bool
is_blocked o = is_some o.block_timeout

abbrev pub is_impulse_in_progress : ImpulseOutput → Bool
is_impulse_in_progress o = is_some o.impulse_timeout || (o.writing_end || o.writing_start)

abbrev pub is_in_progress : ImpulseOutput → Bool
is_in_progress o = is_impulse_in_progress o || is_blocked o

abbrev pub finish_promise : Option String → Promised Unit → Promised Unit
finish_promise none p = resolve tt p
finish_promise (some err) p = reject err p

abbrev pub among : ℕ → List ℕ → Bool
among n [] = false
among n (m ∷ ms) = m == n || among n ms

-- The promises that settle with those given, over the pairs from the newest on.
abbrev pub followers : List (ℕ × ℕ) → List ℕ → List ℕ
followers [] ns = ns
followers (f ∷ fs) ns = followers fs (if among f.1 ns then f.0 ∷ ns else ns)

abbrev pub finish_each : Option String → List ℕ → List (Promised Unit) → List (Promised Unit)
finish_each err [] ps = ps
finish_each err (n ∷ ns) ps = finish_each err ns (modify (finish_promise err) n ps)

pub settle : Option String → Option ℕ → ImpulseOutput → ImpulseOutput
settle err none o = o
settle err (some n) o = record o {
  promises = finish_each err (followers o.follows (n ∷ [])) o.promises;
}

-- What the owner of an impulse is told.
pub tell : Option String → Waiting → ImpulseOutput → ImpulseOutput
unfolding settle
tell err caller o = record o { returned = err ∷ o.returned }
tell err (deferred_promise n) o = settle err n o

pub cancel : ImpulseOutput → ImpulseOutput
cancel o = record o {
  timers = disarm_both o.impulse_timeout o.block_timeout o.timers;
  promises = cancel_promise o.deferred_write_promise o.promises;
  deferred_write_promise = none;
  impulse_timeout = none;
  block_timeout = none;
  deferred_impulse = false;
}

pub set_impulse_timeout : ImpulseOutput → ImpulseOutput
set_impulse_timeout o = record o {
  impulse_timeout = some o.timers.next;
  timers = arm impulse_id o.timers;
}

-- `doStartImpulse` up to its wait for the pin.
pub do_start_impulse : Waiting → ImpulseOutput → ImpulseOutput
unfolding set_impulse_timeout
do_start_impulse who o =
    let o' = set_impulse_timeout o in
    record o' {
      emitted = true ∷ o'.emitted;
      writing_start = true;
      in_flight = o'.in_flight ++ start_write who ∷ [];
      written = io_value true o'.inverted ∷ o'.written;
    }

pub set_deferred_value : ImpulseOutput → ImpulseOutput
set_deferred_value o =
    if is_some o.deferred_write_promise then record o { deferred_impulse = true } else record o {
      deferred_impulse = true;
      deferred_write_promise = some (length o.promises);
      promises = o.promises ++ new_promised ∷ [];
    }

-- What a call of `impulse` comes to: nothing, a promise, or an impulse whose owner waits.
pub data Going : Type 0 where
  ignored : Going
  deferred : Option ℕ → Going
  started : Going

abbrev pub defer_or_start : Bool → Waiting → ImpulseOutput → ImpulseOutput × Going
defer_or_start true who o =
    let o' = set_deferred_value o in (o', deferred o'.deferred_write_promise)
defer_or_start false who o = (do_start_impulse who o, started)

pub impulse_in : BlockMode → Waiting → ImpulseOutput → ImpulseOutput × Going
unfolding set_impulse_timeout do_start_impulse set_deferred_value
impulse_in increasing who o =
    if o.writing_end || is_blocked o
    then (o, ignored)
    else if is_in_progress o
    then (set_impulse_timeout (record o { timers = disarm o.impulse_timeout o.timers }), ignored)
    else (do_start_impulse who o, started)
impulse_in defer who o = defer_or_start (is_in_progress o) who o
impulse_in fixed who o =
    if is_in_progress o then (o, ignored) else (do_start_impulse who o, started)

abbrev pub is_defer : BlockMode → Bool
is_defer defer = true
is_defer fixed = false
is_defer increasing = false

-- `impulse().then(…).catch(…)` for a deferred promise.
abbrev pub after_deferred : Option ℕ → ImpulseOutput × Going → ImpulseOutput
after_deferred promise (o, ignored) = settle none promise o
after_deferred none (o, deferred next) = o
after_deferred (some n) (o, deferred none) = o
after_deferred (some n) (o, deferred (some m)) = record o { follows = (n, m) ∷ o.follows }
after_deferred promise (o, started) = o

-- The second half of `impulseFinished`, up to its wait for the pin.
abbrev pub write_end : ImpulseOutput → ImpulseOutput
write_end o = record o {
  writing_end = true;
  in_flight = o.in_flight ++ end_write ∷ [];
  written = io_value false o.inverted ∷ o.written;
}

pub write_ends : ℕ → ImpulseOutput → ImpulseOutput
write_ends zero o = o
write_ends (suc n) o = write_ends n (write_end o)

-- The timer of an impulse: `impulseFinished`, which may have to wait.
pub impulse_finished : ImpulseOutput → ImpulseOutput
impulse_finished o =
    let o' = record o { impulse_timeout = none } in
    if o'.writing_start then record o' { ends_waiting = suc o'.ends_waiting } else write_end o'

abbrev pub answer_caller : Going → ImpulseOutput → ImpulseOutput
answer_caller ignored o = record o { returned = none ∷ o.returned }
answer_caller (deferred promise) o = o
answer_caller started o = o

-- Who waits for an impulse that was deferred.
abbrev pub owner : Option ℕ → Waiting
owner promise = deferred_promise promise

module _ (p : ImpulseOutputProps) where
  pub init : ImpulseOutput
  init = record {
    deferred_impulse = false;
    block_timeout = none;
    impulse_timeout = none;
    writing_start = false;
    writing_end = false;
    deferred_write_promise = none;
    inverted = is_digital_pin_inverted p.invert p.invert_on_open_drain p.open_drain;
    timers = no_timers;
    promises = [];
    follows = [];
    in_flight = [];
    ends_waiting = 0;
    written = [];
    emitted = [];
    returned = [];
  }

  -- A call by an owner who is told at once, or who waits.
  pub impulse : ImpulseOutput → ImpulseOutput
  unfolding impulse_in
  impulse o = let (o', going) = impulse_in p.block_mode caller o in answer_caller going o'

  pub start_deferred : ImpulseOutput → ImpulseOutput
  unfolding impulse_in settle
  start_deferred o =
      if is_defer p.block_mode && o.deferred_impulse
      then after_deferred o.deferred_write_promise (
          impulse_in p.block_mode (owner o.deferred_write_promise)
            (record o { deferred_impulse = false; deferred_write_promise = none }))
      else o

  -- The handle of the timer is not kept.
  pub start_blocking : ImpulseOutput → ImpulseOutput
  unfolding start_deferred
  start_blocking o =
      if is_used p.block_time then record o { timers = arm block_id o.timers } else start_deferred o

  pub handle_error : String → ImpulseOutput → ImpulseOutput
  unfolding settle cancel start_blocking
  handle_error err o = start_blocking (
      cancel
        (record (settle (some err) o.deferred_write_promise o) { deferred_write_promise = none }))

  pub block_expired : ImpulseOutput → ImpulseOutput
  unfolding start_deferred
  block_expired o = start_deferred (record o { block_timeout = none })

  -- The pin has answered the write of a start, or of an end, which is among those in flight no more.
  pub start_answered : Option String → Waiting → ImpulseOutput → ImpulseOutput
  unfolding tell handle_error write_ends
  start_answered none who o =
      let o' = tell none who (record o { writing_start = false }) in
      write_ends o'.ends_waiting (record o' { ends_waiting = 0 })
  start_answered (some err) who o =
      let o' = tell (some err) who (handle_error err (record o { writing_start = false })) in
      record o' { ends_waiting = 0 }

  pub end_answered : Option String → ImpulseOutput → ImpulseOutput
  unfolding start_blocking handle_error
  end_answered none o = start_blocking (record o { writing_end = false })
  end_answered (some err) o =
      start_blocking
        (record (handle_error err (record o { writing_end = false })) { writing_end = false })

  abbrev pub flight_answered : Option String → Flight → ImpulseOutput → ImpulseOutput
  flight_answered err (start_write who) o = start_answered err who o
  flight_answered err end_write o = end_answered err o

  pub answer : Option String → ℕ → ImpulseOutput → ImpulseOutput
  unfolding start_answered end_answered
  answer err i o = elim (get_elem? o.in_flight i) [
    | none ↦ o
    | some f ↦ flight_answered err f (record o { in_flight = remove_at o.in_flight i })
  ]

  -- The timer with the handle fires, if it is armed.
  pub fire : ℕ → ImpulseOutput → ImpulseOutput
  unfolding impulse_finished block_expired
  fire h o = elim (armed_for h o.timers.armed) [
    | none ↦ o
    | some id ↦
        let o' = record o { timers = disarm (some h) o.timers } in
        if str_eq impulse_id id then impulse_finished o' else block_expired o'
  ]

-- What callers, the pin, the timers and the owner of the object do.
pub data Event : Type 0 where
  asked : Event
  answered : Option String → ℕ → Event
  fired : ℕ → Event
  cancelled : Event

module _ (p : ImpulseOutputProps) where
  pub step : Event → ImpulseOutput → ImpulseOutput
  unfolding impulse answer fire cancel
  step asked o = impulse p o
  step (answered err i) o = answer p err i o
  step (fired h) o = fire p h o
  step cancelled o = cancel o

  pub run : List Event → ImpulseOutput → ImpulseOutput
  unfolding step
  run [] o = o
  run (e ∷ es) o = run es (step e o)
