-- ===== src/Click.antt =====
-- entities/drivers/BinaryClick/BinaryClick.ts: the presses of a button, from the levels of a pin. The
-- handlers of the events neither throw nor call the object; what is emitted is kept, the newest
-- first. A time that is undefined is `none`.
pub mod Cycles
pub mod Blocks
mod Tests
use squidlet.Base.{
  ℕ, List, [], ◌∷◌, Option, none, some, String, str_eq, Bool, true, false, not, ◌||◌, ◌==◌, is_some,
  if◌then◌else◌,
}
use squidlet.Timers.{Timers, no_timers, arm, disarm, armed_for, is_used}
use squidlet.Timers.Pair.{disarm_both}
use squidlet.Digital.{is_digital_pin_inverted, invert_if_need}

pub record BinaryClickProps : Type 0 where
  pub release_timeout_ms : Option ℕ
  pub block_time : Option ℕ
  pub invert : Option Bool
  pub invert_on_pullup : Option Bool
  pub pullup : Option Bool

-- What is emitted, with the argument that the handlers are given.
pub data BinaryClickEvents : Type 0 where
  up : BinaryClickEvents
  down : BinaryClickEvents
  change : Bool → BinaryClickEvents

pub record BinaryClick : Type 0 where
  pub key_down : Bool
  pub release_timeout : Option ℕ
  pub block_timeout : Option ℕ
  pub inverted : Bool
  pub timers : Timers
  pub emitted : List BinaryClickEvents

abbrev pub release_id : String
release_id = "releaseTimeout"

abbrev pub block_id : String
block_id = "blockTimeout"

abbrev pub release : BinaryClick → BinaryClick
release c = record c {
  key_down = false;
  timers = disarm c.release_timeout c.timers;
  release_timeout = none;
  emitted = up ∷ change false ∷ c.emitted;
}

module _ (p : BinaryClickProps) where
  pub init : BinaryClick
  init = record {
    key_down = false;
    release_timeout = none;
    block_timeout = none;
    inverted = is_digital_pin_inverted p.invert p.invert_on_pullup p.pullup;
    timers = no_timers;
    emitted = [];
  }

  -- The key is down, and the time of a press starts where there is one.
  abbrev pub press : BinaryClick → BinaryClick
  press c =
      if is_used p.release_timeout_ms
      then record c {
        key_down = true;
        release_timeout = some c.timers.next;
        timers = arm release_id c.timers;
      }
      else record c { key_down = true }

  pub start_down_state : BinaryClick → BinaryClick
  start_down_state c = record (press c) { emitted = down ∷ change true ∷ c.emitted }

  abbrev pub start_block : BinaryClick → BinaryClick
  start_block c =
      if is_used p.block_time
      then record c { block_timeout = some c.timers.next; timers = arm block_id c.timers }
      else c

  pub finish_down_state : BinaryClick → BinaryClick
  finish_down_state c = start_block (release c)

abbrev pub is_down : BinaryClick → Bool
is_down c = c.key_down

abbrev pub is_blocked : BinaryClick → Bool
is_blocked c = is_some c.block_timeout

abbrev pub is_in_progress : BinaryClick → Bool
is_in_progress c = is_down c || is_blocked c

pub cancel : BinaryClick → BinaryClick
cancel c = record c {
  key_down = false;
  timers = disarm_both c.release_timeout c.block_timeout c.timers;
  release_timeout = none;
  block_timeout = none;
}

-- The callbacks of the two timers.
pub release_expired : BinaryClick → BinaryClick
release_expired c = record c { key_down = false; release_timeout = none }

pub block_expired : BinaryClick → BinaryClick
block_expired c = record c { block_timeout = none }

pub expired : String → BinaryClick → BinaryClick
unfolding release_expired block_expired
expired id c = if str_eq release_id id then release_expired c else block_expired c

-- The timer with the handle fires, if it is armed.
pub fire : ℕ → BinaryClick → BinaryClick
unfolding expired
fire h c = elim (armed_for h c.timers.armed) [
  | none ↦ c
  | some id ↦ expired id (record c { timers = disarm (some h) c.timers })
]

module _ (p : BinaryClickProps) where
  pub handle_change : Bool → BinaryClick → BinaryClick
  unfolding start_down_state finish_down_state
  handle_change level c =
      if is_blocked c
      then c
      else if invert_if_need (some level) (some c.inverted)
      then (if c.key_down then c else start_down_state p c)
      else (if c.key_down then finish_down_state p c else c)

-- What the pin, the timers and the owner of the object do.
pub data Event : Type 0 where
  changed : Bool → Event
  fired : ℕ → Event
  cancelled : Event

module _ (p : BinaryClickProps) where
  pub step : Event → BinaryClick → BinaryClick
  unfolding handle_change fire cancel
  step (changed level) c = handle_change p level c
  step (fired h) c = fire h c
  step cancelled c = cancel c

  pub run : List Event → BinaryClick → BinaryClick
  unfolding step
  run [] c = c
  run (e ∷ es) c = run es (step e c)
