-- ===== src/ImpulseInput.antt =====
-- entities/drivers/ImpulseInput/ImpulseInput.ts: a change of a pin starts an impulse of a given length,
-- after which changes may be ignored for a time. The handlers neither throw nor call the object; the
-- newest stands first in what is emitted.
pub mod Cycles
mod Tests
use squidlet.Base.{
  ℕ, List, [], ◌∷◌, Option, none, some, String, str_eq, Bool, is_some, true, false, ◌||◌,
  if◌then◌else◌,
}
use squidlet.Timers.{Timers, no_timers, arm, disarm, armed_for, is_used}
use squidlet.Timers.Pair.{disarm_both}
use squidlet.Digital.{is_digital_pin_inverted}

pub data ImpulseInputMode : Type 0 where
  fixed : ImpulseInputMode
  increasing : ImpulseInputMode

pub record ImpulseInputProps : Type 0 where
  pub block_time : Option ℕ
  pub mode : ImpulseInputMode
  pub invert : Option Bool
  pub invert_on_pullup : Option Bool
  pub pullup : Option Bool

-- What is emitted, with the argument that the handlers are given.
pub data ImpulseInputEvents : Type 0 where
  rising : ImpulseInputEvents
  both : Bool → ImpulseInputEvents

pub record ImpulseInput : Type 0 where
  pub block_timeout : Option ℕ
  pub impulse_timeout : Option ℕ
  pub inverted : Bool
  pub timers : Timers
  pub emitted : List ImpulseInputEvents

abbrev pub impulse_id : String
impulse_id = "impulseTimeout"

abbrev pub block_id : String
block_id = "blockTimeout"

abbrev pub is_blocked : ImpulseInput → Bool
is_blocked i = is_some i.block_timeout

abbrev pub is_impulse_in_progress : ImpulseInput → Bool
is_impulse_in_progress i = is_some i.impulse_timeout

abbrev pub is_in_progress : ImpulseInput → Bool
is_in_progress i = is_impulse_in_progress i || is_blocked i

abbrev pub set_impulse_timeout : ImpulseInput → ImpulseInput
set_impulse_timeout i = record i {
  impulse_timeout = some i.timers.next;
  timers = arm impulse_id i.timers;
}

-- The impulse is in progress by then: its timer is set.
pub start_fixed_impulse : ImpulseInput → ImpulseInput
start_fixed_impulse i =
    let i' = set_impulse_timeout i in
    record i' { emitted = both (is_impulse_in_progress i') ∷ rising ∷ i'.emitted }

pub start_increasing_impulse : ImpulseInput → ImpulseInput
unfolding start_fixed_impulse
start_increasing_impulse i =
    if is_impulse_in_progress i
    then set_impulse_timeout (record i { timers = disarm i.impulse_timeout i.timers })
    else start_fixed_impulse i

pub cancel : ImpulseInput → ImpulseInput
cancel i = record i {
  timers = disarm_both i.impulse_timeout i.block_timeout i.timers;
  impulse_timeout = none;
  block_timeout = none;
}

pub answer_change : ImpulseInputMode → ImpulseInput → ImpulseInput
unfolding start_fixed_impulse start_increasing_impulse
answer_change fixed i = if is_impulse_in_progress i then i else start_fixed_impulse i
answer_change increasing i = start_increasing_impulse i

module _ (p : ImpulseInputProps) where
  pub init : ImpulseInput
  init = record {
    block_timeout = none;
    impulse_timeout = none;
    inverted = is_digital_pin_inverted p.invert p.invert_on_pullup p.pullup;
    timers = no_timers;
    emitted = [];
  }

  pub handle_change : ImpulseInput → ImpulseInput
  unfolding answer_change
  handle_change i = if is_blocked i then i else answer_change p.mode i

  abbrev pub start_block : ImpulseInput → ImpulseInput
  start_block i =
      if is_used p.block_time
      then record i { block_timeout = some i.timers.next; timers = arm block_id i.timers }
      else i

  -- The callback of the timer of an impulse.
  pub impulse_expired : ImpulseInput → ImpulseInput
  impulse_expired i =
      let i' = record i { impulse_timeout = none } in
      start_block (record i' { emitted = both (is_impulse_in_progress i') ∷ i'.emitted })

  pub block_expired : ImpulseInput → ImpulseInput
  block_expired i = record i { block_timeout = none }

  -- The timer with the handle fires, if it is armed.
  pub fire : ℕ → ImpulseInput → ImpulseInput
  unfolding impulse_expired block_expired
  fire h i = elim (armed_for h i.timers.armed) [
    | none ↦ i
    | some id ↦
        let i' = record i { timers = disarm (some h) i.timers } in
        if str_eq impulse_id id then impulse_expired i' else block_expired i'
  ]

-- What the pin, the timers and the owner of the object do.
pub data Event : Type 0 where
  changed : Event
  fired : ℕ → Event
  cancelled : Event

module _ (p : ImpulseInputProps) where
  pub step : Event → ImpulseInput → ImpulseInput
  unfolding handle_change fire cancel
  step changed i = handle_change p i
  step (fired h) i = fire p h i
  step cancelled i = cancel i

  pub run : List Event → ImpulseInput → ImpulseInput
  unfolding step
  run [] i = i
  run (e ∷ es) i = run es (step e i)
