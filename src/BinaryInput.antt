-- ===== src/BinaryInput.antt =====
-- entities/drivers/BinaryInput/BinaryInput.ts: the levels of a pin, with a time after each change in
-- which others are not seen. The handlers neither throw nor call the object; the newest stands first
-- in what is emitted. What `digitalRead` gives is an argument of `poll`.
pub mod Levels
mod Tests
use squidlet.Base.{
  ℕ, List, [], ◌∷◌, Option, none, some, String, Bool, is_some, true, false, not, if◌then◌else◌,
}
use squidlet.Timers.{Timers, no_timers, arm, disarm, armed_for, is_used}
use squidlet.Digital.{
  EdgeString, is_digital_pin_inverted, resolve_edge, resolve_input_resistor_mode,
}
use squidlet.Output.{io_value, differ}

pub record BinaryInputProps : Type 0 where
  pub block_time : Option ℕ
  pub edge : Option EdgeString
  pub invert : Option Bool
  pub invert_on_pullup : Option Bool
  pub pullup : Option Bool
  pub pulldown : Option Bool

pub record BinaryInput : Type 0 where
  pub last_io_level : Option Bool
  pub block_timeout : Option ℕ
  pub inverted : Bool
  pub timers : Timers
  pub emitted : List Bool

abbrev pub block_id : String
block_id = "blockTimeout"

abbrev pub is_blocked : BinaryInput → Bool
is_blocked b = is_some b.block_timeout

-- `level !== this.lastIoLevel`.
abbrev pub is_new : Bool → Option Bool → Bool
is_new level none = true
is_new level (some last) = differ level last

abbrev pub emit : Bool → BinaryInput → BinaryInput
emit level b = record b { emitted = io_value level b.inverted ∷ b.emitted }

pub poll : Bool → BinaryInput → BinaryInput
poll level b =
    if is_new level b.last_io_level then emit level (record b { last_io_level = some level }) else b

pub cancel : BinaryInput → BinaryInput
cancel b = record b { timers = disarm b.block_timeout b.timers; block_timeout = none }

-- The timer with the handle fires, if it is armed; there are only timers of the block.
pub fire : ℕ → BinaryInput → BinaryInput
fire h b = elim (armed_for h b.timers.armed) [
  | none ↦ b
  | some id ↦ record b { timers = disarm (some h) b.timers; block_timeout = none }
]

module _ (p : BinaryInputProps) where
  pub init : BinaryInput
  init = record {
    last_io_level = none;
    block_timeout = none;
    inverted = is_digital_pin_inverted p.invert p.invert_on_pullup p.pullup;
    timers = no_timers;
    emitted = [];
  }

  -- The edge and the resistor that the pin is set up with.
  pub setup_edge : BinaryInput → EdgeString
  setup_edge b = resolve_edge p.edge (some b.inverted)

  pub get_resistor_mode : ℕ
  get_resistor_mode = resolve_input_resistor_mode p.pullup p.pulldown

  abbrev pub start_block : BinaryInput → BinaryInput
  start_block b =
      if is_used p.block_time
      then record b { block_timeout = some b.timers.next; timers = arm block_id b.timers }
      else b

  pub handle_change : Bool → BinaryInput → BinaryInput
  handle_change level b =
      if is_blocked b
      then b
      else if is_new level b.last_io_level
      then emit level (start_block (record b { last_io_level = some level }))
      else b

-- What the pin, the timers and the owner of the object do.
pub data Event : Type 0 where
  changed : Bool → Event
  polled : Bool → Event
  fired : ℕ → Event
  cancelled : Event

module _ (p : BinaryInputProps) where
  pub step : Event → BinaryInput → BinaryInput
  unfolding handle_change poll fire cancel
  step (changed level) b = handle_change p level b
  step (polled level) b = poll level b
  step (fired h) b = fire h b
  step cancelled b = cancel b

  pub run : List Event → BinaryInput → BinaryInput
  unfolding step
  run [] b = b
  run (e ∷ es) b = run es (step e b)
