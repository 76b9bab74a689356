-- ===== src/Pcf8574.antt =====
-- entities/drivers/Pcf8574/Pcf8574.ts: the pins of an expander with one byte of state. What it asks of
-- its helpers (DigitalPortExpanderOutputLogic, DigitalPortExpanderInputLogic) and what it sends over
-- I2C is kept in lists, the newest first. `setup_step` is `isSetupStep` of InitIcLogic.
pub mod Pins
mod Tests
use squidlet.Base.{
  ℕ, zero, suc, ◌%◌, List, [], ◌∷◌, Option, none, some, String, Bool, true, false, ◌||◌, is_some,
  leb, ◌==◌, if◌then◌else◌, Result, ok, throws, ◌>>=◌,
}
use squidlet.Binary.Bits.{update_bit_in_byte, get_bit_from_byte}
use squidlet.Digital.{PinDirection, input, output}

-- What the two helpers are asked to do.
pub data Asked : Type 0 where
  write_pin : ℕ → Bool → Asked
  write_whole : ℕ → Asked
  income_state : ℕ → Bool → Option ℕ → Asked
  clear_input : ℕ → Asked
  cancel_input : Asked
  cancel_output : Asked

pub record Pcf8574 : Type 0 where
  pub directions : ℕ → Option PinDirection
  pub pin_debounces : ℕ → Option ℕ
  pub current_state : ℕ
  pub setup_step : Bool
  pub asked : List Asked
  pub sent : List (List ℕ)
  pub logged : List String

abbrev pub pins_count : ℕ
pins_count = 8

abbrev pub init : Pcf8574
init = record {
  directions = λ pin. none;
  pin_debounces = λ pin. none;
  current_state = 0;
  setup_step = true;
  asked = [];
  sent = [];
  logged = [];
}

abbrev pub out_of_range : String
out_of_range = "Pin out of range"

abbrev pub already_set_up : String
already_set_up = "This pin has been already set up"

abbrev pub not_an_output : String
not_an_output = "Pin is not defined as an output"

abbrev pub incorrect_length : String
incorrect_length = "PCF8574Driver: Incorrect data length has been received"

-- The write of a value at one place of an object.
abbrev pub put {ℓ} : {A : Type ℓ} → ℕ → A → (ℕ → A) → ℕ → A
put i a f k = if i == k then a else f k

abbrev pub is_output : Option PinDirection → Bool
is_output (some output) = true
is_output (some input) = false
is_output none = false

abbrev pub is_input : Option PinDirection → Bool
is_input (some output) = false
is_input (some input) = true
is_input none = false

pub check_pin_range : ℕ → Result (Unit {0})
check_pin_range pin = if leb pins_count pin then throws out_of_range else ok tt

abbrev pub with_debounce : ℕ → Option ℕ → Pcf8574 → Pcf8574
with_debounce pin none e = e
with_debounce pin (some ms) e = record e { pin_debounces = put pin (some ms) e.pin_debounces }

pub setup_input : ℕ → Option ℕ → Pcf8574 → Result Pcf8574
unfolding check_pin_range
setup_input pin debounce e = check_pin_range pin >>= λ checked.
    if is_some (e.directions pin)
    then throws already_set_up
    else (let e' = with_debounce pin debounce e in
        ok (record e' { directions = put pin (some input) e'.directions }))

pub update_state : ℕ → Bool → Pcf8574 → Result Pcf8574
update_state pin value e =
    update_bit_in_byte e.current_state pin value >>= λ byte. ok (record e { current_state = byte })

abbrev pub set_initial : ℕ → Option Bool → Pcf8574 → Result Pcf8574
unfolding update_state
set_initial pin none e = ok e
set_initial pin (some value) e = update_state pin value e

pub setup_output : ℕ → Option Bool → Pcf8574 → Result Pcf8574
unfolding check_pin_range update_state
setup_output pin initial e = check_pin_range pin >>= λ checked.
    if is_some (e.directions pin)
    then throws already_set_up
    else set_initial pin initial (record e { directions = put pin (some output) e.directions })

pub get_pin_direction : ℕ → Pcf8574 → Result (Option PinDirection)
unfolding check_pin_range
get_pin_direction pin e = check_pin_range pin >>= λ checked. ok (e.directions pin)

-- `this.directions.includes(PinDirection.input)`: the positions below `pin`.
pub includes_input : (ℕ → Option PinDirection) → ℕ → Bool
includes_input directions zero = false
includes_input directions (suc pin) = includes_input directions pin || is_input (directions pin)

pub has_input_pins : Pcf8574 → Bool
unfolding includes_input
has_input_pins e = includes_input e.directions pins_count

pub get_pin_state : ℕ → Pcf8574 → Result Bool
unfolding check_pin_range
get_pin_state pin e = check_pin_range pin >>= λ checked. get_bit_from_byte e.current_state pin

pub write : ℕ → Bool → Pcf8574 → Result Pcf8574
unfolding check_pin_range update_state
write pin value e = check_pin_range pin >>= λ checked.
    if is_output (e.directions pin)
    then (if e.setup_step
        then update_state pin value e
        else ok (record e { asked = write_pin pin value ∷ e.asked }))
    else throws not_an_output

-- One round of the loop of `writeState`.
pub copy_output : (ℕ → Option PinDirection) → ℕ → ℕ → ℕ → Result ℕ
copy_output directions new_state pin prepared =
    if is_output (directions pin)
    then (get_bit_from_byte new_state pin >>= λ value. update_bit_in_byte prepared pin value)
    else ok prepared

-- The loops from `pin` on, with the rounds that are left.
pub prepare_from : (ℕ → ℕ → Result ℕ) → ℕ → ℕ → ℕ → Result ℕ
prepare_from round zero pin prepared = ok prepared
prepare_from round (suc left) pin prepared =
    round pin prepared >>= λ next. prepare_from round left (suc pin) next

pub write_state : ℕ → Pcf8574 → Result Pcf8574
unfolding copy_output prepare_from
write_state new_state e =
    prepare_from (copy_output e.directions new_state) pins_count 0 e.current_state >>= λ prepared.
    if e.setup_step
    then ok (record e { current_state = prepared })
    else ok (record e { asked = write_whole prepared ∷ e.asked })

-- One round of the loop of `writeToIc`.
pub raise_input : (ℕ → Option PinDirection) → ℕ → ℕ → Result ℕ
raise_input directions pin prepared =
    if is_input (directions pin) then update_bit_in_byte prepared pin true else ok prepared

-- The byte that is sent for a state.
pub prepare_to_ic : ℕ → Pcf8574 → Result ℕ
unfolding has_input_pins raise_input prepare_from
prepare_to_ic new_state e =
    if has_input_pins e
    then prepare_from (raise_input e.directions) pins_count 0 new_state
    else ok new_state

pub write_to_ic : ℕ → Pcf8574 → Result Pcf8574
unfolding prepare_to_ic
write_to_ic new_state e = prepare_to_ic new_state e >>= λ prepared.
    ok (record e { sent = (prepared % 256 ∷ []) ∷ e.sent })

-- One round of the loop of `handleIcStateChange`.
abbrev pub take_income : ℕ → ℕ → Pcf8574 → Result Pcf8574
take_income byte pin e =
    if is_input (e.directions pin)
    then (get_bit_from_byte byte pin >>= λ value.
        ok (record e { asked = income_state pin value (e.pin_debounces pin) ∷ e.asked }))
    else ok e

pub income_from : ℕ → ℕ → ℕ → Pcf8574 → Result Pcf8574
income_from byte zero pin e = ok e
income_from byte (suc left) pin e =
    take_income byte pin e >>= λ next. income_from byte left (suc pin) next

-- Data that is undefined has no byte.
pub handle_ic_state_change : List ℕ → Pcf8574 → Result Pcf8574
unfolding income_from
handle_ic_state_change (byte ∷ []) e = income_from byte pins_count 0 e
handle_ic_state_change bytes e = ok (record e { logged = incorrect_length ∷ e.logged })

abbrev pub forget_pin : ℕ → Pcf8574 → Pcf8574
forget_pin pin e = record e {
  directions = put pin none e.directions;
  pin_debounces = put pin none e.pin_debounces;
}

pub clear_pin : ℕ → Pcf8574 → Result Pcf8574
unfolding check_pin_range
clear_pin pin e = check_pin_range pin >>= λ checked. ok (
    forget_pin pin
      (if is_input (e.directions pin) then record e { asked = clear_input pin ∷ e.asked } else e))

pub forget_from : ℕ → ℕ → Pcf8574 → Pcf8574
forget_from zero pin e = e
forget_from (suc left) pin e = forget_from left (suc pin) (forget_pin pin e)

pub clear_all : Pcf8574 → Pcf8574
unfolding forget_from
clear_all e = forget_from pins_count 0 (record e { asked = cancel_output ∷ cancel_input ∷ e.asked })
