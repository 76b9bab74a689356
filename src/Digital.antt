-- ===== src/Digital.antt =====
-- system/lib/digitalHelpers.ts: levels, edges and resistor modes of digital pins, whose types stand in
-- system/interfaces/gpioTypes.ts. An argument that is undefined is `none`.
pub mod Edges
mod Tests
use squidlet.Base.{
  ℕ, Option, none, some, some_or, String, str_eq, Bool, true, false, not, ◌&&◌, ◌||◌, ◌==◌,
  if◌then◌else◌,
}
use Prim.Native.String.{◌++◌}

-- The values that a level may come as.
pub data Value : Type 0 where
  of_bool : Bool → Value
  of_number : ℕ → Value
  of_text : String → Value
  of_other : Value

pub data EdgeString : Type 0 where
  rising : EdgeString
  falling : EdgeString
  both : EdgeString

pub data PinDirection : Type 0 where
  input : PinDirection
  output : PinDirection

-- The numbers of the two enumerations, which `stringifyResistorMode` compares as numbers.
abbrev pub no_resistor : ℕ
no_resistor = 0

abbrev pub pullup : ℕ
pullup = 1

abbrev pub pulldown : ℕ
pulldown = 2

abbrev pub opendrain : ℕ
opendrain = 1

unfoldable pub resolve_level : Value → Bool
resolve_level (of_bool b) = b
resolve_level (of_number n) = n == 1
resolve_level (of_text t) =
    str_eq t "high"
    || str_eq t "true"
    || str_eq t "1"
    || str_eq t "ON"
    || str_eq t "on"
    || str_eq t "On"
resolve_level of_other = false

abbrev pub truthy : Option Bool → Bool
truthy o = some_or false o

unfoldable pub is_digital_pin_inverted : Option Bool → Option Bool → Option Bool → Bool
is_digital_pin_inverted invert invert_on_pullup_or_open_drain pullup_or_open_drain =
    if truthy pullup_or_open_drain && truthy invert_on_pullup_or_open_drain
    then not (truthy invert)
    else truthy invert

unfoldable pub invert_if_need : Option Bool → Option Bool → Bool
invert_if_need value invert = if truthy invert then not (truthy value) else truthy value

-- The enumeration `Edge` has the same three cases as its texts.
unfoldable pub resolve_edge : Option EdgeString → Option Bool → EdgeString
resolve_edge none inverted = both
resolve_edge (some rising) inverted = if truthy inverted then falling else rising
resolve_edge (some falling) inverted = if truthy inverted then rising else falling
resolve_edge (some both) inverted = both

pub resolve_input_resistor_mode : Option Bool → Option Bool → ℕ
resolve_input_resistor_mode up down =
    if truthy up then pullup else if truthy down then pulldown else no_resistor

pub resolve_output_resistor_mode : Option Bool → ℕ
resolve_output_resistor_mode open_drain = if truthy open_drain then opendrain else no_resistor

pub stringify_pin_direction : Option PinDirection → String
stringify_pin_direction none = "unset"
stringify_pin_direction (some input) = "input"
stringify_pin_direction (some output) = "output"

abbrev is_input : PinDirection → Bool
is_input input = true
is_input output = false

pub stringify_resistor_mode : Option PinDirection → Option ℕ → String
stringify_resistor_mode none mode = "unset"
stringify_resistor_mode (some direction) none = "unset"
stringify_resistor_mode (some direction) (some mode) =
    if mode == pulldown
    then "pulldown"
    else if mode == pullup && is_input direction
    then "pullup"
    else if mode == opendrain && not (is_input direction)
    then "opendrain"
    else "none"

pub stringify_pin_mode : Option PinDirection → Option ℕ → String
unfolding stringify_pin_direction stringify_resistor_mode
stringify_pin_mode direction mode =
    stringify_pin_direction direction ++ ("_" ++ stringify_resistor_mode direction mode)
