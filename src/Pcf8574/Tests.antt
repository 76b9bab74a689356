-- ===== src/Pcf8574/Tests.antt =====
-- Runs and instances of the model of the expander.
use squidlet.Base.{ℕ, ◌<◌, some, none, [], ◌∷◌, ◌≡◌, refl, true, if◌then◌else◌, ok, throws, arith}
use squidlet.Digital.{input, output}
use squidlet.Binary.Bits.Laws.{is_set}
use squidlet.Pcf8574.{
  Pcf8574, init, put, is_output, is_input, setup_input, setup_output, write, write_state,
  write_to_ic, write_whole, not_an_output, out_of_range, already_set_up,
}
use squidlet.Pcf8574.Pins.{write_state_outputs, write_to_ic_inputs}

-- The pin 0 is an input, the pin 1 an output.
abbrev wired : Pcf8574
wired = record init { directions = put 0 (some input) (put 1 (some output) (λ pin. none)) }

set_up_once :
    (setup_input 1 none wired ≡ throws already_set_up)
    × (setup_output 9 none wired ≡ throws out_of_range)
    × (write 0 true wired ≡ throws not_an_output)
unfolding setup_input setup_output write
set_up_once = (refl, refl, refl)

write_state_outputs_example :
    (byte : ℕ) × (write_state 255 wired
      ≡ ok (
          if wired.setup_step
          then record wired { current_state = byte }
          else record wired { asked = write_whole byte ∷ wired.asked }))
    × (byte < 256)
    × ((q : ℕ)
        → q < 8
        → is_set byte q
          ≡ (if is_output (wired.directions q) then is_set 255 q else is_set wired.current_state q))
write_state_outputs_example = write_state_outputs 255 wired (omega arith)

write_to_ic_inputs_example :
    (byte : ℕ) × (write_to_ic 2 wired ≡ ok (record wired { sent = (byte ∷ []) ∷ wired.sent }))
    × (byte < 256)
    × ((q : ℕ)
        → q < 8
        → is_set byte q ≡ (if is_input (wired.directions q) then true else is_set 2 q))
write_to_ic_inputs_example = write_to_ic_inputs 2 wired (omega arith)
