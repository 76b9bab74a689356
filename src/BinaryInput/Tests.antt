-- ===== src/BinaryInput/Tests.antt =====
-- Runs and instances of the model of an input pin.
use squidlet.Base.{some, none, List, [], ◌∷◌, ◌≡◌, refl, Bool, true, false}
use squidlet.Digital.{invert_if_need, is_digital_pin_inverted}
use squidlet.Output.{io_value}
use squidlet.Output.Levels.{Alternating}
use squidlet.BinaryInput.{BinaryInputProps, Event, changed, init, poll, run}
use squidlet.BinaryInput.Levels.{poll-run}

abbrev props : BinaryInputProps
props = record {
  block_time = some 20;
  edge = none;
  invert = none;
  invert_on_pullup = some true;
  pullup = some true;
  pulldown = none;
}

abbrev bouncing : List Event
bouncing = changed false ∷ changed true ∷ changed false ∷ changed true ∷ []

one_is_seen : (run props bouncing (init props)).emitted ≡ true ∷ []
unfolding run init invert_if_need is_digital_pin_inverted
one_is_seen = refl

poll-run_example :
    let b = poll true (run props bouncing (init props)) in
    (rest : List Bool) × (b.emitted ≡ io_value true b.inverted ∷ rest)
    × Alternating (io_value true b.inverted) b.emitted
poll-run_example = poll-run props bouncing true
