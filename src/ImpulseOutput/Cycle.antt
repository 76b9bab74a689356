-- ===== src/ImpulseOutput/Cycle.antt =====
-- One impulse from its start to its end.
use squidlet.Base.{◌≡◌, List, [], ◌∷◌, none, true, false}
use squidlet.Output.{io_value}
use squidlet.ImpulseOutput.{ImpulseOutput, is_impulse_in_progress, Event, asked, answered, fired}

-- An output at which nothing is in progress and nothing is deferred.
abbrev pub at_rest : ImpulseOutput → ImpulseOutput
at_rest o = record o {
  deferred_impulse = false;
  block_timeout = none;
  impulse_timeout = none;
  writing_start = false;
  writing_end = false;
  deferred_write_promise = none;
  in_flight = [];
  ends_waiting = 0;
}

-- The pin was set and set back, one change was emitted, the caller was told once that all is well, and
-- no impulse is in progress.
abbrev pub Done : ImpulseOutput → ImpulseOutput → Type 0
Done o o' =
    (o'.written ≡ io_value false o.inverted ∷ io_value true o.inverted ∷ o.written)
    × (o'.emitted ≡ true ∷ o.emitted)
    × (o'.returned ≡ none ∷ o.returned)
    × (is_impulse_in_progress o' ≡ false)

-- The pin answers before the time of the impulse is over, or after it.
abbrev pub quick_pin : ImpulseOutput → List Event
quick_pin o = asked ∷ answered none 0 ∷ fired o.timers.next ∷ answered none 0 ∷ []

abbrev pub slow_pin : ImpulseOutput → List Event
slow_pin o = asked ∷ fired o.timers.next ∷ answered none 0 ∷ answered none 0 ∷ []
