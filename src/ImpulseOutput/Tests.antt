-- ===== src/ImpulseOutput/Tests.antt =====
-- Runs and instances of the model of an output of impulses.
use squidlet.Base.{some, none, List, [], ◌∷◌, ◌≡◌, refl, true, false}
use squidlet.Digital.{invert_if_need, is_digital_pin_inverted}
use squidlet.Output.{caller}
use squidlet.ImpulseOutput.{
  defer, ImpulseOutputProps, Event, asked, answered, fired, init, run, impulse, do_start_impulse,
  is_blocked, is_impulse_in_progress,
}
use squidlet.ImpulseOutput.Unblocked.{impulse-run}

abbrev props : ImpulseOutputProps
props = record {
  block_time = some 100;
  block_mode = defer;
  invert = none;
  invert_on_open_drain = none;
  open_drain = none;
}

-- The second impulse is deferred, and starts when the timer of the block, with the handle 1, fires.
abbrev two_impulses : List Event
two_impulses = asked ∷ asked ∷ answered none 0 ∷ fired 0 ∷ answered none 0 ∷ fired 1 ∷ []

two_impulses_start : (run props two_impulses (init props)).emitted ≡ true ∷ true ∷ []
unfolding run init invert_if_need is_digital_pin_inverted
two_impulses_start = refl

impulse-run_example :
    (is_blocked (run props two_impulses (init props)) ≡ false)
    × (is_impulse_in_progress (run props two_impulses (init props)) ≡ false
        → impulse props (run props two_impulses (init props))
          ≡ do_start_impulse caller (run props two_impulses (init props)))
impulse-run_example = impulse-run props two_impulses
