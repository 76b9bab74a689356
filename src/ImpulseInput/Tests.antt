-- ===== src/ImpulseInput/Tests.antt =====
-- Runs and instances of the model of an input of impulses.
use squidlet.Base.{some, none, List, [], ◌∷◌, ◌≡◌, refl, true, false}
use squidlet.ImpulseInput.{
  increasing, ImpulseInputProps, rising, both, Event, changed, fired, init, run,
}
use squidlet.ImpulseInput.Cycles.{Inv, init-Inv, broken_by, impulse_run-Inv}

abbrev props : ImpulseInputProps
props = record {
  block_time = some 20;
  mode = increasing;
  invert = none;
  invert_on_pullup = none;
  pullup = none;
}

-- The second change prolongs the impulse: its timer is the one with the handle 1.
abbrev prolonged : List Event
prolonged = changed ∷ changed ∷ fired 0 ∷ fired 1 ∷ changed ∷ []

prolonged_once : (run props prolonged (init props)).emitted ≡ both false ∷ both true ∷ rising ∷ []
unfolding run init
prolonged_once = refl

impulse_run-Inv_example :
    Inv (broken_by props prolonged (init props) 0) (run props prolonged (init props))
impulse_run-Inv_example = impulse_run-Inv props prolonged (init props) 0 (init-Inv props)
