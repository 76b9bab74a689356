-- ===== src/Click/Tests.antt =====
-- Runs and instances of the model of a button.
use squidlet.Base.{some, none, List, [], ◌∷◌, ◌≡◌, refl, true, false}
use squidlet.Digital.{invert_if_need, is_digital_pin_inverted}
use squidlet.Click.{BinaryClickProps, up, down, change, Event, changed, fired, init, step, run}
use squidlet.Click.Cycles.{Inv, init-Inv, give_ups, click_run-Inv}

abbrev props : BinaryClickProps
props = record {
  release_timeout_ms = some 1000;
  block_time = some 50;
  invert = none;
  invert_on_pullup = some true;
  pullup = some true;
}

-- The pin is inverted: a low level is a press.
abbrev one_click : List Event
one_click = changed false ∷ changed false ∷ changed true ∷ changed false ∷ []

one_click_blocks :
    (run props one_click (init props)).emitted ≡ up ∷ change false ∷ down ∷ change true ∷ []
unfolding run init invert_if_need is_digital_pin_inverted
one_click_blocks = refl

given_up :
    (run props (changed false ∷ fired 0 ∷ changed true ∷ []) (init props)).emitted
    ≡ down ∷ change true ∷ []
unfolding run init invert_if_need is_digital_pin_inverted
given_up = refl

click_run-Inv_example :
    Inv (give_ups props one_click (init props) 0) (run props one_click (init props))
click_run-Inv_example = click_run-Inv props one_click (init props) 0 (init-Inv props)

-- The press of the run is answered by a release.
none_given_up : give_ups props one_click (init props) 0 ≡ 0
unfolding give_ups step init invert_if_need is_digital_pin_inverted
none_given_up = refl

blocked_now : (run props one_click (init props)).block_timeout ≡ some 1
unfolding run init invert_if_need is_digital_pin_inverted
blocked_now = refl
