-- ===== src/InitIc/Tests.antt =====
-- Runs and instances of the model of the initialization of a chip.
use squidlet.Base.{◌≤◌, List, [], ◌∷◌, ◌≡◌, refl, true, false, ok}
use squidlet.InitIc.{InitIc, Event, ended, timed_out, new_logic, init, run}
use squidlet.InitIc.Rounds.{calling, view, stage_after, run-init}
use squidlet.InitIc.Cancels.{started, Stale, init-cancel}

abbrev two_failures : List Event
two_failures = ended false ∷ timed_out 0 ∷ timed_out 1 ∷ ended false ∷ ended true ∷ []

three_tries : (run two_failures started).tries ≡ 3
unfolding run
three_tries = refl

initialized_then : (run two_failures started).initialized ≡ true
unfolding run
initialized_then = refl

run-init_example :
    (s : InitIc) × (init new_logic ≡ ok s)
    × (run two_failures s ≡ view (stage_after two_failures (0, calling false)))
    × ((run two_failures s).tries ≤ 3)
run-init_example = run-init two_failures

init-cancel_example :
    (init new_logic ≡ ok started) × Stale (run (ended false ∷ timed_out 0 ∷ []) started)
unfolding run
init-cancel_example = init-cancel (ended false ∷ timed_out 0 ∷ []) refl
