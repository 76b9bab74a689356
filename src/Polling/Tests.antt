-- ===== src/Polling/Tests.antt =====
-- Runs and instances of the model of polling.
use squidlet.Base.{
  ℕ, some, none, List, [], ◌∷◌, ◌++◌, ◌≡◌, ◌≢◌, refl, String, Option, lookup, insert, ok,
}
use squidlet.Timers.{armed_for}
use squidlet.Polling.{
  CurrentPoll, Polling, Event, started, restarted, answered, init, run, stop, fire, resolve_id,
}
use squidlet.Polling.Intervals.{fire-run}
use squidlet.Polling.Restarts.{restart_twice, stop-restart_twice}

-- Methods by number.
abbrev two_polls : List (Event ℕ)
two_polls = started 7 1000 none ∷ started 8 500 (some "b") ∷ restarted none ∷ answered none 0 ∷ []

intervals_now : (run two_polls init).timers.armed ≡ (2, "defaultUniqId") ∷ (1, "b") ∷ []
unfolding run lookup insert
intervals_now = refl

fire-run_example :
    ((p : CurrentPoll ℕ) × (lookup "b" (run two_polls init).current_polls ≡ some p)
      × (p.interval_id ≡ 1)
      × (fire 1 (run two_polls init) ≡ record (run two_polls init) {
        called = ("b", p.method_which_poll) ∷ (run two_polls init).called;
        waiting = (run two_polls init).waiting ++ ("b", p.method_which_poll) ∷ [];
      }))
    × ((uniq_id : Option String) (k : ℕ)
        → armed_for k (stop uniq_id (run two_polls init)).timers.armed ≢ some (resolve_id uniq_id))
unfolding run lookup insert
fire-run_example = fire-run two_polls 1 "b" refl

stop-restart_twice_example :
    (d' : Polling ℕ) × (restart_twice (some "b") (run two_polls init) ≡ ok d')
    × (lookup "b" (stop (some "b") d').current_polls ≡ none)
    × (armed_for 3 (stop (some "b") d').timers.armed ≡ some "b")
unfolding run lookup insert
stop-restart_twice_example =
    stop-restart_twice (some "b")
      (record { interval_id = 1; method_which_poll = 8; poll_interval = 500 }) (run two_polls init)
      refl
