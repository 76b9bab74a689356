-- ===== src/Override/Tests.antt =====
-- Concrete calls for the theorems on system/lib/QueueOverride.ts.
use squidlet.Base.{ℕ, ◌≡◌, ◌≢◌, List, [], ◌∷◌, none, some, String, true, eq_iff, arith}
use squidlet.Timers.{armed_for}
use squidlet.Override.{init, add, stop, is_pending, handle_cb_success}
use squidlet.Override.Pairs.{
  Call, adds, stops, settles, fires, follows, Paired, history, history-pairs,
}
use squidlet.Override.Timeouts.{stop-add}

abbrev calls : List (Call ℕ)
calls =
    follows 0
    ∷ settles 0 none
    ∷ adds 4 "a"
    ∷ fires 0
    ∷ stops "b"
    ∷ adds 3 "a"
    ∷ adds 2 "b"
    ∷ adds 1 "a"
    ∷ []

history-pairs_example :
    Paired (history calls).items × ((id : String) → (handle_cb_success id (history calls)).1 ≡ none)
history-pairs_example = history-pairs calls

a_not_b : ◌≢◌ {A = String} "a" "b"
a_not_b = ground (arith, eq_iff "a" "b")

stop-add_example :
    (is_pending {C = ℕ} "b" (stop {C = ℕ} "a" (add 2 "b" (add 1 "a" init).0).0) ≡ true)
    × ((h : ℕ)
        → armed_for h (stop {C = ℕ} "a" (add 2 "b" (add 1 "a" init).0).0).timers.armed ≢ some "b")
    × (armed_for 0 (stop {C = ℕ} "a" (add 2 "b" (add 1 "a" init).0).0).timers.armed ≡ some "a")
stop-add_example = stop-add 1 2 "a" "b" a_not_b
