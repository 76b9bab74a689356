-- ===== src/Sessions/Tests.antt =====
-- Concrete sessions for the theorems on system/lib/Sessions.ts.
use squidlet.Base.{ℕ, refl, List, [], ◌∷◌, Option, none, String, true, false}
use squidlet.Sessions.{Sessions, init, new_session}
use squidlet.Sessions.Ends.{TimersCoherent, init-TimersCoherent, new_session-TimersCoherent}
use squidlet.Sessions.Histories.{
  Call, news, recovers, waits, shuts, listens, stores, fires, history, history-TimersCoherent,
}

abbrev run : String → ℕ → Option String
run id n = none

abbrev calls : List (Call ℕ ℕ)
calls =
    fires 2
    ∷ waits "a"
    ∷ recovers "a"
    ∷ shuts "b"
    ∷ news "b" 5 false
    ∷ stores "a" "k" 1
    ∷ news "a" 10 true
    ∷ listens 4
    ∷ []

abbrev waiting : Sessions ℕ ℕ
waiting = new_session "a" 10 true init

waiting-TimersCoherent : TimersCoherent waiting
waiting-TimersCoherent = new_session-TimersCoherent "a" 10 true init (init-TimersCoherent ℕ ℕ)

history-TimersCoherent_example : TimersCoherent (history run calls)
history-TimersCoherent_example = history-TimersCoherent run (λ id h. refl) calls
