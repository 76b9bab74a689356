-- ===== src/Sessions/Histories.antt =====
-- Any history of calls and timers on a new object, with listeners that do not throw.
use squidlet.Base.{
  ℕ, ◌≡◌, List, [], ◌∷◌, Option, none, String, Bool, Option-cases, inl, inr, sym, subst,
}
use squidlet.Timers.{armed_for}
use squidlet.Sessions.{
  Sessions, init, new_session, recover_session, wait_for_shut_down, shut_down_immediately,
  destroy_session, fire, on_session_closed, remove_session_closed_listener, set_storage,
}
use squidlet.Sessions.Ends.{
  TimersCoherent, init-TimersCoherent, recover_session-TimersCoherent,
  new_session_timeout-TimersCoherent, new_session-TimersCoherent, destroy_session-TimersCoherent,
  shut_down_immediately-Ended, fire-Ended, idle_fire,
}

pub data Call (H J : Type 0) : Type 0 where
  news : String → ℕ → Bool → Call H J
  recovers : String → Call H J
  waits : String → Call H J
  shuts : String → Call H J
  destroys : String → Call H J
  listens : H → Call H J
  unlistens : ℕ → Call H J
  stores : String → String → J → Call H J
  fires : ℕ → Call H J

module _ {H J : Type 0} (run : String → H → Option String) where
  pub step : Call H J → Sessions H J → Sessions H J
  step (news id sec short) s = new_session id sec short s
  step (recovers id) s = recover_session id s
  step (waits id) s = wait_for_shut_down id s
  step (shuts id) s = (shut_down_immediately run id s).0
  step (destroys id) s = destroy_session id s
  step (listens cb) s = (on_session_closed cb s).0
  step (unlistens i) s = remove_session_closed_listener i s
  step (stores id key value) s = set_storage id key value s
  step (fires h) s = (fire run h s).0

  -- The calls stand newest first.
  pub history : List (Call H J) → Sessions H J
  history [] = init
  history (c ∷ cs) = step c (history cs)

module _ {H J : Type 0} (run : String → H → Option String)
    (quiet : (id : String) (h : H) → run id h ≡ none) where
  fired : (h : ℕ) (s : Sessions H J) → TimersCoherent s → TimersCoherent (fire run h s).0
  fired h s c = elim (Option-cases (armed_for h s.timers.armed)) [
    | inl idle ↦ subst (λ r. TimersCoherent r.0) (sym (idle_fire run h s idle)) c
    | inr (id, armed) ↦
        let (s', done, told, ended, c') = fire-Ended run h id s (quiet id) c armed in
        subst (λ r. TimersCoherent r.0) (sym done) c'
  ]

  shut :
      (id : String) (s : Sessions H J)
      → TimersCoherent s
      → TimersCoherent (shut_down_immediately run id s).0
  shut id s c =
      let (s', done, told, ended, c') = shut_down_immediately-Ended run id s (quiet id) c in
      subst (λ r. TimersCoherent r.0) (sym done) c'

  step-TimersCoherent :
      (c : Call H J) (s : Sessions H J) → TimersCoherent s → TimersCoherent (step run c s)
  unfolding step wait_for_shut_down on_session_closed remove_session_closed_listener set_storage
  step-TimersCoherent (news id sec short) s c = new_session-TimersCoherent id sec short s c
  step-TimersCoherent (recovers id) s c = recover_session-TimersCoherent id s c
  step-TimersCoherent (waits id) s c = new_session_timeout-TimersCoherent id s c
  step-TimersCoherent (shuts id) s c = shut id s c
  step-TimersCoherent (destroys id) s c = destroy_session-TimersCoherent id s c
  step-TimersCoherent (listens cb) s c = c
  step-TimersCoherent (unlistens i) s c = c
  step-TimersCoherent (stores id key value) s c = c
  step-TimersCoherent (fires h) s c = fired h s c

  -- After any history of calls and timers on a new object, with listeners that do not throw, the
  -- timers that are armed are just those whose handles are kept, one for each session that waits
  -- for its end: no timer of an earlier wait is left.
  pub history-TimersCoherent : (cs : List (Call H J)) → TimersCoherent (history run cs)
  unfolding history
  history-TimersCoherent [] = init-TimersCoherent H J
  history-TimersCoherent (c ∷ cs) =
      step-TimersCoherent c (history run cs) (history-TimersCoherent cs)
