-- ===== src/Sessions/Ends.antt =====
-- The timers of the sessions, and what is left of a session that ended.
use squidlet.Base.{
  ℕ, ◌≡◌, ◌≢◌, refl, sym, ap, ◌∙◌, List, ◌++◌, map, Option, none, some, String, Bool, true, false,
  eq_refl, lookup, insert, delete, lookup-insert, lookup-delete,
}
use squidlet.Timers.{armed_for}
use squidlet.Timers.Without.{without_twice}
use squidlet.Timers.Coherent.{
  Coherent, changed, arm-Coherent, disarm-Coherent, armed_for-kept, no_timers-Coherent,
}
use squidlet.Events.Indexed.{emit}
use squidlet.Events.Indexed.Laws.{emit-quiet}
use squidlet.Sessions.{
  Sessions, init, is_session_active, recover_session, new_session_timeout, new_session,
  destroy_session, destroy_unless, shut_down_immediately, fire,
}

module _ {H J : Type 0} where
  abbrev pub kept : Sessions H J → String → Option ℕ
  kept s id = lookup id s.close_connection_timeouts

  -- The timers are just those whose handles are kept, one for each session that waits for its end.
  abbrev pub TimersCoherent : Sessions H J → Type 0
  TimersCoherent s = Coherent (kept s) s.timers

  kept-delete :
      (id k : String) (s : Sessions H J)
      → lookup k (delete id s.close_connection_timeouts) ≡ changed (kept s) id none k
  kept-delete id k s = lookup-delete id k s.close_connection_timeouts

  pub recover_session-TimersCoherent :
      (id : String) (s : Sessions H J) → TimersCoherent s → TimersCoherent (recover_session id s)
  unfolding recover_session
  recover_session-TimersCoherent id s c =
      disarm-Coherent (kept s) _ id (kept s id) s.timers refl (λ k. kept-delete id k s) c

  pub new_session_timeout-TimersCoherent :
      (id : String) (s : Sessions H J)
      → TimersCoherent s
      → TimersCoherent (new_session_timeout id s)
  unfolding new_session_timeout recover_session
  new_session_timeout-TimersCoherent id s c =
      arm-Coherent (kept (recover_session id s)) _ id (recover_session id s).timers
        (kept-delete id id s ∙ rw (eq_refl id)) (λ k. lookup-insert id k _ _)
        (recover_session-TimersCoherent id s c)

  pub new_session-TimersCoherent :
      (id : String) (sec : ℕ) (short : Bool) (s : Sessions H J)
      → TimersCoherent s
      → TimersCoherent (new_session id sec short s)
  unfolding new_session
  new_session-TimersCoherent id sec true s c =
      new_session_timeout-TimersCoherent id
        (record s { active_session = insert id sec s.active_session }) c
  new_session-TimersCoherent id sec false s c = c

  pub destroy_session-TimersCoherent :
      (id : String) (s : Sessions H J) → TimersCoherent s → TimersCoherent (destroy_session id s)
  unfolding destroy_session
  destroy_session-TimersCoherent id s c =
      disarm-Coherent (kept s) _ id (kept s id) s.timers refl (λ k. kept-delete id k s) c

  -- No timer is armed for an id whose handle is not kept.
  not_armed :
      (id : String) (h : ℕ) (s : Sessions H J)
      → TimersCoherent s
      → kept s id ≡ none
      → armed_for h s.timers.armed ≢ some id
  not_armed id h s c free e = cc (sym free ∙ armed_for-kept (kept s) h id s.timers.armed c.sound e)

  -- Where the timers agree with the handles, after `recoverSession` no timer is armed for the session.
  pub armed_for-recover_session :
      (id : String) (h : ℕ) (s : Sessions H J)
      → TimersCoherent s
      → armed_for h (recover_session id s).timers.armed ≢ some id
  unfolding recover_session
  armed_for-recover_session id h s c =
      not_armed id h (recover_session id s) (recover_session-TimersCoherent id s c)
        (kept-delete id id s ∙ rw (eq_refl id))

  -- The session is not active, has no storage, and no timer is armed for it.
  pub record Ended (id : String) (s : Sessions H J) : Type 0 where
    pub inactive : is_session_active id s ≡ false
    pub empty : lookup id s.session_storage ≡ none
    pub silent : (h : ℕ) → armed_for h s.timers.armed ≢ some id

  destroy_session-Ended :
      (id : String) (s : Sessions H J) → TimersCoherent s → Ended id (destroy_session id s)
  unfolding destroy_session
  destroy_session-Ended id s c = record {
    inactive = rw (lookup-delete id id s.active_session, eq_refl id);
    empty = lookup-delete id id s.session_storage ∙ rw (eq_refl id);
    silent = λ h.
        not_armed id h (destroy_session id s) (destroy_session-TimersCoherent id s c)
          (kept-delete id id s ∙ rw (eq_refl id));
  }

  -- `shutDownImmediately`, if no listener throws: no error, the listeners are told, and the session
  -- has ended.
  pub shut_down_immediately-Ended :
      (run : String → H → Option String) (id : String) (s : Sessions H J)
      → ((h : H) → run id h ≡ none)
      → TimersCoherent s
      → (s' : Sessions H J) × (shut_down_immediately run id s ≡ (s', none))
        × (s'.told ≡ map (λ h. (h, id)) (emit (run id) s.close_events).calls ++ s.told)
        × Ended id s'
        × TimersCoherent s'
  unfolding shut_down_immediately destroy_session
  shut_down_immediately-Ended run id s quiet c =
      let r = emit (run id) s.close_events in
      let told : Sessions H J = record s {
        close_events = r.events;
        told = map (λ h. (h, id)) r.calls ++ s.told;
      } in
      (
        destroy_session id told,
        ap (λ o. destroy_unless o id told) (emit-quiet (run id) s.close_events quiet),
        refl,
        destroy_session-Ended id told c,
        destroy_session-TimersCoherent id told c,
      )

  -- Where the timers agree with the handles, when the timer of a session fires and no listener throws:
  -- no error, the listeners are told, the session has ended, and the timers still agree.
  pub fire-Ended :
      (run : String → H → Option String) (h : ℕ) (id : String) (s : Sessions H J)
      → ((g : H) → run id g ≡ none)
      → TimersCoherent s
      → armed_for h s.timers.armed ≡ some id
      → (s' : Sessions H J) × (fire run h s ≡ (s', none))
        × (s'.told ≡ map (λ g. (g, id)) (emit (run id) s.close_events).calls ++ s.told)
        × Ended id s'
        × TimersCoherent s'
  unfolding fire shut_down_immediately destroy_session
  fire-Ended run h id s quiet c armed =
      let r = emit (run id) s.close_events in
      let told : Sessions H J = record s {
        close_events = r.events;
        told = map (λ g. (g, id)) r.calls ++ s.told;
      } in
      let here = armed_for-kept (kept s) h id s.timers.armed c.sound armed in
      let put : List (ℕ × String) → Sessions H J × Option String = λ ts.
        (record (destroy_session id told) { timers = record s.timers { armed = ts } }, none) in
      (
        destroy_session id told,
        rw (armed, fire, emit-quiet (run id) s.close_events quiet, here)
            (ap put (without_twice h s.timers.armed)),
        refl,
        destroy_session-Ended id told c,
        destroy_session-TimersCoherent id told c,
      )

pub init-TimersCoherent : (H J : Type 0) → TimersCoherent (init {H = H} {J = J})
unfolding lookup
init-TimersCoherent H J = no_timers-Coherent _ (λ k. refl)

pub idle_fire :
    {H J : Type 0} (run : String → H → Option String) (h : ℕ) (s : Sessions H J)
    → armed_for h s.timers.armed ≡ none
    → fire run h s ≡ (s, none)
unfolding fire
idle_fire run h s idle = rw (idle, fire)
