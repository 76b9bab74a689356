-- ===== src/Polling/Restarts.antt =====
-- Two restarts of one poll at a time.
use squidlet.Base.{
  ℕ, suc, ◌≡◌, refl, ap, ◌∙◌, List, ◌∷◌, Option, none, some, String, eq_refl, lookup, lookup-insert,
  lookup-delete, true, false, Result, ok, ◌==◌, ==_iff, arith, ◌>>=◌,
}
use squidlet.Timers.{disarm, without, armed_for}
use squidlet.Polling.{
  CurrentPoll, Polling, resolve_id, poll_once, set_interval, stop, restart, renew_interval,
}

left_armed :
    (n : ℕ) (id : String) (ts : List (ℕ × String))
    → armed_for n (without (suc n) ((suc n, id) ∷ (n, id) ∷ ts)) ≡ some id
left_armed n id ts =
    let same : (suc n == suc n) ≡ true = (==_iff (suc n) (suc n)).1 refl in
    let other : (n == suc n) ≡ false = ground arith in
    let own : (n == n) ≡ true = (==_iff n n).1 refl in rw (same, other, own)

module _ {M : Type 0} where
  -- `restart` is called again before the first call is behind its `await`.
  pub restart_twice : Option String → Polling M → Result (Polling M)
  restart_twice u d = do
    a ← restart u d
    b ← restart u a
    c ← renew_interval (resolve_id u) b
    renew_interval (resolve_id u) c

  abbrev paused : String → CurrentPoll M → Polling M → Polling M
  paused id p d =
      poll_once id p.method_which_poll (record d { timers = disarm (some p.interval_id) d.timers })

  abbrev renewed : String → CurrentPoll M → Polling M → Polling M
  renewed id p d = set_interval id p.method_which_poll p.poll_interval d

  abbrev both_done : String → CurrentPoll M → Polling M → Polling M
  both_done id p d = renewed id p (renewed id p (paused id p (paused id p d)))

  restart-paused :
      (u : Option String) (p : CurrentPoll M) (d : Polling M)
      → lookup (resolve_id u) d.current_polls ≡ some p
      → restart u d ≡ ok (paused (resolve_id u) p d)
  unfolding restart
  restart-paused u p d e = rw e

  renew-renewed :
      (id : String) (p : CurrentPoll M) (d : Polling M)
      → lookup id d.current_polls ≡ some p
      → renew_interval id d ≡ ok (renewed id p d)
  unfolding renew_interval
  renew-renewed id p d e = rw e

  lookup-renewed :
      (id : String) (p : CurrentPoll M) (d : Polling M)
      → lookup id (renewed id p d).current_polls ≡ some (record p { interval_id = d.timers.next })
  lookup-renewed id p d =
      lookup-insert id id (record p { interval_id = d.timers.next }) d.current_polls
      ∙ rw (eq_refl id)

  restart_twice_done :
      (u : Option String) (p : CurrentPoll M) (d : Polling M)
      → lookup (resolve_id u) d.current_polls ≡ some p
      → restart_twice u d ≡ ok (both_done (resolve_id u) p d)
  unfolding restart_twice
  restart_twice_done u p d e =
      let id = resolve_id u in
      let once = renewed id p (paused id p (paused id p d)) in
      rw
        (
          restart-paused u p d e,
          restart-paused u p (paused id p d) e,
          renew-renewed id p (paused id p (paused id p d)) e,
        )
        (renew-renewed id (record p { interval_id = d.timers.next }) once
          (lookup-renewed id p (paused id p (paused id p d))))

  stop_one :
      (u : Option String) (q : CurrentPoll M) (d : Polling M)
      → lookup (resolve_id u) d.current_polls ≡ some q
      → (stop u d).timers ≡ disarm (some q.interval_id) d.timers
  unfolding stop
  stop_one u q d e = rw e

  stop_gone :
      (u : Option String) (d : Polling M) → lookup (resolve_id u) (stop u d).current_polls ≡ none
  unfolding stop
  stop_gone u d =
      lookup-delete (resolve_id u) (resolve_id u) d.current_polls ∙ rw (eq_refl (resolve_id u))

  -- For a poll in progress, when `restart` is called twice before the first call is behind its
  -- `await`: both calls succeed; after a `stop` of the id there is no poll for it, and yet an interval
  -- that was set for it is armed, with the handle that would have been given next before the calls.
  pub stop-restart_twice :
      (u : Option String) (p : CurrentPoll M) (d : Polling M)
      → lookup (resolve_id u) d.current_polls ≡ some p
      → (d' : Polling M) × (restart_twice u d ≡ ok d')
        × (lookup (resolve_id u) (stop u d').current_polls ≡ none)
        × (armed_for d.timers.next (stop u d').timers.armed ≡ some (resolve_id u))
  stop-restart_twice u p d e =
      let id = resolve_id u in
      let d' = both_done id p d in
      let last =
        stop_one u (record p { interval_id = suc d.timers.next }) d'
          (lookup-renewed id p (renewed id p (paused id p (paused id p d)))) in
      (
        d',
        restart_twice_done u p d e,
        stop_gone u d',
        ap (λ ts. armed_for d.timers.next ts.armed) last
            ∙ left_armed d.timers.next id
                (disarm (some p.interval_id) (disarm (some p.interval_id) d.timers)).armed,
      )
