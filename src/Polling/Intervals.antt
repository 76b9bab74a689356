-- ===== src/Polling/Intervals.antt =====
-- One interval for each id that is polled.
use squidlet.Base.{
  ℕ, ◌<◌, ◌≡◌, ◌≢◌, refl, sym, ap, subst, ◌∙◌, List, [], ◌∷◌, ◌++◌, Option, none, some, String,
  str_eq, eq_iff, eq_refl, Dict, lookup, insert, delete, lookup-insert, lookup-delete, true, false,
  is_some, get_elem?, Bool-cases, Option-cases, inl, inr, ok, ◌==◌, ==_iff, arith,
}
use squidlet.Timers.{Timers, disarm, armed_for}
use squidlet.Timers.Coherent.{
  Coherent, changed, no_timers-Coherent, arm-Coherent, disarm-Coherent, armed_for-kept, kept-next,
  same-Coherent,
}
use squidlet.Polling.{
  CurrentPoll, Polling, resolve_id, init, wrapped, is_in_progress, poll_once, set_interval, start,
  interval_of, stop, restart, renew_interval, fire, answer, Event, started, stopped, restarted,
  fired, answered, done_or, restart_all, step, run, call_wrapper,
}

module _ {M : Type 0} where
  abbrev pub kept : Dict (CurrentPoll M) → String → Option ℕ
  kept ps k = interval_of (lookup k ps)

  -- The armed intervals are those of the polls, one for each, and the callback of each calls the
  -- method of its poll.
  pub record Inv (d : Polling M) : Type 0 where
    pub timers : Coherent (kept d.current_polls) d.timers
    pub callbacks :
        (id : String) (p : CurrentPoll M)
        → lookup id d.current_polls ≡ some p
        → wrapped p.interval_id d.wrappers ≡ some (id, p.method_which_poll)

  pub init-Inv : Inv (init {M = M})
  unfolding lookup
  init-Inv = record { timers = no_timers-Coherent (kept []) (λ k. refl); callbacks = λ id p e. cc }

  kept-insert :
      (id : String) (p : CurrentPoll M) (ps : Dict (CurrentPoll M)) (k : String)
      → kept (insert id p ps) k ≡ changed (kept ps) id (some p.interval_id) k
  kept-insert id p ps k =
      ap interval_of (lookup-insert id k p ps)
      ∙ elim (Bool-cases (str_eq id k)) [ inl e ↦ rw e | inr e ↦ rw e ]

  kept-delete :
      (id : String) (ps : Dict (CurrentPoll M)) (k : String)
      → kept (delete id ps) k ≡ changed (kept ps) id none k
  kept-delete id ps k =
      ap interval_of (lookup-delete id k ps)
      ∙ elim (Bool-cases (str_eq id k)) [ inl e ↦ rw e | inr e ↦ rw e ]

  poll_once-Inv : (id : String) (method : M) (d : Polling M) → Inv d → Inv (poll_once id method d)
  poll_once-Inv id method d v = record { timers = v.timers; callbacks = v.callbacks }

  -- An interval for an id that has none armed: the entry of the id, if there is one, is replaced.
  set_interval-Inv :
      (id : String) (method : M) (ms : ℕ) (d : Polling M) (ts : Timers)
      → Coherent (changed (kept d.current_polls) id none) ts
      → ((k : String) (p : CurrentPoll M)
          → lookup k d.current_polls ≡ some p
          → wrapped p.interval_id d.wrappers ≡ some (k, p.method_which_poll))
      → Inv (set_interval id method ms (record d { timers = ts }))
  set_interval-Inv id method ms d ts c callbacks = record {
    timers =
        arm-Coherent (changed (kept d.current_polls) id none) _ id ts (rw (eq_refl id))
          (λ k.
            kept-insert id poll d.current_polls k
            ∙ elim (Bool-cases (str_eq id k)) [ inl e ↦ rw e | inr e ↦ rw e ])
          c;
    callbacks = λ k p e. elim (Bool-cases (str_eq id k)) [
      | inl same ↦
          let at : lookup k (insert id poll d.current_polls) ≡ some poll =
            lookup-insert id k poll d.current_polls ∙ rw same in
          let here : poll ≡ p = cc (sym at ∙ e) in
          let key : id ≡ k = (eq_iff id k).0 same in
          let own : (ts.next == ts.next) ≡ true = (==_iff ts.next ts.next).1 refl in
          rw (← here, ← key, own)
      | inr other ↦
          let there : lookup k d.current_polls ≡ some p =
            sym (lookup-insert id k poll d.current_polls ∙ rw other) ∙ e in
          let older : p.interval_id < ts.next =
            kept-next (changed (kept d.current_polls) id none) p.interval_id k ts c
              (rw other (ap interval_of there)) in
          let ne : (ts.next == p.interval_id) ≡ false = ground arith in rw ne (callbacks k p there)
    ];
  }
    where
      poll : CurrentPoll M
      poll = record { interval_id = ts.next; method_which_poll = method; poll_interval = ms }

  absent-changed :
      (id : String) (d : Polling M)
      → lookup id d.current_polls ≡ none
      → Coherent (kept d.current_polls) d.timers
      → Coherent (changed (kept d.current_polls) id none) d.timers
  absent-changed id d e c =
      same-Coherent (kept d.current_polls) (changed (kept d.current_polls) id none) d.timers
        (λ k. elim (Bool-cases (str_eq id k)) [
          | inl same ↦
              rw same (sym (ap interval_of e) ∙ ap (kept d.current_polls) ((eq_iff id k).0 same))
          | inr other ↦ rw other
        ])
        c

  start-Inv :
      (method : M) (ms : ℕ) (uniq_id : Option String) (d : Polling M)
      → Inv d
      → Inv (done_or d (start method ms uniq_id d))
  unfolding start is_in_progress
  start-Inv method ms uniq_id d v =
      let id = resolve_id uniq_id in
      elim (Option-cases (lookup id d.current_polls)) [
        | inl free ↦
            rw (free, start)
              (set_interval-Inv id method ms (poll_once id method d) d.timers
                (absent-changed id d free v.timers) v.callbacks)
        | inr (p, there) ↦ rw (there, start) v
      ]

  pub stop-Inv : (uniq_id : Option String) (d : Polling M) → Inv d → Inv (stop uniq_id d)
  unfolding stop
  stop-Inv uniq_id d v =
      let id = resolve_id uniq_id in
      record {
        timers =
            disarm-Coherent (kept d.current_polls) _ id (interval_of (lookup id d.current_polls))
              d.timers refl (kept-delete id d.current_polls) v.timers;
        callbacks = λ k p e. elim (Bool-cases (str_eq id k)) [
          | inl same ↦ absurd (cc (rw same at (sym (lookup-delete id k d.current_polls) ∙ e)))
          | inr other ↦ v.callbacks k p (rw other at (sym (lookup-delete id k d.current_polls) ∙ e))
        ];
      }

  -- A restart that comes to its end: one call more, and a new interval in place of the old one.
  restart_all_started :
      (uniq_id : Option String) (p : CurrentPoll M) (d : Polling M)
      → lookup (resolve_id uniq_id) d.current_polls ≡ some p
      → restart_all uniq_id d
        ≡ ok (
            set_interval (resolve_id uniq_id) p.method_which_poll p.poll_interval (
              poll_once
                (resolve_id uniq_id)
                p.method_which_poll
                (record d { timers = disarm (some p.interval_id) d.timers })))
  unfolding restart_all restart renew_interval
  restart_all_started uniq_id p d e = rw (e, e)

  restart_all_missing :
      (uniq_id : Option String) (d : Polling M)
      → lookup (resolve_id uniq_id) d.current_polls ≡ none
      → done_or d (restart_all uniq_id d) ≡ d
  unfolding restart_all restart
  restart_all_missing uniq_id d e = rw e

  restart_all-Inv :
      (uniq_id : Option String) (d : Polling M) → Inv d → Inv (done_or d (restart_all uniq_id d))
  restart_all-Inv uniq_id d v =
      let id = resolve_id uniq_id in
      elim (Option-cases (lookup id d.current_polls)) [
        | inl free ↦ subst Inv (sym (restart_all_missing uniq_id d free)) v
        | inr (p, there) ↦ rw (restart_all_started uniq_id p d there) (
            set_interval-Inv id p.method_which_poll p.poll_interval
              (poll_once id p.method_which_poll d) (disarm (some p.interval_id) d.timers)
              (disarm-Coherent (kept d.current_polls) (changed (kept d.current_polls) id none) id
                (some p.interval_id) d.timers (ap interval_of there) (λ k. refl) v.timers)
              v.callbacks)
      ]

  call_wrapper-Inv : (w : Option (String × M)) (d : Polling M) → Inv d → Inv (call_wrapper w d)
  call_wrapper-Inv none d v = v
  call_wrapper-Inv (some w) d v = poll_once-Inv w.0 w.1 d v

  fire-Inv : (h : ℕ) (d : Polling M) → Inv d → Inv (fire h d)
  unfolding fire
  fire-Inv h d v = elim (Bool-cases (is_some (armed_for h d.timers.armed))) [
    | inl e ↦ rw e (call_wrapper-Inv (wrapped h d.wrappers) d v)
    | inr e ↦ rw e v
  ]

  answer-Inv : (err : Option String) (i : ℕ) (d : Polling M) → Inv d → Inv (answer err i d)
  unfolding answer
  answer-Inv err i d v = elim (Option-cases (get_elem? d.waiting i)) [
    | inl e ↦ rw (e, answer) v
    | inr (w, e) ↦ rw (e, answer) (record { timers = v.timers; callbacks = v.callbacks })
  ]

  step-Inv : (e : Event M) (d : Polling M) → Inv d → Inv (step e d)
  unfolding step
  step-Inv (started method ms uniq_id) d v = start-Inv method ms uniq_id d v
  step-Inv (stopped uniq_id) d v = stop-Inv uniq_id d v
  step-Inv (restarted uniq_id) d v = restart_all-Inv uniq_id d v
  step-Inv (fired h) d v = fire-Inv h d v
  step-Inv (answered err i) d v = answer-Inv err i d v

  pub polling_run-Inv : (es : List (Event M)) (d : Polling M) → Inv d → Inv (run es d)
  unfolding run
  polling_run-Inv [] d v = v
  polling_run-Inv (e ∷ es) d v = polling_run-Inv es (step e d) (step-Inv e d v)

  fire_armed :
      (h : ℕ) (id : String) (method : M) (d : Polling M)
      → armed_for h d.timers.armed ≡ some id
      → wrapped h d.wrappers ≡ some (id, method)
      → fire h d ≡ poll_once id method d
  unfolding fire
  fire_armed h id method d e w = rw (e, w)

  stopped_id :
      (u : Option String) (d : Polling M) → kept (stop u d).current_polls (resolve_id u) ≡ none
  unfolding stop
  stopped_id u d =
      kept-delete (resolve_id u) d.current_polls (resolve_id u) ∙ rw (eq_refl (resolve_id u))

  -- After any starts, stops, restarts that come to their end before the next call, intervals that fire
  -- and answers, in any order: an interval that fires is that of a poll in progress, whose method is
  -- called once with its end waited for, and nothing else changes; and after `stop`, with no restart
  -- under way, no interval is left for the id.
  pub fire-run :
      (es : List (Event M)) (h : ℕ) (id : String)
      → armed_for h (run es init).timers.armed ≡ some id
      → ((p : CurrentPoll M) × (lookup id (run es init).current_polls ≡ some p)
          × (p.interval_id ≡ h)
          × (fire h (run es init) ≡ record (run es init) {
            called = (id, p.method_which_poll) ∷ (run es init).called;
            waiting = (run es init).waiting ++ (id, p.method_which_poll) ∷ [];
          }))
        × ((uniq_id : Option String) (k : ℕ)
            → armed_for k (stop uniq_id (run es init)).timers.armed ≢ some (resolve_id uniq_id))
  fire-run es h id e =
      let v = polling_run-Inv es init init-Inv in
      (called h id (run es init) v e, λ u k q. gone u k (run es init) v q)
    where
      called :
          (h : ℕ) (id : String) (d : Polling M)
          → Inv d
          → armed_for h d.timers.armed ≡ some id
          → (p : CurrentPoll M) × (lookup id d.current_polls ≡ some p)
            × (p.interval_id ≡ h)
            × (fire h d ≡ poll_once id p.method_which_poll d)
      called h id d v e =
          let k = armed_for-kept (kept d.current_polls) h id d.timers.armed v.timers.sound e in
          elim (Option-cases (lookup id d.current_polls)) [
            | inl absent ↦ absurd (cc (sym (ap interval_of absent) ∙ k))
            | inr (p, there) ↦
                let own : p.interval_id ≡ h = cc (sym (ap interval_of there) ∙ k) in
                (
                  p,
                  there,
                  own,
                  fire_armed h id p.method_which_poll d e
                      (ap (λ n. wrapped n d.wrappers) (sym own) ∙ v.callbacks id p there),
                )
          ]

      gone :
          (u : Option String) (k : ℕ) (d : Polling M)
          → Inv d
          → armed_for k (stop u d).timers.armed ≡ some (resolve_id u)
          → ⊥
      gone u k d v q =
          let w = stop-Inv u d v in
          cc (
            armed_for-kept (kept (stop u d).current_polls) k (resolve_id u) (stop u d).timers.armed
                w.timers.sound q,
            stopped_id u d,
          )
