-- ===== src/Queue/Ended.antt =====
-- What happens after `destroy` of system/lib/Queue.ts.
use squidlet.Base.{
  ℕ, ◌≡◌, refl, ◌∙◌, ap, List, [], ◌∷◌, Option, none, some, option_list, get_elem?, Bool-cases,
  Option-cases, inl, inr, Result, ok, ◌>>=◌, In,
}
use squidlet.Queue.{Job, Flight, Queue, Destroyed, mark, destroy, settle_left, fire_left}
use squidlet.Queue.Ends.{Armed-cleared}
use squidlet.Queue.Invariant.{Inv, live, live-mark_current, live-remove_at, live-remove_at_canceled}

-- What is still to come: callbacks that settle and timers that fire.
pub data Late : Type 0 where
  settles_late : ℕ → Late
  fires_late : ℕ → Late

module _ {C : Type 0} where
  pub late_step : Late → Destroyed C → Result (Destroyed C)
  late_step (settles_late i) d = settle_left i d
  late_step (fires_late i) d = fire_left i d

  pub late_run : List Late → Destroyed C → Result (Destroyed C)
  unfolding late_step
  late_run [] d = ok d
  late_run (e ∷ es) d = late_step e d >>= late_run es

  -- No timer is armed, and no callback in flight counts.
  abbrev pub Silent : Destroyed C → Type 0
  Silent d = (d.timers_left ≡ []) × (live d.flights_left ≡ [])

  destroyed_flights :
      (c : Option (Job C)) (fs : List (Flight C))
      → live fs ≡ option_list c
      → live (elim c [ none ↦ fs | some j ↦ mark j.uid fs ]) ≡ []
  destroyed_flights none fs r = r
  destroyed_flights (some j) fs r = live-mark_current j fs r

  destroy-Silent : (q : Queue C) → Inv q → Silent (destroy q)
  unfolding destroy
  destroy-Silent q v = (
    Armed-cleared q.current_job q.running_timeout q.timers v.armed,
    destroyed_flights q.current_job q.in_flight v.running,
  )

  abbrev pub StillSilent : Result (Destroyed C) → Type 0
  StillSilent r = (d : Destroyed C) × (r ≡ ok d) × Silent d

  settle_left-Silent : (i : ℕ) (d : Destroyed C) → Silent d → StillSilent (settle_left i d)
  unfolding settle_left
  settle_left-Silent i d (cleared, quiet) = elim (Option-cases (get_elem? d.flights_left i)) [
    | inl nothing ↦ rw (nothing, settle_left) (d, refl, (cleared, quiet))
    | inr (f, e) ↦ elim (Bool-cases f.canceled) [
      | inl off ↦
          rw (e, settle_left, off)
            (_, refl, (cleared, live-remove_at_canceled d.flights_left i f e off ∙ quiet))
      | inr on ↦
          let counts : In f.job (live d.flights_left) =
            (live-remove_at d.flights_left i f e on).0 in
          absurd (elim (rw quiet at counts) [ ])
    ]
  ]

  fire_left-Silent : (i : ℕ) (d : Destroyed C) → Silent d → StillSilent (fire_left i d)
  unfolding fire_left
  fire_left-Silent i d (cleared, quiet) =
      let nothing : get_elem? d.timers_left i ≡ none = ap (λ ts. get_elem? ts i) cleared in
      rw (nothing, fire_left) (d, refl, (cleared, quiet))

  late_step-Silent : (e : Late) (d : Destroyed C) → Silent d → StillSilent (late_step e d)
  unfolding late_step
  late_step-Silent (settles_late i) d s = settle_left-Silent i d s
  late_step-Silent (fires_late i) d s = fire_left-Silent i d s

  late_run-Silent : (es : List Late) (d : Destroyed C) → Silent d → StillSilent (late_run es d)
  unfolding late_run
  late_run-Silent [] d s = (d, refl, s)
  late_run-Silent (e ∷ es) d s =
      let (d', done, s') = late_step-Silent e d s in rw done (late_run-Silent es d' s')

  -- After `destroy` of a queue that keeps the invariant, whichever callbacks settle and timers fire, in
  -- any order: no error is thrown, no timer is armed, and no callback in flight counts.
  pub late_run-destroy :
      (es : List Late) (q : Queue C) → Inv q → StillSilent (late_run es (destroy q))
  late_run-destroy es q v = late_run-Silent es (destroy q) (destroy-Silent q v)
