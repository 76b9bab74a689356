-- ===== src/InitIc/Cancels.antt =====
-- A cancel of the initialization in system/lib/logic/InitIcLogic.ts while the callback is in flight.
use squidlet.Base.{ℕ, suc, ◌≡◌, refl, ap, sym, subst, ◌∙◌, List, [], ◌∷◌, true, false, ok, arith}
use squidlet.Timers.{without}
use squidlet.InitIc.{
  InitIc, Event, call_init_cb, new_logic, try_id, init, cancel, answer, run, handle_cb_success,
}
use squidlet.InitIc.Rounds.{
  Round, calling, failed_early, done, view, view_in, stage_after, run-view, own_timer,
}

-- What an answer of the first of two calls is taken for.
abbrev pub Stale : InitIc → Type 0
Stale s =
    (s' : InitIc) × (init (cancel s) ≡ ok s')
    × ((answer true s').initialized ≡ true)
    × ((answer true s').in_flight ≡ 1)
    × ((answer true s').timers.armed ≡ [])

own_cleared : (k : ℕ) → without k ((k, try_id) ∷ []) ≡ []
own_cleared k = rw (own_timer k) refl

view-Stale : (k : ℕ) (r : Round) → (view_in k r).in_flight ≡ 1 → Stale (view_in k r)
unfolding init cancel answer handle_cb_success
view-Stale k (calling true) h = (
  call_init_cb (record (cancel (view_in k (calling true))) { setup_step = false }),
  refl,
  refl,
  refl,
  own_cleared (suc k),
)
view-Stale k (calling false) h = (
  call_init_cb (record (cancel (view_in k (calling false))) { setup_step = false }),
  refl,
  refl,
  refl,
  rw (own_timer k) (own_cleared (suc k)),
)
view-Stale k failed_early h = absurd (omega (arith, h))
view-Stale k done h = absurd (omega (arith, h))

-- A new object after `init`.
abbrev pub started : InitIc
started = call_init_cb (record new_logic { setup_step = false })

-- After any events since `init` of a new object, while the callback is in flight: after a cancel `init`
-- starts it again, and when the first of the two calls succeeds, the promise is resolved and no timer
-- is left, though the second is still in flight.
pub init-cancel :
    (es : List Event)
    → (run es started).in_flight ≡ 1
    → (init new_logic ≡ ok started) × Stale (run es started)
unfolding init
init-cancel es flight =
    let same = run-view es (0, calling false) in
    let last = stage_after es (0, calling false) in
    let here : (view last).in_flight ≡ 1 = ap (λ s. s.in_flight) (sym same) ∙ flight in
    (refl, subst Stale (sym same) (view-Stale last.0 last.1 here))
