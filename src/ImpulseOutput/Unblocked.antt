-- ===== src/ImpulseOutput/Unblocked.antt =====
-- The time of blocking is never seen.
use squidlet.Base.{
  ℕ, zero, suc, ◌≡◌, refl, ap, List, [], ◌∷◌, Option, none, some, String, str_eq, Bool, true, false,
  ◌&&◌, ◌||◌, is_some, if◌then◌else◌, get_elem?, remove_at, Bool-cases, Option-cases, inl, inr,
}
use squidlet.Timers.{disarm, armed_for, is_used}
use squidlet.Output.{Waiting, caller, deferred_promise}
use squidlet.ImpulseOutput.{
  BlockMode, fixed, defer, increasing, ImpulseOutputProps, Flight, start_write, end_write,
  ImpulseOutput, impulse_id, is_blocked, is_impulse_in_progress, is_in_progress, settle, tell,
  cancel, set_impulse_timeout, do_start_impulse, set_deferred_value, Going, ignored, deferred,
  started, defer_or_start, impulse_in, is_defer, after_deferred, answer_caller, owner, init,
  impulse, start_deferred, start_blocking, handle_error, write_end, write_ends, impulse_finished,
  block_expired, start_answered, end_answered, flight_answered, answer, fire, Event, asked,
  answered, fired, cancelled, step, run,
}

-- No handle of a timer of the block is kept.
abbrev pub Unblocked : ImpulseOutput → Type 0
Unblocked o = o.block_timeout ≡ none

abbrev state_of : ImpulseOutput × Going → ImpulseOutput
state_of r = r.0

settle-Unblocked :
    (err : Option String) (promise : Option ℕ) (o : ImpulseOutput)
    → Unblocked o
    → Unblocked (settle err promise o)
unfolding settle
settle-Unblocked err none o u = u
settle-Unblocked err (some n) o u = u

tell-Unblocked :
    (err : Option String) (who : Waiting) (o : ImpulseOutput)
    → Unblocked o
    → Unblocked (tell err who o)
unfolding tell
tell-Unblocked err caller o u = u
tell-Unblocked err (deferred_promise n) o u = settle-Unblocked err n o u

set_deferred_value-Unblocked : (o : ImpulseOutput) → Unblocked o → Unblocked (set_deferred_value o)
unfolding set_deferred_value
set_deferred_value-Unblocked o u = elim (Bool-cases (is_some o.deferred_write_promise)) [
  | inl e ↦ rw e u
  | inr e ↦ rw e u
]

do_start_impulse-Unblocked :
    (who : Waiting) (o : ImpulseOutput) → Unblocked o → Unblocked (do_start_impulse who o)
unfolding do_start_impulse set_impulse_timeout
do_start_impulse-Unblocked who o u = u

defer_or_start-Unblocked :
    (b : Bool) (who : Waiting) (o : ImpulseOutput)
    → Unblocked o
    → Unblocked (defer_or_start b who o).0
defer_or_start-Unblocked true who o u = set_deferred_value-Unblocked o u
defer_or_start-Unblocked false who o u = do_start_impulse-Unblocked who o u

increase-Unblocked :
    (b c : Bool) (who : Waiting) (o : ImpulseOutput)
    → Unblocked o
    → Unblocked (
        state_of (
          if b
          then (o, ignored)
          else if c
          then (
            set_impulse_timeout (record o { timers = disarm o.impulse_timeout o.timers }),
            ignored,
          )
          else (do_start_impulse who o, started)))
unfolding set_impulse_timeout
increase-Unblocked true c who o u = u
increase-Unblocked false true who o u = u
increase-Unblocked false false who o u = do_start_impulse-Unblocked who o u

fixed-Unblocked :
    (b : Bool) (who : Waiting) (o : ImpulseOutput)
    → Unblocked o
    → Unblocked (state_of (if b then (o, ignored) else (do_start_impulse who o, started)))
fixed-Unblocked true who o u = u
fixed-Unblocked false who o u = do_start_impulse-Unblocked who o u

impulse_in-Unblocked :
    (m : BlockMode) (who : Waiting) (o : ImpulseOutput)
    → Unblocked o
    → Unblocked (impulse_in m who o).0
unfolding impulse_in
impulse_in-Unblocked increasing who o u =
    increase-Unblocked (o.writing_end || is_blocked o) (is_in_progress o) who o u
impulse_in-Unblocked defer who o u = defer_or_start-Unblocked (is_in_progress o) who o u
impulse_in-Unblocked fixed who o u = fixed-Unblocked (is_in_progress o) who o u

after_deferred-Unblocked :
    (promise : Option ℕ) (o : ImpulseOutput) (going : Going)
    → Unblocked o
    → Unblocked (after_deferred promise (o, going))
after_deferred-Unblocked promise o ignored u = settle-Unblocked none promise o u
after_deferred-Unblocked none o (deferred next) u = u
after_deferred-Unblocked (some n) o (deferred none) u = u
after_deferred-Unblocked (some n) o (deferred (some m)) u = u
after_deferred-Unblocked none o started u = u
after_deferred-Unblocked (some n) o started u = u

answer_caller-Unblocked :
    (going : Going) (o : ImpulseOutput) → Unblocked o → Unblocked (answer_caller going o)
answer_caller-Unblocked ignored o u = u
answer_caller-Unblocked (deferred promise) o u = u
answer_caller-Unblocked started o u = u

write_ends-Unblocked : (n : ℕ) (o : ImpulseOutput) → Unblocked o → Unblocked (write_ends n o)
unfolding write_ends
write_ends-Unblocked zero o u = u
write_ends-Unblocked (suc n) o u = write_ends-Unblocked n (write_end o) u

impulse_finished-Unblocked : (o : ImpulseOutput) → Unblocked o → Unblocked (impulse_finished o)
unfolding impulse_finished
impulse_finished-Unblocked o u = by_writing o.writing_start
  where
    by_writing :
        (b : Bool)
        → Unblocked (
            let o' = record o { impulse_timeout = none } in
            if b then record o' { ends_waiting = suc o'.ends_waiting } else write_end o')
    by_writing true = u
    by_writing false = u

module _ (p : ImpulseOutputProps) where
  impulse-Unblocked : (o : ImpulseOutput) → Unblocked o → Unblocked (impulse p o)
  unfolding impulse
  impulse-Unblocked o u =
      answer_caller-Unblocked (impulse_in p.block_mode caller o).1
        (impulse_in p.block_mode caller o).0 (impulse_in-Unblocked p.block_mode caller o u)

  start_deferred-Unblocked : (o : ImpulseOutput) → Unblocked o → Unblocked (start_deferred p o)
  unfolding start_deferred
  start_deferred-Unblocked o u =
      let clear = record o { deferred_impulse = false; deferred_write_promise = none } in
      let r = impulse_in p.block_mode (owner o.deferred_write_promise) clear in
      elim (Bool-cases (is_defer p.block_mode && o.deferred_impulse)) [
        | inl e ↦ rw e (
            after_deferred-Unblocked o.deferred_write_promise r.0 r.1
              (impulse_in-Unblocked p.block_mode (owner o.deferred_write_promise) clear u))
        | inr e ↦ rw e u
      ]

  start_blocking-Unblocked : (o : ImpulseOutput) → Unblocked o → Unblocked (start_blocking p o)
  unfolding start_blocking
  start_blocking-Unblocked o u = elim (Bool-cases (is_used p.block_time)) [
    | inl e ↦ rw e u
    | inr e ↦ rw e (start_deferred-Unblocked o u)
  ]

  handle_error-Unblocked : (err : String) (o : ImpulseOutput) → Unblocked (handle_error p err o)
  unfolding handle_error cancel
  handle_error-Unblocked err o = start_blocking-Unblocked _ refl

  block_expired-Unblocked : (o : ImpulseOutput) → Unblocked (block_expired p o)
  unfolding block_expired
  block_expired-Unblocked o = start_deferred-Unblocked (record o { block_timeout = none }) refl

  start_answered-Unblocked :
      (err : Option String) (who : Waiting) (o : ImpulseOutput)
      → Unblocked o
      → Unblocked (start_answered p err who o)
  unfolding start_answered
  start_answered-Unblocked none who o u =
      let told = tell none who (record o { writing_start = false }) in
      write_ends-Unblocked told.ends_waiting (record told { ends_waiting = 0 })
        (tell-Unblocked none who (record o { writing_start = false }) u)
  start_answered-Unblocked (some err) who o u =
      tell-Unblocked (some err) who (handle_error p err (record o { writing_start = false }))
        (handle_error-Unblocked err (record o { writing_start = false }))

  end_answered-Unblocked :
      (err : Option String) (o : ImpulseOutput) → Unblocked o → Unblocked (end_answered p err o)
  unfolding end_answered
  end_answered-Unblocked none o u = start_blocking-Unblocked (record o { writing_end = false }) u
  end_answered-Unblocked (some err) o u =
      start_blocking-Unblocked
        (record (handle_error p err (record o { writing_end = false })) { writing_end = false })
        (handle_error-Unblocked err (record o { writing_end = false }))

  flight_answered-Unblocked :
      (err : Option String) (f : Flight) (o : ImpulseOutput)
      → Unblocked o
      → Unblocked (flight_answered p err f o)
  flight_answered-Unblocked err (start_write who) o u = start_answered-Unblocked err who o u
  flight_answered-Unblocked err end_write o u = end_answered-Unblocked err o u

  answer-Unblocked :
      (err : Option String) (i : ℕ) (o : ImpulseOutput) → Unblocked o → Unblocked (answer p err i o)
  unfolding answer
  answer-Unblocked err i o u = elim (Option-cases (get_elem? o.in_flight i)) [
    | inl e ↦ rw (e, answer) u
    | inr (f, e) ↦
        rw (e, answer)
          (flight_answered-Unblocked err f (record o { in_flight = remove_at o.in_flight i }) u)
  ]

  fire-Unblocked : (h : ℕ) (o : ImpulseOutput) → Unblocked o → Unblocked (fire p h o)
  unfolding fire
  fire-Unblocked h o u = elim (Option-cases (armed_for h o.timers.armed)) [
    | inl e ↦ rw (e, fire) u
    | inr (id, e) ↦ elim (Bool-cases (str_eq impulse_id id)) [
      | inl own ↦
          rw (e, fire, own)
            (impulse_finished-Unblocked (record o { timers = disarm (some h) o.timers }) u)
      | inr other ↦
          rw (e, fire, other)
            (block_expired-Unblocked (record o { timers = disarm (some h) o.timers }))
    ]
  ]

  step-Unblocked : (e : Event) (o : ImpulseOutput) → Unblocked o → Unblocked (step p e o)
  unfolding step cancel
  step-Unblocked asked o u = impulse-Unblocked o u
  step-Unblocked (answered err i) o u = answer-Unblocked err i o u
  step-Unblocked (fired h) o u = fire-Unblocked h o u
  step-Unblocked cancelled o u = refl

  run-Unblocked : (es : List Event) (o : ImpulseOutput) → Unblocked o → Unblocked (run p es o)
  unfolding run
  run-Unblocked [] o u = u
  run-Unblocked (e ∷ es) o u = run-Unblocked es (step p e o) (step-Unblocked e o u)

  init-Unblocked : Unblocked (init p)
  unfolding init
  init-Unblocked = refl

  starts :
      (m : BlockMode) (o : ImpulseOutput)
      → is_in_progress o ≡ false
      → o.writing_end ≡ false
      → Unblocked o
      → impulse_in m caller o ≡ (do_start_impulse caller o, started)
  unfolding impulse_in
  starts increasing o idle ended u =
      let free : (o.writing_end || is_blocked o) ≡ false = rw (ended, u) in rw (free, idle)
  starts defer o idle ended u = rw idle
  starts fixed o idle ended u = rw idle

  -- Whatever callers, the pin, the timers and the owner do, in any order and in any mode: the object is
  -- never blocked, so that, whichever time of blocking is set, a call of `impulse` while no impulse is
  -- in progress starts a new one.
  pub impulse-run :
      (es : List Event)
      → let o = run p es (init p) in
        (is_blocked o ≡ false)
        × (is_impulse_in_progress o ≡ false → impulse p o ≡ do_start_impulse caller o)
  unfolding impulse
  impulse-run es =
      let o = run p es (init p) in
      let u = run-Unblocked es (init p) init-Unblocked in
      (
        ap is_some u,
        λ idle.
            ap (λ r. answer_caller r.1 r.0)
              (starts p.block_mode o (rw (idle, u))
                (ends o.impulse_timeout o.writing_end o.writing_start idle) u),
      )
    where
      ends : (i : Option ℕ) (a b : Bool) → (is_some i || (a || b)) ≡ false → a ≡ false
      ends none true b e = cc
      ends none false b e = refl
      ends (some h) a b e = cc
