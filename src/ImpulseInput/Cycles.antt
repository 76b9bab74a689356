-- ===== src/ImpulseInput/Cycles.antt =====
-- Whatever the pin, the timers and the owner do: the impulses that are emitted, and the timers.
use squidlet.Base.{
  ℕ, suc, ◌≡◌, refl, sym, subst, List, [], ◌∷◌, Option, none, some, str_eq, true, false, Bool-cases,
  Option-cases, inl, inr,
}
use squidlet.Timers.{disarm, armed_for, is_used}
use squidlet.Timers.Coherent.{Coherent}
use squidlet.Timers.Pair.{
  two, no_timers-two, arm-first, arm-second, disarm-first, disarm-second, disarm_both-two,
  fired-first, fired-second, fired_known,
}
use squidlet.ImpulseInput.{
  ImpulseInputMode, fixed, increasing, ImpulseInputProps, ImpulseInputEvents, rising, both,
  ImpulseInput, impulse_id, block_id, is_blocked, is_impulse_in_progress, set_impulse_timeout,
  start_fixed_impulse, start_increasing_impulse, cancel, answer_change, init, handle_change,
  impulse_expired, block_expired, fire, Event, changed, fired, cancelled, step, run,
}

-- What was emitted, the newest first: each impulse begins with `rising` and true and ends with false,
-- but for the impulses that were cancelled, counted by the number.
pub data Impulses : ℕ → List ImpulseInputEvents → Type 0 where
  silent : Impulses 0 []
  broken :
      {n : ℕ} {es : List ImpulseInputEvents}
      → Impulses n es
      → Impulses (suc n) (both true ∷ rising ∷ es)
  ended :
      {n : ℕ} {es : List ImpulseInputEvents}
      → Impulses n es
      → Impulses n (both false ∷ both true ∷ rising ∷ es)

-- While an impulse is in progress, its beginning is the last thing that was emitted, over complete
-- impulses, and no time of blocking runs.
abbrev pub Begun : ℕ → Option ℕ → Option ℕ → List ImpulseInputEvents → Type 0
Begun n none block es = Impulses n es
Begun n (some h) block es =
    (block ≡ none)
    × ((rest : List ImpulseInputEvents) × (es ≡ both true ∷ rising ∷ rest) × Impulses n rest)

abbrev pub one_more : Option ℕ → ℕ → ℕ
one_more none n = n
one_more (some h) n = suc n

-- `cancel` during an impulse breaks it.
abbrev pub breaks : Event → ImpulseInput → ℕ → ℕ
breaks changed i n = n
breaks (fired h) i n = n
breaks cancelled i n = one_more i.impulse_timeout n

-- The impulses that were broken in the end, of `n` at first.
pub broken_by : ImpulseInputProps → List Event → ImpulseInput → ℕ → ℕ
broken_by p [] i n = n
broken_by p (e ∷ es) i n = broken_by p es (step p e i) (breaks e i n)

pub record Inv (n : ℕ) (i : ImpulseInput) : Type 0 where
  pub timers : Coherent (two impulse_id block_id i.impulse_timeout i.block_timeout) i.timers
  pub log : Begun n i.impulse_timeout i.block_timeout i.emitted

apart : str_eq impulse_id block_id ≡ false
apart = refl

pub init-Inv : (p : ImpulseInputProps) → Inv 0 (init p)
unfolding init
init-Inv p = record { timers = no_timers-two impulse_id block_id apart; log = silent }

start_fixed_impulse-Inv :
    (i : ImpulseInput) (n : ℕ)
    → i.impulse_timeout ≡ none
    → i.block_timeout ≡ none
    → Inv n i
    → Inv n (start_fixed_impulse i)
unfolding start_fixed_impulse
start_fixed_impulse-Inv i n idle free v = record {
  timers =
      arm-first impulse_id block_id apart i.block_timeout i.timers
        (subst (λ x. Coherent (two impulse_id block_id x i.block_timeout) i.timers) idle v.timers);
  log = (free, (i.emitted, refl, subst (λ x. Begun n x i.block_timeout i.emitted) idle v.log));
}

set_again-Inv :
    (h : ℕ) (i : ImpulseInput) (n : ℕ)
    → i.impulse_timeout ≡ some h
    → Inv n i
    → Inv n (set_impulse_timeout (record i { timers = disarm i.impulse_timeout i.timers }))
set_again-Inv h i n e v = record {
  timers =
      arm-first impulse_id block_id apart i.block_timeout (disarm i.impulse_timeout i.timers) (
        disarm-first impulse_id block_id apart i.impulse_timeout i.block_timeout i.timers v.timers);
  log = subst (λ x. Begun n x i.block_timeout i.emitted) e v.log;
}

answer_change-Inv :
    (m : ImpulseInputMode) (i : ImpulseInput) (n : ℕ)
    → i.block_timeout ≡ none
    → Inv n i
    → Inv n (answer_change m i)
unfolding answer_change start_increasing_impulse
answer_change-Inv fixed i n free v = elim (Option-cases i.impulse_timeout) [
  | inl idle ↦
      let e : is_impulse_in_progress i ≡ false = rw idle in
      rw e (start_fixed_impulse-Inv i n idle free v)
  | inr (h, busy) ↦ let e : is_impulse_in_progress i ≡ true = rw busy in rw e v
]
answer_change-Inv increasing i n free v = elim (Option-cases i.impulse_timeout) [
  | inl idle ↦
      let e : is_impulse_in_progress i ≡ false = rw idle in
      rw e (start_fixed_impulse-Inv i n idle free v)
  | inr (h, busy) ↦
      let e : is_impulse_in_progress i ≡ true = rw busy in rw e (set_again-Inv h i n busy v)
]

handle_change-Inv :
    (p : ImpulseInputProps) (i : ImpulseInput) (n : ℕ) → Inv n i → Inv n (handle_change p i)
unfolding handle_change
handle_change-Inv p i n v = elim (Option-cases i.block_timeout) [
  | inl free ↦ let e : is_blocked i ≡ false = rw free in rw e (answer_change-Inv p.mode i n free v)
  | inr (h, blocked) ↦ let e : is_blocked i ≡ true = rw blocked in rw e v
]

broken_log :
    (n : ℕ) (x block : Option ℕ) (es : List ImpulseInputEvents)
    → Begun n x block es
    → Impulses (one_more x n) es
broken_log n none block es log = log
broken_log n (some h) block es (free, (rest, e, ok)) = subst (Impulses (suc n)) (sym e) (broken ok)

cancel-Inv : (i : ImpulseInput) (n : ℕ) → Inv n i → Inv (one_more i.impulse_timeout n) (cancel i)
unfolding cancel
cancel-Inv i n v = record {
  timers =
      disarm_both-two impulse_id block_id apart i.impulse_timeout i.block_timeout i.timers v.timers;
  log = broken_log n i.impulse_timeout i.block_timeout i.emitted v.log;
}

impulse_expired-Inv :
    (p : ImpulseInputProps) (h : ℕ) (i : ImpulseInput) (n : ℕ)
    → i.impulse_timeout ≡ some h
    → Inv n i
    → Inv n (impulse_expired p (record i { timers = disarm (some h) i.timers }))
unfolding impulse_expired
impulse_expired-Inv p h i n e v =
    let (free, (rest, log, ok)) = subst (λ x. Begun n x i.block_timeout i.emitted) e v.log in
    let done : Impulses n (both false ∷ i.emitted) =
      subst (λ es. Impulses n (both false ∷ es)) (sym log) (ended ok) in
    let left : Coherent (two impulse_id block_id none i.block_timeout) (disarm (some h) i.timers) =
      subst (λ x. Coherent (two impulse_id block_id none i.block_timeout) (disarm x i.timers)) e
        (disarm-first impulse_id block_id apart i.impulse_timeout i.block_timeout i.timers
          v.timers) in
    elim (Bool-cases (is_used p.block_time)) [
      | inl used ↦ rw used (record {
        timers = arm-second impulse_id block_id apart none (disarm (some h) i.timers) (
            subst (λ x. Coherent (two impulse_id block_id none x) (disarm (some h) i.timers)) free
              left);
        log = done;
      })
      | inr unused ↦ rw unused (record { timers = left; log = done })
    ]

block_expired-Inv :
    (p : ImpulseInputProps) (h : ℕ) (i : ImpulseInput) (n : ℕ)
    → i.block_timeout ≡ some h
    → Inv n i
    → Inv n (block_expired p (record i { timers = disarm (some h) i.timers }))
unfolding block_expired
block_expired-Inv p h i n e v = record {
  timers =
      subst (λ x. Coherent (two impulse_id block_id i.impulse_timeout none) (disarm x i.timers)) e
        (disarm-second impulse_id block_id apart i.impulse_timeout i.block_timeout i.timers
          v.timers);
  log = still i.impulse_timeout v.log;
}
  where
    still : (x : Option ℕ) → Begun n x i.block_timeout i.emitted → Begun n x none i.emitted
    still none b = b
    still (some h) (free, rest) = (refl, rest)

module _ (p : ImpulseInputProps) (h : ℕ) (i : ImpulseInput) where
  pub fire_impulse :
      armed_for h i.timers.armed ≡ some impulse_id
      → fire p h i ≡ impulse_expired p (record i { timers = disarm (some h) i.timers })
  unfolding fire
  fire_impulse e = rw (e, fire)

  fire_block :
      armed_for h i.timers.armed ≡ some block_id
      → fire p h i ≡ block_expired p (record i { timers = disarm (some h) i.timers })
  unfolding fire
  fire_block e = rw (e, fire)

  fire_idle : armed_for h i.timers.armed ≡ none → fire p h i ≡ i
  unfolding fire
  fire_idle e = rw (e, fire)

  fire-Inv : (n : ℕ) → Inv n i → Inv n (fire p h i)
  fire-Inv n v = elim (Option-cases (armed_for h i.timers.armed)) [
    | inl e ↦ subst (Inv n) (sym (fire_idle e)) v
    | inr (id, e) ↦
        elim (fired_known impulse_id block_id apart i.impulse_timeout i.block_timeout i.timers h id
          v.timers e) [
            | inl same ↦
                let e' : armed_for h i.timers.armed ≡ some impulse_id = rw same at e in
                subst (Inv n) (sym (fire_impulse e')) (
                  impulse_expired-Inv p h i n
                    (fired-first impulse_id block_id apart i.impulse_timeout i.block_timeout
                      i.timers h v.timers e')
                    v)
            | inr same ↦
                let e' : armed_for h i.timers.armed ≡ some block_id = rw same at e in
                subst (Inv n) (sym (fire_block e')) (
                  block_expired-Inv p h i n
                    (fired-second impulse_id block_id apart i.impulse_timeout i.block_timeout
                      i.timers h v.timers e')
                    v)
          ]
  ]

step-Inv :
    (p : ImpulseInputProps) (e : Event) (i : ImpulseInput) (n : ℕ)
    → Inv n i
    → Inv (breaks e i n) (step p e i)
unfolding step
step-Inv p changed i n v = handle_change-Inv p i n v
step-Inv p (fired h) i n v = fire-Inv p h i n v
step-Inv p cancelled i n v = cancel-Inv i n v

-- After any changes of the pin, timers that fire and calls of `cancel`, in any order: what was emitted
-- is a sequence of impulses, each of `rising` and true, followed by false, but for the impulse that is
-- in progress and for as many as were broken, because `cancel` came during them; while an impulse is in
-- progress its beginning was emitted last and the object is not blocked; the armed timers are those
-- that the object keeps, one at most for each field.
pub impulse_run-Inv :
    (p : ImpulseInputProps) (es : List Event) (i : ImpulseInput) (n : ℕ)
    → Inv n i
    → Inv (broken_by p es i n) (run p es i)
unfolding run broken_by
impulse_run-Inv p [] i n v = v
impulse_run-Inv p (e ∷ es) i n v =
    impulse_run-Inv p es (step p e i) (breaks e i n) (step-Inv p e i n v)
