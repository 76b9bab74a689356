-- ===== src/Click/Cycles.antt =====
-- Whatever the pin, the timers and the owner do: the presses and releases that are emitted, and the
-- timers.
use squidlet.Base.{
  ℕ, suc, ◌≡◌, refl, sym, subst, if◌then◌else◌, List, [], ◌∷◌, Option, none, some, String, str_eq,
  Bool, true, false, Bool-cases, Option-cases, inl, inr,
}
use squidlet.Timers.{is_used, disarm, armed_for}
use squidlet.Timers.Coherent.{Coherent}
use squidlet.Timers.Pair.{
  two, no_timers-two, arm-first, arm-second, disarm-first, disarm-second, disarm_both-two,
  fired-first, fired-second, fired_known,
}
use squidlet.Digital.{invert_if_need}
use squidlet.Click.{
  BinaryClickProps, BinaryClick, BinaryClickEvents, up, down, change, release_id, block_id,
  is_blocked, Event, changed, fired, cancelled, init, start_down_state, release, finish_down_state,
  cancel, release_expired, block_expired, expired, fire, handle_change, step, run,
}

-- What was emitted, the newest first: each press is a change to true and a `down`; it is followed by
-- a change to false and an `up`, but for the presses that were given up, counted by the number.
pub data Cycles : ℕ → List BinaryClickEvents → Type 0 where
  silent : Cycles 0 []
  given_up :
      {n : ℕ} {es : List BinaryClickEvents} → Cycles n es → Cycles (suc n) (down ∷ change true ∷ es)
  clicked :
      {n : ℕ} {es : List BinaryClickEvents}
      → Cycles n es
      → Cycles n (up ∷ change false ∷ down ∷ change true ∷ es)

-- While the key is down its press is the last thing that was emitted, over complete cycles.
abbrev pub Pressed : ℕ → Bool → List BinaryClickEvents → Type 0
Pressed n true es =
    (rest : List BinaryClickEvents) × (es ≡ down ∷ change true ∷ rest) × Cycles n rest
Pressed n false es = Cycles n es

-- Whether a press is given up: it takes too long, or `cancel` comes while the key is down.
abbrev pub one_more : Bool → ℕ → ℕ
one_more true n = suc n
one_more false n = n

abbrev pub by_timer : Option String → ℕ → ℕ
by_timer none n = n
by_timer (some id) n = one_more (str_eq release_id id) n

abbrev pub gives_up : Event → BinaryClick → ℕ → ℕ
gives_up (changed level) c n = n
gives_up (fired h) c n = by_timer (armed_for h c.timers.armed) n
gives_up cancelled c n = one_more c.key_down n

-- The presses that were given up in the end, of `n` at first.
unfoldable pub give_ups : BinaryClickProps → List Event → BinaryClick → ℕ → ℕ
give_ups p [] c n = n
give_ups p (e ∷ es) c n = give_ups p es (step p e c) (gives_up e c n)

abbrev pub timers_of : BinaryClick → String → Option ℕ
timers_of c = two release_id block_id c.release_timeout c.block_timeout

pub record Inv (n : ℕ) (c : BinaryClick) : Type 0 where
  pub timers : Coherent (timers_of c) c.timers
  pub log : Pressed n c.key_down c.emitted
  pub releasable : (h : ℕ) → c.release_timeout ≡ some h → c.key_down ≡ true
  pub blocked_up : (h : ℕ) → c.block_timeout ≡ some h → c.key_down ≡ false

pub apart : str_eq release_id block_id ≡ false
apart = refl

pub init-Inv : (p : BinaryClickProps) → Inv 0 (init p)
unfolding init
init-Inv p = record {
  timers = no_timers-two release_id block_id apart;
  log = silent;
  releasable = λ h e. cc;
  blocked_up = λ h e. cc;
}

start_down_state-Inv :
    (p : BinaryClickProps) (c : BinaryClick) (n : ℕ)
    → c.key_down ≡ false
    → c.block_timeout ≡ none
    → Inv n c
    → Inv n (start_down_state p c)
unfolding start_down_state
start_down_state-Inv p c n was free v = elim (Bool-cases (is_used p.release_timeout_ms)) [
  | inl limited ↦ rw limited (record {
    timers = arm-first release_id block_id apart c.block_timeout c.timers (
        subst (λ x. Coherent (two release_id block_id x c.block_timeout) c.timers) unarmed
          v.timers);
    log = (c.emitted, refl, subst (λ b. Pressed n b c.emitted) was v.log);
    releasable = λ h e. refl;
    blocked_up = λ h e. cc;
  })
  | inr free_run ↦ rw free_run (record {
    timers = v.timers;
    log = (c.emitted, refl, subst (λ b. Pressed n b c.emitted) was v.log);
    releasable = λ h e. refl;
    blocked_up = λ h e. cc;
  })
]
  where
    unarmed : c.release_timeout ≡ none
    unarmed = elim (Option-cases c.release_timeout) [
      | inl e ↦ e
      | inr (h, e) ↦ absurd (cc (v.releasable h e))
    ]

release-Inv : (c : BinaryClick) (n : ℕ) → c.key_down ≡ true → Inv n c → Inv n (release c)
release-Inv c n was v = record {
  timers =
      disarm-first release_id block_id apart c.release_timeout c.block_timeout c.timers v.timers;
  log = again (subst (λ b. Pressed n b c.emitted) was v.log);
  releasable = λ h e. cc;
  blocked_up = λ h e. refl;
}
  where
    again : Pressed n true c.emitted → Cycles n (up ∷ change false ∷ c.emitted)
    again (rest, e, ok) = subst (λ es. Cycles n (up ∷ change false ∷ es)) (sym e) (clicked ok)

finish_down_state-Inv :
    (p : BinaryClickProps) (c : BinaryClick) (n : ℕ)
    → c.key_down ≡ true
    → c.block_timeout ≡ none
    → Inv n c
    → Inv n (finish_down_state p c)
unfolding finish_down_state
finish_down_state-Inv p c n was free v = elim (Bool-cases (is_used p.block_time)) [
  | inl limited ↦ rw limited (record {
    timers = arm-second release_id block_id apart none (disarm c.release_timeout c.timers) (
        subst (λ x. Coherent (two release_id block_id none x) (disarm c.release_timeout c.timers))
          free released.timers);
    log = released.log;
    releasable = λ h e. cc;
    blocked_up = λ h e. refl;
  })
  | inr free_run ↦ rw free_run released
]
  where
    released : Inv n (release c)
    released = release-Inv c n was v

-- The open press, if there is one, is given up.
given_up_log :
    (n : ℕ) (b : Bool) (es : List BinaryClickEvents) → Pressed n b es → Cycles (one_more b n) es
given_up_log n true es (rest, e, ok) = subst (Cycles (suc n)) (sym e) (given_up ok)
given_up_log n false es ok = ok

cancel-Inv : (c : BinaryClick) (n : ℕ) → Inv n c → Inv (one_more c.key_down n) (cancel c)
unfolding cancel
cancel-Inv c n v = record {
  timers =
      disarm_both-two release_id block_id apart c.release_timeout c.block_timeout c.timers v.timers;
  log = given_up_log n c.key_down c.emitted v.log;
  releasable = λ h e. cc;
  blocked_up = λ h e. cc;
}

not_blocked : (c : BinaryClick) → is_blocked c ≡ false → c.block_timeout ≡ none
not_blocked c e = elim (Option-cases c.block_timeout) [
  | inl n ↦ n
  | inr (h, q) ↦ absurd (cc (rw q at e))
]

answer-Inv :
    (p : BinaryClickProps) (high was : Bool) (c : BinaryClick) (n : ℕ)
    → c.key_down ≡ was
    → c.block_timeout ≡ none
    → Inv n c
    → Inv n (
        if high
        then (if was then c else start_down_state p c)
        else (if was then finish_down_state p c else c))
answer-Inv p true true c n e free v = v
answer-Inv p true false c n e free v = start_down_state-Inv p c n e free v
answer-Inv p false true c n e free v = finish_down_state-Inv p c n e free v
answer-Inv p false false c n e free v = v

handle_change-Inv :
    (p : BinaryClickProps) (level : Bool) (c : BinaryClick) (n : ℕ)
    → Inv n c
    → Inv n (handle_change p level c)
unfolding handle_change
handle_change-Inv p level c n v = elim (Bool-cases (is_blocked c)) [
  | inl e ↦ rw e v
  | inr e ↦ rw e (
      answer-Inv p (invert_if_need (some level) (some c.inverted)) c.key_down c n refl
        (not_blocked c e) v)
]

release_expired-Inv :
    (h : ℕ) (c : BinaryClick) (n : ℕ)
    → c.release_timeout ≡ some h
    → Inv n c
    → Inv (suc n) (release_expired (record c { timers = disarm (some h) c.timers }))
unfolding release_expired
release_expired-Inv h c n e v = record {
  timers =
      subst (λ x. Coherent (two release_id block_id none c.block_timeout) (disarm x c.timers)) e
        (disarm-first release_id block_id apart c.release_timeout c.block_timeout c.timers
          v.timers);
  log = given_up_log n true c.emitted (subst (λ b. Pressed n b c.emitted) (v.releasable h e) v.log);
  releasable = λ k q. cc;
  blocked_up = λ k q. refl;
}

block_expired-Inv :
    (h : ℕ) (c : BinaryClick) (n : ℕ)
    → c.block_timeout ≡ some h
    → Inv n c
    → Inv n (block_expired (record c { timers = disarm (some h) c.timers }))
unfolding block_expired
block_expired-Inv h c n e v = record {
  timers =
      subst (λ x. Coherent (two release_id block_id c.release_timeout none) (disarm x c.timers)) e
        (disarm-second release_id block_id apart c.release_timeout c.block_timeout c.timers
          v.timers);
  log = v.log;
  releasable = v.releasable;
  blocked_up = λ k q. cc;
}

-- The timer that fires is that of one of the two fields.
fire_release :
    (h : ℕ) (c : BinaryClick)
    → armed_for h c.timers.armed ≡ some release_id
    → fire h c ≡ release_expired (record c { timers = disarm (some h) c.timers })
unfolding fire expired
fire_release h c e = rw (e, fire)

pub fire_block :
    (h : ℕ) (c : BinaryClick)
    → armed_for h c.timers.armed ≡ some block_id
    → fire h c ≡ block_expired (record c { timers = disarm (some h) c.timers })
unfolding fire expired
fire_block h c e = rw (e, fire)

idle_fire : (h : ℕ) (c : BinaryClick) → armed_for h c.timers.armed ≡ none → fire h c ≡ c
unfolding fire
idle_fire h c e = rw (e, fire)

fire-Inv : (h : ℕ) (c : BinaryClick) (n : ℕ) → Inv n c → Inv (gives_up (fired h) c n) (fire h c)
fire-Inv h c n v = elim (Option-cases (armed_for h c.timers.armed)) [
  | inl idle ↦ rw idle (subst (Inv n) (sym (idle_fire h c idle)) v)
  | inr (id, e) ↦
      elim (fired_known release_id block_id apart c.release_timeout c.block_timeout c.timers h id
        v.timers e) [
          | inl same ↦
              let e' : armed_for h c.timers.armed ≡ some release_id = rw same at e in
              rw e' (
                subst (Inv (suc n)) (sym (fire_release h c e')) (
                  release_expired-Inv h c n
                    (fired-first release_id block_id apart c.release_timeout c.block_timeout
                      c.timers h v.timers e')
                    v))
          | inr same ↦
              let e' : armed_for h c.timers.armed ≡ some block_id = rw same at e in
              rw e' (
                subst (Inv n) (sym (fire_block h c e')) (
                  block_expired-Inv h c n
                    (fired-second release_id block_id apart c.release_timeout c.block_timeout
                      c.timers h v.timers e')
                    v))
        ]
]

step-Inv :
    (p : BinaryClickProps) (e : Event) (c : BinaryClick) (n : ℕ)
    → Inv n c
    → Inv (gives_up e c n) (step p e c)
unfolding step
step-Inv p (changed level) c n v = handle_change-Inv p level c n v
step-Inv p (fired h) c n v = fire-Inv h c n v
step-Inv p cancelled c n v = cancel-Inv c n v

-- After any changes of the pin, timers that fire and calls of `cancel`, in any order: what was
-- emitted is a sequence of presses, each a change to true with `down`, followed by a change to false
-- with `up`, but for the press that is open while the key is down and for as many presses as were
-- given up, because the release timer fired or `cancel` came while the key was down; the armed timers
-- are those the object keeps, one at most for each field; the release timer runs only while the key is
-- down, and the object is blocked only while it is up.
pub click_run-Inv :
    (p : BinaryClickProps) (es : List Event) (c : BinaryClick) (n : ℕ)
    → Inv n c
    → Inv (give_ups p es c n) (run p es c)
unfolding run give_ups
click_run-Inv p [] c n v = v
click_run-Inv p (e ∷ es) c n v =
    click_run-Inv p es (step p e c) (gives_up e c n) (step-Inv p e c n v)
