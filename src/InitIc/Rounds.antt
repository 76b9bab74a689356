-- ===== src/InitIc/Rounds.antt =====
-- The tries of system/lib/logic/InitIcLogic.ts one after another.
use squidlet.Base.{
  ℕ, suc, ◌+◌, ◌≤◌, ==_iff, ◌≡◌, refl, ap, ◌∙◌, List, [], ◌∷◌, some, none, Bool, true, false, ◌==◌,
  if◌then◌else◌, Bool-cases, inl, inr, ok, arith,
}
use squidlet.InitIc.{
  InitIc, Event, ended, timed_out, new_logic, try_id, init, cancel, answer, fire, step, run,
  handle_cb_success, handle_cb_error, fired,
}

-- A round: the callback runs, with its least time over or not; it has failed and the time is not over;
-- it has succeeded.
pub data Round : Type 0 where
  calling : Bool → Round
  failed_early : Round
  done : Round

-- The number of the round, and what it is at.
abbrev pub Stage : Type 0
Stage = ℕ × Round

abbrev pub ended_round : Bool → ℕ → Round → Stage
ended_round true k (calling late) = (k, done)
ended_round false k (calling true) = (suc k, calling false)
ended_round false k (calling false) = (k, failed_early)
ended_round well k failed_early = (k, failed_early)
ended_round well k done = (k, done)

abbrev pub time_over : ℕ → Round → Stage
time_over k (calling late) = (k, calling true)
time_over k failed_early = (suc k, calling false)
time_over k done = (k, done)

-- The reference: the tries one after another, where only the timer of the round counts.
pub next_stage : Event → Stage → Stage
next_stage (ended well) (k, r) = ended_round well k r
next_stage (timed_out h) (k, r) = if k == h then time_over k r else (k, r)

pub stage_after : List Event → Stage → Stage
unfolding next_stage
stage_after [] g = g
stage_after (e ∷ es) g = stage_after es (next_stage e g)

-- The object in a stage.
abbrev pub view_in : ℕ → Round → InitIc
view_in k (calling true) = record {
  setup_step = false;
  initialized = false;
  timeout_promised = some true;
  waiting = 0;
  timeout_of_try = some k;
  timers = record { armed = []; next = suc k };
  in_flight = 1;
  tries = suc k;
}
view_in k (calling false) = record {
  setup_step = false;
  initialized = false;
  timeout_promised = some false;
  waiting = 0;
  timeout_of_try = some k;
  timers = record { armed = (k, try_id) ∷ []; next = suc k };
  in_flight = 1;
  tries = suc k;
}
view_in k failed_early = record {
  setup_step = false;
  initialized = false;
  timeout_promised = some false;
  waiting = 1;
  timeout_of_try = some k;
  timers = record { armed = (k, try_id) ∷ []; next = suc k };
  in_flight = 0;
  tries = suc k;
}
view_in k done = record {
  setup_step = false;
  initialized = true;
  timeout_promised = none;
  waiting = 0;
  timeout_of_try = none;
  timers = record { armed = []; next = suc k };
  in_flight = 0;
  tries = suc k;
}

abbrev pub view : Stage → InitIc
view g = view_in g.0 g.1

-- The timers that fire among the events.
abbrev pub timeouts : List Event → ℕ
timeouts [] = 0
timeouts (ended well ∷ es) = timeouts es
timeouts (timed_out h ∷ es) = suc (timeouts es)

pub own_timer : (k : ℕ) → (k == k) ≡ true
own_timer k = (==_iff k k).1 refl

answer-view :
    (well : Bool) (k : ℕ) (r : Round) → answer well (view_in k r) ≡ view (ended_round well k r)
unfolding answer handle_cb_success handle_cb_error cancel
answer-view true k (calling true) = refl
answer-view true k (calling false) = rw (own_timer k) refl
answer-view false k (calling true) = refl
answer-view false k (calling false) = refl
answer-view true k failed_early = refl
answer-view false k failed_early = refl
answer-view true k done = refl
answer-view false k done = refl

fire-view :
    (h k : ℕ) (r : Round) → fire h (view_in k r) ≡ view (if k == h then time_over k r else (k, r))
unfolding fire
fire-view h k r = elim (Bool-cases (k == h)) [
  | inl own ↦ rw own (own_fires r own)
  | inr other ↦ rw other (other_fires r other)
]
  where
    own_fires : (x : Round) → (k == h) ≡ true → fire h (view_in k x) ≡ view (time_over k x)
    own_fires (calling true) own = refl
    own_fires (calling false) own = rw (own, fired, own) refl
    own_fires failed_early own = rw (own, fired, own) refl
    own_fires done own = refl

    other_fires : (x : Round) → (k == h) ≡ false → fire h (view_in k x) ≡ view_in k x
    other_fires (calling true) other = refl
    other_fires (calling false) other = rw other refl
    other_fires failed_early other = rw other refl
    other_fires done other = refl

step-view : (e : Event) (g : Stage) → step e (view g) ≡ view (next_stage e g)
unfolding step next_stage
step-view (ended well) g = answer-view well g.0 g.1
step-view (timed_out h) g = fire-view h g.0 g.1

pub run-view : (es : List Event) (g : Stage) → run es (view g) ≡ view (stage_after es g)
unfolding run stage_after
run-view [] g = refl
run-view (e ∷ es) g = ap (run es) (step-view e g) ∙ run-view es (next_stage e g)

-- A round whose time is over counts as the next one.
abbrev pub weight : Stage → ℕ
weight (k, calling true) = suc k
weight (k, calling false) = k
weight (k, failed_early) = k
weight (k, done) = k

ended_weight : (well : Bool) (k : ℕ) (r : Round) → weight (ended_round well k r) ≤ weight (k, r)
ended_weight true k (calling true) = omega arith
ended_weight true k (calling false) = omega arith
ended_weight false k (calling true) = omega arith
ended_weight false k (calling false) = omega arith
ended_weight true k failed_early = omega arith
ended_weight false k failed_early = omega arith
ended_weight true k done = omega arith
ended_weight false k done = omega arith

over_weight : (k : ℕ) (r : Round) → weight (time_over k r) ≤ suc (weight (k, r))
over_weight k (calling true) = omega arith
over_weight k (calling false) = omega arith
over_weight k failed_early = omega arith
over_weight k done = omega arith

fired_weight :
    (h k : ℕ) (r : Round) → weight (if k == h then time_over k r else (k, r)) ≤ suc (weight (k, r))
fired_weight h k r = elim (Bool-cases (k == h)) [
  | inl own ↦ rw own (over_weight k r)
  | inr other ↦ rw other (omega arith)
]

weight_bound : (es : List Event) (g : Stage) → weight (stage_after es g) ≤ timeouts es + weight g
unfolding stage_after next_stage
weight_bound [] g = omega arith
weight_bound (ended well ∷ es) g =
    let ih = weight_bound es (ended_round well g.0 g.1) in
    let one = ended_weight well g.0 g.1 in omega arith
weight_bound (timed_out h ∷ es) g =
    let ih = weight_bound es (if g.0 == h then time_over g.0 g.1 else g) in
    let one = fired_weight h g.0 g.1 in omega arith

tries_bound : (k : ℕ) (r : Round) → (view (k, r)).tries ≤ suc (weight (k, r))
tries_bound k (calling true) = omega arith
tries_bound k (calling false) = omega arith
tries_bound k failed_early = omega arith
tries_bound k done = omega arith

-- Whatever the callback comes to and whenever timers fire after `init` of a new object: the object is
-- that of one try after another, a try starting only when the one before has failed and its time is
-- over, the promise is resolved just after a try that succeeded, and there are at most as many tries as
-- timers that fired and one.
pub run-init :
    (es : List Event)
    → (s : InitIc) × (init new_logic ≡ ok s)
      × (run es s ≡ view (stage_after es (0, calling false)))
      × ((run es s).tries ≤ suc (timeouts es))
unfolding init
run-init es =
    let first : Stage = (0, calling false) in
    let last = stage_after es first in
    let same = run-view es first in
    let bound = weight_bound es first in
    let tried = tries_bound last.0 last.1 in (view first, refl, same, rw (same) (omega arith))
