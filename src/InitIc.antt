-- ===== src/InitIc.antt =====
-- system/lib/logic/InitIcLogic.ts: tries to initialize a chip until one of them succeeds, each a given
-- time after the one before or later. `waiting` counts the calls of `handleCbError` that wait for the
-- present `timeoutPromised`; those that wait for one that is gone are never run again. `initialized`
-- tells that `initIcPromised` is resolved.
pub mod Rounds
pub mod Cancels
mod Tests
use squidlet.Base.{
  ℕ, zero, suc, Option, none, some, String, Bool, is_some, true, false, not, ◌&&◌, ◌||◌,
  if◌then◌else◌, Result, ok, throws, List, [], ◌∷◌,
}
use squidlet.Timers.{Timers, no_timers, arm, disarm, armed_for}

pub record InitIc : Type 0 where
  pub setup_step : Bool
  pub initialized : Bool
  pub timeout_promised : Option Bool
  pub waiting : ℕ
  pub timeout_of_try : Option ℕ
  pub timers : Timers
  pub in_flight : ℕ
  pub tries : ℕ

abbrev pub new_logic : InitIc
new_logic = record {
  setup_step = true;
  initialized = false;
  timeout_promised = none;
  waiting = 0;
  timeout_of_try = none;
  timers = no_timers;
  in_flight = 0;
  tries = 0;
}

abbrev pub try_id : String
try_id = "timeoutOfTry"

abbrev pub already_initializing : String
already_initializing = "IC is already initializing at the moment"

abbrev pub is_init_ic_step : InitIc → Bool
is_init_ic_step s = is_some s.timeout_of_try || is_some s.timeout_promised

abbrev pub was_initialized : InitIc → Bool
was_initialized s = not s.setup_step && not (is_init_ic_step s)

-- `callInitCb` up to its wait.
abbrev pub call_init_cb : InitIc → InitIc
call_init_cb s = record s {
  timeout_promised = some false;
  waiting = 0;
  timeout_of_try = some s.timers.next;
  timers = arm try_id s.timers;
  in_flight = suc s.in_flight;
  tries = suc s.tries;
}

pub init : InitIc → Result InitIc
init s =
    if is_init_ic_step s
    then throws already_initializing
    else ok (call_init_cb (record s { setup_step = false }))

abbrev pub without_try : InitIc → InitIc
without_try s = record s {
  timers = disarm s.timeout_of_try s.timers;
  timeout_of_try = none;
  timeout_promised = none;
  waiting = 0;
}

pub cancel : InitIc → InitIc
cancel s = without_try (record s { setup_step = if was_initialized s then s.setup_step else true })

-- The rest of `handleCbError` after its wait. Without a promise it ends in an error that is logged.
abbrev pub after_wait : Option Bool → InitIc → InitIc
after_wait none s = s
after_wait (some fulfilled) s = call_init_cb s

abbrev pub wait_or_call : Bool → InitIc → InitIc
wait_or_call true s = call_init_cb s
wait_or_call false s = record s { waiting = suc s.waiting }

abbrev pub cb_error_in : Option Bool → Option ℕ → InitIc → InitIc
cb_error_in none t s = cancel s
cb_error_in (some fulfilled) none s = cancel s
cb_error_in (some fulfilled) (some t) s = wait_or_call fulfilled s

pub handle_cb_error : InitIc → InitIc
unfolding cancel
handle_cb_error s = cb_error_in s.timeout_promised s.timeout_of_try s

abbrev pub cb_success_in : Option Bool → Option ℕ → InitIc → InitIc
cb_success_in none t s = cancel s
cb_success_in (some fulfilled) none s = cancel s
cb_success_in (some fulfilled) (some t) s = record (without_try s) { initialized = true }

pub handle_cb_success : InitIc → InitIc
unfolding cancel
handle_cb_success s = cb_success_in s.timeout_promised s.timeout_of_try s

-- One of the calls of `initCb` that are in flight ends.
abbrev pub answer_in : ℕ → Bool → InitIc → InitIc
answer_in zero well s = s
answer_in (suc n) true s = handle_cb_success (record s { in_flight = n })
answer_in (suc n) false s = handle_cb_error (record s { in_flight = n })

pub answer : Bool → InitIc → InitIc
unfolding handle_cb_success handle_cb_error
answer well s = answer_in s.in_flight well s

-- The promise of the timeout is resolved, and those that wait for it go on.
abbrev pub go_on : ℕ → InitIc → InitIc
go_on zero s = s
go_on (suc n) s = go_on n (after_wait s.timeout_promised s)

abbrev pub resolve_timeout : Option Bool → InitIc → InitIc
resolve_timeout none s = s
resolve_timeout (some fulfilled) s =
    go_on s.waiting (record s { timeout_promised = some true; waiting = 0 })

abbrev pub fired : Option String → ℕ → InitIc → InitIc
fired none h s = s
fired (some id) h s =
    resolve_timeout s.timeout_promised (record s { timers = disarm (some h) s.timers })

-- The timer with the handle fires.
pub fire : ℕ → InitIc → InitIc
fire h s = fired (armed_for h s.timers.armed) h s

pub data Event : Type 0 where
  ended : Bool → Event
  timed_out : ℕ → Event

pub step : Event → InitIc → InitIc
unfolding answer fire
step (ended well) s = answer well s
step (timed_out h) s = fire h s

pub run : List Event → InitIc → InitIc
unfolding step
run [] s = s
run (e ∷ es) s = run es (step e s)
