-- ===== src/Polling.antt =====
-- system/lib/Polling.ts: a method that is called at once and then at every interval, one for each id.
-- An interval is a timer that stays armed when it fires. The handlers of the events neither throw nor
-- call the object; the newest stands first in what was called and emitted.
pub mod Intervals
pub mod Restarts
mod Tests
use squidlet.Base.{
  ℕ, List, [], ◌∷◌, ◌++◌, Option, none, some, String, str_eq, Dict, lookup, insert, delete, Bool,
  is_some, get_elem?, remove_at, if◌then◌else◌, Result, ok, throws, ◌==◌, ◌>>=◌,
}
use squidlet.Timers.{Timers, no_timers, arm, disarm, armed_for}

pub record CurrentPoll (M : Type 0) : Type 0 where
  pub interval_id : ℕ
  pub method_which_poll : M
  pub poll_interval : ℕ

-- `wrappers`: the id and the method that the callback of an interval has in it, by its handle.
pub record Polling (M : Type 0) : Type 0 where
  pub current_polls : Dict (CurrentPoll M)
  pub timers : Timers
  pub wrappers : List (ℕ × String × M)
  pub waiting : List (String × M)
  pub called : List (String × M)
  pub emitted : List (String × Option String)

abbrev pub default_id : String
default_id = "defaultUniqId"

-- `uniqId || DEFAULT_ID`.
abbrev pub resolve_id : Option String → String
resolve_id none = default_id
resolve_id (some id) = if str_eq id "" then default_id else id

abbrev pub already_in_progress : String
already_in_progress = "This poll already is in progress"

abbrev pub not_started : String
not_started = "Can't restart polling because it hasn't been started yet"

abbrev pub no_poll : String
no_poll = "Cannot read property of undefined"

module _ {M : Type 0} where
  abbrev pub init : Polling M
  init = record {
    current_polls = [];
    timers = no_timers;
    wrappers = [];
    waiting = [];
    called = [];
    emitted = [];
  }

  abbrev pub wrapped : ℕ → List (ℕ × String × M) → Option (String × M)
  wrapped h [] = none
  wrapped h (w ∷ ws) = if w.0 == h then some (w.1, w.2) else wrapped h ws

  pub is_in_progress : Option String → Polling M → Bool
  is_in_progress uniq_id d = is_some (lookup (resolve_id uniq_id) d.current_polls)

  -- `pollingCbWrapper()`: the method starts, and its end is waited for.
  abbrev pub poll_once : String → M → Polling M → Polling M
  poll_once id method d = record d {
    called = (id, method) ∷ d.called;
    waiting = d.waiting ++ (id, method) ∷ [];
  }

  -- `setInterval(pollingCbWrapper, pollInterval)`, and the entry that keeps its handle.
  abbrev pub set_interval : String → M → ℕ → Polling M → Polling M
  set_interval id method ms d = record d {
    timers = arm id d.timers;
    wrappers = (d.timers.next, id, method) ∷ d.wrappers;
    current_polls =
        insert id
          (record { interval_id = d.timers.next; method_which_poll = method; poll_interval = ms })
          d.current_polls;
  }

  pub start : M → ℕ → Option String → Polling M → Result (Polling M)
  unfolding is_in_progress
  start method ms uniq_id d =
      if is_in_progress uniq_id d
      then throws already_in_progress
      else ok
          (set_interval (resolve_id uniq_id) method ms (poll_once (resolve_id uniq_id) method d))

  abbrev pub interval_of : Option (CurrentPoll M) → Option ℕ
  interval_of none = none
  interval_of (some p) = some p.interval_id

  pub stop : Option String → Polling M → Polling M
  stop uniq_id d =
      let id = resolve_id uniq_id in
      record d {
        timers = disarm (interval_of (lookup id d.current_polls)) d.timers;
        current_polls = delete id d.current_polls;
      }

  abbrev pub restart_poll : String → Option (CurrentPoll M) → Polling M → Result (Polling M)
  restart_poll id none d = throws not_started
  restart_poll id (some p) d = ok (
      poll_once id p.method_which_poll (record d { timers = disarm (some p.interval_id) d.timers }))

  -- `restart` up to its `await`. The wrapper returns nothing, so there is no result to wait for.
  pub restart : Option String → Polling M → Result (Polling M)
  restart uniq_id d = let id = resolve_id uniq_id in restart_poll id (lookup id d.current_polls) d

  abbrev pub renew : String → Option (CurrentPoll M) → Polling M → Result (Polling M)
  renew id none d = throws no_poll
  renew id (some p) d = ok (set_interval id p.method_which_poll p.poll_interval d)

  -- The rest of `restart`, behind its `await`.
  pub renew_interval : String → Polling M → Result (Polling M)
  renew_interval id d = renew id (lookup id d.current_polls) d

  abbrev pub call_wrapper : Option (String × M) → Polling M → Polling M
  call_wrapper none d = d
  call_wrapper (some w) d = poll_once w.0 w.1 d

  -- The interval with the handle fires, if it is armed; it stays armed.
  pub fire : ℕ → Polling M → Polling M
  fire h d =
      if is_some (armed_for h d.timers.armed) then call_wrapper (wrapped h d.wrappers) d else d

  -- A call of the method ends: with no text where it gave a result, else with that of its error.
  pub answer : Option String → ℕ → Polling M → Polling M
  answer err i d = elim (get_elem? d.waiting i) [
    | none ↦ d
    | some w ↦ record d { waiting = remove_at d.waiting i; emitted = (w.0, err) ∷ d.emitted }
  ]

-- What callers, intervals and the methods do. A restart is done to its end before the next.
pub data Event (M : Type 0) : Type 0 where
  started : M → ℕ → Option String → Event M
  stopped : Option String → Event M
  restarted : Option String → Event M
  fired : ℕ → Event M
  answered : Option String → ℕ → Event M

-- A call that throws leaves the object as it is.
abbrev pub done_or : {A : Type 0} → A → Result A → A
done_or a (ok b) = b
done_or a (throws err) = a

module _ {M : Type 0} where
  pub restart_all : Option String → Polling M → Result (Polling M)
  unfolding restart renew_interval
  restart_all uniq_id d = do d' ← restart uniq_id d; renew_interval (resolve_id uniq_id) d'

  pub step : Event M → Polling M → Polling M
  unfolding start stop restart_all fire answer
  step (started method ms uniq_id) d = done_or d (start method ms uniq_id d)
  step (stopped uniq_id) d = stop uniq_id d
  step (restarted uniq_id) d = done_or d (restart_all uniq_id d)
  step (fired h) d = fire h d
  step (answered err i) d = answer err i d

  pub run : List (Event M) → Polling M → Polling M
  unfolding step
  run [] d = d
  run (e ∷ es) d = run es (step e d)
