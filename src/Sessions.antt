-- ===== src/Sessions.antt =====
-- system/lib/Sessions.ts: sessions that outlive a connection for a time. `run` is what a listener of
-- the close event does with the id of a session, nothing or an error.
pub mod Ends
pub mod Histories
mod Tests
use squidlet.Base.{
  ℕ, List, [], ◌∷◌, ◌++◌, map, Option, none, some, some_or, String, Dict, lookup, insert, delete,
  Bool, not, ◌==◌, if◌then◌else◌,
}
use squidlet.Timers.{Timers, no_timers, arm, disarm, armed_for}
use squidlet.Events.Handler.{plain}
use squidlet.Events.Indexed.{Events, emit, add_listener, remove_listener, init as no_events}

pub record Sessions (H J : Type 0) : Type 0 where
  pub close_events : Events H
  pub session_storage : Dict (Dict J)
  pub close_connection_timeouts : Dict ℕ
  -- The seconds to the end of a session.
  pub active_session : Dict ℕ
  pub timers : Timers
  -- The listeners that were called, and for which session.
  pub told : List (H × String)

module _ {H J : Type 0} where
  abbrev pub init : Sessions H J
  init = record {
    close_events = no_events;
    session_storage = [];
    close_connection_timeouts = [];
    active_session = [];
    timers = no_timers;
    told = [];
  }

  -- `Boolean(seconds)`: 0 and undefined are not active.
  abbrev pub is_session_active : String → Sessions H J → Bool
  is_session_active id s = not (some_or 0 (lookup id s.active_session) == 0)

  pub recover_session : String → Sessions H J → Sessions H J
  recover_session id s = record s {
    timers = disarm (lookup id s.close_connection_timeouts) s.timers;
    close_connection_timeouts = delete id s.close_connection_timeouts;
  }

  pub new_session_timeout : String → Sessions H J → Sessions H J
  unfolding recover_session
  new_session_timeout id s =
      let s' = recover_session id s in
      record s' {
        close_connection_timeouts = insert id s'.timers.next s'.close_connection_timeouts;
        timers = arm id s'.timers;
      }

  -- `id` is what `generateUniqId` gives.
  pub new_session : String → ℕ → Bool → Sessions H J → Sessions H J
  unfolding new_session_timeout
  new_session id expire_sec short_connection s =
      let s' = record s { active_session = insert id expire_sec s.active_session } in
      if short_connection then new_session_timeout id s' else s'

  pub wait_for_shut_down : String → Sessions H J → Sessions H J
  unfolding new_session_timeout
  wait_for_shut_down id s = new_session_timeout id s

  pub destroy_session : String → Sessions H J → Sessions H J
  destroy_session id s = record s {
    timers = disarm (lookup id s.close_connection_timeouts) s.timers;
    close_connection_timeouts = delete id s.close_connection_timeouts;
    session_storage = delete id s.session_storage;
    active_session = delete id s.active_session;
  }

  -- An error that a listener throws ends the call before the session is destroyed.
  abbrev pub destroy_unless : Option String → String → Sessions H J → Sessions H J × Option String
  destroy_unless none id s = (destroy_session id s, none)
  destroy_unless (some err) id s = (s, some err)

  pub shut_down_immediately :
      (String → H → Option String) → String → Sessions H J → Sessions H J × Option String
  unfolding destroy_session
  shut_down_immediately run id s =
      let r = emit (run id) s.close_events in
      destroy_unless r.error id
        (record s { close_events = r.events; told = map (λ h. (h, id)) r.calls ++ s.told })

  -- The timer with the handle fires, if it is armed.
  pub fire : (String → H → Option String) → ℕ → Sessions H J → Sessions H J × Option String
  unfolding shut_down_immediately
  fire run h s = elim (armed_for h s.timers.armed) [
    | none ↦ (s, none)
    | some id ↦ shut_down_immediately run id (record s { timers = disarm (some h) s.timers })
  ]

  pub on_session_closed : H → Sessions H J → Sessions H J × ℕ
  on_session_closed cb s =
      let r = add_listener (plain cb) s.close_events in (record s { close_events = r.0 }, r.1)

  pub remove_session_closed_listener : ℕ → Sessions H J → Sessions H J
  remove_session_closed_listener i s = record s { close_events = remove_listener i s.close_events }

  pub get_storage : String → String → Sessions H J → Option J
  get_storage id key s = lookup key (some_or [] (lookup id s.session_storage))

  -- A value that is undefined is left out.
  pub set_storage : String → String → J → Sessions H J → Sessions H J
  set_storage id key value s = record s {
    session_storage =
        insert id (insert key value (some_or [] (lookup id s.session_storage))) s.session_storage;
  }
