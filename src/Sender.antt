-- ===== src/Sender.antt =====
-- system/lib/Sender.ts: a request that is sent again until it succeeds or its time is over. Times are
-- milliseconds; `answer n` is what the attempt `n` of a request gives, and after how long, `late n` how
-- much later than asked the timer after it fires. `same` tells whether two callbacks are one.
pub mod Attempts
pub mod Joined
mod Tests
use squidlet.Base.{
  ℕ, zero, suc, ◌+◌, ◌*◌, List, [], ◌∷◌, Option, none, some, String, Dict, lookup, insert, delete,
  Bool, is_some, true, false, leb, ◌==◌, if◌then◌else◌,
}
use squidlet.Promised.{Outcome, pending, fulfilled, failed}

pub record SenderRequest (C P : Type 0) : Type 0 where
  pub timeout_ms : ℕ
  pub resend_timeout_ms : ℕ
  pub send_cb : C
  pub send_params : P
  pub started_time_stamp : ℕ

-- What an attempt gives.
pub data Answer (D : Type 0) : Type 0 where
  success : D → Answer D
  error : String → Answer D

-- How a request ended: after how many attempts, at what time, and with what.
pub record Ended (D : Type 0) : Type 0 where
  pub attempts : ℕ
  pub time : ℕ
  pub outcome : Outcome D

module _ {C P : Type 0} where
  pub new_request : ℕ → ℕ → C → P → SenderRequest C P
  new_request timeout_sec resend_timeout_sec cb params = record {
    timeout_ms = timeout_sec * 1000;
    resend_timeout_ms = resend_timeout_sec * 1000;
    send_cb = cb;
    send_params = params;
    started_time_stamp = 0;
  }

  pub update_params : P → SenderRequest C P → SenderRequest C P
  update_params params r = record r { send_params = params }

  -- `start` at a time; a request that was started is left alone.
  pub start : ℕ → SenderRequest C P → SenderRequest C P
  start now r = if r.started_time_stamp == 0 then record r { started_time_stamp = now } else r

  -- An error: the time is over, or the next attempt comes after the timeout.
  abbrev pub on_error :
      {D : Type 0} → SenderRequest C P → String → ℕ → ℕ → Option (Ended D) → Option (Ended D)
  on_error r err n now again =
      if leb (r.started_time_stamp + r.timeout_ms) now
      then some (record { attempts = suc n; time = now; outcome = failed err })
      else again

  abbrev pub on_answer :
      {D : Type 0} → SenderRequest C P → Answer D → ℕ → ℕ → Option (Ended D) → Option (Ended D)
  on_answer r (success d) n now again =
      some (record { attempts = suc n; time = now; outcome = fulfilled d })
  on_answer r (error err) n now again = on_error r err n now again

  -- The attempt `n` starts at `now`; `none` means that the fuel ran out.
  pub try_send :
      {D : Type 0} → SenderRequest C P → (ℕ → ℕ × Answer D) → (ℕ → ℕ) → ℕ → ℕ → ℕ → Option (Ended D)
  try_send r answer late zero n now = none
  try_send r answer late (suc fuel) n now =
      let (took, result) = answer n in
      let again = try_send r answer late fuel (suc n) (now + took + r.resend_timeout_ms + late n) in
      on_answer r result n (now + took) again

  -- A request from its start to its end.
  pub request : {D : Type 0} → SenderRequest C P → (ℕ → ℕ × Answer D) → (ℕ → ℕ) → Option (Ended D)
  unfolding try_send
  request r answer late = try_send r answer late (suc r.timeout_ms) 0 r.started_time_stamp

pub record Sender (C P : Type 0) : Type 0 where
  pub timeout_sec : ℕ
  pub resend_timeout_sec : ℕ
  pub requests : Dict (SenderRequest C P)
  pub warned : List String
  -- The requests that were started, the newest first.
  pub started : List String

module _ {C P : Type 0} where
  -- The id is resolved already.
  pub is_in_process : String → Sender C P → Bool
  is_in_process id s = is_some (lookup id s.requests)

  pub start_new_request : ℕ → String → C → P → Sender C P → Sender C P
  unfolding start new_request
  start_new_request now id cb params s = record s {
    requests =
        insert id (start now (new_request s.timeout_sec s.resend_timeout_sec cb params)) s.requests;
    started = id ∷ s.started;
  }

  abbrev pub add_to_queue :
      (C → C → Bool) → String → C → P → SenderRequest C P → Sender C P → Sender C P
  add_to_queue same id cb params r s = record s {
    requests = insert id (record r { send_params = params }) s.requests;
    warned = if same r.send_cb cb then s.warned else id ∷ s.warned;
  }

  abbrev pub send_for :
      (C → C → Bool) → ℕ → String → C → P → Option (SenderRequest C P) → Sender C P → Sender C P
  send_for same now id cb params none s = start_new_request now id cb params s
  send_for same now id cb params (some r) s = add_to_queue same id cb params r s

  -- `send` up to its wait for the promise.
  pub send : (C → C → Bool) → ℕ → String → C → P → Sender C P → Sender C P
  unfolding start_new_request
  send same now id cb params s = send_for same now id cb params (lookup id s.requests) s

  -- The rest of `send`, when the promise is settled either way.
  pub finish : String → Sender C P → Sender C P
  finish id s = record s { requests = delete id s.requests }
