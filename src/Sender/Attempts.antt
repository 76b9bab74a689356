-- ===== src/Sender/Attempts.antt =====
-- How often a request is sent.
use squidlet.Base.{
  ℕ, zero, suc, ◌+◌, ◌*◌, ◌≤◌, ◌<◌, ◌≡◌, refl, Option, some, String, true, false, leb, Bool-cases,
  ◌⊎◌, inl, inr, arith,
}
use squidlet.Promised.{fulfilled, failed}
use squidlet.Sender.{
  SenderRequest, Answer, success, error, Ended, on_error, on_answer, try_send, request,
}

module _ {C P D : Type 0} (r : SenderRequest C P) (answer : ℕ → ℕ × Answer D) (late : ℕ → ℕ) where
  -- How a request ends: with the answer of its last attempt, with an error only when its time is over,
  -- and after so many attempts that all but the last two pauses fit into its time.
  pub record Over (result : Option (Ended D)) : Type 0 where
    pub ended : Ended D
    pub last : ℕ
    pub returned : result ≡ some ended
    pub counted : ended.attempts ≡ suc last
    pub answered :
        ((d : D) × ((answer last).1 ≡ success d) × (ended.outcome ≡ fulfilled d))
        ⊎ ((err : String) × ((answer last).1 ≡ error err)
            × (ended.outcome ≡ failed err)
            × (r.started_time_stamp + r.timeout_ms ≤ ended.time))
    pub bounded : last * r.resend_timeout_ms ≤ r.timeout_ms + r.resend_timeout_ms

  try_send-Over :
      (fuel n now : ℕ)
      → 0 < r.resend_timeout_ms
      → r.started_time_stamp + n * r.resend_timeout_ms ≤ now
      → n * r.resend_timeout_ms ≤ r.timeout_ms + r.resend_timeout_ms
      → 0 < fuel
      → r.started_time_stamp + r.timeout_ms < now + fuel
      → Over (try_send r answer late fuel n now)
  unfolding try_send
  try_send-Over zero n now pos after few some_fuel enough = absurd (omega arith)
  try_send-Over (suc fuel) n now pos after few some_fuel enough = step (answer n).1 refl (λ a b c d.
      try_send-Over fuel (suc n) (now + (answer n).0 + r.resend_timeout_ms + late n) pos a b c d)
    where
      took : ℕ
      took = (answer n).0

      again : Option (Ended D)
      again = try_send r answer late fuel (suc n) (now + took + r.resend_timeout_ms + late n)

      over_time :
          (err : String)
          → leb (r.started_time_stamp + r.timeout_ms) (now + took) ≡ true
          → r.started_time_stamp + r.timeout_ms ≤ now + took
      over_time err e = ground arith

      in_time :
          leb (r.started_time_stamp + r.timeout_ms) (now + took) ≡ false
          → now + took < r.started_time_stamp + r.timeout_ms
      in_time e = ground arith

      one_more : suc n * r.resend_timeout_ms ≡ n * r.resend_timeout_ms + r.resend_timeout_ms
      one_more = grind arith

      on_error-Over :
          (err : String)
          → (answer n).1 ≡ error err
          → (r.started_time_stamp + suc n * r.resend_timeout_ms
                ≤ now + took + r.resend_timeout_ms + late n
              → suc n * r.resend_timeout_ms ≤ r.timeout_ms + r.resend_timeout_ms
              → 0 < fuel
              → r.started_time_stamp + r.timeout_ms
                < now + took + r.resend_timeout_ms + late n + fuel
              → Over again)
          → Over (on_error r err n (now + took) again)
      on_error-Over err e rest =
          elim (Bool-cases (leb (r.started_time_stamp + r.timeout_ms) (now + took))) [
            | inl over ↦ rw over (record {
              ended = record { attempts = suc n; time = now + took; outcome = failed err };
              last = n;
              returned = refl;
              counted = refl;
              answered = inr (err, e, refl, over_time err over);
              bounded = few;
            })
            | inr early ↦
                let lt = in_time early in
                rw early (
                  rest (omega (arith, one_more, lt)) (omega (arith, one_more, lt))
                    (omega (arith, lt)) (omega (arith, lt)))
          ]

      step :
          (result : Answer D)
          → (answer n).1 ≡ result
          → (r.started_time_stamp + suc n * r.resend_timeout_ms
                ≤ now + took + r.resend_timeout_ms + late n
              → suc n * r.resend_timeout_ms ≤ r.timeout_ms + r.resend_timeout_ms
              → 0 < fuel
              → r.started_time_stamp + r.timeout_ms
                < now + took + r.resend_timeout_ms + late n + fuel
              → Over again)
          → Over (on_answer r result n (now + took) again)
      step (success d) e rest = record {
        ended = record { attempts = suc n; time = now + took; outcome = fulfilled d };
        last = n;
        returned = refl;
        counted = refl;
        answered = inl (d, e, refl);
        bounded = few;
      }
      step (error err) e rest = on_error-Over err e rest

  -- Where the pause between two attempts is not 0, whatever the attempts give, however long they take
  -- and however late the timers fire: the request ends, with the result of its last attempt; it ends
  -- with an error only once its time is over; and all pauses but the last fit into its time.
  pub request-Over : 0 < r.resend_timeout_ms → Over (request r answer late)
  unfolding request
  request-Over pos =
      try_send-Over (suc r.timeout_ms) 0 r.started_time_stamp pos (grind arith) (grind arith)
        (omega arith) (omega arith)
