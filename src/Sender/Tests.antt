-- ===== src/Sender/Tests.antt =====
-- Runs and instances of the model of sending again.
use squidlet.Base.{ℕ, zero, suc, ◌≡◌, refl, some, arith, [], ◌∷◌, lookup, Bool, ◌==◌}
use squidlet.Promised.{fulfilled}
use squidlet.Sender.{SenderRequest, Answer, success, error, Sender, send, request}
use squidlet.Sender.Attempts.{Over, request-Over}
use squidlet.Sender.Joined.{Running, last_params, send_all, send_all-send}

-- Two seconds, and one second between attempts; callbacks, parameters and results are numbers.
abbrev asked : SenderRequest ℕ ℕ
asked = record {
  timeout_ms = 2000;
  resend_timeout_ms = 1000;
  send_cb = 1;
  send_params = 2;
  started_time_stamp = 50;
}

-- The third attempt succeeds.
abbrev third : ℕ → ℕ × Answer ℕ
third zero = (10, error "no")
third (suc zero) = (10, error "no")
third (suc (suc n)) = (10, success 7)

abbrev in_time : ℕ → ℕ
in_time n = 0

third_succeeds :
    request asked third in_time ≡ some (record { attempts = 3; time = 2080; outcome = fulfilled 7 })
unfolding request
third_succeeds = refl

request-Over_example : Over asked third in_time (request asked third in_time)
request-Over_example = request-Over asked third in_time (omega arith)

abbrev empty : Sender ℕ ℕ
empty = record {
  timeout_sec = 20;
  resend_timeout_sec = 1;
  requests = [];
  warned = [];
  started = [];
}

abbrev same : ℕ → ℕ → Bool
same a b = a == b

send_all-send_example :
    Running same 50 "a" 1
      (last_params same 50 "a" 2 ((1, 3) ∷ (4, 5) ∷ []))
      ("a" ∷ [])
      (send_all same 50 "a" ((1, 3) ∷ (4, 5) ∷ []) (send same 50 "a" 1 2 empty))
unfolding lookup
send_all-send_example = send_all-send same 50 "a" 1 2 ((1, 3) ∷ (4, 5) ∷ []) empty refl
