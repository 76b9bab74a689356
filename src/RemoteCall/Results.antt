-- ===== src/RemoteCall/Results.antt =====
-- Which calls a result settles.
use squidlet.Base.{
  ℕ, ◌≡◌, refl, ap, ◌∙◌, List, [], ◌∷◌, ◌++◌, append_assoc, Option, String, if◌then◌else◌, ok,
}
use squidlet.Binary.Bits.{same_text}
use squidlet.Promised.{pending}
use squidlet.RemoteCall.{
  Arg, function, text, value, Given, method_result_message, Waiting, RemoteCall, call_method,
  prepare_args_to_send, register_call_back, emit_result, settled, answered_by, income_message, Run,
}
use squidlet.RemoteCall.Arguments.{same_text_self}

module _ {V : Type 0} where
  abbrev waits_for : List ℕ → Waiting V
  waits_for path = record { name = path; outcome = pending }

  pub emit_result-append :
      (path : List ℕ) (err : Option String) (result : Option V) (ws vs : List (Waiting V))
      → emit_result path err result (ws ++ vs)
        ≡ emit_result path err result ws ++ emit_result path err result vs
  unfolding emit_result
  emit_result-append path err result [] vs = refl
  emit_result-append path err result (w ∷ ws) vs =
      ap (λ l. (if same_text w.name path then answered_by err result w w.outcome else w) ∷ l)
        (emit_result-append path err result ws vs)

  abbrev pub settled_for : List ℕ → Option String → Option V → Waiting V
  settled_for path err result = record { name = path; outcome = settled err result }

  emit_result_two :
      (path : List ℕ) (err : Option String) (result : Option V)
      → emit_result path err result (waits_for path ∷ waits_for path ∷ [])
        ≡ settled_for path err result ∷ settled_for path err result ∷ []
  unfolding emit_result
  emit_result_two path err result = rw (same_text_self path)

module _ {C V : Type 0} (generate : ℕ → List ℕ) where
  calls-prepare_args_to_send :
      (args : List (Arg C V)) (r : RemoteCall C V)
      → (prepare_args_to_send generate args r).0.calls ≡ r.calls
  unfolding prepare_args_to_send
  calls-prepare_args_to_send [] r = refl
  calls-prepare_args_to_send (function cb ∷ args) r =
      calls-prepare_args_to_send args (register_call_back generate cb r).0
  calls-prepare_args_to_send (text t ∷ args) r = calls-prepare_args_to_send args r
  calls-prepare_args_to_send (value v ∷ args) r = calls-prepare_args_to_send args r

  calls-call_method :
      (path : List ℕ) (args : List (Arg C V)) (r : RemoteCall C V)
      → (call_method generate path args r).calls ≡ r.calls ++ waits_for path ∷ []
  unfolding call_method
  calls-call_method path args r =
      ap (λ l. l ++ waits_for path ∷ []) (calls-prepare_args_to_send args r)

  two_calls :
      (path : List ℕ) (a b : List (Arg C V)) (r : RemoteCall C V)
      → (call_method generate path b (call_method generate path a r)).calls
        ≡ r.calls ++ waits_for path ∷ waits_for path ∷ []
  two_calls path a b r =
      calls-call_method path b (call_method generate path a r)
      ∙ ap (λ l. l ++ waits_for path ∷ []) (calls-call_method path a r)
      ∙ append_assoc r.calls (waits_for path ∷ []) (waits_for path ∷ [])

  -- When a method is called again, with any arguments, before the result of the first call has come:
  -- one message with a result of the method settles the promises of both calls, with the same
  -- outcome, though it answers one of them.
  pub income_message-call_method :
      (caller : Option (List ℕ → List (Given V) → Run V)) (run : C → List V → Run V) (path : List ℕ)
      (a b : List (Arg C V)) (err : Option String) (result : Option V) (r : RemoteCall C V)
      → (r' : RemoteCall C V) × (income_message caller run
            (method_result_message path err result)
            (call_method generate path b (call_method generate path a r))
          ≡ ok r')
        × (r'.calls
            ≡ emit_result path err result r.calls
              ++ settled_for path err result ∷ settled_for path err result ∷ [])
  unfolding income_message
  income_message-call_method caller run path a b err result r =
      let both = call_method generate path b (call_method generate path a r) in
      (
        record both { calls = emit_result path err result both.calls },
        refl,
        ap (emit_result path err result) (two_calls path a b r)
            ∙ emit_result-append path err result r.calls (waits_for path ∷ waits_for path ∷ [])
            ∙ ap (λ l. emit_result path err result r.calls ++ l) (emit_result_two path err result),
      )
