-- ===== src/RemoteCall/Tests.antt =====
-- Runs and instances of the model of remote calls. Callbacks and values are numbers.
use squidlet.Base.{ℕ, ◌≡◌, refl, List, [], ◌∷◌, ◌++◌, none, some, true, ok, arith}
use squidlet.Binary.Bits.{same_text}
use squidlet.RemoteCall.{
  Arg, function, text, value, method_result_message, RemoteCall, call_method, prepare_args_to_send,
  prepare_args_to_call, emit_result, income_message, Run, is_call_back_mark,
}
use squidlet.RemoteCall.Arguments.{Matched, prepare_args_to_call-send}
use squidlet.RemoteCall.Results.{settled_for, income_message-call_method}

abbrev fresh : RemoteCall ℕ ℕ
fresh = record { call_backs = []; ids = 0; calls = []; cb_calls = []; sent = [] }

-- The n-th id is a text of one character.
abbrev numbered : ℕ → List ℕ
numbered n = n ∷ []

numbered_uniq : (a b : ℕ) → same_text (numbered a) (numbered b) ≡ true → a ≡ b
numbered_uniq a b e = ground arith

abbrev some_args : List (Arg ℕ ℕ)
some_args = function 5 ∷ value 6 ∷ function 7 ∷ text (b'a' ∷ []) ∷ []

prepare_args_to_call-send_example :
    Matched
      (prepare_args_to_send numbered some_args fresh).0.call_backs
      some_args
      (prepare_args_to_call (prepare_args_to_send numbered some_args fresh).1)
unfolding is_call_back_mark
prepare_args_to_call-send_example =
    prepare_args_to_call-send numbered numbered_uniq some_args fresh (refl, tt)

abbrev nothing : ℕ → List ℕ → Run ℕ
nothing cb args = (none, none)

abbrev get : List ℕ
get = b'g' ∷ []

income_message-call_method_example :
    (r' : RemoteCall ℕ ℕ) × (income_message none nothing
        (method_result_message get none (some 9))
        (call_method numbered get (value 2 ∷ []) (call_method numbered get (value 1 ∷ []) fresh))
      ≡ ok r')
    × (r'.calls
        ≡ emit_result get none (some 9) (fresh.calls)
          ++ settled_for get none (some 9) ∷ settled_for get none (some 9) ∷ [])
income_message-call_method_example =
    income_message-call_method numbered none nothing get (value 1 ∷ []) (value 2 ∷ []) none (some 9)
      fresh
