-- ===== src/RemoteCall.antt =====
-- system/lib/remoteCall/RemoteCall.ts, RemoteCallbacks.ts and helpers.ts: calls of methods of the other
-- side, whose arguments may be callbacks. Texts are lists of character codes. `C` are callbacks, `V`
-- the other values; `generate n` is the id that `generateUniqId` gives for the n-th time. Sending
-- succeeds; the newest stands first in what is sent. The texts of errors are without the names in them.
pub mod Arguments
pub mod Results
mod Tests
use squidlet.Base.{
  ℕ, zero, suc, List, [], ◌∷◌, ◌++◌, Option, none, some, Bool, true, false, not, ◌==◌, ◌&&◌,
  if◌then◌else◌, drop, Result, ok, throws, String, str_eq, get_elem?, set,
}
use squidlet.Binary.Bits.{same_text}
use squidlet.Promised.{Outcome, pending, fulfilled, failed}

-- An argument of a call, and what the method of the other side is given for it.
pub data Arg (C V : Type 0) : Type 0 where
  function : C → Arg C V
  text : List ℕ → Arg C V
  value : V → Arg C V

pub data Given (V : Type 0) : Type 0 where
  fake_call_back : List ℕ → Given V
  given_text : List ℕ → Given V
  given_value : V → Given V

-- What goes over the wire: an argument without functions.
pub data Wire (V : Type 0) : Type 0 where
  wire_text : List ℕ → Wire V
  wire_value : V → Wire V

pub data Message (V : Type 0) : Type 0 where
  call_method_message : List ℕ → List (Wire V) → Message V
  method_result_message : List ℕ → Option String → Option V → Message V
  cb_call_message : List ℕ → List V → Message V
  cb_result_message : List ℕ → Option String → Option V → Message V

-- A promise of `waitForResponse`, with the method or the callback whose result it waits for.
pub record Waiting (V : Type 0) : Type 0 where
  pub name : List ℕ
  pub outcome : Outcome (Option V)

pub record RemoteCall (C V : Type 0) : Type 0 where
  pub call_backs : List (List ℕ × C)
  pub ids : ℕ
  pub calls : List (Waiting V)
  pub cb_calls : List (Waiting V)
  pub sent : List (Message V)

-- "!!METHOD!!"
abbrev pub method_mark : List ℕ
method_mark = b'!' ∷ b'!' ∷ b'M' ∷ b'E' ∷ b'T' ∷ b'H' ∷ b'O' ∷ b'D' ∷ b'!' ∷ b'!' ∷ []

abbrev pub begins_with : List ℕ → List ℕ → Bool
begins_with [] cs = true
begins_with (m ∷ ms) [] = false
begins_with (m ∷ ms) (c ∷ cs) = c == m && begins_with ms cs

pub is_call_back_mark : List ℕ → Bool
is_call_back_mark mark = begins_with method_mark mark

abbrev pub call_back_of : {C : Type 0} → List ℕ → List (List ℕ × C) → Option C
call_back_of id [] = none
call_back_of id (e ∷ es) = if same_text e.0 id then some e.1 else call_back_of id es

-- `registerCallBack`: the mark of a callback.
pub register_call_back :
    {C V : Type 0} → (ℕ → List ℕ) → C → RemoteCall C V → RemoteCall C V × List ℕ
register_call_back generate cb r =
    let id = generate r.ids in
    (record r { call_backs = (id, cb) ∷ r.call_backs; ids = suc r.ids }, method_mark ++ id)

abbrev pub mark_length : ℕ
mark_length = 10

-- `makeFakeCallBack`: the id that the fake callback will ask for.
pub make_fake_call_back : List ℕ → List ℕ
make_fake_call_back mark = drop mark_length mark

module _ {C V : Type 0} (generate : ℕ → List ℕ) where
  abbrev pub prepare_arg : Arg C V → RemoteCall C V → RemoteCall C V × Wire V
  prepare_arg (function cb) r =
      let (r', mark) = register_call_back generate cb r in (r', wire_text mark)
  prepare_arg (text t) r = (r, wire_text t)
  prepare_arg (value v) r = (r, wire_value v)

  pub prepare_args_to_send : List (Arg C V) → RemoteCall C V → RemoteCall C V × List (Wire V)
  unfolding register_call_back
  prepare_args_to_send [] r = (r, [])
  prepare_args_to_send (a ∷ args) r =
      let (r', wire) = prepare_arg a r in
      let (r'', wires) = prepare_args_to_send args r' in (r'', wire ∷ wires)

  -- `callMethod` up to its wait: the message, and the promise of the result.
  pub call_method : List ℕ → List (Arg C V) → RemoteCall C V → RemoteCall C V
  unfolding prepare_args_to_send
  call_method path args r =
      let (r', wires) = prepare_args_to_send args r in
      record r' {
        sent = call_method_message path wires ∷ r'.sent;
        calls = r'.calls ++ record { name = path; outcome = pending } ∷ [];
      }

abbrev pub timeout_exceeded : String
timeout_exceeded = "RemoteCall: waitForResponse timeout has been exceeded."

abbrev pub not_found : String
not_found = "Callback id hasn't been found"

abbrev pub no_method_caller : String
no_method_caller = "Can't call a method because there isn't a methodCaller"

module _ {V : Type 0} where
  abbrev pub given_text_or_fake : List ℕ → Given V
  given_text_or_fake t =
      if is_call_back_mark t then fake_call_back (make_fake_call_back t) else given_text t

  pub prepare_args_to_call : List (Wire V) → List (Given V)
  unfolding is_call_back_mark make_fake_call_back
  prepare_args_to_call [] = []
  prepare_args_to_call (wire_text t ∷ wires) = given_text_or_fake t ∷ prepare_args_to_call wires
  prepare_args_to_call (wire_value v ∷ wires) = given_value v ∷ prepare_args_to_call wires

  -- `if (payload.error)`: a text that is empty is no error.
  abbrev pub settled : Option String → Option V → Outcome (Option V)
  settled none result = fulfilled result
  settled (some err) result = if str_eq err "" then fulfilled result else failed err

  abbrev pub answered_by : Option String → Option V → Waiting V → Outcome (Option V) → Waiting V
  answered_by err result w pending = record w { outcome = settled err result }
  answered_by err result w (fulfilled v) = w
  answered_by err result w (failed e) = w

  -- The event of a result: each listener that waits for the name is settled, and removes itself.
  pub emit_result : List ℕ → Option String → Option V → List (Waiting V) → List (Waiting V)
  emit_result name err result [] = []
  emit_result name err result (w ∷ ws) =
      (if same_text w.name name then answered_by err result w w.outcome else w)
      ∷ emit_result name err result ws

  -- The timer of a promise fires; it was cleared where the promise is settled.
  pub time_out : ℕ → List (Waiting V) → List (Waiting V)
  time_out i [] = []
  time_out zero (w ∷ ws) = answered_by (some timeout_exceeded) none w w.outcome ∷ ws
  time_out (suc i) (w ∷ ws) = w ∷ time_out i ws

-- What a method or a callback comes to: a result or the text of an error.
abbrev pub Run : Type 0 → Type 0
Run V = Option String × Option V

module _ {C V : Type 0} where
  -- `callLocalMethod`, of a side with or without a method caller.
  pub call_local_method :
      Option (List ℕ → List (Given V) → Run V)
      → List ℕ
      → List (Wire V)
      → RemoteCall C V
      → Result (RemoteCall C V)
  unfolding prepare_args_to_call
  call_local_method none path args r = throws no_method_caller
  call_local_method (some caller) path args r =
      let (err, result) = caller path (prepare_args_to_call args) in
      ok (record r { sent = method_result_message path err result ∷ r.sent })

  abbrev pub run_call_back : (C → List V → Run V) → List V → Option C → Run V
  run_call_back run args none = (some not_found, none)
  run_call_back run args (some cb) = run cb args

  pub handle_remote_cb_call :
      (C → List V → Run V) → List ℕ → List V → RemoteCall C V → RemoteCall C V
  handle_remote_cb_call run id args r =
      let (err, result) = run_call_back run args (call_back_of id r.call_backs) in
      record r { sent = cb_result_message id err result ∷ r.sent }

  -- A call of a fake callback, up to its wait.
  pub call_fake_cb : List ℕ → List V → RemoteCall C V → RemoteCall C V
  call_fake_cb id args r = record r {
    sent = cb_call_message id args ∷ r.sent;
    cb_calls = r.cb_calls ++ record { name = id; outcome = pending } ∷ [];
  }

  -- A message with a known type and a payload.
  pub income_message :
      Option (List ℕ → List (Given V) → Run V)
      → (C → List V → Run V)
      → Message V
      → RemoteCall C V
      → Result (RemoteCall C V)
  unfolding call_local_method emit_result handle_remote_cb_call
  income_message caller run (call_method_message path args) r = call_local_method caller path args r
  income_message caller run (method_result_message path err result) r =
      ok (record r { calls = emit_result path err result r.calls })
  income_message caller run (cb_call_message id args) r = ok (handle_remote_cb_call run id args r)
  income_message caller run (cb_result_message id err result) r =
      ok (record r { cb_calls = emit_result id err result r.cb_calls })

  -- The promise of a call times out.
  pub call_timed_out : ℕ → RemoteCall C V → RemoteCall C V
  unfolding time_out
  call_timed_out i r = record r { calls = time_out i r.calls }
