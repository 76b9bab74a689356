-- ===== src/Network/Driver.antt =====
-- What a network driver does with incoming bytes, system/lib/base/NetworkDriverBase.ts: the name of
-- the event that it emits. A name is the list of its characters.
use squidlet.Base.{
  ℕ, ◌%◌, ◌/◌, ◌≡◌, ◌≢◌, refl, sym, ◌∙◌, List, [], ◌∷◌, Option, none, some, some_or, String, Bool,
  not, ◌||◌, ltb, ◌==◌, if◌then◌else◌, length, Result, ok, throws, ◌>>=◌, arith,
}
use squidlet.Binary.Radix.{pos}
use squidlet.Binary.Hex.{hex_num_to_string}
use squidlet.Binary.Hex.Words.{word_value}
use squidlet.Network.{
  ReadRequest, ReadResponse, NetworkResponse, request_command, response_command, command_position,
  register_position, request_payload_start, byte_at, deserialize_request, deserialize_response,
  serialize_response,
}
use squidlet.Network.Frames.{serialize_response_lem, frame_of}

-- The numbers of `EVENTS`, as text.
abbrev request_event : ℕ
request_event = b'0'

abbrev response_event : ℕ
response_event = b'1'

-- The name that `onRequest` and `onIncomeResponse` listen to.
pub on_request_name : ℕ → List ℕ
on_request_name port = request_event ∷ hex_num_to_string port

pub on_income_response_name : ℕ → List ℕ
on_income_response_name register = response_event ∷ hex_num_to_string register

-- The first argument is not used in the source either.
pub make_event_name : ℕ → ℕ → List ℕ
make_event_name event register = request_event ∷ hex_num_to_string register

pub data Delivery : Type 0 where
  skipped : Delivery
  request_to : List ℕ → ReadRequest → Delivery
  response_to : List ℕ → ReadResponse → Delivery

abbrev pub incorrect_length : String
incorrect_length = "NetworkDriverBase.incomeMessage: incorrect data length"

abbrev is_ours : ℕ → Bool
is_ours c = c == request_command || c == response_command

unfoldable pub income_message : List ℕ → Result Delivery
unfolding make_event_name
income_message bytes =
    if length bytes == 0 || not (is_ours (byte_at bytes command_position))
    then ok skipped
    else if ltb (length bytes) request_payload_start
    then throws incorrect_length
    else if byte_at bytes command_position == request_command
    then (deserialize_request bytes >>= λ r.
        ok (request_to (make_event_name request_event (byte_at bytes register_position)) r))
    else (deserialize_response bytes >>= λ r.
        ok (response_to (make_event_name response_event (byte_at bytes register_position)) r))

-- The event name of a delivery.
abbrev pub name_of : Delivery → Option (List ℕ)
name_of skipped = none
name_of (request_to name r) = some name
name_of (response_to name r) = some name

-- Whatever bytes come in, `incomeMessage` never emits an event that `onIncomeResponse` listens to:
-- `makeEventName` names every event after a request.
pub income_message-ne-response :
    (register : ℕ) (d : Delivery) (bytes : List ℕ)
    → income_message bytes ≡ ok d
    → name_of d ≢ some (on_income_response_name register)
unfolding income_message on_income_response_name
income_message-ne-response register d bytes e = λ q. ground arith

-- A response that another driver could write comes in as a request on the port of the response: its
-- id is read back, and its body begins with the status.
pub income_message-serialize_response :
    (register : ℕ) (r : NetworkResponse) (frame : List ℕ)
    → serialize_response register r ≡ ok frame
    → income_message frame
      ≡ ok (
          request_to
            (on_request_name (register % 256))
            (record { request_id = pos r.request_id; body = r.status % 256 ∷ some_or [] r.body }))
unfolding income_message on_request_name deserialize_request
income_message-serialize_response register r frame e =
    let (here, fits) =
      frame_of r.request_id _ frame (sym (serialize_response_lem register r) ∙ e) in
    rw (← here, word_value r.request_id (r.request_id / 256 ∷ r.request_id % 256 ∷ []) refl fits)
      (ground arith)
