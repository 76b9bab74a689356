-- ===== src/Network.antt =====
-- system/lib/networkHelpers.ts: requests and responses as bytes.
pub mod Frames
pub mod Driver
mod Tests
use squidlet.Base.{
  ℕ, suc, ◌+◌, ◌%◌, List, [], ◌∷◌, ◌++◌, Option, none, some, some_or, leb, if◌then◌else◌, get_elem?,
  take, drop, Result, ok, ◌>>=◌,
}
use squidlet.Binary.Radix.{Parsed}
use squidlet.Binary.Hex.{num_to_uint8_word, uint8_to_num, concat_uint8_arr}

pub record NetworkRequest : Type 0 where
  pub request_id : ℕ
  pub body : List ℕ

pub record NetworkResponse : Type 0 where
  pub request_id : ℕ
  pub status : ℕ
  pub body : Option (List ℕ)

-- What is read back; `number` may be NaN, and a position behind the end is undefined.
pub record ReadRequest : Type 0 where
  pub request_id : Parsed
  pub body : List ℕ

pub record ReadResponse : Type 0 where
  pub request_id : Parsed
  pub status : Option ℕ
  pub body : List ℕ

-- `COMMANDS`, `MESSAGE_POSITION` and the starts of the payloads.
abbrev pub request_command : ℕ
request_command = 254

abbrev pub response_command : ℕ
response_command = 255

abbrev pub command_position : ℕ
command_position = 0

abbrev pub register_position : ℕ
register_position = 1

abbrev pub request_id_start : ℕ
request_id_start = 2

abbrev pub request_id_end : ℕ
request_id_end = 3

abbrev pub response_status_position : ℕ
response_status_position = 4

abbrev pub request_payload_start : ℕ
request_payload_start = 4

abbrev pub response_payload_start : ℕ
response_payload_start = 6

-- The counter after a call, which is also the id that the call returns.
pub make_request_id : ℕ → ℕ
make_request_id counter = if leb 65535 counter then 0 else suc counter

-- `data.slice(from, to)`.
abbrev pub slice : ℕ → ℕ → List ℕ → List ℕ
slice from to xs = drop from (take to xs)

-- `bytes[i]`, stored into a Uint8Array: undefined becomes 0.
abbrev pub byte_at : List ℕ → ℕ → ℕ
byte_at bs i = some_or 0 (get_elem? bs i)

pub serialize_request : ℕ → NetworkRequest → Result (List ℕ)
serialize_request register request = do
  id ← num_to_uint8_word request.request_id
  ok (
      concat_uint8_arr (request_command ∷ register % 256 ∷ byte_at id 0 ∷ byte_at id 1 ∷ [])
        (request.body ∷ []))

pub deserialize_request : List ℕ → Result ReadRequest
deserialize_request bytes = do
  id ← uint8_to_num (slice request_id_start (request_id_end + 1) bytes)
  ok (record { request_id = id; body = drop request_payload_start bytes })

-- The command is the one of a request, as in the source.
pub serialize_response : ℕ → NetworkResponse → Result (List ℕ)
serialize_response register response = do
  id ← num_to_uint8_word response.request_id
  ok (
      concat_uint8_arr
        (request_command
          ∷ register % 256
          ∷ byte_at id 0
          ∷ byte_at id 1
          ∷ response.status % 256
          ∷ [])
        (some_or [] response.body ∷ []))

pub deserialize_response : List ℕ → Result ReadResponse
deserialize_response bytes = do
  id ← uint8_to_num (slice request_id_start (request_id_end + 1) bytes)
  ok (record {
    request_id = id;
    status = get_elem? bytes response_status_position;
    body = drop response_payload_start bytes;
  })
