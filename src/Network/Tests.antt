-- ===== src/Network/Tests.antt =====
-- Concrete requests and responses for the theorems on system/lib/networkHelpers.ts and
-- system/lib/base/NetworkDriverBase.ts.
use squidlet.Base.{ℕ, ◌≡◌, ◌%◌, List, [], ◌∷◌, some, some_or, drop, ok, throws, arith}
use squidlet.Binary.Radix.{pos}
use squidlet.Binary.Hex.{not_even}
use squidlet.Network.{
  NetworkRequest, NetworkResponse, make_request_id, serialize_request, deserialize_request,
  deserialize_response,
}
use squidlet.Network.Frames.{
  serialize_request_lem, serialize_response_lem, deserialize_request-serialize_request,
  deserialize_response-serialize_response, serialize_request-make_request_id,
}
use squidlet.Network.Driver.{
  request_to, on_request_name, income_message, income_message-serialize_response,
}

abbrev a_request : NetworkRequest
a_request = record { request_id = 7; body = 10 ∷ 11 ∷ [] }

abbrev a_response : NetworkResponse
a_response = record { request_id = 7; status = 1; body = some (10 ∷ 11 ∷ []) }

abbrev request_frame : List ℕ
request_frame = 254 ∷ 33 ∷ 0 ∷ 7 ∷ 10 ∷ 11 ∷ []

abbrev response_frame : List ℕ
response_frame = 254 ∷ 33 ∷ 0 ∷ 7 ∷ 1 ∷ 10 ∷ 11 ∷ []

deserialize_request-serialize_request_example :
    deserialize_request request_frame ≡ ok (record { request_id = pos 7; body = 10 ∷ 11 ∷ [] })
deserialize_request-serialize_request_example =
    deserialize_request-serialize_request 33 a_request request_frame
      (serialize_request_lem 33 a_request)

deserialize_response-serialize_response_example :
    deserialize_response response_frame
    ≡ ok (record {
      request_id = pos 7;
      status = some (1 % 256);
      body = drop 1 (some_or [] a_response.body);
    })
deserialize_response-serialize_response_example =
    deserialize_response-serialize_response 33 a_response response_frame
      (serialize_response_lem 33 a_response)

serialize_request-make_request_id_example :
    serialize_request 33 (record { request_id = make_request_id 299; body = 10 ∷ [] })
    ≡ throws not_even
serialize_request-make_request_id_example =
    serialize_request-make_request_id 33 299 (10 ∷ []) (omega arith) (omega arith)

income_message-serialize_response_example :
    income_message response_frame
    ≡ ok (
        request_to
          (on_request_name (33 % 256))
          (record { request_id = pos 7; body = 1 % 256 ∷ some_or [] a_response.body }))
income_message-serialize_response_example =
    income_message-serialize_response 33 a_response response_frame
      (serialize_response_lem 33 a_response)
