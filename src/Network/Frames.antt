-- ===== src/Network/Frames.antt =====
-- Reading back what was written, system/lib/networkHelpers.ts.
use squidlet.Base.{
  ℕ, ◌%◌, ◌/◌, ◌<◌, ◌≤◌, ◌≡◌, refl, sym, ap, ◌∙◌, List, [], ◌∷◌, append-nil, some, some_or, ltb,
  if◌then◌else◌, drop, Result, ok, throws, ◌>>=◌, arith, Bool-cases, inl, inr,
}
use squidlet.Binary.Radix.{pos}
use squidlet.Binary.Hex.{num_to_uint8_word, bad_int16, not_even}
use squidlet.Binary.Hex.Words.{num_to_uint8_word_lem, in_gap, word_value}
use squidlet.Binary.Hex.Concat.{concat_uint8_arr-flat}
use squidlet.Network.{
  NetworkRequest, NetworkResponse, request_command, serialize_request, deserialize_request,
  serialize_response, deserialize_response, make_request_id,
}

-- What goes out for an id whose word can be written.
abbrev pub by_id {ℓ} : {A : Type ℓ} → ℕ → A → Result A
by_id id frame =
    if ltb 65535 id then throws bad_int16 else if in_gap id then throws not_even else ok frame

written {ℓ} :
    {A : Type ℓ} (id : ℕ) (word : List ℕ → A) (frame : A)
    → word (id / 256 ∷ id % 256 ∷ []) ≡ frame
    → (num_to_uint8_word id >>= λ w. ok (word w)) ≡ by_id id frame
written id word frame e = rw (num_to_uint8_word_lem id) (elim (Bool-cases (ltb 65535 id)) [
  | inl over ↦ rw over
  | inr fits ↦ elim (Bool-cases (in_gap id)) [
    | inl gap ↦ rw (fits, gap)
    | inr good ↦ rw (fits, good) (ap ok e)
  ]
])

pub frame_of {ℓ} :
    {A : Type ℓ} (id : ℕ) (frame frame' : A)
    → by_id id frame ≡ ok frame'
    → (frame ≡ frame') × (id < 65536)
frame_of id frame frame' e = elim (Bool-cases (ltb 65535 id)) [
  | inl over ↦ absurd (cc (rw over at e))
  | inr fits ↦ elim (Bool-cases (in_gap id)) [
    | inl gap ↦ absurd (cc (rw (fits, gap) at e))
    | inr good ↦ (cc (rw (fits, good) at e), ground arith)
  ]
]

-- `serializeRequest` on every request: the command, the register, the two bytes of the id and the
-- body, if the id is below 256 or from 4096 to 65535; else it throws.
pub serialize_request_lem :
    (register : ℕ) (r : NetworkRequest)
    → serialize_request register r
      ≡ by_id r.request_id
          (request_command ∷ register % 256 ∷ r.request_id / 256 ∷ r.request_id % 256 ∷ r.body)
unfolding serialize_request
serialize_request_lem register r = written r.request_id _ _ (
    concat_uint8_arr-flat _ (r.body ∷ [])
    ∙ ap (λ b. request_command ∷ register % 256 ∷ r.request_id / 256 ∷ r.request_id % 256 ∷ b)
        (append-nil r.body))

-- `serializeResponse` on every response, in the same cases: the status stands behind the id, and the
-- first byte is the command of a request.
pub serialize_response_lem :
    (register : ℕ) (r : NetworkResponse)
    → serialize_response register r
      ≡ by_id r.request_id (
          request_command
          ∷ register % 256
          ∷ r.request_id / 256
          ∷ r.request_id % 256
          ∷ r.status % 256
          ∷ some_or [] r.body)
unfolding serialize_response
serialize_response_lem register r = written r.request_id _ _ (
    concat_uint8_arr-flat _ (some_or [] r.body ∷ [])
    ∙ ap
        (λ b.
          request_command
          ∷ register % 256
          ∷ r.request_id / 256
          ∷ r.request_id % 256
          ∷ r.status % 256
          ∷ b)
        (append-nil (some_or [] r.body)))

-- A request that could be written is read back with its id and its body.
pub deserialize_request-serialize_request :
    (register : ℕ) (r : NetworkRequest) (frame : List ℕ)
    → serialize_request register r ≡ ok frame
    → deserialize_request frame ≡ ok (record { request_id = pos r.request_id; body = r.body })
unfolding deserialize_request
deserialize_request-serialize_request register r frame e =
    let (id, fits) = frame_of r.request_id _ frame (sym (serialize_request_lem register r) ∙ e) in
    rw (← id, word_value r.request_id (r.request_id / 256 ∷ r.request_id % 256 ∷ []) refl fits)

-- A response that could be written is read back with its id and its status, but without the first
-- byte of its body.
pub deserialize_response-serialize_response :
    (register : ℕ) (r : NetworkResponse) (frame : List ℕ)
    → serialize_response register r ≡ ok frame
    → deserialize_response frame
      ≡ ok (record {
        request_id = pos r.request_id;
        status = some (r.status % 256);
        body = drop 1 (some_or [] r.body);
      })
unfolding deserialize_response
deserialize_response-serialize_response register r frame e =
    let (id, fits) = frame_of r.request_id _ frame (sym (serialize_response_lem register r) ∙ e) in
    rw (← id, word_value r.request_id (r.request_id / 256 ∷ r.request_id % 256 ∷ []) refl fits)

-- The ids that `makeRequestId` gives after 255 to 4094 cannot be written: the request throws.
pub serialize_request-make_request_id :
    (register counter : ℕ) (body : List ℕ)
    → 255 ≤ counter
    → counter < 4095
    → serialize_request register (record { request_id = make_request_id counter; body = body })
      ≡ throws not_even
unfolding make_request_id
serialize_request-make_request_id register counter body lo hi =
    serialize_request_lem register _ ∙ ground arith
