-- ===== src/Transport/Http.antt =====
-- relay/transport/http.py: `forward_request`. What the target sends is an argument; the callbacks
-- `release` and `record` are given, and each call of them is an entry of a list.
use openai_ipmi_proxy.Prelude.{
  ℕ, ◌+◌, ◌≡◌, refl, ◌∙◌, sym, ap, String, Bool, true, false, List, [], ◌∷◌, ◌++◌, map, Option,
  none, some, arith,
}
use openai_ipmi_proxy.Prelude.Lists.{length}

-- What ends or continues the iteration over the target's bytes: a chunk, a read timeout, another
-- exception, or the client that goes away, which closes the generator. The list ends where the
-- target does.
pub data StreamEvent : Type 0 where
  chunk : List ℕ → StreamEvent
  read_timeout closed : StreamEvent
  failure : String → StreamEvent

-- What the generator yields: a chunk as it came, or the note of an error.
pub data Piece : Type 0 where
  raw : List ℕ → Piece
  timeout_note : Piece
  error_note : String → Piece

pub data Call : Type 0 where
  released : Option ℕ → Call
  recorded : Option ℕ → ℕ → ℕ → ℕ → Call

-- `response_bytes` and what was yielded
pub record Stream : Type 0 where
  pub response_bytes : ℕ
  pub yielded : List Piece

-- The `try` and the two `except` of `stream_generator`
unfoldable pub stream_loop : List StreamEvent → Stream → Stream
stream_loop [] s = s
stream_loop (chunk bytes ∷ events) s = stream_loop events (record {
  response_bytes = s.response_bytes + length bytes;
  yielded = s.yielded ++ raw bytes ∷ [];
})
stream_loop (read_timeout ∷ events) s = record s { yielded = s.yielded ++ timeout_note ∷ [] }
stream_loop (failure text ∷ events) s = record s { yielded = s.yielded ++ error_note text ∷ [] }
stream_loop (closed ∷ events) s = s

-- What the caller gets: the 502 with the error, or the target's status with the pieces.
pub data Answer : Type 0 where
  bad_gateway : String → Answer
  streamed : ℕ → List Piece → Answer

-- How `http_client.send` ends. The generator of an answer runs over these events, and `response.aclose()` returns or raises at its end; or the generator is never started, which is so when the client is gone before the first byte.
pub data Sent : Type 0 where
  send_failed : String → Sent
  answered : ℕ → List StreamEvent → Bool → Sent
  unread : ℕ → Sent

abbrev pub new_stream : Stream
new_stream = record { response_bytes = 0; yielded = [] }

-- The `finally` of `stream_generator`: nothing after an `aclose` that raises
abbrev pub finish_stream : Bool → Option ℕ → ℕ → ℕ → ℕ → List Call
finish_stream true status asked sent active =
    released status ∷ recorded status asked sent active ∷ []
finish_stream false status asked sent active = []

-- `forward_request` with what becomes of its stream; `active` is the duration that it measures.
unfoldable pub forward_request : ℕ → ℕ → Sent → Answer × List Call
unfolding stream_loop
forward_request request_bytes active (send_failed error) =
    (bad_gateway error, released none ∷ recorded none request_bytes 0 0 ∷ [])
forward_request request_bytes active (answered status events closes) =
    let s = stream_loop events new_stream in
    (
      streamed status s.yielded,
      finish_stream closes (some status) request_bytes s.response_bytes active,
    )
forward_request request_bytes active (unread status) = (streamed status [], [])

-- The chunks up to the first event that is none, and what ends them
abbrev pub chunks : List StreamEvent → List (List ℕ)
chunks (chunk bytes ∷ events) = bytes ∷ chunks events
chunks _ = []

abbrev pub ending : List StreamEvent → List Piece
ending (chunk bytes ∷ events) = ending events
ending (read_timeout ∷ events) = timeout_note ∷ []
ending (failure text ∷ events) = error_note text ∷ []
ending _ = []

abbrev pub total : List (List ℕ) → ℕ
total [] = 0
total (bytes ∷ rest) = length bytes + total rest

append_assoc : (xs ys zs : List Piece) → (xs ++ ys) ++ zs ≡ xs ++ (ys ++ zs)
append_assoc [] ys zs = refl
append_assoc (x ∷ xs) ys zs = ap (λ l. x ∷ l) (append_assoc xs ys zs)

append_nil : (xs : List Piece) → xs ++ [] ≡ xs
append_nil [] = refl
append_nil (x ∷ xs) = ap (λ l. x ∷ l) (append_nil xs)

stream_loop_lem :
    (events : List StreamEvent) (s : Stream)
    → ((stream_loop events s).response_bytes ≡ s.response_bytes + total (chunks events))
      × ((stream_loop events s).yielded ≡ s.yielded ++ (map raw (chunks events) ++ ending events))
unfolding stream_loop
stream_loop_lem [] s = (omega arith, sym (append_nil s.yielded))
stream_loop_lem (chunk bytes ∷ events) s =
    let next : Stream = record {
      response_bytes = s.response_bytes + length bytes;
      yielded = s.yielded ++ raw bytes ∷ [];
    } in
    let rest = stream_loop_lem events next in
    (
      omega (arith, rest.0),
      rest.1 ∙ append_assoc s.yielded (raw bytes ∷ []) (map raw (chunks events) ++ ending events),
    )
stream_loop_lem (read_timeout ∷ events) s = (omega arith, refl)
stream_loop_lem (failure text ∷ events) s = (omega arith, refl)
stream_loop_lem (closed ∷ events) s = (omega arith, sym (append_nil s.yielded))

-- The answer that the caller gets, and the calls of the callbacks in their order
abbrev pub Forwards : ℕ → ℕ → Sent → Answer → List Call → Type 0
Forwards request_bytes active (send_failed error) answer calls =
    (answer ≡ bad_gateway error) × (calls ≡ released none ∷ recorded none request_bytes 0 0 ∷ [])
Forwards request_bytes active (answered status events true) answer calls =
    (answer ≡ streamed status (map raw (chunks events) ++ ending events))
    × (calls
        ≡ released (some status)
          ∷ recorded (some status) request_bytes (total (chunks events)) active
          ∷ [])
Forwards request_bytes active (answered status events false) answer calls =
    (answer ≡ streamed status (map raw (chunks events) ++ ending events)) × (calls ≡ [])
Forwards request_bytes active (unread status) answer calls =
    (answer ≡ streamed status []) × (calls ≡ [])

-- A target that cannot be reached is answered by 502, and the slot is released once and the request recorded once, in this order. An answer that came is passed on with its status and its bytes unchanged, up to the note of an error that ends it; whether or not the client stays, the slot is then released once and the request recorded once with that status, the record counting just the bytes that were passed on, provided that the close of the response does not raise. If it raises, or if the stream is never started, then neither the release nor the record takes place.
pub forward_request_once :
    (request_bytes active : ℕ) (sent : Sent)
    → let (answer, calls) = forward_request request_bytes active sent in
      Forwards request_bytes active sent answer calls
unfolding forward_request
forward_request_once request_bytes active (send_failed error) = (refl, refl)
forward_request_once request_bytes active (answered status events true) =
    let (bytes, pieces) = stream_loop_lem events new_stream in
    (
      ap (streamed status) pieces,
      ap (λ (n : ℕ). released (some status) ∷ recorded (some status) request_bytes n active ∷ [])
          (bytes ∙ omega arith),
    )
forward_request_once request_bytes active (answered status events false) =
    (ap (streamed status) (stream_loop_lem events new_stream).1, refl)
forward_request_once request_bytes active (unread status) = (refl, refl)
