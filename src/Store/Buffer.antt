-- ===== src/Store/Buffer.antt =====
-- relay/store.py: `enqueue_request`, `flush_requests` and the degraded mode. The database is outside:
-- how a write ends is an argument.
use openai_ipmi_proxy.Prelude.{
  ℕ, suc, ◌+◌, ◌≤◌, ◌≡◌, refl, ap, String, Bool, true, false, List, [], ◌∷◌, ◌++◌, Option, none,
  some, if◌then◌else◌, leb, arith,
}
use openai_ipmi_proxy.Prelude.Lists.{length, length-append, All}

-- `RequestRecord`; times and sizes are numbers.
pub record RequestRecord : Type 0 where
  pub ts : ℕ
  pub server : String
  pub endpoint : String
  pub client : String
  pub session_id : String
  pub wait_seconds : ℕ
  pub active_seconds : ℕ
  pub status_code : Option ℕ
  pub request_bytes : ℕ
  pub response_bytes : ℕ

-- How a write ends: it is committed, it fails in the way that `_db_failure` accepts, or an error is
-- raised.
pub data WriteResult : Type 0 where
  committed db_failure raised : WriteResult

-- `requests` is the table of the request rows.
pub record Store : Type 0 where
  pub request_buffer : List RequestRecord
  pub degraded : Bool
  pub dropped_writes : ℕ
  pub dropped_requests : ℕ
  pub requests : List RequestRecord

-- `REQUEST_BUFFER_MAX`
abbrev pub request_buffer_max : ℕ
request_buffer_max = 10_000

unfoldable pub init : Store
init = record {
  request_buffer = [];
  degraded = false;
  dropped_writes = 0;
  dropped_requests = 0;
  requests = [];
}

-- `_note_write_failure` and `_note_write_success`
unfoldable pub note_write_failure : Store → Store
note_write_failure s = record s { dropped_writes = s.dropped_writes + 1; degraded = true }

unfoldable pub note_write_success : Store → Store
note_write_success s = record s { degraded = false }

-- `append` of a `deque` with a `maxlen`: a full one sheds its first element.
unfoldable pub append_bounded {ℓ} : {A : Type ℓ} → ℕ → List A → A → List A
append_bounded max [] x = if leb max 0 then [] else x ∷ []
append_bounded max (y ∷ ys) x =
    if leb max (length (y ∷ ys)) then ys ++ x ∷ [] else (y ∷ ys) ++ x ∷ []

unfoldable pub enqueue_request : RequestRecord → Store → Store
unfolding append_bounded
enqueue_request r s = record s {
  dropped_requests =
      if leb request_buffer_max (length s.request_buffer)
      then s.dropped_requests + 1
      else s.dropped_requests;
  request_buffer = append_bounded request_buffer_max s.request_buffer r;
}

-- `bulk_log_requests`; an error that is raised leaves the caller with nothing.
unfoldable pub bulk_log_requests : WriteResult → List RequestRecord → Store → Option ℕ × Store
unfolding note_write_failure note_write_success
bulk_log_requests result [] s = (some 0, s)
bulk_log_requests committed (r ∷ rs) s =
    (some (length (r ∷ rs)), note_write_success (record s { requests = s.requests ++ r ∷ rs }))
bulk_log_requests db_failure (r ∷ rs) s =
    let noted = note_write_failure s in
    (some 0, record noted { dropped_requests = noted.dropped_requests + length (r ∷ rs) })
bulk_log_requests raised (r ∷ rs) s = (none, s)

unfoldable pub flush_requests : WriteResult → Store → Option ℕ × Store
unfolding bulk_log_requests
flush_requests result s =
    bulk_log_requests result s.request_buffer (record s { request_buffer = [] })

-- The other writes of the store, such as `log_power_event` and `upsert_session`, on these counters
unfoldable pub note_write : WriteResult → Store → Store
unfolding note_write_failure note_write_success
note_write committed s = note_write_success s
note_write db_failure s = note_write_failure s
note_write raised s = s

-- What happens to the store: requests, flushes and the writes that leave the table of the requests alone. The retention,
-- which deletes from it, is in Store/Retention.
pub data Event : Type 0 where
  request : RequestRecord → Event
  flush other_write : WriteResult → Event

unfoldable pub step : Event → Store → Store
step (request r) s = enqueue_request r s
step (flush result) s = (flush_requests result s).1
step (other_write result) s = note_write result s

unfoldable pub run : List Event → Store → Store
run [] s = s
run (e ∷ events) s = run events (step e s)

-- How many requests the events stage
abbrev pub staged : List Event → ℕ
staged [] = 0
staged (request r ∷ events) = suc (staged events)
staged (flush result ∷ events) = staged events
staged (other_write result ∷ events) = staged events

-- No flush ends with an error that is raised.
abbrev pub IsCaught : Event → Type 0
IsCaught (flush raised) = ⊥
IsCaught _ = Unit

-- Where each request went: to the table, to the buffer, or to the count of the dropped ones.
abbrev pub accounted : Store → ℕ
accounted s = length s.requests + length s.request_buffer + s.dropped_requests

length_snoc : {A : Type 0} (xs : List A) (x : A) → length (xs ++ x ∷ []) ≡ length xs + 1
length_snoc xs x = length-append xs (x ∷ [])

append_bounded-length :
    (xs : List RequestRecord) (x : RequestRecord)
    → length xs ≤ request_buffer_max
    → (length (append_bounded request_buffer_max xs x) ≤ request_buffer_max)
      × (length (append_bounded request_buffer_max xs x)
            + (if leb request_buffer_max (length xs) then 1 else 0)
          ≡ length xs + 1)
unfolding append_bounded
append_bounded-length [] x h = (omega arith, refl)
append_bounded-length (y ∷ ys) x h = ground (arith, h, length_snoc ys x, length_snoc (y ∷ ys) x)

bulk-accounted :
    (result : WriteResult) (rs : List RequestRecord) (s : Store)
    → IsCaught (flush result)
    → let t = (bulk_log_requests result rs s).1 in
      (length t.requests + t.dropped_requests ≡ length s.requests + s.dropped_requests + length rs)
      × (t.request_buffer ≡ s.request_buffer)
unfolding bulk_log_requests
bulk-accounted result [] s c = (omega arith, refl)
bulk-accounted committed (r ∷ rs) s c = (omega (arith, length-append s.requests (r ∷ rs)), refl)
bulk-accounted db_failure (r ∷ rs) s c = (omega arith, refl)
bulk-accounted raised (r ∷ rs) s c = absurd c

flush_requests-accounted :
    (result : WriteResult) (s : Store)
    → IsCaught (flush result)
    → (accounted (flush_requests result s).1 ≡ accounted s + 0)
      × (length (flush_requests result s).1.request_buffer ≤ request_buffer_max)
unfolding flush_requests
flush_requests-accounted result s c =
    let (sum, empty) =
      bulk-accounted result s.request_buffer (record s { request_buffer = [] }) c in
    (omega (arith, sum, ap length empty), omega (arith, ap length empty))

step-accounted :
    (e : Event) (s : Store)
    → IsCaught e
    → length s.request_buffer ≤ request_buffer_max
    → (accounted (step e s) ≡ accounted s + staged (e ∷ []))
      × (length (step e s).request_buffer ≤ request_buffer_max)
unfolding step note_write enqueue_request
step-accounted (request r) s c h = ground (arith, append_bounded-length s.request_buffer r h)
step-accounted (flush result) s c h = flush_requests-accounted result s c
step-accounted (other_write committed) s c h = (omega arith, h)
step-accounted (other_write db_failure) s c h = (omega arith, h)
step-accounted (other_write raised) s c h = (omega arith, h)

staged_cons :
    (e : Event) (events : List Event) → staged (e ∷ events) ≡ staged (e ∷ []) + staged events
staged_cons (request r) events = omega arith
staged_cons (flush result) events = omega arith
staged_cons (other_write result) events = omega arith

run-accounted_from :
    (events : List Event) (s : Store)
    → All IsCaught events
    → length s.request_buffer ≤ request_buffer_max
    → (accounted (run events s) ≡ accounted s + staged events)
      × (length (run events s).request_buffer ≤ request_buffer_max)
unfolding run
run-accounted_from [] s c h = (omega arith, h)
run-accounted_from (e ∷ events) s c h =
    let first = step-accounted e s c.0 h in
    let rest = run-accounted_from events (step e s) c.1 first.1 in
    (omega (arith, first.0, rest.0, staged_cons e events), rest.1)

-- However requests, flushes and other writes follow each other on a new store, with or without failures of the database, as long as no flush raises an error: each staged request is in the table, in the buffer, or counted as dropped, and the buffer never holds more than its maximum.
pub run-accounted :
    (events : List Event)
    → All IsCaught events
    → (accounted (run events init) ≡ staged events)
      × (length (run events init).request_buffer ≤ request_buffer_max)
unfolding init
run-accounted events c =
    let (sum, bound) = run-accounted_from events init c (omega arith) in (omega (arith, sum), bound)
