-- ===== src/Store/Sessions.antt =====
-- What the history of the sessions says after any number of requests.
use openai_ipmi_proxy.Prelude.{
  ℕ, ◌+◌, ◌≡◌, refl, ap, ◌∙◌, arith, Bool, true, false, ◌&&◌, Eq, List, [], ◌∷◌, Option, none, some,
  if◌then◌else◌, ◌==◌, Bool-cases, inl, inr,
}
use openai_ipmi_proxy.Prelude.Lists.{length, distinct}
use openai_ipmi_proxy.Prelude.Dict.{lookup, insert, keys, lookup-insert, distinct-insert}
use openai_ipmi_proxy.Store.Buffer.{WriteResult, committed, db_failure, raised}
use openai_ipmi_proxy.Store.Tables.{
  Database, SessionKey, SessionRecord, session_key_eq, upsert, insert_or_change, upsert_session,
}

-- A call of `upsert_session`: the time, the key and how the write ends
pub record Touch : Type 0 where
  pub now : ℕ
  pub key : SessionKey
  pub result : WriteResult

unfoldable pub touch_all : List Touch → Database → Database
unfolding upsert_session
touch_all [] db = db
touch_all (t ∷ touches) db =
    touch_all touches (upsert_session t.now t.key.0 t.key.1.0 t.key.1.1 t.result db).1

abbrev pub is_committed : WriteResult → Bool
is_committed committed = true
is_committed db_failure = false
is_committed raised = false

-- The times of the calls for a key that were written
abbrev pub times : SessionKey → List Touch → List ℕ
times key [] = []
times key (t ∷ touches) =
    if is_committed t.result && t.key == key then t.now ∷ times key touches else times key touches

abbrev pub last_of : ℕ → List ℕ → ℕ
last_of t [] = t
last_of t (u ∷ ts) = last_of u ts

-- A row after calls at these times
abbrev pub extended : SessionRecord → List ℕ → SessionRecord
extended row ts = record {
  first_seen = row.first_seen;
  last_seen = last_of row.last_seen ts;
  request_count = row.request_count + length ts;
}

abbrev pub history : Option SessionRecord → List ℕ → Option SessionRecord
history none [] = none
history none (t ∷ ts) =
    some (record { first_seen = t; last_seen = last_of t ts; request_count = 1 + length ts })
history (some row) ts = some (extended row ts)

-- What an upsert writes
abbrev pub written : {V : Type 0} → V → (V → V) → Option V → V
written new change none = new
written new change (some old) = change old

module _ {K V : Type 0} ⦃e : Eq K⦄ where
  upsert-insert :
      (k : K) (new : V) (change : V → V) (table : List (K × V)) (o : Option V)
      → insert_or_change k new change table o ≡ insert k (written new change o) table
  upsert-insert k new change table none = refl
  upsert-insert k new change table (some old) = refl

  pub lookup-upsert :
      (k j : K) (new : V) (change : V → V) (table : List (K × V))
      → lookup j (upsert k new change table)
        ≡ (if k == j then some (written new change (lookup k table)) else lookup j table)
  lookup-upsert k j new change table =
      ap (lookup j) (upsert-insert k new change table (lookup k table))
      ∙ lookup-insert k j (written new change (lookup k table)) table

  pub distinct-upsert :
      (k : K) (new : V) (change : V → V) (table : List (K × V))
      → distinct (keys table) ≡ true
      → distinct (keys (upsert k new change table)) ≡ true
  distinct-upsert k new change table d =
      ap (λ t. distinct (keys t)) (upsert-insert k new change table (lookup k table))
      ∙ distinct-insert k (written new change (lookup k table)) table d

-- The row that a call writes
abbrev new_or_again : ℕ → Option SessionRecord → SessionRecord
new_or_again now o =
    written (record { first_seen = now; last_seen = now; request_count = 1 })
      (λ old. record old { last_seen = now; request_count = old.request_count + 1 }) o

history-written :
    (now : ℕ) (o : Option SessionRecord) (ts : List ℕ)
    → history (some (new_or_again now o)) ts ≡ history o (now ∷ ts)
history-written now none ts = refl
history-written now (some row) ts =
    ap
      (λ n.
        some
          (record { first_seen = row.first_seen; last_seen = last_of now ts; request_count = n }))
      (omega arith)

nothing : (o : Option SessionRecord) → o ≡ history o []
nothing none = refl
nothing (some row) = ap (λ n. some (record row { request_count = n })) (omega arith)

-- One call, of which the rest of the calls is `ts`
upsert_session-history :
    (now : ℕ) (written_key key : SessionKey) (result : WriteResult) (ts : List ℕ) (db : Database)
    → history
        (lookup key
          (upsert_session now written_key.0 written_key.1.0 written_key.1.1 result db).1.sessions)
        ts
      ≡ history
          (lookup key db.sessions)
          (if is_committed result && written_key == key then now ∷ ts else ts)
unfolding upsert_session
upsert_session-history now w key committed ts db = elim (Bool-cases (w == key)) [
  | inl same ↦ rw same (
      ap (λ o. history o ts)
        (lookup-upsert w key _ _ db.sessions
          ∙ ap
              (λ b.
                if b
                then some (new_or_again now (lookup w db.sessions))
                else lookup key db.sessions)
              same)
      ∙ history-written now (lookup w db.sessions) ts
      ∙ ap (λ k. history (lookup k db.sessions) (now ∷ ts)) ((session_key_eq.agree w key).0 same))
  | inr other ↦ rw other (
      ap (λ o. history o ts)
        (lookup-upsert w key _ _ db.sessions
          ∙ ap
              (λ b.
                if b
                then some (new_or_again now (lookup w db.sessions))
                else lookup key db.sessions)
              other))
]
upsert_session-history now w key db_failure ts db = refl
upsert_session-history now w key raised ts db = refl

upsert_session-distinct :
    (now : ℕ) (key : SessionKey) (result : WriteResult) (db : Database)
    → distinct (keys db.sessions) ≡ true
    → distinct (keys (upsert_session now key.0 key.1.0 key.1.1 result db).1.sessions) ≡ true
unfolding upsert_session
upsert_session-distinct now key committed db d = distinct-upsert key _ _ db.sessions d
upsert_session-distinct now key db_failure db d = d
upsert_session-distinct now key raised db d = d

-- After any calls of `upsert_session`, some of which fail, the row of a session counts on by each call for it that was written, was last seen at the last of them, and was first seen when it was before, or, without a row before, at the first of them. A session of which no call was written keeps its row, or has none. No session has two rows.
pub touch_all-history :
    (touches : List Touch) (key : SessionKey) (db : Database)
    → distinct (keys db.sessions) ≡ true
    → (lookup key (touch_all touches db).sessions
        ≡ history (lookup key db.sessions) (times key touches))
      × (distinct (keys (touch_all touches db).sessions) ≡ true)
unfolding touch_all
touch_all-history [] key db d = (nothing (lookup key db.sessions), d)
touch_all-history (t ∷ touches) key db d =
    let (later, one_row) =
      touch_all-history touches key _ (upsert_session-distinct t.now t.key t.result db d) in
    (later ∙ upsert_session-history t.now t.key key t.result (times key touches) db, one_row)
