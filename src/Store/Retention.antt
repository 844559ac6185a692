-- ===== src/Store/Retention.antt =====
-- relay/store.py: `prune`, which deletes the rows that are older than the retention, in batches. Which rows a
-- batch takes is up to the database: the statement has a limit and no order.
use openai_ipmi_proxy.Prelude.{
  ℕ, zero, suc, ◌+◌, ◌*◌, ◌≡◌, String, Bool, true, false, List, [], ◌∷◌, Option, none, some,
  if◌then◌else◌, ltb,
}
use openai_ipmi_proxy.Prelude.Lists.{length, count}
use openai_ipmi_proxy.Store.Buffer.{WriteResult, RequestRecord}
use openai_ipmi_proxy.Store.Tables.{Database, PowerEvent, SessionKey, SessionRecord, transaction}

-- `batch`
abbrev pub batch : ℕ
batch = 10_000

-- So many rows for which `stale` holds are taken out of a table; the others keep their order.
pub data Removed {A : Type 0} (stale : A → Bool) : List A → List A → ℕ → Type 0 where
  done : Removed stale [] [] 0
  keep :
      (x : A) {xs ys : List A} {n : ℕ} → Removed stale xs ys n → Removed stale (x ∷ xs) (x ∷ ys) n
  drop :
      (x : A) {xs ys : List A} {n : ℕ}
      → stale x ≡ true
      → Removed stale xs ys n
      → Removed stale (x ∷ xs) ys (suc n)

-- `DELETE … WHERE key IN (SELECT key … WHERE stale LIMIT limit)`: the rows that stay and the row count.
-- The law is what SQL says of the statement: it deletes so many rows that match as the limit allows.
pub record Deletion (A : Type 0) : Type 0 where
  pub delete : ℕ → (A → Bool) → List A → List A × ℕ
  pub removes :
      (limit : ℕ) (stale : A → Bool) (rows : List A)
      → Removed stale rows (delete limit stale rows).0 (delete limit stale rows).1
  pub limited :
      (limit : ℕ) (stale : A → Bool) (rows : List A)
      → (delete limit stale rows).1
        ≡ (if ltb limit (count stale rows) then limit else count stale rows)

module _ {A : Type 0} (deletion : Deletion A) (stale : A → Bool) where
  -- The loop over the batches of one table; `none` if it has not ended after so many
  unfoldable pub prune_loop : ℕ → List A → ℕ → Option (List A × ℕ)
  prune_loop zero rows total = none
  prune_loop (suc fuel) rows total =
      let (rest, n) = deletion.delete batch stale rows in
      elim (ltb n batch) [
        | true ↦ some (rest, total + n)
        | false ↦ prune_loop fuel rest (total + n)
      ]

  -- One batch deletes a row or is the last, so there is no need for more batches than rows.
  unfoldable pub prune_table : List A → Option (List A × ℕ)
  unfolding prune_loop
  prune_table rows = prune_loop (suc (length rows)) rows 0

-- `ts < time.time() - retention_days * 86400`, in milliseconds
abbrev pub is_past : ℕ → ℕ → ℕ → Bool
is_past now retention_days ts = ltb (ts + retention_days * 86_400_000) now

module _ (now retention_days : ℕ) where
  abbrev pub stale_request : RequestRecord → Bool
  stale_request r = is_past now retention_days r.ts

  abbrev pub stale_event : PowerEvent → Bool
  stale_event e = is_past now retention_days e.ts

  abbrev pub stale_session : SessionKey × SessionRecord → Bool
  stale_session s = is_past now retention_days s.1.last_seen

module _ (requests : Deletion RequestRecord) (power_events : Deletion PowerEvent)
    (sessions : Deletion (SessionKey × SessionRecord)) where
  -- The three loops, with the counts in `deleted`
  unfoldable pub prune_tables : ℕ → ℕ → Database → Option (List (String × ℕ) × Database)
  unfolding prune_table
  prune_tables now days db =
      elim (prune_table requests (stale_request now days) db.store.requests) [
        | none ↦ none
        | some (rs, n) ↦ elim (prune_table power_events (stale_event now days) db.power_events) [
          | none ↦ none
          | some (es, m) ↦ elim (prune_table sessions (stale_session now days) db.sessions) [
            | none ↦ none
            | some (ss, k) ↦ some (
              ("requests", n) ∷ ("power_events", m) ∷ ("sessions", k) ∷ [],
              record db {
                store = record db.store { requests = rs };
                power_events = es;
                sessions = ss;
              },
            )
          ]
        ]
      ]

  -- `prune`; the outer `none` would be a loop that goes on.
  unfoldable pub prune :
      ℕ → ℕ → WriteResult → Database → Option (Option (List (String × ℕ)) × Database)
  unfolding prune_tables
  prune now days result db = elim (prune_tables now days db) [
    | none ↦ none
    | some pruned ↦ some (transaction result [] pruned db)
  ]
