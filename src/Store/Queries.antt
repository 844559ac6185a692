-- ===== src/Store/Queries.antt =====
-- relay/store.py: what the monitor reads of the tables.
use openai_ipmi_proxy.Prelude.{
  ℕ, zero, suc, ◌≡◌, refl, sym, ap, ◌∙◌, arith, String, Bool, List, [], ◌∷◌, ◌++◌, Option,
  if◌then◌else◌, ltb,
}
use openai_ipmi_proxy.Prelude.Lists.{length, length-append}
use mathlib.Core.List.{append-nil, append_assoc}
use openai_ipmi_proxy.Store.Buffer.{RequestRecord}
use openai_ipmi_proxy.Store.Tables.{Database, PowerEvent, ReadinessRow}

module _ {A : Type 0} where
  -- `ORDER BY id DESC`, and `reversed`
  unfoldable pub reversed : List A → List A
  reversed [] = []
  reversed (x ∷ xs) = reversed xs ++ x ∷ []

  -- `LIMIT`
  unfoldable pub limited : ℕ → List A → List A
  limited zero xs = []
  limited (suc n) [] = []
  limited (suc n) (x ∷ xs) = x ∷ limited n xs

  unfoldable pub recent : ℕ → List A → List A
  unfolding reversed limited
  recent limit rows = reversed (limited limit (reversed rows))

-- `recent_power_events` and `get_requests`
unfoldable pub recent_power_events : ℕ → Database → List PowerEvent
unfolding recent
recent_power_events limit db = recent limit db.power_events

unfoldable pub get_requests : ℕ → Database → List RequestRecord
unfolding recent
get_requests limit db = recent limit db.store.requests

-- `get_endpoint_runtime`
unfoldable pub get_endpoint_runtime : Database → List (String × (Bool × Option ℕ))
get_endpoint_runtime db = rows_of db.endpoint_runtime
  where
    rows_of : List (String × ReadinessRow) → List (String × (Bool × Option ℕ))
    rows_of [] = []
    rows_of ((name, row) ∷ rest) = (name, (row.ready, row.ready_since)) ∷ rows_of rest

module _ {A : Type 0} where
  reversed-append : (xs ys : List A) → reversed (xs ++ ys) ≡ reversed ys ++ reversed xs
  unfolding reversed
  reversed-append [] ys = sym (append-nil (reversed ys))
  reversed-append (x ∷ xs) ys =
      ap (λ zs. zs ++ x ∷ []) (reversed-append xs ys)
      ∙ append_assoc (reversed ys) (reversed xs) (x ∷ [])

  reversed_twice : (xs : List A) → reversed (reversed xs) ≡ xs
  unfolding reversed
  reversed_twice [] = refl
  reversed_twice (x ∷ xs) = reversed-append (reversed xs) (x ∷ []) ∙ ap (◌∷◌ x) (reversed_twice xs)

  length-reversed : (xs : List A) → length (reversed xs) ≡ length xs
  unfolding reversed
  length-reversed [] = refl
  length-reversed (x ∷ xs) =
      length-append (reversed xs) (x ∷ []) ∙ omega (arith, length-reversed xs)

  -- What a limit takes, and what it leaves
  limited_split :
      (n : ℕ) (xs : List A)
      → (rest : List A) × (xs ≡ limited n xs ++ rest)
        × (length (limited n xs) ≡ (if ltb n (length xs) then n else length xs))
  unfolding limited
  limited_split zero xs = (xs, refl, ground arith)
  limited_split (suc n) [] = ([], refl, ground arith)
  limited_split (suc n) (x ∷ xs) =
      let (rest, parts, long) = limited_split n xs in (rest, ap (◌∷◌ x) parts, ground (arith, long))

  -- The last so many of a list, or all of them
  abbrev pub IsLast : ℕ → List A → List A → Type 0
  IsLast limit rows result =
      (before : List A) × (rows ≡ before ++ result)
      × (length result ≡ (if ltb limit (length rows) then limit else length rows))

  recent-IsLast : (limit : ℕ) (rows : List A) → IsLast limit rows (recent limit rows)
  unfolding recent
  recent-IsLast limit rows =
      let (rest, parts, long) = limited_split limit (reversed rows) in
      (
        reversed rest,
        sym (reversed_twice rows)
            ∙ ap reversed parts
            ∙ reversed-append (limited limit (reversed rows)) rest,
        length-reversed (limited limit (reversed rows))
            ∙ long
            ∙ ground (arith, length-reversed rows),
      )

-- The monitor gets the last power events and the last requests, as many as the limit allows, in the order in which they were written.
pub recent-IsLast_both :
    (limit : ℕ) (db : Database)
    → IsLast limit db.power_events (recent_power_events limit db)
      × IsLast limit db.store.requests (get_requests limit db)
unfolding recent_power_events get_requests
recent-IsLast_both limit db =
    (recent-IsLast limit db.power_events, recent-IsLast limit db.store.requests)
