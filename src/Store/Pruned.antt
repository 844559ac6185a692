-- ===== src/Store/Pruned.antt =====
-- What `prune` leaves, whichever rows the database takes first.
use openai_ipmi_proxy.Prelude.{
  ℕ, zero, suc, fun_ext, ◌+◌, ◌≤◌, ◌<◌, ◌≡◌, refl, sym, ap, ◌∙◌, arith, String, Bool, List, [], ◌∷◌,
  some, if◌then◌else◌, ltb, ◌*◌, ◌-◌, Bool-cases, inl, inr,
}
use openai_ipmi_proxy.Prelude.Lists.{length, count}
use openai_ipmi_proxy.Store.Buffer.{WriteResult, RequestRecord}
use openai_ipmi_proxy.Store.Tables.{Database, PowerEvent, SessionKey, SessionRecord, transaction}
use openai_ipmi_proxy.Store.Retention.{
  batch, Removed, done, keep, drop, Deletion, prune_loop, prune_table, stale_request, stale_event,
  stale_session, is_past, prune_tables, prune,
}

-- The rows for which `stale` does not hold, in their order
unfoldable pub kept : {A : Type 0} → (A → Bool) → List A → List A
kept stale [] = []
kept stale (x ∷ xs) = if stale x then kept stale xs else x ∷ kept stale xs

module _ {A : Type 0} (stale : A → Bool) where
  kept-Removed : {xs ys : List A} {n : ℕ} → Removed stale xs ys n → kept stale ys ≡ kept stale xs
  unfolding kept
  kept-Removed done = refl
  kept-Removed (keep x {xs} {ys} r) = ap (λ zs. if stale x then zs else x ∷ zs) (kept-Removed r)
  kept-Removed (drop x h r) = rw h (kept-Removed r)

  count-Removed :
      {xs ys : List A} {n : ℕ} → Removed stale xs ys n → count stale xs ≡ count stale ys + n
  unfolding count
  count-Removed done = refl
  count-Removed (keep x r) = ground (arith, count-Removed r)
  count-Removed (drop x h r) = ground (arith, h, count-Removed r)

  kept_all : (xs : List A) → count stale xs ≡ 0 → kept stale xs ≡ xs
  unfolding kept count
  kept_all [] h = refl
  kept_all (x ∷ xs) h = ground (arith, h, kept_all xs)

  count-le-length : (xs : List A) → count stale xs ≤ length xs
  unfolding count
  count-le-length [] = omega arith
  count-le-length (x ∷ xs) = ground (arith, count-le-length xs)

  module _ (deletion : Deletion A) where
    -- One batch more than there are stale rows is enough.
    prune_loop-kept :
        (fuel : ℕ) (rows : List A) (total : ℕ)
        → count stale rows < fuel
        → prune_loop deletion stale fuel rows total
          ≡ some (kept stale rows, total + count stale rows)
    unfolding prune_loop
    prune_loop-kept zero rows total h = absurd (omega (arith, h))
    prune_loop-kept (suc fuel) rows total h =
        let r = deletion.removes batch stale rows in
        let n = (deletion.delete batch stale rows).1 in
        let rest = (deletion.delete batch stale rows).0 in
        elim (Bool-cases (ltb n batch)) [
          | inl last ↦
              let all : n ≡ count stale rows =
                ground (arith, last, deletion.limited batch stale rows) in
              let none_left : count stale rest ≡ 0 = omega (arith, all, count-Removed r) in
              rw (last, prune_loop)
                (ap (λ ys. some (ys, total + n)) (sym (kept_all rest none_left) ∙ kept-Removed r)
                  ∙ ap (λ k. some (kept stale rows, total + k)) all)
          | inr more ↦
              let full : batch ≤ n = ground (arith, more) in
              let less : count stale rest < fuel = omega (arith, h, full, count-Removed r) in
              rw (more, prune_loop)
                (prune_loop-kept fuel rest (total + n) less
                  ∙ ap (λ ys. some (ys, total + n + count stale rest)) (kept-Removed r)
                  ∙ ap (λ k. some (kept stale rows, k)) (omega (arith, count-Removed r)))
        ]

    prune_table-kept :
        (rows : List A) → prune_table deletion stale rows ≡ some (kept stale rows, count stale rows)
    unfolding prune_table
    prune_table-kept rows =
        prune_loop-kept (suc (length rows)) rows 0 (omega (arith, count-le-length rows))
        ∙ ap (λ k. some (kept stale rows, k)) (omega arith)

-- The same, in terms of a test that agrees
prune_table_by :
    {A : Type 0} (deletion : Deletion A) (stale outdated : A → Bool) (rows : List A)
    → ((x : A) → stale x ≡ outdated x)
    → prune_table deletion stale rows ≡ some (kept outdated rows, count outdated rows)
prune_table_by {A = A} deletion stale outdated rows agree =
    prune_table-kept stale deletion rows
    ∙ ap (λ (f : A → Bool). some (kept f rows, count f rows)) (fun_ext agree)

-- Before the cutoff, which is that many days of milliseconds ago
abbrev pub is_outdated : ℕ → ℕ → ℕ → Bool
is_outdated now days ts = ltb ts (now - 24 * 60 * 60 * 1_000 * days)

is_past-outdated : (now days ts : ℕ) → is_past now days ts ≡ is_outdated now days ts
is_past-outdated now days ts = ground arith

module _ (now days : ℕ) where
  abbrev pub outdated_request : RequestRecord → Bool
  outdated_request r = is_outdated now days r.ts

  abbrev pub outdated_event : PowerEvent → Bool
  outdated_event e = is_outdated now days e.ts

  abbrev pub outdated_session : SessionKey × SessionRecord → Bool
  outdated_session s = is_outdated now days s.1.last_seen

-- The database without the stale rows
abbrev pub pruned : ℕ → ℕ → Database → Database
pruned now days db = record db {
  store = record db.store { requests = kept (outdated_request now days) db.store.requests };
  power_events = kept (outdated_event now days) db.power_events;
  sessions = kept (outdated_session now days) db.sessions;
}

abbrev pub counts : ℕ → ℕ → Database → List (String × ℕ)
counts now days db =
    ("requests", count (outdated_request now days) db.store.requests)
    ∷ ("power_events", count (outdated_event now days) db.power_events)
    ∷ ("sessions", count (outdated_session now days) db.sessions)
    ∷ []

module _ (requests : Deletion RequestRecord) (power_events : Deletion PowerEvent)
    (sessions : Deletion (SessionKey × SessionRecord)) where
  prune_tables-pruned :
      (now days : ℕ) (db : Database)
      → prune_tables requests power_events sessions now days db
        ≡ some (counts now days db, pruned now days db)
  unfolding prune_tables
  prune_tables-pruned now days db =
      rw
        (
          prune_table_by requests (stale_request now days) (outdated_request now days)
              db.store.requests (λ r. is_past-outdated now days r.ts),
          prune_tables,
        )
        (rw
          (prune_table_by power_events (stale_event now days) (outdated_event now days)
            db.power_events (λ e. is_past-outdated now days e.ts))
          (rw
            (prune_table_by sessions (stale_session now days) (outdated_session now days)
              db.sessions (λ s. is_past-outdated now days s.1.last_seen))
            refl))

  -- `prune` ends, whichever of the stale rows the database takes in each batch. When it is committed, the requests, the power events and the sessions that are older than the retention, so many days of 86400 seconds, are gone and no others, the rest keeps its order, the rows of the servers and of the endpoints stay, and the counts are those of the rows deleted. When it fails, no row is deleted and the counts are empty.
  pub prune_lem :
      (now days : ℕ) (result : WriteResult) (db : Database)
      → prune requests power_events sessions now days result db
        ≡ some (transaction result [] (counts now days db, pruned now days db) db)
  unfolding prune
  prune_lem now days result db = rw (prune_tables-pruned now days db, prune) refl
