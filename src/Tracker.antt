-- ===== src/Tracker.antt =====
-- relay/queue.py: `UnknownTracker`, the passthrough requests by client.
use openai_ipmi_proxy.Prelude.{
  ℕ, ◌+◌, ◌≡◌, refl, inl, inr, String, Bool, true, false, List, [], ◌∷◌, Option, none, some,
  if◌then◌else◌, ◌==◌, leb, arith, Bool-cases, string_eq, pair_eq, pair_beq_iff, beq_refl,
}
use openai_ipmi_proxy.Prelude.Lists.{distinct, contains}
use openai_ipmi_proxy.Prelude.Text.{is_nonempty}
use openai_ipmi_proxy.Prelude.Dict.{keys, lookup, insert, lookup-insert, distinct-insert}

-- `(ip, user_agent)`
abbrev pub ClientKey : Type 0
ClientKey = String × String

pub record Entry : Type 0 where
  pub ip : String
  pub ua : String
  pub method : String
  pub path : String
  pub target_url : String
  pub first_at : ℕ
  pub last_at : ℕ
  pub count : ℕ

abbrev pub Entries : Type 0
Entries = List (ClientKey × Entry)

-- `user_agent or "-"`
abbrev pub or_dash : String → String
or_dash user_agent = if is_nonempty user_agent then user_agent else "-"

-- The entry that `record` writes, on what `self.entries.get(key)` finds
unfoldable pub seen : Option Entry → String → String → String → String → String → ℕ → Entry
seen none ip ua method path target_url now = record {
  ip = ip;
  ua = ua;
  method = method;
  path = path;
  target_url = target_url;
  first_at = now;
  last_at = now;
  count = 1;
}
seen (some e) ip ua method path target_url now = record e {
  method = method;
  path = path;
  target_url = target_url;
  last_at = now;
  count = e.count + 1;
}

-- `record`
unfoldable pub record_request : String → String → String → String → String → ℕ → Entries → Entries
unfolding seen
record_request ip user_agent method path target_url now entries =
    let key : ClientKey = (ip, or_dash user_agent) in
    insert key (seen (lookup key entries) ip (or_dash user_agent) method path target_url now)
      entries

-- `now - e["last_at"] >= expiry`
abbrev pub is_stale : ℕ → ℕ → Entry → Bool
is_stale now expiry e = leb (e.last_at + expiry) now

-- `prune`, which deletes each stale key
unfoldable pub prune : ℕ → ℕ → Entries → Entries
prune now expiry [] = []
prune now expiry ((k, e) ∷ entries) =
    if is_stale now expiry e then prune now expiry entries else (k, e) ∷ prune now expiry entries

unfoldable pub kept : ℕ → ℕ → Option Entry → Option Entry
kept now expiry none = none
kept now expiry (some e) = if is_stale now expiry e then none else some e

lookup-prune_fresh :
    (now expiry : ℕ) (k : ClientKey) (entries : Entries)
    → contains (keys entries) k ≡ false
    → lookup k (prune now expiry entries) ≡ none
unfolding prune lookup contains
lookup-prune_fresh now expiry k [] h = refl
lookup-prune_fresh now expiry k ((j, e) ∷ entries) h =
    ground (arith, h, lookup-prune_fresh now expiry k entries)

-- Of a dictionary, pruning keeps what was seen less than the expiry ago, with its data, and nothing else.
pub lookup-prune :
    (now expiry : ℕ) (k : ClientKey) (entries : Entries)
    → distinct (keys entries) ≡ true
    → lookup k (prune now expiry entries) ≡ kept now expiry (lookup k entries)
unfolding prune lookup distinct kept
lookup-prune now expiry k [] h = refl
lookup-prune now expiry k ((j, e) ∷ entries) h = elim (Bool-cases (j == k)) [
  | inl same ↦ ground (arith, h, same, pair_beq_iff j k, lookup-prune_fresh now expiry k entries)
  | inr other ↦ ground (arith, h, other, lookup-prune now expiry k entries)
]

-- A request counts for its client and for no other: the entry of its key has one request more than before and the time of this one, every other entry stays, and each client still has one entry.
pub record_request_lem :
    (ip user_agent method path target_url : String) (now : ℕ) (entries : Entries) (k : ClientKey)
    → distinct (keys entries) ≡ true
    → let key : ClientKey = (ip, or_dash user_agent) in
      let after = record_request ip user_agent method path target_url now entries in
      (lookup key after
        ≡ some (seen (lookup key entries) ip (or_dash user_agent) method path target_url now))
      × ((key == k) ≡ false → lookup k after ≡ lookup k entries)
      × (distinct (keys after) ≡ true)
unfolding record_request
record_request_lem ip user_agent method path target_url now entries k h =
    let key : ClientKey = (ip, or_dash user_agent) in
    let entry = seen (lookup key entries) ip (or_dash user_agent) method path target_url now in
    (
      ground (arith, lookup-insert key key entry entries, beq_refl key),
      λ other. ground (arith, lookup-insert key k entry entries, other),
      distinct-insert key entry entries h,
    )
