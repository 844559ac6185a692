-- ===== src/Clients/Sharing.antt =====
-- relay/clients.py: `resolve_shared_spot`, the spot that a sub-agent shares.
use openai_ipmi_proxy.Prelude.{
  ℕ, zero, suc, ◌≤◌, ◌≡◌, String, true, false, not, ◌&&◌, List, [], ◌∷◌, Option, none, some,
  if◌then◌else◌, string_eq, pair_eq, nat_eq,
}
use openai_ipmi_proxy.Prelude.Lists.{contains}
use openai_ipmi_proxy.Prelude.Dict.{lookup, has}
use openai_ipmi_proxy.Prelude.Text.{is_nonempty}
use openai_ipmi_proxy.Queue.State.{Key, Session, EndpointQueue}
use openai_ipmi_proxy.Clients.Poller.{CacheKey}

-- The spot that an ancestor lends: its own or, where it has none, the one it shares.
unfoldable pub lent : List (Key × ℕ) → Session → Option Key → Key
lent spots ancestor none = ancestor.key
lent spots ancestor (some shared) =
    if has ancestor.key spots
    then ancestor.key
    else if has shared spots
    then shared
    else ancestor.key

-- A parent that the walk may go on to: known, not empty and not seen before
unfoldable pub next_parent : Option (Option String) → List String → Option String
next_parent (some (some parent)) seen =
    if is_nonempty parent && not (contains seen parent) then some parent else none
next_parent _ seen = none

module _ (base client_name : String) (parents : List (CacheKey × Option String))
    (q : EndpointQueue) where
  -- `sessions.get((client_name, parent))`
  abbrev pub tracked : String → Option ℕ
  tracked parent = lookup (client_name, parent) q.sessions

  -- The loop, `depth` times at most, from the session `current`
  unfoldable pub walk_up : ℕ → String → List String → Option Key
  unfolding lent next_parent
  walk_up zero current seen = none
  walk_up (suc depth) current seen = elim (next_parent (lookup (base, current) parents) seen) [
    | none ↦ none
    | some parent ↦ elim (tracked parent) [
      | some r ↦ some (lent q.spots (q.objects r) (q.objects r).shared_spot_key)
      | none ↦ walk_up depth parent (parent ∷ seen)
    ]
  ]

  unfoldable pub resolve_shared_spot : String → ℕ → Option Key
  unfolding walk_up
  resolve_shared_spot session_id depth = walk_up depth session_id (session_id ∷ [])

  -- `n` generations up from a session, the first ancestor that the queue tracks is `ancestor`, the object `r`.
  pub data Closest : ℕ → String → String → ℕ → Type 0 where
    here :
        (child ancestor : String) (r : ℕ)
        → lookup (base, child) parents ≡ some (some ancestor)
        → is_nonempty ancestor ≡ true
        → tracked ancestor ≡ some r
        → Closest 1 child ancestor r
    above :
        (n : ℕ) (child parent ancestor : String) (r : ℕ)
        → lookup (base, child) parents ≡ some (some parent)
        → is_nonempty parent ≡ true
        → tracked parent ≡ none
        → Closest n parent ancestor r
        → Closest (suc n) child ancestor r

  abbrev pub spot_of : ℕ → Key
  spot_of r = lent q.spots (q.objects r) (q.objects r).shared_spot_key

  -- What a walk finds, after it has seen these sessions
  pub record Finds (depth : ℕ) (current : String) (seen : List String) (key : Key) : Type 0 where
    pub distance : ℕ
    pub ancestor : String
    pub object : ℕ
    pub bound : distance ≤ depth
    pub closest : Closest distance current ancestor object
    pub unseen : contains seen ancestor ≡ false
    pub lends : key ≡ spot_of object
