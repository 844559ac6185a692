-- ===== src/Clients/Blocked.antt =====
-- relay/clients.py: what `fetch_pending` reports, and when it reports nothing.
use openai_ipmi_proxy.Prelude.{
  ◌≡◌, refl, sym, subst, ◌≢◌, ◌⊎◌, inl, inr, String, Bool, true, false, ◌||◌, List, [], ◌∷◌, Option,
  none, some, arith, if◌then◌else◌, ◌==◌, Bool-cases, Option-cases, string_eq, nat_eq,
}
use openai_ipmi_proxy.Prelude.Lists.{All}
use openai_ipmi_proxy.Prelude.Dict.{lookup, lookup-insert}
use openai_ipmi_proxy.Prelude.Value.{
  Value, null, bool, int, decimal, text, array, object, Items, nil, cons, get_field,
}
use openai_ipmi_proxy.Power.Bmc.{Response}
use openai_ipmi_proxy.Clients.Poller.{
  StatusPoller, Pending, add_pending, add_item, add_items, pending_of_json, pending_of_response,
  pending_loop, fetch_pending,
}

-- The item names this session.
abbrev pub is_session : String → Option Value → Bool
is_session session_id (some (text s)) = s == session_id
is_session session_id _ = false

abbrev pub names : String → Value → Bool
names session_id (object fields) = is_session session_id (get_field "sessionID" fields)
names session_id _ = false

abbrev pub mentions : String → Items → Bool
mentions session_id nil = false
mentions session_id (cons item items) = names session_id item || mentions session_id items

-- The list that an answer carries: one with status 200 whose JSON is an array
abbrev pub array_of : Option Value → Option Items
array_of (some (array items)) = some items
array_of _ = none

abbrev pub listed : Option Response → Option Items
listed none = none
listed (some r) = if r.status_code == 200 then array_of r.json else none

abbrev pub IsBlocked : String → Option Items → Type 0
IsBlocked session_id none = ⊥
IsBlocked session_id (some items) = mentions session_id items ≡ true

-- One of the paths, of this kind, lists the session.
pub data Reported (network : String → Option Response) (session_id kind : String)
    : List (String × String) → Type 0 where
  here :
      (path : String) (paths : List (String × String))
      → IsBlocked session_id (listed (network path))
      → Reported network session_id kind ((path, kind) ∷ paths)
  later :
      (entry : String × String) (paths : List (String × String))
      → Reported network session_id kind paths
      → Reported network session_id kind (entry ∷ paths)

add_pending-lookup :
    (kind session_id : String) (o : Option Value) (pending : Pending)
    → lookup session_id (add_pending kind o pending)
      ≡ (if is_session session_id o then some kind else lookup session_id pending)
unfolding add_pending
add_pending-lookup kind session_id none pending = refl
add_pending-lookup kind session_id (some (text s)) pending =
    ground (arith, lookup-insert s session_id kind pending)
add_pending-lookup kind session_id (some null) pending = refl
add_pending-lookup kind session_id (some (bool b)) pending = refl
add_pending-lookup kind session_id (some (int n)) pending = refl
add_pending-lookup kind session_id (some (decimal c t)) pending = refl
add_pending-lookup kind session_id (some (array items)) pending = refl
add_pending-lookup kind session_id (some (object fields)) pending = refl

add_item-lookup :
    (kind session_id : String) (item : Value) (pending : Pending)
    → lookup session_id (add_item kind item pending)
      ≡ (if names session_id item then some kind else lookup session_id pending)
unfolding add_item
add_item-lookup kind session_id (object fields) pending =
    add_pending-lookup kind session_id (get_field "sessionID" fields) pending
add_item-lookup kind session_id (text s) pending = refl
add_item-lookup kind session_id null pending = refl
add_item-lookup kind session_id (bool b) pending = refl
add_item-lookup kind session_id (int n) pending = refl
add_item-lookup kind session_id (decimal c t) pending = refl
add_item-lookup kind session_id (array items) pending = refl

add_items-lookup :
    (kind session_id : String) (items : Items) (pending : Pending)
    → lookup session_id (add_items kind items pending)
      ≡ (if mentions session_id items then some kind else lookup session_id pending)
unfolding add_items
add_items-lookup kind session_id nil pending = refl
add_items-lookup kind session_id (cons item items) pending = ground (
  arith,
  add_items-lookup kind session_id items (add_item kind item pending),
  add_item-lookup kind session_id item pending,
)

-- What one answer adds to the sessions reported so far
abbrev Adds : String → Option Items → Pending → Option Pending → Type 0
Adds kind none pending result = result ≡ none
Adds kind (some items) pending result = result ≡ some (add_items kind items pending)

pending_of_json-Adds :
    (kind : String) (json : Option Value) (pending : Pending)
    → Adds kind (array_of json) pending (pending_of_json kind json pending)
unfolding pending_of_json
pending_of_json-Adds kind none pending = refl
pending_of_json-Adds kind (some (array items)) pending = refl
pending_of_json-Adds kind (some (text s)) pending = refl
pending_of_json-Adds kind (some null) pending = refl
pending_of_json-Adds kind (some (bool b)) pending = refl
pending_of_json-Adds kind (some (int n)) pending = refl
pending_of_json-Adds kind (some (decimal c t)) pending = refl
pending_of_json-Adds kind (some (object fields)) pending = refl

pending_of_response-Adds :
    (kind : String) (answer : Option Response) (pending : Pending)
    → Adds kind (listed answer) pending (pending_of_response kind answer pending)
unfolding pending_of_response
pending_of_response-Adds kind none pending = refl
pending_of_response-Adds kind (some r) pending = elim (Bool-cases (r.status_code == 200)) [
  | inl ok ↦ simp ok (pending_of_json-Adds kind r.json pending)
  | inr other ↦ simp other refl
]

-- The session is reported before, or one of the paths lists it.
abbrev pub IsNamed : (String → Option Response) → String → List (String × String) → Pending → Type 0
IsNamed network session_id paths before =
    (lookup session_id before ≢ none) ⊎ ((kind : String) × Reported network session_id kind paths)

-- The whole answer: a report of each path, or none
abbrev pub Complete :
    (String → Option Response) → List (String × String) → Pending → Option Pending → Type 0
Complete network paths before none = ¬ All (λ entry. listed (network entry.0) ≢ none) paths
Complete network paths before (some pending) =
    All (λ entry. listed (network entry.0) ≢ none) paths
    × ((session_id kind : String)
        → lookup session_id pending ≡ some kind
        → (lookup session_id before ≡ some kind) ⊎ Reported network session_id kind paths)
    × ((session_id : String)
        → IsNamed network session_id paths before
        → lookup session_id pending ≢ none)

kept :
    (kind session_id : String) (items : Items) (before : Pending)
    → lookup session_id before ≢ none
    → lookup session_id (add_items kind items before) ≢ none
kept kind session_id items before there missing =
    ground (arith, add_items-lookup kind session_id items before, there, missing)

added_here :
    (kind session_id : String) (items : Items) (before : Pending)
    → mentions session_id items ≡ true
    → lookup session_id (add_items kind items before) ≢ none
added_here kind session_id items before named missing =
    ground (arith, add_items-lookup kind session_id items before, named, missing)

-- The first of the answers is a list.
extend :
    (network : String → Option Response) (path kind : String) (paths : List (String × String))
    (items : Items) (before : Pending) (result : Option Pending)
    → listed (network path) ≡ some items
    → Complete network paths (add_items kind items before) result
    → Complete network ((path, kind) ∷ paths) before result
extend network path kind paths items before none e h = λ all. h all.1
extend network path kind paths items before (some pending) e h = (
  ((λ missing. ground (arith, missing, e)), h.0),
  λ session_id reason found. elim (h.1 session_id reason found) [
    | inl added ↦ elim (Bool-cases (mentions session_id items)) [
      | inl named ↦ inr (
          subst (λ (k : String). Reported network session_id reason ((path, k) ∷ paths))
            (first_reason kind reason session_id items before added named)
            (here path paths (subst (IsBlocked session_id) (sym e) named)))
      | inr unnamed ↦
          inl (ground (arith, add_items-lookup kind session_id items before, added, unnamed))
    ]
    | inr reported ↦ inr (later (path, kind) paths reported)
  ],
  λ session_id named. h.2 session_id (still_named session_id named),
)
  where
    first_reason :
        (kind reason session_id : String) (items : Items) (before : Pending)
        → lookup session_id (add_items kind items before) ≡ some reason
        → mentions session_id items ≡ true
        → reason ≡ kind
    first_reason kind reason session_id items before added named =
        ground (arith, add_items-lookup kind session_id items before, added, named)

    still_named :
        (session_id : String)
        → IsNamed network session_id ((path, kind) ∷ paths) before
        → IsNamed network session_id paths (add_items kind items before)
    still_named session_id (inl reported) =
        inl (λ missing. kept kind session_id items before reported missing)
    still_named session_id (inr (k, here _ _ blocked)) = inl (λ missing.
        added_here kind session_id items before (subst (IsBlocked session_id) e blocked) missing)
    still_named session_id (inr (k, later _ _ reported)) = inr (k, reported)

module _ (network : String → Option Response) where
  unlisted :
      (session_id : String) (before : Pending)
      → IsNamed network session_id [] before
      → lookup session_id before ≢ none
  unlisted session_id before (inl there) = there
  unlisted session_id before (inr (kind, reported)) = elim reported [ ]

  pending_loop-Complete :
      (paths : List (String × String)) (before : Pending)
      → Complete network paths before (pending_loop network paths before)
  unfolding pending_loop
  pending_loop-Complete [] before =
      (tt, (λ session_id kind h. inl h), λ session_id named. unlisted session_id before named)
  pending_loop-Complete ((path, kind) ∷ paths) before =
      elim (Option-cases (listed (network path))) [
        | inl missing ↦
            let step : pending_of_response kind (network path) before ≡ none =
              subst
                (λ (o : Option Items).
                  Adds kind o before (pending_of_response kind (network path) before))
                missing (pending_of_response-Adds kind (network path) before) in
            subst
              (λ (o : Option Pending).
                Complete network ((path, kind) ∷ paths) before
                  (elim o [ none ↦ none | some more ↦ pending_loop network paths more ]))
              (sym step) (λ all. all.0 missing)
        | inr (items, e) ↦
            let step : pending_of_response kind (network path) before
                ≡ some (add_items kind items before) =
              subst
                (λ (o : Option Items).
                  Adds kind o before (pending_of_response kind (network path) before))
                e (pending_of_response-Adds kind (network path) before) in
            subst
              (λ (o : Option Pending).
                Complete network ((path, kind) ∷ paths) before
                  (elim o [ none ↦ none | some more ↦ pending_loop network paths more ]))
              (sym step)
              (extend network path kind paths items before _ e
                (pending_loop-Complete paths (add_items kind items before)))
      ]

  -- The pending requests of a client are reported all together or not at all: there is a report exactly when each of the configured paths answered with a list, and then a session is in it exactly if the list of one of the paths names it, with the kind of such a path as the reason.
  pub fetch_pending-Complete :
      (p : StatusPoller) → Complete network p.provider.pending_paths [] (fetch_pending network p)
  unfolding fetch_pending
  fetch_pending-Complete p = pending_loop-Complete p.provider.pending_paths []
