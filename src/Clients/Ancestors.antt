-- ===== src/Clients/Ancestors.antt =====
-- relay/clients.py: `resolve_shared_spot` finds the closest ancestor that the queue tracks.
use openai_ipmi_proxy.Prelude.{
  ℕ, zero, suc, ◌≤◌, ◌≡◌, refl, ap, ◌∙◌, sym, ◌↔◌, inl, inr, String, true, false, List, [], ◌∷◌,
  Option, none, some, arith, ◌==◌, Bool-cases, Option-cases, string_eq, pair_eq, nat_eq, subst,
}
use openai_ipmi_proxy.Prelude.Lists.{contains}
use openai_ipmi_proxy.Prelude.Dict.{lookup}
use openai_ipmi_proxy.Prelude.Text.{is_nonempty}
use openai_ipmi_proxy.Queue.State.{Key, EndpointQueue}
use openai_ipmi_proxy.Clients.Poller.{CacheKey}
use openai_ipmi_proxy.Clients.Sharing.{
  next_parent, tracked, walk_up, resolve_shared_spot, Closest, here, above, spot_of, Finds,
}

succ_above : (n : ℕ) → suc n ≤ n → ⊥
succ_above n h = omega (arith, h)

module _ (base client_name : String) (parents : List (CacheKey × Option String))
    (q : EndpointQueue) where
  next_parent-some :
      (found : Option (Option String)) (seen : List String) (parent : String)
      → next_parent found seen ≡ some parent
      → (found ≡ some (some parent)) × (is_nonempty parent ≡ true) × (contains seen parent ≡ false)
  unfolding next_parent
  next_parent-some none seen parent h = ground (arith, h)
  next_parent-some (some none) seen parent h = ground (arith, h)
  next_parent-some (some (some p)) seen parent h = ground (arith, h)

  next_parent-keeps :
      (found : Option (Option String)) (seen : List String) (parent : String)
      → found ≡ some (some parent)
      → is_nonempty parent ≡ true
      → contains seen parent ≡ false
      → next_parent found seen ≡ some parent
  unfolding next_parent
  next_parent-keeps found seen parent e full new = rw e (ground (arith, full, new))

  walk_up-Finds :
      (depth : ℕ) (current : String) (seen : List String) (key : Key)
      → walk_up base client_name parents q depth current seen ≡ some key
      → Finds base client_name parents q depth current seen key
  unfolding walk_up contains
  walk_up-Finds zero current seen key h = ground (arith, h)
  walk_up-Finds (suc depth) current seen key h =
      elim (Option-cases (next_parent (lookup (base, current) parents) seen)) [
        | inl ended ↦ ground (arith, h, ended)
        | inr (parent, next) ↦
            let up = next_parent-some (lookup (base, current) parents) seen parent next in
            elim (Option-cases (tracked base client_name parents q parent)) [
              | inl untracked ↦
                  let f =
                    walk_up-Finds depth parent (parent ∷ seen) key
                      (ground (arith, h, next, untracked)) in
                  record {
                    distance = suc f.distance;
                    ancestor = f.ancestor;
                    object = f.object;
                    bound = omega (arith, f.bound);
                    closest =
                        above f.distance current parent f.ancestor f.object up.0 up.1 untracked
                          f.closest;
                    unseen = ground (arith, f.unseen);
                    lends = f.lends;
                  }
              | inr (r, found) ↦ record {
                distance = 1;
                ancestor = parent;
                object = r;
                bound = omega arith;
                closest = here current parent r up.0 up.1 found;
                unseen = up.2;
                lends = ground (arith, h, next, found);
              }
            ]
      ]

  same_parent :
      (child p₁ p₂ : String)
      → lookup (base, child) parents ≡ some (some p₁)
      → lookup (base, child) parents ≡ some (some p₂)
      → p₁ ≡ p₂
  same_parent child p₁ p₂ e f = ground (arith, e, f)

  tracked_once :
      (p₁ p₂ : String) (r : ℕ)
      → p₁ ≡ p₂
      → tracked base client_name parents q p₁ ≡ some r
      → tracked base client_name parents q p₂ ≡ none
      → ⊥
  tracked_once p₁ p₂ r e t u = ground (arith, ap (tracked base client_name parents q) e, t, u)

  Closest-unique :
      (m n : ℕ) (child a b : String) (r s : ℕ)
      → Closest base client_name parents q m child a r
      → Closest base client_name parents q n child b s
      → m ≡ n
  Closest-unique m n child a b r s (here _ _ _ e f t) (here _ _ _ e' f' t') = refl
  Closest-unique m n child a b r s (here _ _ _ e f t) (above k _ p' _ _ e' f' u' c') =
      absurd (tracked_once a p' r (same_parent child a p' e e') t u')
  Closest-unique m n child a b r s (above k _ p _ _ e f u c) (here _ _ _ e' f' t') =
      absurd (tracked_once b p s (same_parent child b p e' e) t' u)
  Closest-unique m n child a b r s (above k _ p _ _ e f u c) (above k' _ p' _ _ e' f' u' c') =
      ap suc (
        Closest-unique k k' p' a b r s
          (subst (λ x. Closest base client_name parents q k x a r) (same_parent child p p' e e') c)
          c')

  -- Every session seen so far is at least as far from a tracked ancestor as `n`.
  abbrev AtLeast : ℕ → List String → Type 0
  AtLeast n seen =
      (x : String)
      → contains seen x ≡ true
      → (m : ℕ) (a : String) (s : ℕ) → Closest base client_name parents q m x a s
      → n ≤ m

  AtLeast-step :
      (n : ℕ) (a : String) (r : ℕ) (seen : List String) (parent : String)
      → AtLeast (suc n) seen
      → Closest base client_name parents q n parent a r
      → AtLeast n (parent ∷ seen)
  unfolding contains
  AtLeast-step n a r seen parent far c x h m b s d = elim (Bool-cases (parent == x)) [
    | inl same ↦
        let e = (string_eq.agree parent x).0 same in
        omega (
          arith,
          Closest-unique n m x a b r s (subst (λ y. Closest base client_name parents q n y a r) e c)
              d,
        )
    | inr other ↦ omega (arith, far x (ground (arith, h, other)) m b s d)
  ]

  far_unseen :
      (n : ℕ) (a : String) (r : ℕ) (seen : List String) (parent : String)
      → AtLeast (suc n) seen
      → Closest base client_name parents q n parent a r
      → contains seen parent ≡ false
  far_unseen n a r seen parent far c = elim (Bool-cases (contains seen parent)) [
    | inl h ↦ absurd (succ_above n (far parent h n a r c))
    | inr h ↦ h
  ]

  tracked_ancestor :
      (n : ℕ) (child a : String) (r : ℕ)
      → Closest base client_name parents q n child a r
      → tracked base client_name parents q a ≡ some r
  tracked_ancestor n child a r (here _ _ _ e f t) = t
  tracked_ancestor n child a r (above k _ p _ _ e f u c) = tracked_ancestor k p a r c

  ancestor_new :
      (n : ℕ) (a : String) (r : ℕ) (seen : List String) (parent : String)
      → Closest base client_name parents q n parent a r
      → tracked base client_name parents q parent ≡ none
      → contains seen a ≡ false
      → contains (parent ∷ seen) a ≡ false
  unfolding contains
  ancestor_new n a r seen parent c u new = elim (Bool-cases (parent == a)) [
    | inl same ↦ absurd (
        tracked_once a parent r (sym ((string_eq.agree parent a).0 same))
          (tracked_ancestor n parent a r c) u)
    | inr other ↦ ground (arith, other, new)
  ]

  walk_up_complete :
      (n depth : ℕ) (current a : String) (r : ℕ) (seen : List String)
      → Closest base client_name parents q n current a r
      → n ≤ depth
      → contains seen a ≡ false
      → AtLeast n seen
      → walk_up base client_name parents q depth current seen
        ≡ some (spot_of base client_name parents q r)
  unfolding walk_up
  walk_up_complete n zero current a r seen (here _ _ _ e full t) bound new far =
      ground (arith, bound)
  walk_up_complete n zero current a r seen (above k _ p _ _ e full u c) bound new far =
      ground (arith, bound)
  walk_up_complete n (suc depth) current a r seen (here _ _ _ e full t) bound new far =
      ground (arith, next_parent-keeps (lookup (base, current) parents) seen a e full new, t)
  walk_up_complete n (suc depth) current a r seen (above k _ p _ _ e full u c) bound new far =
      ground (
        arith,
        next_parent-keeps (lookup (base, current) parents) seen p e full
            (far_unseen k a r seen p far c),
        u,
        walk_up_complete k depth p a r (p ∷ seen) c (omega (arith, bound))
            (ancestor_new k a r seen p c u new) (AtLeast-step k a r seen p far c),
      )

  alone_AtLeast :
      (n : ℕ) (a : String) (r : ℕ) (session_id : String)
      → Closest base client_name parents q n session_id a r
      → AtLeast n (session_id ∷ [])
  unfolding contains
  alone_AtLeast n a r session_id c x h m b s d =
      let e = (string_eq.agree session_id x).0 (ground (arith, h)) in
      omega (
        arith,
        Closest-unique n m x a b r s (subst (λ y. Closest base client_name parents q n y a r) e c)
            d,
      )

  pub resolve_shared_spot-Finds :
      (session_id : String) (depth : ℕ) (key : Key)
      → (resolve_shared_spot base client_name parents q session_id depth ≡ some key)
        ↔ Finds base client_name parents q depth session_id (session_id ∷ []) key
  unfolding resolve_shared_spot
  resolve_shared_spot-Finds session_id depth key = (
    walk_up-Finds depth session_id (session_id ∷ []) key,
    λ f.
        walk_up_complete f.distance depth session_id f.ancestor f.object (session_id ∷ []) f.closest
          f.bound f.unseen (alone_AtLeast f.distance f.ancestor f.object session_id f.closest)
        ∙ ap some (sym f.lends),
  )
