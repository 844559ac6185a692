-- ===== src/Routing.antt =====
-- relay/endpoints.py: `route`, which finds the endpoint of a path.
use openai_ipmi_proxy.Prelude.{
  ◌≤◌, ◌<◌, ◌≡◌, refl, sym, subst, ap, ◌⊎◌, inl, inr, String, Bool, true, false, ◌&&◌, List, [],
  ◌∷◌, ◌++◌, Option, none, some, arith, ltb, if◌then◌else◌, Bool-cases,
}
use openai_ipmi_proxy.Prelude.Lists.{All}
use openai_ipmi_proxy.Prelude.Text.{starts_with, text_len, concat}

-- `if not path.startswith("/"): path = "/" + path`
unfoldable pub absolute : String → String
absolute path = if starts_with path "/" then path else concat "/" path

some-ne : {A : Type 0} (a : A) → ¬ (some a ≡ none)
some-ne a h = ground (arith, h)

-- `config.path_prefix` of an endpoint, whatever else the endpoint holds
module _ {A : Type 0} (path_prefix : A → String) where
  -- `len(prefix) > best_len`; with no endpoint yet, `best_len` is -1.
  abbrev pub is_longer : A → Option A → Bool
  is_longer e none = true
  is_longer e (some best) = ltb (text_len (path_prefix best)) (text_len (path_prefix e))

  unfoldable pub route_loop : String → List A → Option A → Option A
  route_loop path [] best = best
  route_loop path (e ∷ endpoints) best =
      route_loop path endpoints
        (if starts_with path (path_prefix e) && is_longer e best then some e else best)

  unfoldable pub route : String → List A → Option A
  unfolding absolute
  route path endpoints = route_loop (absolute path) endpoints none

  abbrev pub Matches : String → A → Type 0
  Matches path e = starts_with path (path_prefix e) ≡ true

  -- Shorter than the chosen one, where it matches at all
  abbrev pub Below : String → A → A → Type 0
  Below path best e = Matches path e → text_len (path_prefix e) < text_len (path_prefix best)

  abbrev pub NotAbove : String → A → A → Type 0
  NotAbove path best e = Matches path e → text_len (path_prefix e) ≤ text_len (path_prefix best)

  -- The first of the longest matches
  pub record IsRoute (path : String) (endpoints : List A) (best : A) : Type 0 where
    pub before : List A
    pub after : List A
    pub split : endpoints ≡ before ++ best ∷ after
    pub matches : Matches path best
    pub earlier : All (Below path best) before
    pub later : All (NotAbove path best) after

  -- What the loop gives, from the endpoint it holds
  abbrev Chosen : String → List A → Option A → Option A → Type 0
  Chosen path endpoints held none =
      (held ≡ none) × All (λ e. starts_with path (path_prefix e) ≡ false) endpoints
  Chosen path endpoints none (some best) = IsRoute path endpoints best
  Chosen path endpoints (some old) (some best) =
      ((best ≡ old) × All (NotAbove path old) endpoints)
      ⊎ (IsRoute path endpoints best × (text_len (path_prefix old) < text_len (path_prefix best)))

  -- An endpoint in front that is not better than the chosen one
  skip :
      (path : String) (e : A) (endpoints : List A) (best : A)
      → Below path best e
      → IsRoute path endpoints best
      → IsRoute path (e ∷ endpoints) best
  skip path e endpoints best below h = record {
    before = e ∷ h.before;
    after = h.after;
    split = ap (λ xs. e ∷ xs) h.split;
    matches = h.matches;
    earlier = (below, h.earlier);
    later = h.later;
  }

  pass :
      (path : String) (e : A) (endpoints : List A) (held result : Option A)
      → starts_with path (path_prefix e) ≡ false
      → Chosen path endpoints held result
      → Chosen path (e ∷ endpoints) held result
  pass path e endpoints held none no_match h = (h.0, (no_match, h.1))
  pass path e endpoints none (some best) no_match h =
      skip path e endpoints best (λ m. ground (arith, m, no_match)) h
  pass path e endpoints (some old) (some best) no_match (inl h) =
      inl (h.0, (λ m. ground (arith, m, no_match), h.1))
  pass path e endpoints (some old) (some best) no_match (inr h) =
      inr (skip path e endpoints best (λ m. ground (arith, m, no_match)) h.0, h.1)

  take :
      (path : String) (e : A) (endpoints : List A) (result : Option A)
      → Matches path e
      → Chosen path endpoints (some e) result
      → Chosen path (e ∷ endpoints) none result
  take path e endpoints none m h = absurd (some-ne e h.0)
  take path e endpoints (some best) m (inl h) = record {
    before = [];
    after = endpoints;
    split = ap (λ x. x ∷ endpoints) (sym h.0);
    matches = subst (Matches path) (sym h.0) m;
    earlier = tt;
    later = subst (λ b. All (NotAbove path b) endpoints) (sym h.0) h.1;
  }
  take path e endpoints (some best) m (inr h) = skip path e endpoints best (λ also. h.1) h.0

  keep :
      (path : String) (e : A) (endpoints : List A) (old : A) (result : Option A)
      → NotAbove path old e
      → Chosen path endpoints (some old) result
      → Chosen path (e ∷ endpoints) (some old) result
  keep path e endpoints old none not_above h = absurd (some-ne old h.0)
  keep path e endpoints old (some best) not_above (inl h) = inl (h.0, (not_above, h.1))
  keep path e endpoints old (some best) not_above (inr h) =
      inr (skip path e endpoints best (λ m. omega (arith, not_above m, h.1)) h.0, h.1)

  replace :
      (path : String) (e : A) (endpoints : List A) (old : A) (result : Option A)
      → Matches path e
      → text_len (path_prefix old) < text_len (path_prefix e)
      → Chosen path endpoints (some e) result
      → Chosen path (e ∷ endpoints) (some old) result
  replace path e endpoints old none m longer h = absurd (some-ne e h.0)
  replace path e endpoints old (some best) m longer (inl h) = inr (
    take path e endpoints (some best) m (inl h),
    subst (λ (b : A). text_len (path_prefix old) < text_len (path_prefix b)) (sym h.0) longer,
  )
  replace path e endpoints old (some best) m longer (inr h) =
      inr (take path e endpoints (some best) m (inr h), omega (arith, longer, h.1))

  route_loop-Chosen :
      (path : String) (endpoints : List A) (held : Option A)
      → Chosen path endpoints held (route_loop path endpoints held)
  unfolding route_loop
  route_loop-Chosen path [] none = (refl, tt)
  route_loop-Chosen path [] (some old) = inl (refl, tt)
  route_loop-Chosen path (e ∷ endpoints) none =
      elim (Bool-cases (starts_with path (path_prefix e))) [
        | inl m ↦ simp m (take path e endpoints _ m (route_loop-Chosen path endpoints (some e)))
        | inr other ↦
            simp other (pass path e endpoints none _ other (route_loop-Chosen path endpoints none))
      ]
  route_loop-Chosen path (e ∷ endpoints) (some old) =
      elim (Bool-cases (starts_with path (path_prefix e))) [
        | inl m ↦ elim (Bool-cases (ltb (text_len (path_prefix old)) (text_len (path_prefix e)))) [
          | inl longer ↦
              simp (m, longer)
                (replace path e endpoints old _ m (ground (arith, longer))
                  (route_loop-Chosen path endpoints (some e)))
          | inr shorter ↦
              simp (m, shorter)
                (keep path e endpoints old _ (λ also. ground (arith, shorter))
                  (route_loop-Chosen path endpoints (some old)))
        ]
        | inr other ↦
            simp other (
              pass path e endpoints (some old) _ other
                (route_loop-Chosen path endpoints (some old)))
      ]

  -- What `route` answers
  abbrev pub Answers : String → List A → Option A → Type 0
  Answers path endpoints none = All (λ e. starts_with path (path_prefix e) ≡ false) endpoints
  Answers path endpoints (some best) = IsRoute path endpoints best

  Chosen-Answers :
      (path : String) (endpoints : List A) (result : Option A)
      → Chosen path endpoints none result
      → Answers path endpoints result
  Chosen-Answers path endpoints none h = h.1
  Chosen-Answers path endpoints (some best) h = h

  -- The route of a path, made absolute, is the first endpoint of the longest prefix among those whose prefix the path starts with: the endpoints before it that match have strictly shorter prefixes, those after it no longer ones. It is none exactly when no endpoint matches.
  pub route-Answers :
      (path : String) (endpoints : List A)
      → Answers (absolute path) endpoints (route path endpoints)
  unfolding route
  route-Answers path endpoints =
      Chosen-Answers (absolute path) endpoints _ (route_loop-Chosen (absolute path) endpoints none)
