-- ===== src/Prelude/Dict.antt =====
-- Python's `dict`: an association list in insertion order. A write to a key that is present keeps
-- its place.
use Prim.Native.Nat.{suc, ◌≤◌}
use mathlib.Core.Path.{◌≡◌, refl}
use mathlib.Core.Logic.{◌≢◌}
use mathlib.Core.Bool.{Bool, true, false, ◌||◌}
use mathlib.Core.List.{List, [], ◌∷◌}
use mathlib.Core.Option.{Option, none, some}
use native.Mathlib.Omega.{arith}
use openai_ipmi_proxy.Prelude.Tests.{Eq, ◌==◌, if◌then◌else◌}
use openai_ipmi_proxy.Prelude.Lists.{All, length, contains, distinct}

module _ {ℓ κ} {K : Type ℓ} {V : Type κ} where
  -- `list(d.keys())` and `d.values()`
  abbrev pub keys : List (K × V) → List K
  keys [] = []
  keys ((j, w) ∷ m) = j ∷ keys m

  abbrev pub values : List (K × V) → List V
  values [] = []
  values ((j, w) ∷ m) = w ∷ values m

module _ {ℓ κ} {K : Type ℓ} {V : Type κ} ⦃e : Eq K⦄ where
  -- `d.get(k)`
  unfoldable pub lookup : K → List (K × V) → Option V
  lookup k [] = none
  lookup k ((j, w) ∷ m) = if j == k then some w else lookup k m

  -- `k in d`
  unfoldable pub has : K → List (K × V) → Bool
  has k [] = false
  has k ((j, w) ∷ m) = j == k || has k m

  -- `d[k] = v`
  unfoldable pub insert : K → V → List (K × V) → List (K × V)
  insert k v [] = (k, v) ∷ []
  insert k v ((j, w) ∷ m) = if j == k then (j, v) ∷ m else (j, w) ∷ insert k v m

  -- `d.pop(k, None)`
  unfoldable pub pop : K → List (K × V) → List (K × V)
  pop k [] = []
  pop k ((j, w) ∷ m) = if j == k then m else (j, w) ∷ pop k m

module _ {ℓ κ} {K : Type ℓ} {V : Type κ} ⦃e : Eq K⦄ where
  pub lookup-insert :
      (written read : K) (v : V) (m : List (K × V))
      → lookup read (insert written v m) ≡ (if written == read then some v else lookup read m)
  unfolding lookup insert
  lookup-insert written read v [] = refl
  lookup-insert written read v ((first, w) ∷ m) = ground (
    arith,
    e.agree written read,
    e.agree first written,
    e.agree first read,
    lookup-insert written read v m,
  )

  pub has-insert : (k j : K) (v : V) (m : List (K × V)) → has j (insert k v m) ≡ (k == j || has j m)
  unfolding has insert
  has-insert k j v [] = refl
  has-insert k j v ((i, w) ∷ m) =
      ground (arith, e.agree k j, e.agree i k, e.agree i j, has-insert k j v m)

  pub length-insert :
      (k : K) (v : V) (m : List (K × V))
      → length (insert k v m) ≡ (if has k m then length m else suc (length m))
  unfolding has insert
  length-insert k v [] = refl
  length-insert k v ((i, w) ∷ m) = ground (arith, length-insert k v m)

  pub contains-keys : (k : K) (m : List (K × V)) → contains (keys m) k ≡ has k m
  unfolding has contains
  contains-keys k [] = refl
  contains-keys k ((i, w) ∷ m) = ground (arith, contains-keys k m)

  pub distinct-insert :
      (k : K) (v : V) (m : List (K × V))
      → distinct (keys m) ≡ true
      → distinct (keys (insert k v m)) ≡ true
  unfolding insert distinct contains
  distinct-insert k v [] d = refl
  distinct-insert k v ((i, w) ∷ m) d = ground (
    arith,
    distinct-insert k v m,
    contains-keys i m,
    contains-keys i (insert k v m),
    has-insert k i v m,
    e.agree k i,
    e.agree i k,
  )

  pub has_of_has-pop : (k j : K) (m : List (K × V)) → has j (pop k m) ≡ true → has j m ≡ true
  unfolding has pop
  has_of_has-pop k j [] h = h
  has_of_has-pop k j ((i, w) ∷ m) h = ground (arith, has_of_has-pop k j m)

  pub has-pop_ne : (k j : K) (m : List (K × V)) → k ≢ j → has j (pop k m) ≡ has j m
  unfolding has pop
  has-pop_ne k j [] ne = refl
  has-pop_ne k j ((i, w) ∷ m) ne = ground (arith, has-pop_ne k j m, e.agree i k, e.agree i j)

  pub lookup-pop_ne : (k j : K) (m : List (K × V)) → k ≢ j → lookup j (pop k m) ≡ lookup j m
  unfolding lookup pop
  lookup-pop_ne k j [] ne = refl
  lookup-pop_ne k j ((i, w) ∷ m) ne = ground (arith, lookup-pop_ne k j m, e.agree i k, e.agree i j)

  pub distinct-pop :
      (k : K) (m : List (K × V)) → distinct (keys m) ≡ true → distinct (keys (pop k m)) ≡ true
  unfolding pop distinct
  distinct-pop k [] d = d
  distinct-pop k ((i, w) ∷ m) d =
      ground (
        arith,
        distinct-pop k m,
        contains-keys i m,
        contains-keys i (pop k m),
        has_of_has-pop k i m,
      )

  pub has-pop_self : (k : K) (m : List (K × V)) → distinct (keys m) ≡ true → has k (pop k m) ≡ false
  unfolding has pop distinct
  has-pop_self k [] d = refl
  has-pop_self k ((i, w) ∷ m) d = ground (arith, has-pop_self k m, contains-keys i m, e.agree i k)

  pub lookup-has : (k : K) (m : List (K × V)) → has k m ≡ false → lookup k m ≡ none
  unfolding has lookup
  lookup-has k [] h = refl
  lookup-has k ((i, w) ∷ m) h = ground (arith, lookup-has k m)

  pub has_of_lookup : (k : K) (m : List (K × V)) (v : V) → lookup k m ≡ some v → has k m ≡ true
  unfolding has lookup
  has_of_lookup k [] v h = absurd (ground arith)
  has_of_lookup k ((i, w) ∷ m) v h = ground (arith, has_of_lookup k m v)

  pub has-eq-false : (k : K) (m : List (K × V)) → lookup k m ≡ none → has k m ≡ false
  unfolding has lookup
  has-eq-false k [] h = refl
  has-eq-false k ((i, w) ∷ m) h = ground (arith, h, has-eq-false k m)

  pub lookup-pop_self :
      (k : K) (m : List (K × V)) → distinct (keys m) ≡ true → lookup k (pop k m) ≡ none
  lookup-pop_self k m d = lookup-has k (pop k m) (has-pop_self k m d)

  pub length-pop-le : (k : K) (m : List (K × V)) → length (pop k m) ≤ length m
  unfolding pop
  length-pop-le k [] = omega arith
  length-pop-le k ((i, w) ∷ m) = ground (arith, length-pop-le k m)

-- The laws of `pop` at every key, where no key stands twice.
module _ {ℓ κ} {K : Type ℓ} {V : Type κ} ⦃e : Eq K⦄ where
  pub has-pop :
      (k j : K) (m : List (K × V))
      → distinct (keys m) ≡ true
      → has j (pop k m) ≡ (if k == j then false else has j m)
  unfolding has pop distinct
  has-pop k j [] d = ground arith
  has-pop k j ((i, w) ∷ m) d =
      ground (arith, has-pop k j m, contains-keys i m, e.agree i k, e.agree i j, e.agree k j)

  pub lookup-pop :
      (k j : K) (m : List (K × V))
      → distinct (keys m) ≡ true
      → lookup j (pop k m) ≡ (if k == j then none else lookup j m)
  unfolding lookup pop distinct
  lookup-pop k j [] d = ground arith
  lookup-pop k j ((i, w) ∷ m) d = ground (
    arith,
    lookup-pop k j m,
    contains-keys i m,
    lookup-has i m,
    e.agree i k,
    e.agree i j,
    e.agree k j,
  )

-- Each item is what `d.get` finds at its key.
module _ {ℓ κ} {K : Type ℓ} {V : Type κ} ⦃e : Eq K⦄ where
  abbrev pub IsStored : List (K × V) → K × V → Type κ
  IsStored m p = lookup p.0 m ≡ some p.1

  IsStored-cons :
      (i : K) (w : V) (m items : List (K × V))
      → contains (keys items) i ≡ false
      → All (IsStored m) items
      → All (IsStored ((i, w) ∷ m)) items
  unfolding contains lookup
  IsStored-cons i w m [] fresh h = tt
  IsStored-cons i w m ((j, u) ∷ items) fresh h =
      (ground (arith, h.0, e.agree i j, e.agree j i), IsStored-cons i w m items (ground arith) h.1)

  pub All-IsStored : (m : List (K × V)) → distinct (keys m) ≡ true → All (IsStored m) m
  unfolding distinct lookup
  All-IsStored [] d = tt
  All-IsStored ((i, w) ∷ m) d = (
    ground (arith, e.agree i i),
    IsStored-cons i w m m (ground arith) (All-IsStored m (ground arith)),
  )

  pub IsStored-pop :
      (k : K) (m items : List (K × V))
      → distinct (keys m) ≡ true
      → contains (keys items) k ≡ false
      → All (IsStored m) items
      → All (IsStored (pop k m)) items
  unfolding contains
  IsStored-pop k m [] d fresh h = tt
  IsStored-pop k m ((j, u) ∷ items) d fresh h = (
    ground (arith, h.0, lookup-pop k j m d, e.agree k j, e.agree j k),
    IsStored-pop k m items d (ground arith) h.1,
  )
