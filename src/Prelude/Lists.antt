-- ===== src/Prelude/Lists.antt =====
-- Lists over the native numbers: lengths, counts, removal of one element, membership as a test.
use Prim.Native.Nat.{ℕ, suc, ◌+◌, ◌<◌}
use mathlib.Core.Path.{◌≡◌, refl, ap}
use mathlib.Core.Logic.{◌≢◌, inl, inr}
use mathlib.Core.Bool.{Bool, true, false, ◌||◌}
use mathlib.Core.List.{List, [], ◌∷◌, ◌++◌}
use mathlib.Core.Option.{Option, none, some}
use native.Mathlib.Omega.{arith}
use openai_ipmi_proxy.Prelude.Tests.{Bool-cases, Eq, ◌==◌, if◌then◌else◌, nat_eq}

module _ {ℓ} {A : Type ℓ} where
  abbrev pub length : List A → ℕ
  length [] = 0
  length (x ∷ xs) = suc (length xs)

  -- `any(p(x) for x in xs)`
  unfoldable pub any : (A → Bool) → List A → Bool
  any p [] = false
  any p (x ∷ xs) = p x || any p xs

  -- The first element that passes, as a `for` loop with a `break` finds it.
  unfoldable pub find : (A → Bool) → List A → Option A
  find p [] = none
  find p (x ∷ xs) = if p x then some x else find p xs

  unfoldable pub count : (A → Bool) → List A → ℕ
  count p [] = 0
  count p (x ∷ xs) = (if p x then 1 else 0) + count p xs

  pub length-append : (xs ys : List A) → length (xs ++ ys) ≡ length xs + length ys
  length-append [] ys = omega arith
  length-append (x ∷ xs) ys = omega (arith, length-append xs ys)

  pub count_ext :
      (p p' : A → Bool) (xs : List A) → ((x : A) → p x ≡ p' x) → count p xs ≡ count p' xs
  unfolding count
  count_ext p p' [] h = refl
  count_ext p p' (x ∷ xs) h = ground (arith, h x, count_ext p p' xs h)

  pub count-append : (p : A → Bool) (xs ys : List A) → count p (xs ++ ys) ≡ count p xs + count p ys
  unfolding count
  count-append p [] ys = omega arith
  count-append p (x ∷ xs) ys = omega (arith, count-append p xs ys)

module _ {ℓ} {A : Type ℓ} ⦃e : Eq A⦄ where
  unfoldable pub contains : List A → A → Bool
  contains [] a = false
  contains (x ∷ xs) a = x == a || contains xs a

  -- `xs.remove(a)`: the first occurrence goes, and without one the list stays as it is.
  unfoldable pub remove : A → List A → List A
  remove a [] = []
  remove a (x ∷ xs) = if x == a then xs else x ∷ remove a xs

  -- No element twice.
  unfoldable pub distinct : List A → Bool
  distinct [] = true
  distinct (x ∷ xs) = if contains xs x then false else distinct xs

module _ {ℓ} {A : Type ℓ} ⦃e : Eq A⦄ where
  pub length-remove :
      (a : A) (xs : List A) → contains xs a ≡ true → suc (length (remove a xs)) ≡ length xs
  unfolding contains remove
  length-remove a [] h = absurd (ground arith)
  length-remove a (x ∷ xs) h = ground (arith, length-remove a xs)

  pub count-remove :
      (p : A → Bool) (a : A) (xs : List A)
      → contains xs a ≡ true
      → (if p a then 1 else 0) + count p (remove a xs) ≡ count p xs
  unfolding contains remove count
  count-remove p a [] h = absurd (ground arith)
  count-remove p a (x ∷ xs) h = ground (arith, count-remove p a xs, e.agree x a)

  pub contains-remove_ne :
      (a b : A) (xs : List A) → a ≢ b → contains (remove a xs) b ≡ contains xs b
  unfolding contains remove
  contains-remove_ne a b [] ne = refl
  contains-remove_ne a b (x ∷ xs) ne =
      ground (arith, contains-remove_ne a b xs, e.agree x a, e.agree x b)

  pub contains-remove_self :
      (a : A) (xs : List A) → distinct xs ≡ true → contains (remove a xs) a ≡ false
  unfolding contains remove distinct
  contains-remove_self a [] h = refl
  contains-remove_self a (x ∷ xs) h = ground (arith, contains-remove_self a xs, e.agree x a)

  pub contains_of_contains-remove :
      (a b : A) (xs : List A) → contains (remove a xs) b ≡ true → contains xs b ≡ true
  unfolding contains remove
  contains_of_contains-remove a b [] h = h
  contains_of_contains-remove a b (x ∷ xs) h = ground (arith, contains_of_contains-remove a b xs)

  pub distinct-remove : (a : A) (xs : List A) → distinct xs ≡ true → distinct (remove a xs) ≡ true
  unfolding remove distinct
  distinct-remove a [] h = h
  distinct-remove a (x ∷ xs) h =
      ground (arith, distinct-remove a xs, contains_of_contains-remove a x xs)

  pub contains-append :
      (xs ys : List A) (a : A) → contains (xs ++ ys) a ≡ (contains xs a || contains ys a)
  unfolding contains
  contains-append [] ys a = refl
  contains-append (x ∷ xs) ys a = ground (arith, contains-append xs ys a)

  pub distinct-append_new :
      (xs : List A) (a : A)
      → distinct xs ≡ true
      → contains xs a ≡ false
      → distinct (xs ++ a ∷ []) ≡ true
  unfolding distinct contains
  distinct-append_new [] a d c = refl
  distinct-append_new (x ∷ xs) a d c =
      ground
        (arith, distinct-append_new xs a, contains-append xs (a ∷ []) x, e.agree x a, e.agree a x)

  pub contains_of_find :
      (p : A → Bool) (xs : List A) (a : A) → find p xs ≡ some a → contains xs a ≡ true
  unfolding contains find
  contains_of_find p [] a h = absurd (ground arith)
  contains_of_find p (x ∷ xs) a h = ground (arith, contains_of_find p xs a, e.agree x a)

  pub find-eq-none :
      (p : A → Bool) (xs : List A) (a : A) → find p xs ≡ none → contains xs a ≡ true → p a ≡ false
  unfolding contains find
  find-eq-none p [] a h c = absurd (ground arith)
  find-eq-none p (x ∷ xs) a h c = ground (arith, find-eq-none p xs a, e.agree x a)

  contains-cons : (x y : A) (xs : List A) → contains xs y ≡ true → contains (x ∷ xs) y ≡ true
  unfolding contains
  contains-cons x y xs h = ground arith

  contains-cons_self : (x : A) (xs : List A) → contains (x ∷ xs) x ≡ true
  unfolding contains
  contains-cons_self x xs = ground (arith, e.agree x x)

  -- Tests that agree on the elements count the same.
  pub count_ext_on :
      (p p' : A → Bool) (xs : List A)
      → ((x : A) → contains xs x ≡ true → p x ≡ p' x)
      → count p xs ≡ count p' xs
  unfolding count
  count_ext_on p p' [] h = refl
  count_ext_on p p' (x ∷ xs) h = ground (
    arith,
    h x (contains-cons_self x xs),
    count_ext_on p p' xs (λ y c. h y (contains-cons x y xs c)),
  )

  pub count_none :
      (p : A → Bool) (xs : List A) → ((x : A) → contains xs x ≡ true → p x ≡ false) → count p xs ≡ 0
  unfolding count
  count_none p [] h = refl
  count_none p (x ∷ xs) h =
      ground (
        arith,
        h x (contains-cons_self x xs),
        count_none p xs (λ y c. h y (contains-cons x y xs c)),
      )

  pub count-pos :
      (p : A → Bool) (a : A) (xs : List A) → contains xs a ≡ true → p a ≡ true → 0 < count p xs
  unfolding contains count
  count-pos p a [] c h = absurd (ground arith)
  count-pos p a (x ∷ xs) c h = ground (arith, count-pos p a xs, e.agree x a)

module _ {ℓ} {A : Type ℓ} where
  pub find_holds : (p : A → Bool) (xs : List A) (a : A) → find p xs ≡ some a → p a ≡ true
  unfolding find
  find_holds p [] a h = absurd (ground arith)
  find_holds p (x ∷ xs) a h = ground (arith, find_holds p xs a)

-- Every element satisfies `P`.
abbrev pub All {ℓ κ} : {A : Type ℓ} → (A → Type κ) → List A → Type κ
All P [] = Unit
All P (x ∷ xs) = P x × All P xs

pub All-map {ℓ κ μ} :
    {A : Type ℓ} {P : A → Type κ} {Q : A → Type μ} (xs : List A)
    → ((x : A) → P x → Q x)
    → All P xs
    → All Q xs
All-map [] f h = tt
All-map (x ∷ xs) f h = (f x h.0, All-map xs f h.1)

-- The first element that passes, with what stands before it.
module _ {ℓ} {A : Type ℓ} where
  pub find_split :
      (p : A → Bool) (xs : List A) (a : A)
      → find p xs ≡ some a
      → (before after : List A) × (xs ≡ before ++ a ∷ after)
        × All (λ x. p x ≡ false) before
        × (p a ≡ true)
  unfolding find
  find_split p [] a h = absurd (ground arith)
  find_split p (x ∷ xs) a h = elim (Bool-cases (p x)) [
    | inl hit ↦ ([], xs, ground arith, tt, ground arith)
    | inr miss ↦
        let (before, after, parts, fails, passes) = find_split p xs a (ground arith) in
        (x ∷ before, after, ap (◌∷◌ x) parts, (miss, fails), passes)
  ]

  pub All-find : (p : A → Bool) (xs : List A) → find p xs ≡ none → All (λ x. p x ≡ false) xs
  unfolding find
  All-find p [] h = tt
  All-find p (x ∷ xs) h = (ground arith, All-find p xs (ground arith))
