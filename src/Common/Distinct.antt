-- ===== src/Common/Distinct.antt =====
-- Lists in which no two elements clash, as a UNIQUE constraint has it.
use Prim.Native.Nat.{ℕ, zero, suc}
use mathlib.Core.Path.{◌≡◌, refl, ap}
use mathlib.Core.Bool.{Bool, true, false, ◌&&◌, not}
use mathlib.Core.Logic.{inl, inr}
use mathlib.Core.List.{List, [], ◌∷◌, ◌++◌}
use mathlib.Core.Option.{Option, none, some}
use native.Mathlib.Omega.{arith}
use cryptoaibot.Common.Tests.{Bool-cases}
use cryptoaibot.Common.Lists.{any, any-append, update}

module _ {ℓ} {A : Type ℓ} where
  abbrev pub get_elem? : List A → ℕ → Option A
  get_elem? [] i = none
  get_elem? (x ∷ xs) zero = some x
  get_elem? (x ∷ xs) (suc i) = get_elem? xs i

  unfoldable pub all_distinct : (A → A → Bool) → List A → Bool
  all_distinct clash [] = true
  all_distinct clash (x ∷ xs) = not (any (clash x) xs) && all_distinct clash xs

  pub any_congr : (p q : A → Bool) (xs : List A) → ((x : A) → p x ≡ q x) → any p xs ≡ any q xs
  unfolding any
  any_congr p q [] h = refl
  any_congr p q (x ∷ xs) h = ground (arith, h x, any_congr p q xs h)

  pub any-update :
      (q p : A → Bool) (f : A → A) (xs : List A)
      → ((x : A) → q (f x) ≡ q x)
      → any q (update p f xs) ≡ any q xs
  unfolding any update
  any-update q p f [] h = refl
  any-update q p f (x ∷ xs) h = ground (arith, h x, any-update q p f xs h)

  pub any-get_elem? :
      (p : A → Bool) (xs : List A) (i : ℕ) (a : A)
      → get_elem? xs i ≡ some a
      → p a ≡ true
      → any p xs ≡ true
  unfolding any
  any-get_elem? p [] i a at holds = ground arith
  any-get_elem? p (x ∷ xs) zero a at holds = ground arith
  any-get_elem? p (x ∷ xs) (suc i) a at holds = ground (arith, any-get_elem? p xs i a at holds)

  module _ (clash : A → A → Bool) where
    pub all_distinct-append :
        (xs : List A) (y : A)
        → ((a b : A) → clash a b ≡ clash b a)
        → any (clash y) xs ≡ false
        → all_distinct clash xs ≡ true
        → all_distinct clash (xs ++ y ∷ []) ≡ true
    unfolding any all_distinct
    all_distinct-append [] y symmetric apart h = refl
    all_distinct-append (x ∷ xs) y symmetric apart h =
        ground (
          arith,
          symmetric x y,
          any-append (clash x) xs (y ∷ []),
          all_distinct-append xs y symmetric,
        )

    pub all_distinct-update :
        (p : A → Bool) (f : A → A) (xs : List A)
        → ((a b : A) → clash a (f b) ≡ clash a b)
        → ((a b : A) → clash (f a) b ≡ clash a b)
        → all_distinct clash (update p f xs) ≡ all_distinct clash xs
    unfolding all_distinct update
    all_distinct-update p f [] right left = refl
    all_distinct-update p f (x ∷ xs) right left = elim (Bool-cases (p x)) [
      | inl hit ↦
          rw
            (
              hit,
              any_congr (clash (f x)) (clash x) (update p f xs) (left x),
              any-update (clash x) p f xs (right x),
              all_distinct-update p f xs right left,
            )
            refl
      | inr miss ↦
          rw (miss, any-update (clash x) p f xs (right x), all_distinct-update p f xs right left)
            refl
    ]

    -- Two places whose elements clash are one place.
    pub all_distinct_places :
        (xs : List A) (i j : ℕ) (a b : A)
        → ((c d : A) → clash c d ≡ clash d c)
        → all_distinct clash xs ≡ true
        → get_elem? xs i ≡ some a
        → get_elem? xs j ≡ some b
        → clash a b ≡ true
        → i ≡ j
    unfolding all_distinct
    all_distinct_places [] i j a b symmetric h hi hj together = ground arith
    all_distinct_places (x ∷ xs) zero zero a b symmetric h hi hj together = refl
    all_distinct_places (x ∷ xs) zero (suc j) a b symmetric h hi hj together =
        ground (arith, any-get_elem? (clash x) xs j b hj)
    all_distinct_places (x ∷ xs) (suc i) zero a b symmetric h hi hj together =
        ground (arith, symmetric a b, any-get_elem? (clash x) xs i a hi)
    all_distinct_places (x ∷ xs) (suc i) (suc j) a b symmetric h hi hj together =
        ap suc (all_distinct_places xs i j a b symmetric (ground arith) hi hj together)
