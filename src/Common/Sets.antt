-- ===== src/Common/Sets.antt =====
-- Python's `set` as a list of its members.
use mathlib.Core.Path.{◌≡◌}
use mathlib.Core.Bool.{Bool, false, ◌||◌, ◌&&◌, not}
use mathlib.Core.List.{List, [], ◌∷◌}
use native.Mathlib.Omega.{arith}
use terok_clearance.Common.Tests.{Hashable, ◌==◌, if◌then◌else◌}

module _ {ℓ} {A : Type ℓ} ⦃e : Hashable A⦄ where
  -- `a in s`
  unfoldable pub contains : A → List A → Bool
  contains a [] = false
  contains a (x ∷ xs) = x == a || contains a xs

  -- `s.add(a)`
  unfoldable pub add : A → List A → List A
  add a xs = if contains a xs then xs else a ∷ xs

  -- `s.discard(a)`
  unfoldable pub discard : A → List A → List A
  discard a [] = []
  discard a (x ∷ xs) = let rest = discard a xs in if x == a then rest else x ∷ rest

  pub contains-add : (a b : A) (xs : List A) → contains b (add a xs) ≡ (a == b || contains b xs)
  unfolding add contains
  contains-add a b xs = ground (arith, e.equal_iff a b)

  pub contains-discard :
      (a b : A) (xs : List A) → contains b (discard a xs) ≡ (not (a == b) && contains b xs)
  unfolding discard contains
  contains-discard a b [] = ground arith
  contains-discard a b (x ∷ xs) =
      ground (arith, e.equal_iff x a, e.equal_iff x b, e.equal_iff a b, contains-discard a b xs)
