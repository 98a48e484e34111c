-- ===== src/Base/Find.antt =====
-- A search over the indices of a list, `for i in range(len(xs)): if p(xs[i]): ...; break`.
use Prim.Native.Nat.{ℕ, suc, ◌+◌, ◌-◌, ◌≤◌}
use mathlib.Core.Path.{◌≡◌, refl, ◌∙◌}
use mathlib.Core.Logic.{inl, inr}
use mathlib.Core.Bool.{Bool}
use mathlib.Core.Option.{Option, none, some}
use mathlib.Core.List.{List, [], ◌∷◌}
use native.Mathlib.Omega.{arith}
use v_swarm_u.Base.Tests.{if◌then◌else◌, Bool-cases}
use v_swarm_u.Base.Lists.{get_elem?}

module _ {ℓ} {A : Type ℓ} where
  -- The first element that passes.
  abbrev pub find : (A → Bool) → List A → Option A
  find p [] = none
  find p (x ∷ xs) = if p x then some x else find p xs

  -- The index of the first element that passes, counted from `i`.
  unfoldable pub index_of : (A → Bool) → ℕ → List A → Option ℕ
  index_of p i [] = none
  index_of p i (x ∷ xs) = if p x then some i else index_of p (i + 1) xs

  -- The element at an index that was counted from `i`.
  unfoldable pub at_index : ℕ → Option ℕ → List A → Option A
  at_index i none xs = none
  at_index i (some j) xs = get_elem? xs (j - i)

module _ {ℓ} {A : Type ℓ} (p : A → Bool) where
  index_of-le : (i j : ℕ) (xs : List A) → index_of p i xs ≡ some j → i ≤ j
  unfolding index_of
  index_of-le i j [] h = cc
  index_of-le i j (x ∷ xs) h = ground (arith, index_of-le (i + 1) j xs)

  at_index-shift :
      (i : ℕ) (x : A) (xs : List A) (o : Option ℕ)
      → ((j : ℕ) → o ≡ some j → i + 1 ≤ j)
      → at_index i o (x ∷ xs) ≡ at_index (i + 1) o xs
  unfolding at_index
  at_index-shift i x xs none h = refl
  at_index-shift i x xs (some j) h =
      let e : j - i ≡ suc (j - (i + 1)) = omega (arith, h j refl) in rw e

  -- The element at the index that the search finds is the first that passes.
  pub at_index-index_of : (i : ℕ) (xs : List A) → at_index i (index_of p i xs) xs ≡ find p xs
  unfolding index_of at_index
  at_index-index_of i [] = refl
  at_index-index_of i (x ∷ xs) = elim (Bool-cases (p x)) [
    | inl found ↦ rw found (let e : i - i ≡ 0 = omega arith in rw e)
    | inr other ↦ rw other (
        at_index-shift i x xs (index_of p (i + 1) xs) (λ j h. index_of-le (i + 1) j xs h)
        ∙ at_index-index_of (i + 1) xs)
  ]
