-- ===== src/Prelude/Sorting.antt =====
-- Go's `sort.Slice`, `slices.Sort` and `slices.IsSorted` by a test `less`, and Go's order of strings.
-- The sort is by insertion, which is what the library does on short slices.
use Prim.Native.Nat.{suc, ◌+◌, Ordering}
use mathlib.Core.Path.{◌≡◌, refl}
use mathlib.Core.Logic.{inl, inr}
use Prim.Native.String.{String}
use Prim.Native.String as Str
use mathlib.Core.Bool.{Bool, true, false, not, ◌&&◌}
use mathlib.Core.List.{List, [], ◌∷◌}
use native.Mathlib.Omega.{arith}
use dynamo_kvsrv_pbs.Prelude.Tests.{if◌then◌else◌, Bool-cases}
use dynamo_kvsrv_pbs.Prelude.Lists.{length}

abbrev pub before_string : String → String → Bool
before_string a b = elim (Str.compare a b) [ Ordering.lt ↦ true | _ ↦ false ]

module _ {ℓ} {A : Type ℓ} (less : A → A → Bool) where
  -- Behind the elements that are not above x.
  unfoldable pub insert_sorted : A → List A → List A
  insert_sorted x [] = x ∷ []
  insert_sorted x (y ∷ ys) =
      let rest = insert_sorted x ys in if less x y then x ∷ y ∷ ys else y ∷ rest

  -- Inserts the elements one after the other into what is sorted already.
  unfoldable pub sort_onto : List A → List A → List A
  sort_onto sorted [] = sorted
  sort_onto sorted (x ∷ xs) = sort_onto (insert_sorted x sorted) xs

  unfoldable pub sort_by : List A → List A
  unfolding sort_onto insert_sorted
  sort_by xs = sort_onto [] xs

  unfoldable pub sorted_from : A → List A → Bool
  sorted_from x [] = true
  sorted_from x (y ∷ ys) = not (less y x) && sorted_from y ys

  unfoldable pub is_sorted : List A → Bool
  unfolding sorted_from
  is_sorted [] = true
  is_sorted (x ∷ xs) = sorted_from x xs

module _ {ℓ} {A : Type ℓ} (less : A → A → Bool) where
  length-insert_sorted : (x : A) (ys : List A) → length (insert_sorted less x ys) ≡ suc (length ys)
  unfolding insert_sorted
  length-insert_sorted x [] = refl
  length-insert_sorted x (y ∷ ys) = elim (Bool-cases (less x y)) [
    | inl e ↦ rw e refl
    | inr e ↦ rw e (omega (arith, length-insert_sorted x ys))
  ]

  length-sort_onto :
      (sorted xs : List A) → length (sort_onto less sorted xs) ≡ length sorted + length xs
  unfolding sort_onto
  length-sort_onto sorted [] = omega arith
  length-sort_onto sorted (x ∷ xs) =
      omega
        (arith, length-sort_onto (insert_sorted less x sorted) xs, length-insert_sorted x sorted)

  pub length-sort_by : (xs : List A) → length (sort_by less xs) ≡ length xs
  unfolding sort_by
  length-sort_by xs = omega (arith, length-sort_onto [] xs)
