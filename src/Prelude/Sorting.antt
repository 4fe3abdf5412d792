-- ===== src/Prelude/Sorting.antt =====
-- sort.SliceStable: the one stable order by a strict test, here by insertion.
use mathlib.Core.Path.{◌≡◌, refl}
use mathlib.Core.Bool.{Bool, false, ◌||◌}
use mathlib.Core.List.{List, [], ◌∷◌}
use Prim.Native.Nat.{suc}
use native.Mathlib.Omega.{arith}
use pulp.Prelude.Equality.{Eq, ◌==◌, contains, if◌then◌else◌}
use pulp.Prelude.Lists.{length, All}
use pulp.Prelude.Sets.{Distinct}

module _ {ℓ} {A : Type ℓ} (less : A → A → Bool) where
  -- The new element goes in front of the elements that it is not behind, so that elements which
  -- compare equal keep the order of the list.
  unfoldable pub insert_sorted : A → List A → List A
  insert_sorted a [] = a ∷ []
  insert_sorted a (x ∷ xs) = if less x a then x ∷ insert_sorted a xs else a ∷ x ∷ xs

  unfoldable pub stable_sort : List A → List A
  unfolding insert_sorted
  stable_sort [] = []
  stable_sort (x ∷ xs) = insert_sorted x (stable_sort xs)

  length-insert_sorted : (a : A) (xs : List A) → length (insert_sorted a xs) ≡ suc (length xs)
  unfolding insert_sorted
  length-insert_sorted a [] = refl
  length-insert_sorted a (x ∷ xs) = ground (arith, length-insert_sorted a xs)

  pub length-stable_sort : (xs : List A) → length (stable_sort xs) ≡ length xs
  unfolding stable_sort
  length-stable_sort [] = refl
  length-stable_sort (x ∷ xs) =
      omega (arith, length-insert_sorted x (stable_sort xs), length-stable_sort xs)

module _ {ℓ κ} {A : Type ℓ} (less : A → A → Bool) (P : A → Type κ) where
  All-insert_sorted : (a : A) (xs : List A) → P a → All P xs → All P (insert_sorted less a xs)
  unfolding insert_sorted
  All-insert_sorted a [] p h = (p, tt)
  All-insert_sorted a (x ∷ xs) p h = ground (arith, All-insert_sorted a xs p h.1)

  pub All-stable_sort : (xs : List A) → All P xs → All P (stable_sort less xs)
  unfolding stable_sort
  All-stable_sort [] h = tt
  All-stable_sort (x ∷ xs) h =
      All-insert_sorted x (stable_sort less xs) h.0 (All-stable_sort xs h.1)

module _ {ℓ} {A : Type ℓ} ⦃e : Eq A⦄ (less : A → A → Bool) where
  contains-insert_sorted :
      (a b : A) (xs : List A) → contains (insert_sorted less a xs) b ≡ (b == a || contains xs b)
  unfolding insert_sorted
  contains-insert_sorted a b [] = refl
  contains-insert_sorted a b (x ∷ xs) = ground (arith, contains-insert_sorted a b xs)

  pub contains-stable_sort :
      (xs : List A) (b : A) → contains (stable_sort less xs) b ≡ contains xs b
  unfolding stable_sort
  contains-stable_sort [] b = refl
  contains-stable_sort (x ∷ xs) b =
      ground (arith, contains-insert_sorted x b (stable_sort less xs), contains-stable_sort xs b)

  Distinct-insert_sorted :
      (a : A) (xs : List A)
      → contains xs a ≡ false
      → Distinct xs
      → Distinct (insert_sorted less a xs)
  unfolding insert_sorted
  Distinct-insert_sorted a [] h d = (refl, tt)
  Distinct-insert_sorted a (x ∷ xs) h d =
      ground (arith, contains-insert_sorted a x xs, Distinct-insert_sorted a xs, d.0, d.1)

  pub Distinct-stable_sort : (xs : List A) → Distinct xs → Distinct (stable_sort less xs)
  unfolding stable_sort
  Distinct-stable_sort [] d = tt
  Distinct-stable_sort (x ∷ xs) d =
      Distinct-insert_sorted x (stable_sort less xs) (ground (arith, contains-stable_sort xs x))
        (Distinct-stable_sort xs d.1)
