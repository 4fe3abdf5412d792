-- ===== src/Fusion/Plan/Counts.antt =====
-- Sums over lists and maps, by which the cells of internal/fusion/plan.go are counted.
use pulp.Prelude.{ℕ, ◌+◌, ◌≡◌, refl, Bool, List, [], ◌∷◌, ◌++◌, some, if◌then◌else◌, arith, map}
use pulp.Prelude.Text.{Text, text_eq}
use pulp.Prelude.Dict.{Dict, lookup, insert, NodupKeys}
use pulp.Prelude.Sorting.{stable_sort, insert_sorted}
use pulp.Dependency.Plan.{value_at}

module _ {ℓ} {A : Type ℓ} (g : A → ℕ) where
  abbrev pub sum_by : List A → ℕ
  sum_by [] = 0
  sum_by (x ∷ xs) = g x + sum_by xs

  pub sum_by-append : (xs ys : List A) → sum_by (xs ++ ys) ≡ sum_by xs + sum_by ys
  sum_by-append [] ys = omega arith
  sum_by-append (x ∷ xs) ys = omega (arith, sum_by-append xs ys)

  module _ (less : A → A → Bool) where
    sum_by-insert_sorted :
        (a : A) (xs : List A) → sum_by (insert_sorted less a xs) ≡ g a + sum_by xs
    unfolding insert_sorted
    sum_by-insert_sorted a [] = refl
    sum_by-insert_sorted a (x ∷ xs) = ground (arith, sum_by-insert_sorted a xs)

    pub sum_by-stable_sort : (xs : List A) → sum_by (stable_sort less xs) ≡ sum_by xs
    unfolding stable_sort
    sum_by-stable_sort [] = refl
    sum_by-stable_sort (x ∷ xs) =
        omega (arith, sum_by-insert_sorted x (stable_sort less xs), sum_by-stable_sort xs)

abbrev pub weight {ℓ} : {A : Type ℓ} → (A → Bool) → A → ℕ
weight f a = if f a then 1 else 0

-- How many elements pass a test.
abbrev pub tally {ℓ} : {A : Type ℓ} → (A → Bool) → List A → ℕ
tally f xs = sum_by (weight f) xs

module _ {A : Type 0} (f : A → Bool) where
  -- How many do in all the lists of a map.
  abbrev pub tally_values : Dict Text (List A) → ℕ
  tally_values d = sum_by (λ (k, v). tally f v) d

  pub tally_values-insert :
      (k : Text) (v : List A) (d : Dict Text (List A))
      → tally_values (insert k v d) + tally f (value_at k d []) ≡ tally_values d + tally f v
  unfolding insert lookup
  tally_values-insert k v [] = omega arith
  tally_values-insert k v ((j, w) ∷ d) = ground (arith, tally_values-insert k v d)

  -- The values counted by their keys.
  sum_keys :
      (d whole : Dict Text (List A))
      → NodupKeys d
      → ((k : Text) (v : List A) → lookup k d ≡ some v → lookup k whole ≡ some v)
      → sum_by (λ k. tally f (value_at k whole [])) (map (λ (k, _). k) d) ≡ tally_values d
  unfolding lookup
  sum_keys [] whole u same = refl
  sum_keys ((k, v) ∷ d) whole (fresh, u) same =
      ground (arith, same k v (ground arith), sum_keys d whole u (λ j w l. same j w (ground arith)))

  pub tally_keys :
      (d : Dict Text (List A))
      → NodupKeys d
      → sum_by (λ k. tally f (value_at k d [])) (map (λ (k, _). k) d) ≡ tally_values d
  tally_keys d u = sum_keys d d u (λ k v l. l)
