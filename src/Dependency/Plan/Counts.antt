-- ===== src/Dependency/Plan/Counts.antt =====
-- The dependencies of a node that are not among the nodes visited so far.
use pulp.Prelude.{
  ℕ, ◌+◌, ◌≡◌, refl, Bool, true, false, not, List, [], ◌∷◌, ◌++◌, contains, if◌then◌else◌, length,
  select, arith, Bool-cases, inl, inr,
}
use pulp.Prelude.Text.{Text, text_eq}
use pulp.Prelude.Sets.{Distinct, contains-append}

unfoldable pub missing : List Text → List Text → ℕ
missing visited ds = length (select (λ d. not (contains visited d)) ds)

pub missing-zero :
    (visited ds : List Text) (d : Text)
    → missing visited ds ≡ 0
    → contains ds d ≡ true
    → contains visited d ≡ true
unfolding missing
missing-zero visited [] d h c = absurd (ground arith)
missing-zero visited (x ∷ ds) d h c = ground (arith, missing-zero visited ds d)

pub missing_of_subset :
    (visited ds : List Text)
    → ((d : Text) → contains ds d ≡ true → contains visited d ≡ true)
    → missing visited ds ≡ 0
unfolding missing
missing_of_subset visited [] h = refl
missing_of_subset visited (x ∷ ds) h =
    ground (arith, h x, missing_of_subset visited ds (λ d c. h d (ground arith)))

missing-other :
    (visited ds : List Text) (x : Text)
    → contains ds x ≡ false
    → missing (visited ++ x ∷ []) ds ≡ missing visited ds
unfolding missing
missing-other visited [] x h = refl
missing-other visited (d ∷ ds) x h =
    ground (arith, contains-append visited (x ∷ []) d, missing-other visited ds x)

-- A visit to one more node takes one off the count of each node that depends on it.
pub missing-visit :
    (visited ds : List Text) (x : Text)
    → Distinct ds
    → contains visited x ≡ false
    → missing visited ds ≡ missing (visited ++ x ∷ []) ds + (if contains ds x then 1 else 0)
unfolding missing
missing-visit visited [] x dd h = refl
missing-visit visited (d ∷ ds) x dd h = ground (
  arith,
  dd.0,
  contains-append visited (x ∷ []) d,
  missing-other visited ds x,
  missing-visit visited ds x dd.1,
)

pub missing-nil : (ds : List Text) → missing [] ds ≡ length ds
unfolding missing
missing-nil [] = refl
missing-nil (d ∷ ds) = ground (arith, missing-nil ds)

pub contains-select :
    (p : Text → Bool) (xs : List Text) (a : Text)
    → contains (select p xs) a ≡ (if p a then contains xs a else false)
contains-select p [] a = ground arith
contains-select p (x ∷ xs) a = ground (arith, contains-select p xs a)

pub Distinct-select : (p : Text → Bool) (xs : List Text) → Distinct xs → Distinct (select p xs)
Distinct-select p [] d = tt
Distinct-select p (x ∷ xs) d = ground (arith, d.0, contains-select p xs x, Distinct-select p xs d.1)

pub select_congr :
    (p q : Text → Bool) (xs : List Text)
    → ((x : Text) → contains xs x ≡ true → p x ≡ q x)
    → select p xs ≡ select q xs
select_congr p q [] h = refl
select_congr p q (x ∷ xs) h = ground (arith, h x, select_congr p q xs (λ a c. h a (ground arith)))

-- A count above 0 names a dependency that is not visited.
pub missing-pos :
    (visited ds : List Text)
    → ¬ (missing visited ds ≡ 0)
    → (d : Text) × (contains ds d ≡ true) × (contains visited d ≡ false)
unfolding missing
missing-pos visited [] h = absurd (h refl)
missing-pos visited (x ∷ ds) h = elim (Bool-cases (contains visited x)) [
  | inr unseen ↦ (x, ground arith, unseen)
  | inl seen ↦
      let (d, here, unseen) = missing-pos visited ds (λ e. h (ground arith)) in
      (d, ground arith, unseen)
]
