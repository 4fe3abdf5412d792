-- ===== src/Prelude/Sets.antt =====
-- Lists read as finite sets through `contains`: no repetition, removal, and counting.
use mathlib.Core.Path.{◌≡◌, refl}
use mathlib.Core.Bool.{true, false, ◌||◌}
use mathlib.Core.List.{List, [], ◌∷◌, ◌++◌}
use Prim.Native.Nat.{◌+◌, ◌≤◌}
use native.Mathlib.Omega.{arith}
use pulp.Prelude.Equality.{Eq, ◌==◌, contains, if◌then◌else◌}
use pulp.Prelude.Lists.{length, All}

module _ {ℓ} {A : Type ℓ} ⦃e : Eq A⦄ where
  abbrev pub Distinct : List A → Type 0
  Distinct [] = Unit
  Distinct (x ∷ xs) = (contains xs x ≡ false) × Distinct xs

  -- Elements that are not among some with one more.
  pub All-fresh :
      (v : A) (seen rest : List A)
      → All (λ w. contains (v ∷ seen) w ≡ false) rest
      → (contains rest v ≡ false) × All (λ w. contains seen w ≡ false) rest
  All-fresh v seen [] h = (refl, tt)
  All-fresh v seen (w ∷ rest) h = ground (arith, All-fresh v seen rest h.1)

  pub contains-append :
      (xs ys : List A) (a : A) → contains (xs ++ ys) a ≡ (contains xs a || contains ys a)
  contains-append [] ys a = refl
  contains-append (x ∷ xs) ys a = ground (arith, contains-append xs ys a)

  pub Distinct-append_left : (xs ys : List A) → Distinct (xs ++ ys) → Distinct xs
  Distinct-append_left [] ys h = tt
  Distinct-append_left (x ∷ xs) ys h =
      (ground (arith, h.0, contains-append xs ys x), Distinct-append_left xs ys h.1)

  pub Distinct-append_right : (xs ys : List A) → Distinct (xs ++ ys) → Distinct ys
  Distinct-append_right [] ys h = h
  Distinct-append_right (x ∷ xs) ys h = Distinct-append_right xs ys h.1

  -- No element of the first part is in the second.
  pub Distinct-disjoint :
      (xs ys : List A) (a : A) → Distinct (xs ++ ys) → contains xs a ≡ true → contains ys a ≡ false
  Distinct-disjoint [] ys a h c = absurd (ground arith)
  Distinct-disjoint (x ∷ xs) ys a h c =
      ground (arith, h.0, contains-append xs ys x, Distinct-disjoint xs ys a h.1)

  pub Distinct-join :
      (xs ys : List A)
      → Distinct xs
      → Distinct ys
      → ((a : A) → contains xs a ≡ true → contains ys a ≡ false)
      → Distinct (xs ++ ys)
  Distinct-join [] ys hx hy apart = hy
  Distinct-join (x ∷ xs) ys hx hy apart = (
    ground (arith, hx.0, contains-append xs ys x, apart x),
    Distinct-join xs ys hx.1 hy (λ a c. apart a (ground arith)),
  )

  -- The first occurrence taken out.
  abbrev remove : A → List A → List A
  remove a [] = []
  remove a (x ∷ xs) = if a == x then xs else x ∷ remove a xs

  length-remove :
      (a : A) (xs : List A) → contains xs a ≡ true → length (remove a xs) + 1 ≡ length xs
  length-remove a [] h = absurd (ground arith)
  length-remove a (x ∷ xs) h = ground (arith, length-remove a xs)

  contains-remove : (a b : A) (xs : List A) → ¬ (b ≡ a) → contains (remove a xs) b ≡ contains xs b
  contains-remove a b [] h = refl
  contains-remove a b (x ∷ xs) h = ground (arith, contains-remove a b xs h)

  -- A list without repetition inside another is no longer than it.
  pub length-le_of_subset :
      (xs ys : List A)
      → Distinct xs
      → ((a : A) → contains xs a ≡ true → contains ys a ≡ true)
      → length xs ≤ length ys
  length-le_of_subset [] ys d s = omega arith
  length-le_of_subset (x ∷ xs) ys d s = omega (
    arith,
    length-remove x ys (s x (ground arith)),
    length-le_of_subset xs (remove x ys) d.1
        (λ a c. ground (arith, d.0, contains-remove x a ys, s a)),
  )

  -- If it is as long, it has all the elements.
  pub subset_of_length-le :
      (xs ys : List A)
      → Distinct xs
      → ((a : A) → contains xs a ≡ true → contains ys a ≡ true)
      → length ys ≤ length xs
      → (a : A) → contains ys a ≡ true
      → contains xs a ≡ true
  subset_of_length-le [] [] d s l a c = c
  subset_of_length-le [] (y ∷ ys) d s l a c = absurd (omega arith)
  subset_of_length-le (x ∷ xs) ys d s l a c = ground (
    arith,
    contains-remove x a ys,
    subset_of_length-le xs (remove x ys) d.1
        (λ b k. ground (arith, d.0, contains-remove x b ys, s b))
        (omega (arith, length-remove x ys (s x (ground arith)))) a,
  )
