-- ===== src/Manifest/Placements/Names.antt =====
-- internal/manifest/app.go, `buildAppPlacements`: the name in an address.
use pulp.Prelude.{
  ℕ, ◌≤◌, ◌≡◌, refl, sym, subst, ◌∙◌, true, List, [], ◌∷◌, ◌++◌, contains, if◌then◌else◌, eqb,
  arith, map, length,
}
use pulp.Prelude.Sets.{Distinct}
use pulp.Prelude.Text.{Text, text_eq, contains_rune}
use pulp.Manifest.Placements.{address_of}
use pulp.Manifest.Placements.Instances.{IsPlain}

-- What stands before the first `@`.
abbrev pub before_at : Text → Text
before_at [] = []
before_at (c ∷ s) = if eqb c b'@' then [] else c ∷ before_at s

before_at-plain : (n : Text) → IsPlain n → before_at n ≡ n
unfolding contains_rune
before_at-plain [] h = refl
before_at-plain (c ∷ s) h = ground (arith, before_at-plain s)

before_at-joined : (n i : Text) → IsPlain n → before_at (n ++ b'@' ∷ i) ≡ n
unfolding contains_rune
before_at-joined [] i h = refl
before_at-joined (c ∷ s) i h = ground (arith, before_at-joined s i)

joined_injective : (n i j : Text) → n ++ b'@' ∷ i ≡ n ++ b'@' ∷ j → i ≡ j
joined_injective [] i j e = cc
joined_injective (c ∷ s) i j e = joined_injective s i j (cc e)

contains-joined :
    (n i : Text) (is : List Text)
    → contains (map (λ j. n ++ b'@' ∷ j) is) (n ++ b'@' ∷ i) ≡ contains is i
contains-joined n i [] = refl
contains-joined n i (j ∷ is) = ground (arith, contains-joined n i is, joined_injective n i j)

joined-Distinct : (n : Text) (is : List Text) → Distinct is → Distinct (map (λ j. n ++ b'@' ∷ j) is)
joined-Distinct n [] d = tt
joined-Distinct n (i ∷ is) d = (contains-joined n i is ∙ d.0, joined-Distinct n is d.1)

address_of-joined :
    (n : Text) (count : ℕ) (is : List Text)
    → 2 ≤ count
    → map (address_of n count) is ≡ map (λ j. n ++ b'@' ∷ j) is
address_of-joined n count [] h = refl
address_of-joined n count (i ∷ is) h = ground (arith, address_of-joined n count is h)

pub addresses-Distinct :
    (n : Text) (is : List Text) → Distinct is → Distinct (map (address_of n (length is)) is)
addresses-Distinct n [] d = tt
addresses-Distinct n (i ∷ []) d = (refl, tt)
addresses-Distinct n (i ∷ j ∷ is) d =
    subst Distinct (sym (address_of-joined n (length (i ∷ j ∷ is)) (i ∷ j ∷ is) (omega arith)))
      (joined-Distinct n (i ∷ j ∷ is) d)

pub before_at-address :
    (n : Text) (count : ℕ) (is : List Text) (a : Text)
    → IsPlain n
    → contains (map (address_of n count) is) a ≡ true
    → before_at a ≡ n
before_at-address n count [] a h c = absurd cc
before_at-address n count (i ∷ is) a h c =
    ground (arith, before_at-address n count is a h, before_at-plain n h, before_at-joined n i h)
