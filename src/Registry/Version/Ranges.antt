-- ===== src/Registry/Version/Ranges.antt =====
-- registry/model.go, `Requirement.Matches`: the ranges that `^` and `~` stand for.
use pulp.Prelude.{
  ℕ, ◌+◌, ◌<◌, ◌≡◌, ◌↔◌, [], ◌∷◌, true, false, ok, arith, eqb, if◌then◌else◌, compare, Ordering,
  ◌≢◌,
}
use pulp.Prelude.Text.{Text, text_eq, trim_space}
use pulp.Prelude.Decimal.{u64_mod}
use pulp.Registry.Version.{
  Version, compare_pre, compare_version, release, caret_upper, next_u64, in_range, matches,
  parse_version, then_by,
}

-- Versions in the same line as a base: the first of its numbers that is not 0 is the same, and so
-- are those before it.
abbrev pub IsCompatible : Version → Version → Type 0
IsCompatible b v =
    if eqb b.major 0
    then (if eqb b.minor 0
        then (v.major ≡ 0) × (v.minor ≡ 0) × (v.patch ≡ b.patch)
        else (v.major ≡ 0) × (v.minor ≡ b.minor))
    else (v.major ≡ b.major)

-- The numbers of a version leave room for the next one in 64 bits.
pub record HasRoom (b : Version) : Type 0 where
  pub major : b.major + 1 < u64_mod
  pub minor : b.minor + 1 < u64_mod
  pub patch : b.patch + 1 < u64_mod

compare_pre-nil : compare_pre [] [] ≡ Ordering.eq
unfolding compare_pre
compare_pre-nil = ground arith

-- Against a release the prerelease of a release does not count.
compare_version-release :
    (v : Version) (a b c : ℕ)
    → v.pre ≡ []
    → compare_version v (release a b c)
      ≡ then_by (compare v.major a) (then_by (compare v.minor b) (compare v.patch c))
unfolding compare_version
compare_version-release v a b c h = ground (arith, compare_pre-nil)

numbers-le :
    (v b : Version)
    → compare_version v b ≢ Ordering.lt
    → then_by
        (compare v.major b.major)
        (then_by (compare v.minor b.minor) (compare v.patch b.patch))
      ≢ Ordering.lt
unfolding compare_version
numbers-le v b h e = ground (arith)

in_range-caret :
    (b v : Version)
    → HasRoom b
    → (in_range b (caret_upper b) v ≡ true)
      ↔ ((v.pre ≡ []) × (compare_version v b ≢ Ordering.lt) × IsCompatible b v)
unfolding in_range
in_range-caret b v r = (
  λ h. ground (
    arith,
    compare_version-release v 0 0 (next_u64 b.patch),
    compare_version-release v 0 (next_u64 b.minor) 0,
    compare_version-release v (next_u64 b.major) 0 0,
    numbers-le v b,
    r.major,
    r.minor,
    r.patch,
  ),
  λ (n, ge, c). ground (
    arith,
    compare_version-release v 0 0 (next_u64 b.patch),
    compare_version-release v 0 (next_u64 b.minor) 0,
    compare_version-release v (next_u64 b.major) 0 0,
    numbers-le v b,
    r.major,
    r.minor,
    r.patch,
  ),
)

-- A caret requirement asks for the releases at or above its base that are compatible with it.
pub matches_caret :
    (s : Text) (b v : Version)
    → parse_version s ≡ ok b
    → trim_space (b'^' ∷ s) ≡ b'^' ∷ s
    → HasRoom b
    → (matches (b'^' ∷ s) v ≡ true)
      ↔ ((v.pre ≡ []) × (compare_version v b ≢ Ordering.lt) × IsCompatible b v)
unfolding matches
matches_caret s b v p t r = rw (t, matches) (rw p (in_range-caret b v r))

in_range-tilde :
    (b v : Version)
    → HasRoom b
    → (in_range b (release b.major (next_u64 b.minor) 0) v ≡ true) ↔ (
        (v.pre ≡ [])
        × (compare_version v b ≢ Ordering.lt)
        × (v.major ≡ b.major)
        × (v.minor ≡ b.minor))
unfolding in_range
in_range-tilde b v r = (
  λ h.
      ground
        (arith, compare_version-release v b.major (next_u64 b.minor) 0, numbers-le v b, r.minor),
  λ (n, ge, c, d).
      ground
        (arith, compare_version-release v b.major (next_u64 b.minor) 0, numbers-le v b, r.minor),
)

-- A tilde requirement asks for the releases at or above its base with its major and minor numbers.
pub matches_tilde :
    (s : Text) (b v : Version)
    → parse_version s ≡ ok b
    → trim_space (b'~' ∷ s) ≡ b'~' ∷ s
    → HasRoom b
    → (matches (b'~' ∷ s) v ≡ true) ↔ (
        (v.pre ≡ [])
        × (compare_version v b ≢ Ordering.lt)
        × (v.major ≡ b.major)
        × (v.minor ≡ b.minor))
unfolding matches
matches_tilde s b v p t r = rw (t, matches) (rw p (in_range-tilde b v r))

in_range-wraps : (b v : Version) → b.major + 1 ≡ u64_mod → in_range b (caret_upper b) v ≡ false
unfolding in_range
in_range-wraps b v r =
    ground
      (arith, compare_version-release v 0 0 0, compare_version-release v (next_u64 b.major) 0 0)

-- A caret requirement on the largest major number is met by no version, not even by its own base:
-- the next major number wraps to 0.
pub matches_caret_wraps :
    (s : Text) (b v : Version)
    → parse_version s ≡ ok b
    → trim_space (b'^' ∷ s) ≡ b'^' ∷ s
    → b.major + 1 ≡ u64_mod
    → matches (b'^' ∷ s) v ≡ false
unfolding matches
matches_caret_wraps s b v p t r = rw (t, matches) (rw p (in_range-wraps b v r))
