-- ===== src/Registry/Version.antt =====
-- registry/model.go: versions, their order, and the requirements on them.
pub mod Order
pub mod Ranges
use pulp.Prelude.{
  ℕ, suc, ◌+◌, ◌%◌, ◌≡◌, Bool, true, false, not, ◌&&◌, ◌||◌, List, [], ◌∷◌, ◌++◌, Option, none,
  some, Result, ok, err, fail_if, or_fail, ◌>>=◌, ◌>>◌, ◌==◌, eqb, ltb, leb, if◌then◌else◌, length,
  compare, Ordering,
}
use pulp.Prelude.Text.{
  Text, text_eq, codes, trim_space, is_empty, contains_rune, split, compare_text, trim_prefix,
}
use pulp.Prelude.Decimal.{decimal, is_digit, parse_uint, u64_mod}

pub record Version : Type 0 where
  pub major : ℕ
  pub minor : ℕ
  pub patch : ℕ
  pub pre : Text

pub data VersionError : Type 0 where
  build_metadata invalid_version numeric_prerelease not_three_parts : VersionError

unfoldable pub is_pre_char : ℕ → Bool
is_pre_char c = eqb c b'-' || is_digit c || (leb b'A' c && leb c b'Z') || (leb b'a' c && leb c b'z')

unfoldable pub all_pre_chars : Text → Bool
unfolding is_pre_char
all_pre_chars [] = true
all_pre_chars (c ∷ s) = is_pre_char c && all_pre_chars s

-- `len(s) > 1 && s[0] == '0'`
unfoldable pub has_leading_zero : Text → Bool
has_leading_zero [] = false
has_leading_zero (c ∷ []) = false
has_leading_zero (c ∷ _ ∷ _) = eqb c b'0'

unfoldable pub is_number : Text → Bool
is_number s = elim (parse_uint s) [ none ↦ false | some _ ↦ true ]

unfoldable pub check_identifier : Text → Result VersionError (Unit {0})
unfolding all_pre_chars has_leading_zero is_number
check_identifier s = do
  fail_if (is_empty s) invalid_version
  fail_if (not (all_pre_chars s)) invalid_version
  fail_if (has_leading_zero s && is_number s) numeric_prerelease

unfoldable pub check_identifiers : List Text → Result VersionError (Unit {0})
unfolding check_identifier
check_identifiers [] = ok tt
check_identifiers (s ∷ rest) = do check_identifier s; check_identifiers rest

-- `strings.IndexByte(main, '-')` and the two slices round it.
unfoldable pub cut_dash : Text → Text × Option Text
cut_dash [] = ([], none)
cut_dash (c ∷ s) =
    let (before, after) = cut_dash s in if eqb c b'-' then ([], some s) else (c ∷ before, after)

unfoldable pub check_pre : Option Text → Result VersionError Text
unfolding check_identifiers
check_pre none = ok []
check_pre (some pre) = do
  fail_if (is_empty pre) invalid_version
  check_identifiers (split b'.' pre)
  ok pre

unfoldable pub parse_part : Text → Result VersionError ℕ
unfolding has_leading_zero
parse_part s = do
  fail_if (is_empty s || has_leading_zero s) invalid_version
  or_fail (parse_uint s) invalid_version

parse_parts : Text → List Text → Result VersionError Version
unfolding parse_part
parse_parts pre (a ∷ b ∷ c ∷ []) = do
  major ← parse_part a
  minor ← parse_part b
  patch ← parse_part c
  ok (record { major = major; minor = minor; patch = patch; pre = pre })
parse_parts pre _ = err not_three_parts

unfoldable pub parse_version : Text → Result VersionError Version
unfolding cut_dash check_pre parse_parts
parse_version text = do
  let s = trim_space (trim_prefix b'v' text)
  fail_if (contains_rune b'+' s) build_metadata
  pre ← check_pre (cut_dash s).1
  parse_parts pre (split b'.' (cut_dash s).0)

unfoldable pub version_string : Version → Text
version_string v =
    decimal v.major ++ b'.' ∷ (decimal v.minor ++ b'.' ∷ (decimal v.patch ++ suffix v.pre))
  where
    suffix : Text → Text
    suffix pre = if is_empty pre then [] else b'-' ∷ pre

-- Two prerelease identifiers that differ: a number is below a word, numbers compare as numbers and
-- words as texts.
unfoldable pub compare_identifier : Text → Text → Ordering
compare_identifier a b = elim (parse_uint a) [
  | some m ↦ elim (parse_uint b) [
    | some n ↦ if ltb m n then Ordering.lt else Ordering.gt
    | none ↦ Ordering.lt
  ]
  | none ↦ elim (parse_uint b) [ some _ ↦ Ordering.gt | none ↦ compare_text a b ]
]

-- The loop over the identifiers of two prereleases that differ, and the lengths behind it.
unfoldable pub compare_identifiers : List Text → List Text → Ordering
unfolding compare_identifier
compare_identifiers [] [] = Ordering.gt
compare_identifiers [] (_ ∷ _) = Ordering.lt
compare_identifiers (_ ∷ _) [] = Ordering.gt
compare_identifiers (a ∷ more) (b ∷ others) =
    let rest = compare_identifiers more others in if a == b then rest else compare_identifier a b

unfoldable pub compare_pre : Text → Text → Ordering
unfolding compare_identifiers
compare_pre p q =
    if p == q
    then Ordering.eq
    else if is_empty p
    then Ordering.gt
    else if is_empty q
    then Ordering.lt
    else compare_identifiers (split b'.' p) (split b'.' q)

-- `if a != b { … }`, then the next field.
abbrev pub then_by : Ordering → Ordering → Ordering
then_by Ordering.eq next = next
then_by Ordering.lt _ = Ordering.lt
then_by Ordering.gt _ = Ordering.gt

unfoldable pub compare_version : Version → Version → Ordering
compare_version v w = then_by (compare v.major w.major) (
    then_by (compare v.minor w.minor) (then_by (compare v.patch w.patch) (compare_pre v.pre w.pre)))

abbrev pub release : ℕ → ℕ → ℕ → Version
release major minor patch = record { major = major; minor = minor; patch = patch; pre = [] }

-- `x + 1` on uint64.
abbrev pub next_u64 : ℕ → ℕ
next_u64 n = (n + 1) % u64_mod

abbrev pub caret_upper : Version → Version
caret_upper b =
    if eqb b.major 0
    then (if eqb b.minor 0 then release 0 0 (next_u64 b.patch) else release 0 (next_u64 b.minor) 0)
    else release (next_u64 b.major) 0 0

abbrev pub is_lt : Ordering → Bool
is_lt Ordering.lt = true
is_lt Ordering.eq = false
is_lt Ordering.gt = false

abbrev pub is_eq : Ordering → Bool
is_eq Ordering.lt = false
is_eq Ordering.eq = true
is_eq Ordering.gt = false

-- `v.Compare(b) >= 0 && v.Compare(upper) < 0 && v.Pre == ""`
unfoldable pub in_range : Version → Version → Version → Bool
in_range b upper v =
    not (is_lt (compare_version v b)) && is_lt (compare_version v upper) && is_empty v.pre

-- What a requirement asks for, by the first character of its text.
matches_parsed : (Version → Bool) → Result VersionError Version → Bool
matches_parsed test (err _) = false
matches_parsed test (ok b) = test b

-- The tests on the trimmed text of a requirement.
matches_text : Text → Version → Bool
unfolding matches_parsed
matches_text [] v = is_empty v.pre
matches_text (c ∷ s) v =
    if eqb c b'*' && is_empty s
    then is_empty v.pre
    else if eqb c b'^'
    then matches_parsed (λ b. in_range b (caret_upper b) v) (parse_version s)
    else if eqb c b'~'
    then matches_parsed (λ b. in_range b (release b.major (next_u64 b.minor) 0) v) (parse_version s)
    else matches_parsed (λ b. is_eq (compare_version v b)) (parse_version (c ∷ s))

unfoldable pub matches : Text → Version → Bool
unfolding matches_text
matches requirement v = matches_text (trim_space requirement) v
