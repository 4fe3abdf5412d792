-- ===== src/Tests/Versions.antt =====
-- registry/model.go.
use pulp.Prelude.{◌≡◌, ◌≢◌, refl, ◌↔◌, [], ok, true, false, arith, Ordering}
use pulp.Prelude.Text.{codes, trim_space, split, contains_rune}
use pulp.Prelude.Decimal.{parse_uint}
use pulp.Registry.Version.{
  Version, compare_version, parse_version, matches, has_leading_zero, is_number, cut_dash,
  check_pre, check_identifiers, check_identifier, all_pre_chars, is_pre_char,
}
use pulp.Registry.Version.Ranges.{HasRoom, IsCompatible, matches_caret, matches_caret_wraps}

abbrev base : Version
base = record { major = 1; minor = 4; patch = 2; pre = [] }

abbrev later : Version
later = record { major = 1; minor = 4; patch = 7; pre = [] }

abbrev preview : Version
preview = record { major = 1; minor = 5; patch = 0; pre = codes "rc.2" }

abbrev last_major : Version
last_major = record { major = 18446744073709551615; minor = 0; patch = 0; pre = [] }

base_parsed : parse_version (codes "1.4.2") ≡ ok base
unfolding parse_version parse_uint trim_space split has_leading_zero cut_dash check_pre
    contains_rune
base_parsed = refl

preview_parsed : parse_version (codes "v1.5.0-rc.2") ≡ ok preview
unfolding parse_version parse_uint trim_space split has_leading_zero cut_dash check_pre
    contains_rune check_identifiers check_identifier is_number all_pre_chars is_pre_char
preview_parsed = refl

last_parsed : parse_version (codes "18446744073709551615.0.0") ≡ ok last_major
unfolding parse_version parse_uint trim_space split has_leading_zero cut_dash check_pre
    contains_rune
last_parsed = refl

caret_trimmed : trim_space (codes "^1.4.2") ≡ codes "^1.4.2"
unfolding trim_space
caret_trimmed = refl

tilde_trimmed : trim_space (codes "~1.4.2") ≡ codes "~1.4.2"
unfolding trim_space
tilde_trimmed = refl

last_trimmed : trim_space (codes "^18446744073709551615.0.0") ≡ codes "^18446744073709551615.0.0"
unfolding trim_space
last_trimmed = refl

base_room : HasRoom base
base_room = record { major = ground arith; minor = ground arith; patch = ground arith }

matches_caret_example :
    (matches (codes "^1.4.2") later ≡ true)
    ↔ ((later.pre ≡ []) × (compare_version later base ≢ Ordering.lt) × IsCompatible base later)
matches_caret_example = matches_caret (codes "1.4.2") base later base_parsed caret_trimmed base_room

matches_caret_wraps_example : matches (codes "^18446744073709551615.0.0") last_major ≡ false
matches_caret_wraps_example =
    matches_caret_wraps (codes "18446744073709551615.0.0") last_major last_major last_parsed
      last_trimmed refl
