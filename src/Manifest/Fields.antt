-- ===== src/Manifest/Fields.antt =====
-- The helpers of internal/manifest/manifest.go and digest.go on single fields. strings.ToLower is a
-- parameter.
pub mod Exact
pub mod Digests
use pulp.Prelude.{
  ℕ, suc, ◌+◌, ◌*◌, ◌-◌, ◌/◌, ◌%◌, ◌≡◌, Bool, true, false, not, ◌&&◌, ◌||◌, List, [], ◌∷◌, Option,
  none, some, Result, ok, err, fail_if, or_fail, ◌>>=◌, ◌>>◌, ◌==◌, contains, if◌then◌else◌, ltb,
  leb, eqb, any, map, length,
}
use pulp.Prelude.Text.{Text, text_eq, codes, trim_space, is_empty}

pub data FieldError : Type 0 where
  empty_provider spaced_provider bad_qualifier : ℕ → FieldError
  repeated_provider : Text → FieldError
  digest_required bad_digest : FieldError
  group_without_mode no_group no_abi spaced_group : FieldError
  unknown_mode : Text → FieldError

-- The loop of `dedupe`, behind the elements that it has kept.
unfoldable pub dedupe_from : List Text → List Text → List Text
dedupe_from seen [] = []
dedupe_from seen (s ∷ rest) = elim (is_empty s || contains seen s) [
  | true ↦ dedupe_from seen rest
  | false ↦ s ∷ dedupe_from (s ∷ seen) rest
]

unfoldable pub dedupe : List Text → List Text
unfolding dedupe_from
dedupe xs = dedupe_from [] xs

unfoldable pub lower_all : (Text → Text) → List Text → List Text
lower_all to_lower xs = map (λ s. to_lower (trim_space s)) xs

-- `strings.IndexFunc(s, func(r rune) bool { return r <= ' ' }) >= 0`
unfoldable pub has_space : Text → Bool
has_space s = any (λ c. leb c b' ') s

-- strings.Count(s, "::")
unfoldable pub count_qualifiers : Text → ℕ
count_qualifiers [] = 0
count_qualifiers (c ∷ []) = 0
count_qualifiers (c ∷ d ∷ s) = elim (eqb c b':' && eqb d b':') [
  | true ↦ suc (count_qualifiers s)
  | false ↦ count_qualifiers (d ∷ s)
]

abbrev cons_head : ℕ → Option (Text × Text) → Option (Text × Text)
cons_head c none = none
cons_head c (some (s, t)) = some (c ∷ s, t)

-- strings.Cut(s, "::")
unfoldable pub cut_qualifier : Text → Option (Text × Text)
cut_qualifier [] = none
cut_qualifier (c ∷ []) = none
cut_qualifier (c ∷ d ∷ s) = elim (eqb c b':' && eqb d b':') [
  | true ↦ some ([], s)
  | false ↦ cons_head c (cut_qualifier (d ∷ s))
]

abbrev is_lower : ℕ → Bool
is_lower c = leb b'a' c && leb c b'z'

abbrev is_tail : ℕ → Bool
is_tail c = is_lower c || (leb b'0' c && leb c b'9') || eqb c b'_' || eqb c b'-'

-- `hostIdentifier`
unfoldable pub is_identifier : Text → Bool
is_identifier [] = false
is_identifier (c ∷ s) = is_lower c && not (any (λ d. not (is_tail d)) s) && leb (length s) 62

unfoldable pub bad_application : Text → Bool
unfolding cut_qualifier is_identifier
bad_application s = elim (cut_qualifier s) [
  | none ↦ false
  | some (application, provider) ↦ not (is_identifier application) || is_empty provider
]

-- The tests of `normalizeHostConsumes` on the value at an index, behind those that it has seen.
unfoldable pub check_provider : ℕ → List Text → Text → Text → Result FieldError (Unit {0})
unfolding has_space count_qualifiers bad_application
check_provider index seen value normalized = do
  fail_if (is_empty normalized) (empty_provider index)
  fail_if (not (normalized == value) || has_space normalized) (spaced_provider index)
  fail_if (ltb 1 (count_qualifiers normalized)) (bad_qualifier index)
  fail_if (bad_application normalized) (bad_qualifier index)
  fail_if (contains seen normalized) (repeated_provider normalized)

unfoldable pub check_providers : ℕ → List Text → List Text → Result FieldError (List Text)
unfolding check_provider
check_providers index seen [] = ok []
check_providers index seen (value ∷ rest) = do
  check_provider index seen value (trim_space value)
  out ← check_providers (suc index) (trim_space value ∷ seen) rest
  ok (trim_space value ∷ out)

unfoldable pub normalize_host_consumes : List Text → Result FieldError (List Text)
unfolding check_providers
normalize_host_consumes values = check_providers 0 [] values

pub record Execution : Type 0 where
  pub mode : Text
  pub group : Text
  pub abi : Text

abbrev pub isolated : Text
isolated = codes "isolated"

abbrev pub fusible : Text
fusible = codes "fusible"

abbrev execution_mode : (Text → Text) → Text → Text
execution_mode to_lower mode =
    if is_empty (to_lower (trim_space mode)) then isolated else to_lower (trim_space mode)

-- The two cases of the switch on the mode.
unfoldable pub check_isolated : Text → Text → Text → Result FieldError Execution
check_isolated mode group abi = do
  fail_if (not (is_empty group) || not (is_empty abi)) group_without_mode
  ok (record { mode = mode; group = group; abi = abi })

unfoldable pub check_fusible : Text → Text → Text → Result FieldError Execution
unfolding has_space
check_fusible mode group abi = do
  fail_if (is_empty group) no_group
  fail_if (is_empty abi) no_abi
  fail_if (has_space group) spaced_group
  ok (record { mode = mode; group = group; abi = abi })

unfoldable pub check_execution : Text → Text → Text → Result FieldError Execution
unfolding check_isolated check_fusible
check_execution mode group abi =
    if mode == isolated
    then check_isolated mode group abi
    else if mode == fusible
    then check_fusible mode group abi
    else err (unknown_mode mode)

unfoldable pub normalize_execution : (Text → Text) → Execution → Result FieldError Execution
unfolding check_execution
normalize_execution to_lower r =
    check_execution (execution_mode to_lower r.mode) (trim_space r.group) (trim_space r.abi)

abbrev pub hex_value : ℕ → Option ℕ
hex_value c =
    if leb b'0' c && leb c b'9'
    then some (c - b'0')
    else if leb b'a' c && leb c b'f'
    then some (c - b'a' + 10)
    else if leb b'A' c && leb c b'F'
    then some (c - b'A' + 10)
    else none

abbrev pub hex_digit : ℕ → ℕ
hex_digit n = if ltb n 10 then b'0' + n else b'a' + (n - 10)

abbrev pub cons_byte : Option ℕ → Option ℕ → Option (List ℕ) → Option (List ℕ)
cons_byte (some x) (some y) (some rest) = some ((x * 16 + y) ∷ rest)
cons_byte _ _ _ = none

-- hex.DecodeString
unfoldable pub decode_hex : Text → Option (List ℕ)
decode_hex [] = some []
decode_hex (c ∷ []) = none
decode_hex (c ∷ d ∷ s) = cons_byte (hex_value c) (hex_value d) (decode_hex s)

-- hex.EncodeToString
unfoldable pub encode_hex : List ℕ → Text
encode_hex [] = []
encode_hex (n ∷ rest) = hex_digit (n / 16) ∷ hex_digit (n % 16) ∷ encode_hex rest

-- Go's `len(decoded) != sha256.Size`, and the canonical form.
unfoldable pub normalize_sha256 : Text → Result FieldError Text
unfolding decode_hex encode_hex
normalize_sha256 value = do
  fail_if (is_empty (trim_space value)) digest_required
  decoded ← or_fail (decode_hex (trim_space value)) bad_digest
  fail_if (not (eqb (length decoded) 32)) bad_digest
  ok (encode_hex decoded)
