-- ===== src/Manifest/Fields/Digests.antt =====
-- internal/manifest/digest.go: digests and the modes of execution.
use pulp.Prelude.{
  ℕ, ◌+◌, ◌*◌, ◌/◌, ◌%◌, ◌≤◌, ◌<◌, ◌≡◌, ◌≢◌, ◌⊎◌, refl, false, not, List, [], ◌∷◌, Option, none,
  some, ok, eqb, length, arith, All, fail_if-passed, >>=_ok, or_fail_ok, ok_eq,
}
use pulp.Prelude.Text.{Text, text_eq, trim_space}
use pulp.Manifest.Fields.{
  has_space, Execution, isolated, fusible, check_isolated, check_fusible, check_execution,
  normalize_execution, decode_hex, encode_hex, normalize_sha256, hex_value, hex_digit, cons_byte,
}

-- A mode with what it needs.
abbrev pub IsPlaced : Execution → Type 0
IsPlaced e =
    ((e.mode ≡ isolated) × (e.group ≡ []) × (e.abi ≡ []))
    ⊎ ((e.mode ≡ fusible) × (e.group ≢ []) × (e.abi ≢ []) × (has_space e.group ≡ false))

check_execution-IsPlaced :
    (mode group abi : Text) (e : Execution) → check_execution mode group abi ≡ ok e → IsPlaced e
unfolding check_execution check_isolated check_fusible
check_execution-IsPlaced mode group abi e h = ground arith

pub normalize_execution-IsPlaced :
    (to_lower : Text → Text) (raw e : Execution)
    → normalize_execution to_lower raw ≡ ok e
    → IsPlaced e
unfolding normalize_execution
normalize_execution-IsPlaced to_lower raw e h =
    check_execution-IsPlaced _ (trim_space raw.group) (trim_space raw.abi) e h

-- `0` to `9` or `a` to `f`.
abbrev pub IsLowerHex : ℕ → Type 0
IsLowerHex c = ((b'0' ≤ c) × (c ≤ b'9')) ⊎ ((b'a' ≤ c) × (c ≤ b'f'))

hex_digit-IsLowerHex : (n : ℕ) → n < 16 → IsLowerHex (hex_digit n)
hex_digit-IsLowerHex n h = ground arith

hex_value_bound : (c n : ℕ) → hex_value c ≡ some n → n < 16
hex_value_bound c n h = ground arith

hex_value-hex_digit : (n : ℕ) → n < 16 → hex_value (hex_digit n) ≡ some n
hex_value-hex_digit n h = ground arith

cons_byte-some :
    (a b : Option ℕ) (r : Option (List ℕ)) (out : List ℕ)
    → cons_byte a b r ≡ some out
    → (x : ℕ) × (y : ℕ) × (rest : List ℕ) × (a ≡ some x)
      × (b ≡ some y)
      × (r ≡ some rest)
      × (out ≡ (x * 16 + y) ∷ rest)
cons_byte-some none b r out h = absurd cc
cons_byte-some (some x) none r out h = absurd cc
cons_byte-some (some x) (some y) none out h = absurd cc
cons_byte-some (some x) (some y) (some rest) out h = (x, y, rest, refl, refl, refl, cc)

decode_hex_bound :
    (s : Text) (bytes : List ℕ) → decode_hex s ≡ some bytes → All (λ n. n < 256) bytes
unfolding decode_hex
decode_hex_bound [] bytes h = ground arith
decode_hex_bound (c ∷ []) bytes h = absurd (ground arith)
decode_hex_bound (c ∷ d ∷ s) bytes h =
    let (x, y, rest, first, second, done, e) = cons_byte-some _ _ _ bytes h in
    rw e (
      omega (arith, hex_value_bound c x first, hex_value_bound d y second),
      decode_hex_bound s rest done,
    )

encode_hex-IsLowerHex :
    (bytes : List ℕ) → All (λ n. n < 256) bytes → All IsLowerHex (encode_hex bytes)
unfolding encode_hex
encode_hex-IsLowerHex [] h = tt
encode_hex-IsLowerHex (n ∷ rest) h = (
  hex_digit-IsLowerHex (n / 16) (omega (arith, h.0)),
  (hex_digit-IsLowerHex (n % 16) (omega arith), encode_hex-IsLowerHex rest h.1),
)

length-encode_hex : (bytes : List ℕ) → length (encode_hex bytes) ≡ 2 * length bytes
unfolding encode_hex
length-encode_hex [] = refl
length-encode_hex (n ∷ rest) = omega (arith, length-encode_hex rest)

decode_hex-encode_hex :
    (bytes : List ℕ) → All (λ n. n < 256) bytes → decode_hex (encode_hex bytes) ≡ some bytes
unfolding decode_hex encode_hex
decode_hex-encode_hex [] h = refl
decode_hex-encode_hex (n ∷ rest) h =
    rw
      (
        hex_value-hex_digit (n / 16) (omega (arith, h.0)),
        hex_value-hex_digit (n % 16) (omega arith),
      )
      (rw (decode_hex-encode_hex rest h.1) (ground arith))

-- A digest that passes is 64 lower-case hexadecimal characters, which decode to the same bytes.
pub record IsDigest (value digest : Text) : Type 0 where
  pub characters : length digest ≡ 64
  pub lower : All IsLowerHex digest
  pub same_bytes : decode_hex digest ≡ decode_hex (trim_space value)

not-eqb-eq : (m n : ℕ) → not (eqb m n) ≡ false → m ≡ n
not-eqb-eq m n h = ground arith

normalize_sha256-encoded :
    (value digest : Text)
    → normalize_sha256 value ≡ ok digest
    → (bytes : List ℕ) × (decode_hex (trim_space value) ≡ some bytes)
      × (length bytes ≡ 32)
      × (digest ≡ encode_hex bytes)
unfolding normalize_sha256
normalize_sha256-encoded value digest h =
    let (_, h1) = fail_if-passed _ _ _ digest h in
    let (bytes, decoded, h2) = >>=_ok _ _ digest h1 in
    let (size, e) = fail_if-passed _ _ _ digest h2 in
    (
      bytes,
      or_fail_ok _ _ bytes decoded,
      not-eqb-eq (length bytes) 32 size,
      ok_eq digest (encode_hex bytes) _ e refl,
    )

pub normalize_sha256-IsDigest :
    (value digest : Text) → normalize_sha256 value ≡ ok digest → IsDigest value digest
normalize_sha256-IsDigest value digest h =
    let (bytes, decoded, size, e) = normalize_sha256-encoded value digest h in
    let small = decode_hex_bound (trim_space value) bytes decoded in
    record {
      characters = rw e (omega (arith, length-encode_hex bytes, size));
      lower = rw e (encode_hex-IsLowerHex bytes small);
      same_bytes = rw (e, decoded) (decode_hex-encode_hex bytes small);
    }
