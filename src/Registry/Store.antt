-- ===== src/Registry/Store.antt =====
-- registry/model.go and registry/manifest.go: module names, releases and locks, and the interface `Store`.
-- Digests are a parameter: `Sum` is SHA-256, and a manifest's canonical bytes are made by encoding/json.
use pulp.Prelude.{
  ℕ, Bool, true, false, not, ◌&&◌, ◌||◌, List, [], ◌∷◌, Option, none, some, ok, err, eqb, ltb, leb,
  Eq, if◌then◌else◌,
}
use pulp.Prelude.Text.{Text, text_eq, trim_space, is_empty, byte_len}
use pulp.Prelude.Decimal.{is_digit}
use pulp.Registry.Version.{Version, parse_version}

pub record Dependency : Type 0 where
  pub id : Text
  pub requirement : Text

-- The digests of SHA-256 with their texts; a blob is what a store gives for a digest.
pub record Digests : Type 1 where
  pub Digest : Type 0
  pub Blob : Type 0
  pub digest_eq : Eq Digest
  pub sum : Blob → Digest
  pub digest_string : Digest → Text
  pub parse_digest : Text → Option Digest

module _ (D : Digests) where
  pub record Artifact : Type 0 where
    pub target : Text
    pub digest : D.Digest

  -- The fields of a manifest that a resolution reads, with its canonical bytes.
  pub record Manifest : Type 0 where
    pub id : Text
    pub version : Version
    pub dependencies : List Dependency
    pub artifacts : List Artifact
    pub canonical : D.Blob

  pub record Store : Type 0 where
    pub versions : Text → Option (List Version)
    pub manifest : Text → Version → Option Manifest
    pub blob : D.Digest → Option D.Blob

pub record LockedDependency : Type 0 where
  pub id : Text
  pub version : Text

pub record LockedModule : Type 0 where
  pub id : Text
  pub version : Text
  pub manifest_digest : Text
  pub artifact_digest : Text
  pub dependencies : List LockedDependency

pub record Lock : Type 0 where
  pub schema_version : ℕ
  pub target : Text
  pub roots : List Dependency
  pub modules : List LockedModule

unfoldable pub is_id_end : ℕ → Bool
is_id_end c = (leb b'a' c && leb c b'z') || is_digit c

unfoldable pub is_id_char : ℕ → Bool
unfolding is_id_end
is_id_char c = is_id_end c || eqb c b'.' || eqb c b'_' || eqb c b'/' || eqb c b'-'

-- The characters behind the first one: of the class, the last one also fit for an end.
unfoldable pub is_id_tail : Text → Bool
unfolding is_id_char
is_id_tail [] = true
is_id_tail (c ∷ []) = is_id_end c
is_id_tail (c ∷ d ∷ s) = is_id_char c && is_id_tail (d ∷ s)

-- moduleIDPattern
unfoldable pub is_module_id : Text → Bool
unfolding is_id_tail
is_module_id [] = false
is_module_id (c ∷ s) = is_id_end c && is_id_tail s

-- strings.Contains of a character twice.
unfoldable pub has_double : ℕ → Text → Bool
has_double x [] = false
has_double x (c ∷ []) = false
has_double x (c ∷ d ∷ s) = (eqb c x && eqb d x) || has_double x (d ∷ s)

unfoldable pub parse_module_id : Text → Option Text
unfolding is_module_id has_double
parse_module_id text =
    let s = trim_space text in
    if is_empty s
      || ltb 255 (byte_len s)
      || not (is_module_id s)
      || has_double b'.' s
      || has_double b'/' s
    then none
    else some s

unfoldable pub is_version : Text → Bool
is_version s = elim (parse_version s) [ ok _ ↦ true | err _ ↦ false ]

-- `^` or `~`, then a version; or a version, or nothing.
unfoldable pub valid_requirement : Text → Bool
unfolding is_version
valid_requirement [] = true
valid_requirement (c ∷ s) =
    if eqb c b'*' && is_empty s
    then true
    else if eqb c b'^' || eqb c b'~'
    then is_version s
    else is_version (c ∷ s)
