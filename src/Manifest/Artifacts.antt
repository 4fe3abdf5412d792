-- ===== src/Manifest/Artifacts.antt =====
-- internal/manifest: the artifact of an execution unit, `resolveAppRelativePath` of app.go, `Load` of
-- manifest.go, `verifyWASMDigest` of digest.go, and how `buildExecutionUnits` calls them. What package
-- filepath, the files and the TOML decoder answer is a parameter.
use pulp.Prelude.{
  Bool, true, false, not, ◌||◌, List, [], ◌∷◌, Option, Result, ok, fail_if, or_fail, ◌>>=◌, ◌>>◌,
  ◌==◌, ◌&&◌, eqb, if◌then◌else◌, select,
}
use pulp.Prelude.Text.{Text, text_eq, codes, trim_space, is_empty}
use pulp.Manifest.Cells.{CellError, CellSpec, Platform, RawCell, lift, normalize}

-- filepath.Abs; the manifest that the file at a path decodes to, with the names of the fields that the
-- decoder left; and the hexadecimal digest of the file at a path.
pub record Sources (Other : Type 0) : Type 0 where
  pub platform : Platform
  pub absolute : Text → Option Text
  pub decoded : Text → Option (RawCell Other × List Text)
  pub digest : Text → Option Text

pub data ArtifactError : Type 0 where
  path_required path_absolute bad_path unreadable : ArtifactError
  unknown_fields : List Text → ArtifactError
  invalid : CellError → ArtifactError
  pin_required wasm_unreadable : ArtifactError
  wrong_digest : Text → Text → ArtifactError

-- strings.HasPrefix
abbrev has_prefix : Text → Text → Bool
has_prefix [] s = true
has_prefix (c ∷ p) [] = false
has_prefix (c ∷ p) (d ∷ s) = eqb c d && has_prefix p s

-- The fields that are not in the free form of the configuration.
unfoldable pub outside_config : List Text → List Text
outside_config names =
    select (λ n. not (n == codes "config" || has_prefix (codes "config.") n)) names

module _ {Other : Type 0} where
  unfoldable pub resolve_app_relative_path : Sources Other → Text → Text → Result ArtifactError Text
  resolve_app_relative_path o base_dir relative = do
    fail_if (is_empty (trim_space relative)) path_required
    fail_if (o.platform.is_abs (trim_space relative)) path_absolute
    or_fail (o.absolute (o.platform.join base_dir (trim_space relative))) bad_path

  -- `Load` behind the decoder.
  unfoldable pub check_decoded :
      Platform → RawCell Other → List Text → Text → Result ArtifactError (CellSpec Other)
  unfolding outside_config
  check_decoded p r undecoded path = do
    fail_if (not (is_empty (outside_config undecoded))) (unknown_fields (outside_config undecoded))
    lift invalid (normalize p r path)

  unfoldable pub load_cell : Sources Other → Text → Result ArtifactError (CellSpec Other)
  unfolding check_decoded
  load_cell o path = do
    manifest_path ← or_fail (o.absolute path) bad_path
    decoded ← or_fail (o.decoded manifest_path) unreadable
    check_decoded o.platform decoded.0 decoded.1 manifest_path

  -- `verifyWASMDigest` of a cell that has a pin.
  unfoldable pub compare_digest : Sources Other → CellSpec Other → Result ArtifactError (Unit {0})
  compare_digest o spec = do
    actual ← or_fail (o.digest spec.wasm_path) wasm_unreadable
    fail_if (not (actual == spec.wasm_sha256)) (wrong_digest actual spec.wasm_sha256)

  unfoldable pub verify_wasm_digest :
      Sources Other → CellSpec Other → Bool → Result ArtifactError (Unit {0})
  unfolding compare_digest
  verify_wasm_digest o spec required =
      if is_empty spec.wasm_sha256 then fail_if required pin_required else compare_digest o spec

  -- The calls for one unit.
  unfoldable pub load_artifact :
      Sources Other → Text → Bool → Text → Result ArtifactError (CellSpec Other)
  unfolding resolve_app_relative_path load_cell verify_wasm_digest
  load_artifact o base_dir required relative = do
    path ← resolve_app_relative_path o base_dir relative
    spec ← load_cell o path
    verify_wasm_digest o spec required
    ok spec
