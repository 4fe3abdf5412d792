-- ===== src/Manifest/Units.antt =====
-- internal/manifest/app.go, `buildExecutionUnits`; `Manifest.Artifacts` has the loading of an artifact.
pub mod Disjoint
use pulp.Prelude.{
  ℕ, suc, ◌≡◌, Bool, true, false, not, List, [], ◌∷◌, Option, none, some, Result, ok, err, fail_if,
  or_fail, ◌>>=◌, ◌>>◌, contains, ltb, length,
}
use pulp.Prelude.Text.{Text, text_eq, trim_space, is_empty}
use pulp.Prelude.Dict.{Dict, lookup, insert}
use pulp.Dependency.Plan.{has, value_at}
use pulp.Manifest.Fields.{dedupe}
use pulp.Manifest.Cells.{CellSpec, lift}
use pulp.Manifest.Artifacts.{Sources, ArtifactError, load_artifact}
use pulp.Manifest.Sets.{lookup_cell}

pub record RawUnit : Type 0 where
  pub name : Text
  pub artifact : Text
  pub members : List Text

pub record ExecutionUnit (Other : Type 0) : Type 0 where
  pub name : Text
  pub artifact : CellSpec Other
  pub members : List Text

pub data UnitError : Type 0 where
  name_required : ℕ → UnitError
  bad_artifact : Text → ArtifactError → UnitError
  too_few_members : Text → UnitError
  unknown_cell not_provided : Text → Text → UnitError
  claimed_twice : Text → Text → Text → UnitError

-- The loop over what a member provides.
unfoldable pub check_provided : Text → List Text → List Text → Result UnitError (Unit {0})
check_provided name offered [] = ok tt
check_provided name offered (provider ∷ rest) = do
  fail_if (not (contains offered provider)) (not_provided name provider)
  check_provided name offered rest

module _ {Other : Type 0} where
  -- The loop over the members of a unit; `claimed` has the units of the cells that have one.
  unfoldable pub claim_members :
      List (CellSpec Other)
      → Text
      → List Text
      → List Text
      → Dict Text Text
      → Result UnitError (Dict Text Text)
  unfolding check_provided
  claim_members cells name offered [] claimed = ok claimed
  claim_members cells name offered (member ∷ rest) claimed = do
    spec ← or_fail (lookup_cell member cells) (unknown_cell name member)
    fail_if (has member claimed) (claimed_twice member (value_at member claimed []) name)
    check_provided name offered spec.provides
    claim_members cells name offered rest (insert member name claimed)

  -- The loop over the units, whose artifacts are loaded by the first argument.
  unfoldable pub build_units :
      (Text → Result ArtifactError (CellSpec Other))
      → List (CellSpec Other)
      → ℕ
      → List RawUnit
      → Dict Text Text
      → Result UnitError (List (ExecutionUnit Other))
  unfolding claim_members
  build_units load cells index [] claimed = ok []
  build_units load cells index (u ∷ rest) claimed = do
    fail_if (is_empty (trim_space u.name)) (name_required index)
    artifact ← lift (bad_artifact u.artifact) (load u.artifact)
    fail_if (ltb (length (dedupe u.members)) 2) (too_few_members (trim_space u.name))
    next ← claim_members cells (trim_space u.name) artifact.provides (dedupe u.members) claimed
    more ← build_units load cells (suc index) rest next
    ok (record { name = trim_space u.name; artifact = artifact; members = dedupe u.members } ∷ more)

  unfoldable pub build_execution_units :
      Sources Other
      → Text
      → List (CellSpec Other)
      → List RawUnit
      → Bool
      → Result UnitError (List (ExecutionUnit Other))
  unfolding build_units load_artifact
  build_execution_units o base_dir cells raw required =
      build_units (load_artifact o base_dir required) cells 0 raw []
