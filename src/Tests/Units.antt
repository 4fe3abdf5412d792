-- ===== src/Tests/Units.antt =====
-- internal/manifest/app.go, execution units.
use pulp.Prelude.{◌≡◌, refl, List, [], ◌∷◌, some, none, false, ok, err, All}
use pulp.Prelude.Sets.{Distinct}
use pulp.Prelude.Text.{codes, text_eq, trim_space}
use pulp.Prelude.Dict.{lookup, insert}
use pulp.Manifest.Config.{apply_env}
use pulp.Manifest.Fields.{
  dedupe, lower_all, normalize_host_consumes, normalize_execution, check_execution,
}
use pulp.Manifest.Cells.{CellSpec, normalize}
use pulp.Manifest.Artifacts.{Sources, load_artifact, outside_config}
use pulp.Manifest.Sets.{lookup_cell}
use pulp.Manifest.Units.{RawUnit, ExecutionUnit, claimed_twice, build_execution_units}
use pulp.Manifest.Units.Disjoint.{IsUnit, IsPinned, all_members, build_execution_units-Distinct}
use pulp.Tests.Manifests.{platform, raw_cell, cell, cart, stock}

-- A directory whose files all decode to one manifest and have no WASM.
abbrev files : Sources (Unit {0})
files = record {
  platform = platform;
  absolute = λ path. some path;
  decoded = λ path.
      some
        (raw_cell (codes "fused") (codes "find" ∷ codes "add" ∷ []) [] [], codes "config.url" ∷ []);
  digest = λ path. none;
}

abbrev fused : CellSpec (Unit {0})
fused = record (cell (codes "fused") (codes "find" ∷ codes "add" ∷ []) [] []) {
  manifest_path = codes "df";
}

abbrev pair : RawUnit
pair = record {
  name = codes " u";
  artifact = codes "f";
  members = codes "cart" ∷ codes "stock" ∷ codes "cart" ∷ [];
}

abbrev units : List (ExecutionUnit (Unit {0}))
units =
    record { name = codes "u"; artifact = fused; members = codes "cart" ∷ codes "stock" ∷ [] } ∷ []

one_unit : build_execution_units files (codes "d") (cart ∷ stock ∷ []) (pair ∷ []) false ≡ ok units
unfolding build_execution_units load_artifact outside_config normalize text_eq trim_space dedupe
    lower_all normalize_host_consumes normalize_execution check_execution apply_env lookup_cell
    lookup insert
one_unit = refl

again :
    build_execution_units files
      (codes "d")
      (cart ∷ stock ∷ [])
      (pair ∷ record pair { name = codes "v" } ∷ [])
      false
    ≡ err (claimed_twice (codes "cart") (codes "u") (codes "v"))
unfolding build_execution_units load_artifact outside_config normalize text_eq trim_space dedupe
    lower_all normalize_host_consumes normalize_execution check_execution apply_env lookup_cell
    lookup insert
again = refl

build_execution_units-Distinct_example :
    All (IsUnit (IsPinned files false) (cart ∷ stock ∷ [])) units × Distinct (all_members units)
build_execution_units-Distinct_example =
    build_execution_units-Distinct files (codes "d") (cart ∷ stock ∷ []) (pair ∷ []) false units
      one_unit
