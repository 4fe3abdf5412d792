-- ===== src/Manifest/Sets.antt =====
-- internal/manifest/batch.go, `buildSet`: cell specs become one deployment. A pointer that may be nil is
-- an `Option`.
pub mod Owners
pub mod Wired
use pulp.Prelude.{
  ◌≡◌, Bool, true, false, not, List, [], ◌∷◌, ◌++◌, Option, none, some, Result, ok, err, fail_if,
  ◌>>=◌, ◌>>◌, ◌==◌, contains, if◌then◌else◌, map,
}
use pulp.Prelude.Text.{Text, text_eq, is_empty}
use pulp.Prelude.Dict.{Dict, lookup, insert}
use pulp.Dependency.Plan.{Item, Plan, PlanError, build, value_at, has}
use pulp.Manifest.Cells.{CellSpec, lift}

pub data SetError : Type 0 where
  no_manifests : SetError
  duplicate_cell : Text → SetError
  no_provider : Text → Text → SetError
  ambiguous_providers : Text → Text → List Text → SetError
  missing_cell : Text → Text → SetError
  depends_on_itself : Text → SetError
  bad_plan : PlanError → SetError

-- The providers of one cell go to the owners of each, once.
unfoldable pub add_provided :
    Text → List Text → List Text → Dict Text (List Text) → Dict Text (List Text)
add_provided name seen [] owners = owners
add_provided name seen (p ∷ ps) owners = elim (contains seen p) [
  | true ↦ add_provided name seen ps owners
  | false ↦ add_provided name (p ∷ seen) ps (insert p (value_at p owners [] ++ name ∷ []) owners)
]

-- The switch on the owners.
unfoldable pub check_owners : Text → Text → List Text → Result SetError (Unit {0})
check_owners name consumed [] = err (no_provider name consumed)
check_owners name consumed (owner ∷ []) = ok tt
check_owners name consumed (owner ∷ other ∷ rest) =
    err (ambiguous_providers name consumed (owner ∷ other ∷ rest))

unfoldable pub check_consumed :
    Dict Text (List Text) → Text → List Text → Result SetError (Unit {0})
unfolding check_owners
check_consumed owners name [] = ok tt
check_consumed owners name (consumed ∷ rest) = do
  check_owners name consumed (value_at consumed owners [])
  check_consumed owners name rest

pub record CellSet (Other : Type 0) : Type 0 where
  pub cells : List (CellSpec Other)
  pub order : List (Option (CellSpec Other))
  pub plan : Plan

module _ {Other : Type 0} where
  -- `Set.Lookup`
  unfoldable pub lookup_cell : Text → List (CellSpec Other) → Option (CellSpec Other)
  lookup_cell name [] = none
  lookup_cell name (c ∷ rest) = if c.name == name then some c else lookup_cell name rest

  unfoldable pub index_cells :
      List (CellSpec Other)
      → Dict Text (CellSpec Other)
      → Result SetError (Dict Text (CellSpec Other))
  index_cells [] by_name = ok by_name
  index_cells (c ∷ rest) by_name = do
    fail_if (has c.name by_name) (duplicate_cell c.name)
    index_cells rest (insert c.name c by_name)

  unfoldable pub add_owners : List (CellSpec Other) → Dict Text (List Text) → Dict Text (List Text)
  unfolding add_provided
  add_owners [] owners = owners
  add_owners (c ∷ rest) owners = add_owners rest (add_provided c.name [] c.provides owners)

  unfoldable pub check_all_consumed :
      Dict Text (List Text) → List (CellSpec Other) → Result SetError (Unit {0})
  unfolding check_consumed
  check_all_consumed owners [] = ok tt
  check_all_consumed owners (c ∷ rest) = do
    check_consumed owners c.name c.consumes
    check_all_consumed owners rest

  unfoldable pub check_dependencies :
      Dict Text (CellSpec Other) → Text → List Text → Result SetError (Unit {0})
  check_dependencies by_name name [] = ok tt
  check_dependencies by_name name (d ∷ rest) = do
    fail_if (not (has d by_name)) (missing_cell name d)
    fail_if (d == name) (depends_on_itself name)
    check_dependencies by_name name rest

  unfoldable pub check_all_dependencies :
      Dict Text (CellSpec Other) → List (CellSpec Other) → Result SetError (Unit {0})
  unfolding check_dependencies
  check_all_dependencies by_name [] = ok tt
  check_all_dependencies by_name (c ∷ rest) = do
    check_dependencies by_name c.name c.depends_on
    check_all_dependencies by_name rest

  abbrev pub cell_item : CellSpec Other → Item
  cell_item c = record { id = c.name; depends_on = c.depends_on }

  unfoldable pub build_set : List (CellSpec Other) → Result SetError (CellSet Other)
  unfolding index_cells add_owners check_all_consumed check_all_dependencies
  build_set specs = do
    fail_if (is_empty specs) no_manifests
    by_name ← index_cells specs []
    check_all_consumed (add_owners specs []) specs
    check_all_dependencies by_name specs
    plan ← lift bad_plan (build (map cell_item specs))
    ok (record {
      cells = specs;
      order = map (λ id. lookup id by_name) plan.start_order;
      plan = plan;
    })
