-- ===== src/Manifest/Placements.antt =====
-- internal/manifest/app.go, `buildAppPlacements` with `placementInstances` and `clonePlacementSpec`. The
-- second loop over the cells calls `placementInstances` again; here it has the answers of the first.
pub mod Instances
pub mod Names
pub mod Addresses
use pulp.Prelude.{
  ℕ, zero, suc, ◌+◌, ◌-◌, ◌≡◌, Bool, true, false, not, ◌&&◌, List, [], ◌∷◌, ◌++◌, Option, none,
  some, Result, ok, err, fail_if, ◌>>=◌, ◌>>◌, ◌==◌, contains, if◌then◌else◌, eqb, ltb, length, map,
}
use pulp.Prelude.Text.{Text, text_eq, codes, trim_space, is_empty, contains_rune}
use pulp.Prelude.Decimal.{decimal}
use pulp.Prelude.Dict.{Dict, lookup, insert}
use pulp.Dependency.Plan.{has}
use pulp.Manifest.Config.{ConfigTable, empty, entry, put, entries_of}
use pulp.Manifest.Cells.{ℤ, pos, negsuc, CellSpec}

pub record RawPlacement (Other : Type 0) : Type 0 where
  pub cell : Text
  pub instances : List Text
  pub aliases : List Text
  pub count : ℤ
  pub config : ConfigTable Other

pub record CellPlacement (Other : Type 0) : Type 0 where
  pub spec : CellSpec Other
  pub instance_id : Text
  pub address : Text

pub data PlacementError : Type 0 where
  cell_required : PlacementError
  unknown_cell duplicate_entry : Text → PlacementError
  negative_count no_instances : PlacementError
  count_differs : ℕ → ℕ → PlacementError
  empty_instance : ℕ → PlacementError
  at_in_instance duplicate_instance : Text → PlacementError

-- The loop that adds names until there are `count`: the numbers that follow one, as many as are missing.
unfoldable pub numbered : ℕ → ℕ → List Text
numbered zero index = []
numbered (suc missing) index = decimal (suc index) ∷ numbered missing (suc index)

-- The test on the count, and the names with those that it adds.
unfoldable pub counted : ℤ → List Text → Result PlacementError (List Text)
unfolding numbered
counted (negsuc n) instances = err negative_count
counted (pos zero) instances = ok instances
counted (pos (suc n)) instances = do
  fail_if (not (is_empty instances) && not (eqb (length instances) (suc n)))
      (count_differs (suc n) (length instances))
  ok (instances ++ numbered (suc n - length instances) (length instances))

-- The last loop, from an index and behind the names before.
unfoldable pub check_instances : ℕ → List Text → List Text → Result PlacementError (List Text)
check_instances index seen [] = ok []
check_instances index seen (raw ∷ rest) = do
  fail_if (is_empty (trim_space raw)) (empty_instance index)
  fail_if (contains_rune b'@' (trim_space raw)) (at_in_instance (trim_space raw))
  fail_if (contains seen (trim_space raw)) (duplicate_instance (trim_space raw))
  out ← check_instances (suc index) (trim_space raw ∷ seen) rest
  ok (trim_space raw ∷ out)

abbrev pub address_of : Text → ℕ → Text → Text
address_of name count instance_id = if ltb 1 count then name ++ b'@' ∷ instance_id else name

module _ {Other : Type 0} where
  unfoldable pub placement_instances :
      Option (RawPlacement Other) → Result PlacementError (List Text)
  unfolding counted check_instances
  placement_instances none = ok (codes "primary" ∷ [])
  placement_instances (some p) = do
    instances ← counted p.count (if is_empty p.instances then p.aliases else p.instances)
    fail_if (is_empty instances) no_instances
    check_instances 0 [] instances

  -- The entries of a table put over those of another.
  unfoldable pub put_all : ConfigTable Other → ConfigTable Other → ConfigTable Other
  put_all empty t = t
  put_all (entry name v rest) t = put_all rest (put name v t)

  abbrev pub is_blank : ConfigTable Other → Bool
  is_blank empty = true
  is_blank (entry _ _ _) = false

  -- `clonePlacementSpec`, which makes no map where both have no entry; a nil map of a placement has none.
  unfoldable pub clone_spec : CellSpec Other → Option (RawPlacement Other) → CellSpec Other
  unfolding put_all
  clone_spec source none = source
  clone_spec source (some p) = record source {
    config =
        if is_blank (entries_of source.config) && is_blank p.config
        then source.config
        else some (put_all p.config (entries_of source.config));
  }

  -- The loop over the entries for cells.
  unfoldable pub configure :
      List (CellSpec Other)
      → List (RawPlacement Other)
      → Dict Text (RawPlacement Other)
      → Result PlacementError (Dict Text (RawPlacement Other))
  configure cells [] configured = ok configured
  configure cells (p ∷ rest) configured = do
    fail_if (is_empty (trim_space p.cell)) cell_required
    fail_if (not (contains (map (λ c. c.name) cells) (trim_space p.cell)))
        (unknown_cell (trim_space p.cell))
    fail_if (has (trim_space p.cell) configured) (duplicate_entry (trim_space p.cell))
    configure cells rest
        (insert (trim_space p.cell) (record p { cell = trim_space p.cell }) configured)

  -- The first loop over the cells.
  unfoldable pub all_instances :
      Dict Text (RawPlacement Other)
      → List (CellSpec Other)
      → Result PlacementError (List (CellSpec Other × List Text))
  unfolding placement_instances
  all_instances configured [] = ok []
  all_instances configured (c ∷ rest) = do
    instances ← placement_instances (lookup c.name configured)
    more ← all_instances configured rest
    ok ((c, instances) ∷ more)

  -- The second loop, over the instances of one cell and over the cells.
  unfoldable pub place_cell :
      Dict Text (RawPlacement Other) → CellSpec Other → ℕ → List Text → List (CellPlacement Other)
  unfolding clone_spec
  place_cell configured c count [] = []
  place_cell configured c count (i ∷ rest) =
      record {
        spec = clone_spec c (lookup c.name configured);
        instance_id = i;
        address = address_of c.name count i;
      }
      ∷ place_cell configured c count rest

  unfoldable pub place_cells :
      Dict Text (RawPlacement Other)
      → List (CellSpec Other × List Text)
      → List (CellPlacement Other)
  unfolding place_cell
  place_cells configured [] = []
  place_cells configured ((c, instances) ∷ rest) =
      place_cell configured c (length instances) instances ++ place_cells configured rest

  -- On the cells of a set, and on those in their order.
  unfoldable pub build_placements :
      List (CellSpec Other)
      → List (CellSpec Other)
      → List (RawPlacement Other)
      → Result PlacementError (List (CellPlacement Other))
  unfolding configure all_instances place_cells
  build_placements cells order raw = do
    configured ← configure cells raw []
    instances ← all_instances configured order
    ok (place_cells configured instances)
