-- ===== src/Fusion/Plan.antt =====
-- internal/fusion/plan.go. sort.Slice leaves the order of cells of one name open; here it is that of
-- the list. reflect.DeepEqual on two configurations is a parameter.
pub mod Compatible
pub mod Cases
pub mod Counts
pub mod Partition
pub mod Groups
use pulp.Prelude.{
  ℕ, ◌+◌, ◌≡◌, Bool, true, false, not, ◌&&◌, ◌||◌, List, [], ◌∷◌, ◌++◌, Option, none, some, ◌==◌,
  contains, if◌then◌else◌, eqb, ltb, length, map,
}
use pulp.Prelude.Text.{Text, text_eq, codes, text_before}
use pulp.Prelude.Dict.{Dict, lookup, insert}
use pulp.Prelude.Sorting.{stable_sort}
use pulp.Dependency.Plan.{value_at}
use pulp.Manifest.Config.{ConfigTable}
use pulp.Manifest.Fields.{fusible}
use pulp.Manifest.Cells.{CellSpec}

pub data Reason : Type 0 where
  not_fusible lone_member dedicated_thread snapshotable : Reason
  restart_differs memory_differs timeout_differs capabilities_differ config_differs : Reason

pub record Group (Other : Type 0) : Type 0 where
  pub name : Text
  pub abi : Text
  pub members : List (CellSpec Other)

pub record Decision (Other : Type 0) : Type 0 where
  pub cell : CellSpec Other
  pub reason : Reason

pub record Plan (Other : Type 0) : Type 0 where
  pub groups : List (Group Other)
  pub isolated : List (Decision Other)

unfoldable pub within : List Text → List Text → Bool
within a [] = true
within a (v ∷ rest) = contains a v && within a rest

-- `sameSet`
unfoldable pub same_set : List Text → List Text → Bool
unfolding within
same_set a b = if eqb (length a) (length b) then within a b else false

abbrev pub member_abi_v2 : Text
member_abi_v2 = codes "pulp-member-v2"

module _ {Other : Type 0} where
  unfoldable pub group_key : CellSpec Other → Text
  group_key c = c.execution.group ++ 0 ∷ c.execution.abi

  -- Why a cell keeps out of every group with this application's interface.
  unfoldable pub unfit : Bool → CellSpec Other → Option Reason
  unfit v2 c =
      if c.dedicated_thread
      then some dedicated_thread
      else if c.snapshotable && not v2
      then some snapshotable
      else none

  abbrev pub by_name : CellSpec Other → CellSpec Other → Bool
  by_name a b = text_before a.name b.name

  -- The loop over the cells, where an entry may be nil.
  unfoldable pub request :
      List (Option (CellSpec Other))
      → Dict Text (List (CellSpec Other))
      → List (Decision Other)
      → Dict Text (List (CellSpec Other)) × List (Decision Other)
  unfolding group_key
  request [] requested isolated = (requested, isolated)
  request (none ∷ rest) requested isolated = request rest requested isolated
  request (some c ∷ rest) requested isolated = elim (c.execution.mode == fusible) [
    | false ↦ request rest requested (isolated ++ record { cell = c; reason = not_fusible } ∷ [])
    | true ↦
        request rest
          (insert (group_key c) (value_at (group_key c) requested [] ++ c ∷ []) requested) isolated
  ]

  abbrev pub isolate : Reason → List (CellSpec Other) → Plan Other → Plan Other
  isolate why members plan = record plan {
    isolated = plan.isolated ++ map (λ c. record { cell = c; reason = why }) members;
  }

module _ {Other : Type 0}
    (same_config : Option (ConfigTable Other) → Option (ConfigTable Other) → Bool) where
  -- The tests of `compatible` on one further member.
  unfoldable pub differs : Bool → CellSpec Other → CellSpec Other → Option Reason
  unfolding same_set
  differs v2 base c =
      if not (c.restart == base.restart)
      then some restart_differs
      else if not (eqb c.max_memory_pages base.max_memory_pages)
      then some memory_differs
      else if not (eqb c.call_timeout_ms base.call_timeout_ms)
      then some timeout_differs
      else if not (same_set c.capabilities base.capabilities)
      then some capabilities_differ
      else if not v2 && not (same_config c.config base.config)
      then some config_differs
      else none

  unfoldable pub check_members : Bool → CellSpec Other → List (CellSpec Other) → Option Reason
  unfolding unfit differs
  check_members v2 base [] = none
  check_members v2 base (c ∷ rest) = elim (unfit v2 c) [
    | some why ↦ some why
    | none ↦ elim (differs v2 base c) [ some why ↦ some why | none ↦ check_members v2 base rest ]
  ]

  -- `compatible`; a list without members has no first one to index.
  unfoldable pub compatible : List (CellSpec Other) → Option Reason
  unfolding check_members
  compatible [] = none
  compatible (base ∷ rest) = elim (unfit (base.execution.abi == member_abi_v2) base) [
    | some why ↦ some why
    | none ↦ check_members (base.execution.abi == member_abi_v2) base rest
  ]

  -- One pass of the loop over the keys, each of which has a member.
  unfoldable pub place_members : List (CellSpec Other) → Plan Other → Plan Other
  unfolding compatible
  place_members [] plan = plan
  place_members (c ∷ []) plan = isolate lone_member (c ∷ []) plan
  place_members (c ∷ d ∷ rest) plan = elim (compatible (c ∷ d ∷ rest)) [
    | some why ↦ isolate why (c ∷ d ∷ rest) plan
    | none ↦ record plan {
      groups =
          plan.groups
          ++ record { name = c.execution.group; abi = c.execution.abi; members = c ∷ d ∷ rest }
            ∷ [];
    }
  ]

  unfoldable pub place_keys :
      Dict Text (List (CellSpec Other)) → List Text → Plan Other → Plan Other
  unfolding place_members
  place_keys requested [] plan = plan
  place_keys requested (key ∷ keys) plan =
      place_keys requested keys
        (place_members (stable_sort by_name (value_at key requested [])) plan)

  unfoldable pub build : List (Option (CellSpec Other)) → Plan Other
  unfolding request place_keys
  build cells =
      let (requested, isolated) = request cells [] [] in
      let plan =
        place_keys requested (stable_sort text_before (map (λ (k, _). k) requested))
          (record { groups = []; isolated = isolated }) in
      record plan {
        isolated = stable_sort (λ a b. text_before a.cell.name b.cell.name) plan.isolated;
      }
