-- ===== src/Fusion/Plan/Cases.antt =====
-- internal/fusion/plan.go: the branches of the two loops as equations.
use pulp.Prelude.{◌≡◌, refl, Bool, true, false, List, [], ◌∷◌, ◌++◌, Option, none, some, ◌==◌}
use pulp.Prelude.Text.{Text, text_eq}
use pulp.Prelude.Dict.{Dict, insert}
use pulp.Dependency.Plan.{value_at}
use pulp.Manifest.Config.{ConfigTable}
use pulp.Manifest.Fields.{fusible}
use pulp.Manifest.Cells.{CellSpec}
use pulp.Fusion.Plan.{
  Decision, Plan, Reason, not_fusible, isolate, compatible, place_members, request, group_key,
}

module _ {Other : Type 0} (c : CellSpec Other) where
  pub request-fusible :
      (rest : List (Option (CellSpec Other))) (r : Dict Text (List (CellSpec Other)))
      (i : List (Decision Other))
      → (c.execution.mode == fusible) ≡ true
      → request (some c ∷ rest) r i
        ≡ request rest (insert (group_key c) (value_at (group_key c) r [] ++ c ∷ []) r) i
  unfolding request
  request-fusible rest r i h = rw (request, h) refl

  pub request-isolated :
      (rest : List (Option (CellSpec Other))) (r : Dict Text (List (CellSpec Other)))
      (i : List (Decision Other))
      → (c.execution.mode == fusible) ≡ false
      → request (some c ∷ rest) r i
        ≡ request rest r (i ++ record { cell = c; reason = not_fusible } ∷ [])
  unfolding request
  request-isolated rest r i h = rw (request, h) refl

module _ {Other : Type 0}
    (same_config : Option (ConfigTable Other) → Option (ConfigTable Other) → Bool)
    (c d : CellSpec Other) (rest : List (CellSpec Other)) (plan : Plan Other) where
  pub place_members-group :
      compatible same_config (c ∷ d ∷ rest) ≡ none
      → place_members same_config (c ∷ d ∷ rest) plan ≡ record plan {
        groups =
            plan.groups
            ++ record { name = c.execution.group; abi = c.execution.abi; members = c ∷ d ∷ rest }
              ∷ [];
      }
  unfolding place_members
  place_members-group h = rw (place_members, h) refl

  pub place_members-isolate :
      (why : Reason)
      → compatible same_config (c ∷ d ∷ rest) ≡ some why
      → place_members same_config (c ∷ d ∷ rest) plan ≡ isolate why (c ∷ d ∷ rest) plan
  unfolding place_members
  place_members-isolate why h = rw (place_members, h) refl
