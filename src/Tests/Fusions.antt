-- ===== src/Tests/Fusions.antt =====
-- internal/fusion/plan.go: two cells that share an instance.
use pulp.Prelude.{◌≡◌, refl, Bool, Option, true, [], ◌∷◌, none, some, ok, All}
use pulp.Prelude.Text.{codes, text_eq, trim_space, compare_text}
use pulp.Prelude.Dict.{lookup, insert}
use pulp.Prelude.Sorting.{stable_sort}
use pulp.Manifest.Config.{ConfigTable, apply_env}
use pulp.Manifest.Fields.{dedupe, lower_all, normalize_host_consumes, normalize_execution}
use pulp.Manifest.Cells.{CellSpec, normalize}
use pulp.Fusion.Plan.{Reason, build}
use pulp.Fusion.Plan.Counts.{tally}
use pulp.Fusion.Plan.Partition.{placed, present, build-tally}
use pulp.Fusion.Plan.Groups.{IsGroup, IsNormalized, build-normalize}
use pulp.Tests.Manifests.{platform, raw_cell, cart, stock, cart_normalized}

abbrev always_same : Option (ConfigTable (Unit {0})) → Option (ConfigTable (Unit {0})) → Bool
always_same a b = true

-- Two that ask for one group, and one that is alone in its own.
abbrev apart : CellSpec (Unit {0})
apart = record stock {
  name = codes "apart";
  execution = record { mode = codes "fusible"; group = codes "h"; abi = codes "1" };
}

grouped : (build always_same (some stock ∷ some apart ∷ none ∷ some cart ∷ [])) ≡ record {
  groups = record { name = codes "g"; abi = codes "1"; members = cart ∷ stock ∷ [] } ∷ [];
  isolated = record { cell = apart; reason = Reason.lone_member } ∷ [];
}
unfolding build lookup insert stable_sort compare_text text_eq
grouped = refl

stock_normalized :
    normalize platform (raw_cell (codes "stock") (codes "find" ∷ []) [] []) (codes "m") ≡ ok stock
unfolding normalize text_eq trim_space dedupe lower_all normalize_host_consumes normalize_execution
    apply_env
stock_normalized = refl

build-tally_example :
    tally
      (λ c. c.snapshotable)
      (placed (build always_same (some stock ∷ some apart ∷ none ∷ some cart ∷ [])))
    ≡ tally (λ c. c.snapshotable) (present (some stock ∷ some apart ∷ none ∷ some cart ∷ []))
build-tally_example =
    build-tally always_same (λ c. c.snapshotable) (some stock ∷ some apart ∷ none ∷ some cart ∷ [])

both-IsNormalized : All IsNormalized (present (some stock ∷ none ∷ some cart ∷ []))
both-IsNormalized = (
  (platform, raw_cell (codes "stock") (codes "find" ∷ []) [] [], codes "m", stock_normalized),
  (
    (
      platform,
      raw_cell (codes "cart") (codes "add" ∷ codes "add" ∷ []) (codes "find" ∷ [])
          (codes "stock" ∷ []),
      codes "m",
      cart_normalized,
    ),
    tt,
  ),
)

build-normalize_example :
    All (IsGroup always_same) (build always_same (some stock ∷ none ∷ some cart ∷ [])).groups
build-normalize_example =
    build-normalize always_same (some stock ∷ none ∷ some cart ∷ []) both-IsNormalized
