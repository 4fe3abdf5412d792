-- ===== src/Dependency/Plan.antt =====
-- internal/dependency/plan.go. A map of counters reads 0 at a missing key; `remaining` counts down to
-- 0 and no further, since a node is counted once for each dependency.
pub mod Edges
pub mod Validation
pub mod Counts
pub mod Kahn
pub mod Correct
pub mod Ranks
pub mod Orders
use pulp.Prelude.{
  ℕ, zero, suc, ◌+◌, ◌-◌, ◌≡◌, refl, Bool, true, false, not, List, [], ◌∷◌, ◌++◌, reverse, Option,
  none, some, Result, ok, err, fail_if, or_fail, ◌>>=◌, ◌>>◌, ◌==◌, eqb, ltb, contains,
  if◌then◌else◌, length, select, map,
}
use pulp.Prelude.Text.{Text, text_eq, codes, trim_space, is_empty}
use pulp.Prelude.Dict.{Dict, lookup, insert}
use pulp.Prelude.Sorting.{stable_sort}

pub record Item : Type 0 where
  pub id : Text
  pub depends_on : List Text

pub record Node : Type 0 where
  pub id : Text
  pub ordinal : ℕ
  pub level : ℕ
  pub depends_on : List Text
  pub dependents : List Text

pub record Plan : Type 0 where
  pub nodes : Dict Text Node
  pub levels : List (List Text)
  pub start_order : List Text
  pub stop_order : List Text

pub data PlanError : Type 0 where
  no_nodes : PlanError
  empty_id : ℕ → PlanError
  duplicate_node self_dependency : Text → PlanError
  unknown_dependency repeated_dependency : Text → Text → PlanError
  cycle : List Text → PlanError

-- `m[k]`, which is the zero value at a missing key.
abbrev pub value_at {ℓ} : {V : Type ℓ} → Text → Dict Text V → V → V
value_at k d zero_value = elim (lookup k d) [ none ↦ zero_value | some v ↦ v ]

abbrev pub has {ℓ} : {V : Type ℓ} → Text → Dict Text V → Bool
has k d = elim (lookup k d) [ none ↦ false | some _ ↦ true ]

-- The loop that numbers the nodes.
unfoldable pub number_items : ℕ → List Item → Dict Text ℕ → Result PlanError (Dict Text ℕ)
number_items ordinal [] ordinals = ok ordinals
number_items ordinal (item ∷ items) ordinals = do
  fail_if (is_empty (trim_space item.id)) (empty_id ordinal)
  fail_if (has item.id ordinals) (duplicate_node item.id)
  number_items (suc ordinal) items (insert item.id ordinal ordinals)

-- The edges found so far, in both directions.
pub record Links : Type 0 where
  pub dependencies : Dict Text (List Text)
  pub dependents : Dict Text (List Text)

unfoldable pub link : Text → Text → Links → Links
link id dependency l = record {
  dependencies = insert id (value_at id l.dependencies [] ++ dependency ∷ []) l.dependencies;
  dependents = insert dependency (value_at dependency l.dependents [] ++ id ∷ []) l.dependents;
}

-- The loop over the dependencies of one item; `seen` holds those before.
unfoldable pub link_item :
    Dict Text ℕ → Text → List Text → List Text → Links → Result PlanError Links
unfolding link
link_item ordinals id seen [] l = ok l
link_item ordinals id seen (dependency ∷ ds) l = do
  fail_if (dependency == id) (self_dependency id)
  fail_if (not (has dependency ordinals)) (unknown_dependency id dependency)
  fail_if (contains seen dependency) (repeated_dependency id dependency)
  link_item ordinals id (dependency ∷ seen) ds (link id dependency l)

unfoldable pub link_items : Dict Text ℕ → List Item → Links → Result PlanError Links
unfolding link_item
link_items ordinals [] l = ok l
link_items ordinals (item ∷ items) l = do
  l' ← link_item ordinals item.id [] item.depends_on l
  link_items ordinals items l'

unfoldable pub ordinal_less : Dict Text ℕ → Text → Text → Bool
ordinal_less ordinals a b = ltb (value_at a ordinals 0) (value_at b ordinals 0)

-- `for id := range dependents { sort }`
unfoldable pub sort_values : (Text → Text → Bool) → Dict Text (List Text) → Dict Text (List Text)
sort_values less [] = []
sort_values less ((k, v) ∷ d) = (k, stable_sort less v) ∷ sort_values less d

-- `remaining` and `ready` before the first level.
unfoldable pub count_dependencies : Dict Text (List Text) → List Item → Dict Text ℕ → Dict Text ℕ
count_dependencies dependencies [] remaining = remaining
count_dependencies dependencies (item ∷ items) remaining =
    count_dependencies dependencies items
      (insert item.id (length (value_at item.id dependencies [])) remaining)

unfoldable pub initially_ready : Dict Text (List Text) → List Item → List Text
initially_ready dependencies [] = []
initially_ready dependencies (item ∷ items) =
    let rest = initially_ready dependencies items in
    if eqb (length (value_at item.id dependencies [])) 0 then item.id ∷ rest else rest

-- The variables of the level loop that its inner loops write.
pub record Progress : Type 0 where
  pub remaining : Dict Text ℕ
  pub next : List Text
  pub level_by_id : Dict Text ℕ

-- `remaining[dependent]--; if remaining[dependent] == 0 { next = append(next, dependent) }`
unfoldable pub release : Text → Progress → Progress
release dependent p =
    let left = value_at dependent p.remaining 0 in
    let remaining = insert dependent (left - 1) p.remaining in
    if eqb left 1
    then record p { remaining = remaining; next = p.next ++ dependent ∷ [] }
    else record p { remaining = remaining }

unfoldable pub release_all : List Text → Progress → Progress
unfolding release
release_all [] p = p
release_all (dependent ∷ ds) p = release_all ds (release dependent p)

unfoldable pub visit_level : ℕ → Dict Text (List Text) → List Text → Progress → Progress
unfolding release_all
visit_level level dependents [] p = p
visit_level level dependents (id ∷ ids) p = visit_level level dependents ids (
    release_all (value_at id dependents [])
      (record p { level_by_id = insert id level p.level_by_id }))

-- The variables of the level loop.
pub record Levels : Type 0 where
  pub levels : List (List Text)
  pub start_order : List Text
  pub ready : List Text
  pub remaining : Dict Text ℕ
  pub level_by_id : Dict Text ℕ

unfoldable pub next_level : (Text → Text → Bool) → Dict Text (List Text) → Levels → Levels
unfolding visit_level
next_level less dependents s = record {
  levels = s.levels ++ s.ready ∷ [];
  start_order = s.start_order ++ s.ready;
  ready = stable_sort less visited.next;
  remaining = visited.remaining;
  level_by_id = visited.level_by_id;
}
  where
    visited : Progress
    visited =
        visit_level (length s.levels) dependents s.ready
          (record { remaining = s.remaining; next = []; level_by_id = s.level_by_id })

-- `for len(ready) != 0`, with fuel.
unfoldable pub level_loop : ℕ → (Text → Text → Bool) → Dict Text (List Text) → Levels → Levels
unfolding next_level
level_loop zero less dependents s = s
level_loop (suc fuel) less dependents s =
    let rest = level_loop fuel less dependents (next_level less dependents s) in
    if is_empty s.ready then s else rest

unfoldable pub stuck_items : Dict Text ℕ → List Item → List Text
stuck_items remaining [] = []
stuck_items remaining (item ∷ items) =
    let rest = stuck_items remaining items in
    if eqb (value_at item.id remaining 0) 0 then rest else item.id ∷ rest

make_nodes : Dict Text ℕ → Dict Text ℕ → Links → List Item → Dict Text Node → Dict Text Node
make_nodes ordinals level_by_id l [] nodes = nodes
make_nodes ordinals level_by_id l (item ∷ items) nodes =
    make_nodes ordinals level_by_id l items (insert item.id node nodes)
  where
    node : Node
    node = record {
      id = item.id;
      ordinal = value_at item.id ordinals 0;
      level = value_at item.id level_by_id 0;
      depends_on = value_at item.id l.dependencies [];
      dependents = value_at item.id l.dependents [];
    }

-- The level loop on the validated links; there are at most as many levels as items.
unfoldable pub run_levels : Dict Text ℕ → Links → List Item → Levels
unfolding level_loop ordinal_less
run_levels ordinals l items =
    level_loop (suc (length items)) (ordinal_less ordinals) l.dependents (record {
      levels = [];
      start_order = [];
      ready = initially_ready l.dependencies items;
      remaining = count_dependencies l.dependencies items [];
      level_by_id = [];
    })

pub sort_links : Dict Text ℕ → Links → Links
unfolding sort_values ordinal_less
sort_links ordinals l = record l { dependents = sort_values (ordinal_less ordinals) l.dependents }

pub assemble : Dict Text ℕ → Links → List Item → Levels → Plan
unfolding make_nodes
assemble ordinals l items s = record {
  nodes = make_nodes ordinals s.level_by_id l items [];
  levels = s.levels;
  start_order = s.start_order;
  stop_order = reverse s.start_order;
}

pub finish : Dict Text ℕ → Links → List Item → Levels → Result PlanError Plan
unfolding assemble
finish ordinals l items s = do
  fail_if (not (eqb (length s.start_order) (length items))) (cycle (stuck_items s.remaining items))
  ok (assemble ordinals l items s)

unfoldable pub build : List Item → Result PlanError Plan
unfolding finish sort_links
build items = do
  fail_if (is_empty items) no_nodes
  ordinals ← number_items 0 items []
  found ← link_items ordinals items (record { dependencies = []; dependents = [] })
  let l = sort_links ordinals found
  finish ordinals l items (run_levels ordinals l items)
