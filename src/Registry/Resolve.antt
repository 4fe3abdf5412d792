-- ===== src/Registry/Resolve.antt =====
-- registry/resolve.go, `Resolve`, `solve` and `checkCycles`, for a context that is not done. The
-- recursion of both is on fuel, and running out of it is an error of its own.
pub mod Sound
use pulp.Prelude.{
  ℕ, zero, suc, ◌+◌, ◌≡◌, Bool, true, false, not, ◌&&◌, List, [], ◌∷◌, ◌++◌, Option, none, some,
  Result, ok, err, Eq, ◌==◌, contains, any, if◌then◌else◌, fail_if, or_fail, ◌>>=◌, ◌>>◌, length,
  select, map, find, Ordering,
}
use pulp.Prelude.Text.{Text, text_eq, is_empty, compare_text, codes}
use pulp.Prelude.Dict.{Dict, lookup, insert}
use pulp.Prelude.Sorting.{stable_sort}
use pulp.Registry.Version.{Version, matches, version_string}
use pulp.Registry.Store.{
  Dependency, Digests, Artifact, Manifest, Store, LockedDependency, LockedModule, Lock,
  parse_module_id, valid_requirement,
}

pub data ResolveError : Type 0 where
  target_required out_of_fuel : ResolveError
  invalid_id invalid_requirement unknown_module no_version no_artifact cycle_at :
      Text → ResolveError

-- sort.Strings on module names.
abbrev pub id_less : Text → Text → Bool
id_less a b = elim (compare_text a b) [ Ordering.lt ↦ true | _ ↦ false ]

abbrev pub keys : {V : Type 0} → Dict Text V → List Text
keys [] = []
keys ((k, _) ∷ d) = k ∷ keys d

abbrev pub is_key : {V : Type 0} → Text → Dict Text V → Bool
is_key k d = elim (lookup k d) [ none ↦ false | some _ ↦ true ]

-- `c[id] = append(c[id], requirement)`
unfoldable pub constrain : Text → Text → Dict Text (List Text) → Dict Text (List Text)
constrain id requirement c =
    insert id ((elim (lookup id c) [ none ↦ [] | some rs ↦ rs ]) ++ requirement ∷ []) c

unfoldable pub meets_all : List Text → Version → Bool
meets_all [] v = true
meets_all (r ∷ rs) v = matches r v && meets_all rs v

-- The loop over the roots of a request.
unfoldable pub root_constraints :
    List Dependency → Dict Text (List Text) → Result ResolveError (Dict Text (List Text))
unfolding constrain
root_constraints [] c = ok c
root_constraints (root ∷ roots) c = do
  _ ← or_fail (parse_module_id root.id) (invalid_id root.id)
  fail_if (not (valid_requirement root.requirement)) (invalid_requirement root.requirement)
  root_constraints roots (constrain root.id root.requirement c)

module _ (D : Digests) where
  abbrev pub Chosen : Type 0
  Chosen = Dict Text (Manifest D)

  -- The first name, in order, that has constraints and is not chosen.
  unfoldable pub first_unresolved : Dict Text (List Text) → Chosen → List Text
  first_unresolved c chosen = stable_sort id_less (select (λ id. not (is_key id chosen)) (keys c))

  -- The constraints with those of the dependencies of a manifest; none if a chosen module does not
  -- meet one of them.
  unfoldable pub add_dependencies :
      Chosen → List Dependency → Dict Text (List Text) → Option (Dict Text (List Text))
  unfolding constrain
  add_dependencies chosen [] c = some c
  add_dependencies chosen (d ∷ ds) c =
      let rest = add_dependencies chosen ds (constrain d.id d.requirement c) in
      elim (lookup d.id chosen) [
        | none ↦ rest
        | some existing ↦ if matches d.requirement existing.version then rest else none
      ]

  -- The loop over the versions of the unresolved module, with the recursive call as an argument. A
  -- failure of that call goes on to the next version.
  unfoldable pub try_versions :
      (Dict Text (List Text) → Chosen → Result ResolveError Chosen)
      → Store D
      → Text
      → Dict Text (List Text)
      → Chosen
      → List Version
      → Result ResolveError Chosen
  unfolding meets_all add_dependencies
  try_versions solve_rest s id c chosen [] = err (no_version id)
  try_versions solve_rest s id c chosen (v ∷ vs) =
      let next = try_versions solve_rest s id c chosen vs in
      if meets_all (elim (lookup id c) [ none ↦ [] | some rs ↦ rs ]) v
      then elim (s.manifest id v) [
        | none ↦ next
        | some m ↦ elim (add_dependencies chosen m.dependencies c) [
          | none ↦ next
          | some c' ↦ elim (solve_rest c' (insert id m chosen)) [
            | ok result ↦ ok result
            | err out_of_fuel ↦ err out_of_fuel
            | err _ ↦ next
          ]
        ]
      ]
      else next

  unfoldable pub solve : ℕ → Store D → Dict Text (List Text) → Chosen → Result ResolveError Chosen
  unfolding first_unresolved try_versions
  solve zero s c chosen = err out_of_fuel
  solve (suc fuel) s c chosen = elim (first_unresolved c chosen) [
    | [] ↦ ok chosen
    | id ∷ _ ↦ elim (s.versions id) [
      | none ↦ err (unknown_module id)
      | some vs ↦ try_versions (solve fuel s) s id c chosen vs
    ]
  ]

  -- `state`: the nodes whose state was set to 1, and those whose state was set to 2.
  pub record Marks : Type 0 where
    pub entered : List Text
    pub closed : List Text

  -- The loop over the dependencies of a node, with the visit of one as an argument.
  unfoldable pub visit_all :
      (Text → Marks → Result ResolveError Marks) → List Text → Marks → Result ResolveError Marks
  visit_all visit_one [] marks = ok marks
  visit_all visit_one (id ∷ ids) marks = do
    marks' ← visit_one id marks
    visit_all visit_one ids marks'

  dependency_ids : Chosen → Text → List Text
  dependency_ids ms id = elim (lookup id ms) [ none ↦ [] | some m ↦ map (λ d. d.id) m.dependencies ]

  unfoldable pub visit : ℕ → Chosen → Text → Marks → Result ResolveError Marks
  unfolding visit_all dependency_ids
  visit zero ms id marks = err out_of_fuel
  visit (suc fuel) ms id marks =
      if contains marks.entered id && not (contains marks.closed id)
      then err (cycle_at id)
      else if contains marks.closed id
      then ok marks
      else (visit_all (visit fuel ms) (dependency_ids ms id)
            (record marks { entered = id ∷ marks.entered })
          >>= λ after. ok (record after { closed = id ∷ after.closed }))

  -- Nodes nest at most as deep as there are modules, with one that is not chosen below.
  unfoldable pub check_cycles : Chosen → Result ResolveError Marks
  unfolding visit
  check_cycles ms =
      visit_all (visit (length ms + 2) ms) (stable_sort id_less (keys ms))
        (record { entered = []; closed = [] })

  zero_version : Version
  zero_version = record { major = 0; minor = 0; patch = 0; pre = [] }

  lock_dependency : Chosen → Dependency → LockedDependency
  unfolding zero_version
  lock_dependency ms d = record {
    id = d.id;
    version = version_string (elim (lookup d.id ms) [ none ↦ zero_version | some m ↦ m.version ]);
  }

  unfoldable pub lock_module : Text → Chosen → Manifest D → Result ResolveError LockedModule
  unfolding lock_dependency
  lock_module target ms m = elim (find (λ a. a.target == target) m.artifacts) [
    | [] ↦ err (no_artifact m.id)
    | a ∷ _ ↦ ok (record {
      id = m.id;
      version = version_string m.version;
      manifest_digest = D.digest_string (D.sum m.canonical);
      artifact_digest = D.digest_string a.digest;
      dependencies = map (lock_dependency ms) m.dependencies;
    })
  ]

  unfoldable pub lock_all : Text → Chosen → List Text → Result ResolveError (List LockedModule)
  unfolding lock_module
  lock_all target ms [] = ok []
  lock_all target ms (id ∷ ids) = elim (lookup id ms) [
    | none ↦ lock_all target ms ids
    | some m ↦ do lm ← lock_module target ms m; lms ← lock_all target ms ids; ok (lm ∷ lms)
  ]

  unfoldable pub resolve : ℕ → Store D → Text → List Dependency → Result ResolveError Lock
  unfolding root_constraints solve check_cycles lock_all
  resolve fuel s target roots = do
    fail_if (is_empty target) target_required
    c ← root_constraints roots []
    chosen ← solve fuel s c []
    _ ← check_cycles chosen
    lms ← lock_all target chosen (stable_sort id_less (keys chosen))
    ok (record {
      schema_version = 1;
      target = target;
      roots = stable_sort (λ a b. id_less a.id b.id) roots;
      modules = lms;
    })
