-- ===== src/Registry/Verify.antt =====
-- registry/resolve.go, `Verify`: a lock against a store.
pub mod Sound
use pulp.Prelude.{
  ℕ, ◌≡◌, Bool, true, false, not, ◌&&◌, ◌||◌, List, [], ◌∷◌, Option, none, some, Result, ok, err,
  eqb, Eq, ◌==◌, if◌then◌else◌, fail_if, or_fail, ◌>>=◌, ◌>>◌, length, any, Ordering,
}
use pulp.Prelude.Text.{Text, text_eq, trim_space, is_empty, compare_text}
use pulp.Prelude.Dict.{Dict, lookup, insert}
use pulp.Registry.Version.{Version, parse_version, matches}
use pulp.Registry.Store.{
  Dependency, Digests, Artifact, Manifest, Store, LockedDependency, LockedModule, Lock,
  parse_module_id, valid_requirement,
}

pub data VerifyError : Type 0 where
  invalid_lock : VerifyError
  invalid_module_id : VerifyError
  not_canonical : VerifyError
  duplicate_module root_missing root_unsatisfied bad_version no_manifest manifest_mismatch :
      Text → VerifyError
  dependency_mismatch constraint_mismatch bad_digest artifact_mismatch no_blob blob_mismatch :
      Text → VerifyError

-- `l.Modules[i-1].ID >= lm.ID`, where there is a module before.
unfoldable pub is_behind : Option Text → Text → Bool
is_behind none id = false
is_behind (some before) id = elim (compare_text before id) [ Ordering.lt ↦ false | _ ↦ true ]

unfoldable pub has_module : Text → Dict Text LockedModule → Bool
has_module id locked = elim (lookup id locked) [ none ↦ false | some _ ↦ true ]

-- The loop that numbers the locked modules by their names.
unfoldable pub lock_modules :
    Option Text
    → List LockedModule
    → Dict Text LockedModule
    → Result VerifyError (Dict Text LockedModule)
unfolding is_behind has_module
lock_modules before [] locked = ok locked
lock_modules before (lm ∷ rest) locked = do
  _ ← or_fail (parse_module_id lm.id) invalid_module_id
  fail_if (is_behind before lm.id) not_canonical
  fail_if (has_module lm.id locked) (duplicate_module lm.id)
  lock_modules (some lm.id) rest (insert lm.id lm locked)

-- A locked version that parses and meets a requirement.
unfoldable pub is_met : Text → Text → Bool
is_met requirement version = elim (parse_version version) [
  | err _ ↦ false
  | ok v ↦ matches requirement v
]

unfoldable pub check_root : Dict Text LockedModule → Dependency → Result VerifyError (Unit {0})
unfolding is_met
check_root locked root = elim (lookup root.id locked) [
  | none ↦ err (root_missing root.id)
  | some lm ↦
      fail_if (not (is_met root.requirement lm.version && valid_requirement root.requirement))
        (root_unsatisfied root.id)
]

unfoldable pub check_roots :
    Dict Text LockedModule → List Dependency → Result VerifyError (Unit {0})
unfolding check_root
check_roots locked [] = ok tt
check_roots locked (root ∷ roots) = do check_root locked root; check_roots locked roots

-- One dependency of a manifest against the one locked in its place.
unfoldable pub check_dependency :
    Text → Dict Text LockedModule → Dependency → LockedDependency → Result VerifyError (Unit {0})
unfolding is_met
check_dependency name locked dep got = elim (lookup dep.id locked) [
  | none ↦ err (dependency_mismatch name)
  | some child ↦ do
    fail_if (not (got.id == dep.id && got.version == child.version)) (dependency_mismatch name)
    fail_if (not (is_met dep.requirement child.version)) (constraint_mismatch name)
]

-- The loop over the dependencies; the lists have the same length.
unfoldable pub check_dependencies :
    Text
    → Dict Text LockedModule
    → List Dependency
    → List LockedDependency
    → Result VerifyError (Unit {0})
unfolding check_dependency
check_dependencies name locked [] _ = ok tt
check_dependencies name locked (dep ∷ deps) [] = err (dependency_mismatch name)
check_dependencies name locked (dep ∷ deps) (got ∷ gots) = do
  check_dependency name locked dep got
  check_dependencies name locked deps gots

module _ (D : Digests) where
  abbrev pub same_digest : D.Digest → D.Digest → Bool
  same_digest a b = ◌==◌ ⦃e = D.digest_eq⦄ a b

  -- The locked artifact is one of the manifest's for the target.
  unfoldable pub is_target : Text → D.Digest → Artifact D → Bool
  is_target target d a = a.target == target && same_digest a.digest d

  unfoldable pub check_artifact :
      Store D → Text → LockedModule → Manifest D → Result VerifyError (Unit {0})
  unfolding is_target
  check_artifact s target lm m = do
    d ← or_fail (D.parse_digest lm.artifact_digest) (bad_digest lm.id)
    fail_if (not (any (is_target target d) m.artifacts)) (artifact_mismatch lm.id)
    b ← or_fail (s.blob d) (no_blob lm.id)
    fail_if (not (same_digest (D.sum b) d)) (blob_mismatch lm.id)

  unfoldable pub check_manifest :
      Store D
      → Text
      → Dict Text LockedModule
      → LockedModule
      → Manifest D
      → Result VerifyError (Unit {0})
  unfolding check_dependencies check_artifact
  check_manifest s target locked lm m = do
    fail_if (not (D.digest_string (D.sum m.canonical) == lm.manifest_digest))
        (manifest_mismatch lm.id)
    fail_if (not (eqb (length lm.dependencies) (length m.dependencies))) (dependency_mismatch lm.id)
    check_dependencies lm.id locked m.dependencies lm.dependencies
    check_artifact s target lm m

  unfoldable pub check_module :
      Store D → Text → Dict Text LockedModule → LockedModule → Result VerifyError (Unit {0})
  unfolding check_manifest
  check_module s target locked lm = elim (parse_version lm.version) [
    | err _ ↦ err (bad_version lm.id)
    | ok v ↦ elim (s.manifest lm.id v) [
      | none ↦ err (no_manifest lm.id)
      | some m ↦ check_manifest s target locked lm m
    ]
  ]

  unfoldable pub check_modules :
      Store D → Text → Dict Text LockedModule → List LockedModule → Result VerifyError (Unit {0})
  unfolding check_module
  check_modules s target locked [] = ok tt
  check_modules s target locked (lm ∷ rest) = do
    check_module s target locked lm
    check_modules s target locked rest

  unfoldable pub verify : Store D → Lock → Result VerifyError (Unit {0})
  unfolding lock_modules check_roots check_modules
  verify s l = do
    fail_if (not (eqb l.schema_version 1)) invalid_lock
    locked ← lock_modules none l.modules []
    check_roots locked l.roots
    check_modules s l.target locked l.modules
