-- ===== src/Manifest/Units/Disjoint.antt =====
-- internal/manifest/app.go, `buildExecutionUnits`: what units there are.
use pulp.Prelude.{
  ℕ, suc, ◌≤◌, ◌≡◌, refl, true, false, ◌||◌, List, [], ◌∷◌, ◌++◌, some, Result, ok, Bool, ◌⊎◌,
  subst, or_fail, contains, ltb, length, arith, All, fail_if-passed, >>=_ok, ok_eq, or_fail_ok, sym,
}
use pulp.Prelude.Sets.{Distinct, Distinct-join, contains-append}
use pulp.Prelude.Text.{Text, text_eq, trim_space, is_empty}
use pulp.Prelude.Dict.{Dict, insert, lookup-insert}
use pulp.Dependency.Plan.{has}
use pulp.Manifest.Fields.{dedupe}
use pulp.Manifest.Fields.Exact.{dedupe-Distinct}
use pulp.Manifest.Cells.{CellSpec, lift, lift_ok}
use pulp.Manifest.Artifacts.{
  Sources, ArtifactError, resolve_app_relative_path, load_cell, compare_digest, verify_wasm_digest,
  load_artifact,
}
use pulp.Manifest.Sets.{lookup_cell}
use pulp.Manifest.Units.{
  RawUnit, ExecutionUnit, unknown_cell, bad_artifact, check_provided, claim_members, build_units,
  build_execution_units,
}

check_provided-All :
    (name : Text) (offered provides : List Text)
    → check_provided name offered provides ≡ ok tt
    → All (λ p. contains offered p ≡ true) provides
unfolding check_provided
check_provided-All name offered [] h = tt
check_provided-All name offered (p ∷ rest) h = ground (arith, check_provided-All name offered rest)

module _ {Other : Type 0} where
  -- A cell all of whose providers are offered.
  abbrev pub IsCovered : List (CellSpec Other) → List Text → Text → Type 0
  IsCovered cells offered member =
      (c : CellSpec Other) × (lookup_cell member cells ≡ some c)
      × All (λ p. contains offered p ≡ true) c.provides

  claim_members-steps :
      (cells : List (CellSpec Other)) (name : Text) (offered : List Text) (member : Text)
      (rest : List Text) (claimed next : Dict Text Text)
      → claim_members cells name offered (member ∷ rest) claimed ≡ ok next
      → (has member claimed ≡ false)
        × IsCovered cells offered member
        × (claim_members cells name offered rest (insert member name claimed) ≡ ok next)
  unfolding claim_members
  claim_members-steps cells name offered member rest claimed next h =
      let (c, known, h1) =
        >>=_ok (or_fail (lookup_cell member cells) (unknown_cell name member)) _ next h in
      let (free, h2) = fail_if-passed (has member claimed) _ _ next h1 in
      let (u, provided, h3) = >>=_ok {0, 0, 0} (check_provided name offered c.provides) _ next h2 in
      (free, (c, or_fail_ok _ _ c known, check_provided-All name offered c.provides provided), h3)

  claim_members-IsCovered :
      (cells : List (CellSpec Other)) (name : Text) (offered members : List Text)
      (claimed next : Dict Text Text)
      → claim_members cells name offered members claimed ≡ ok next
      → All (IsCovered cells offered) members
        × ((k : Text) → has k next ≡ (has k claimed || contains members k))
        × ((k : Text) → contains members k ≡ true → has k claimed ≡ false)
  unfolding claim_members
  claim_members-IsCovered cells name offered [] claimed next h =
      (tt, λ k. ground arith, λ k c. absurd cc)
  claim_members-IsCovered cells name offered (member ∷ rest) claimed next h =
      let (free, covered, h1) = claim_members-steps cells name offered member rest claimed next h in
      let (all, keys, fresh) =
        claim_members-IsCovered cells name offered rest (insert member name claimed) next h1 in
      (
        (covered, all),
        λ k. ground (arith, keys k, lookup-insert k member name claimed),
        λ k c. ground (arith, free, fresh k, lookup-insert k member name claimed),
      )

  -- An artifact whose file has the digest that its manifest pins, or that need not pin one.
  abbrev pub IsPinned : Sources Other → Bool → CellSpec Other → Type 0
  IsPinned o required artifact =
      ((artifact.wasm_sha256 ≡ []) × (required ≡ false))
      ⊎ (o.digest artifact.wasm_path ≡ some artifact.wasm_sha256)

  verify_wasm_digest-IsPinned :
      (o : Sources Other) (required : Bool) (spec : CellSpec Other)
      → verify_wasm_digest o spec required ≡ ok tt
      → IsPinned o required spec
  unfolding verify_wasm_digest compare_digest
  verify_wasm_digest-IsPinned o required spec h = ground arith

  load_artifact-IsPinned :
      (o : Sources Other) (base_dir : Text) (required : Bool) (relative : Text)
      (spec : CellSpec Other)
      → load_artifact o base_dir required relative ≡ ok spec
      → IsPinned o required spec
  unfolding load_artifact
  load_artifact-IsPinned o base_dir required relative spec h =
      let (path, _, h1) = >>=_ok (resolve_app_relative_path o base_dir relative) _ spec h in
      let (loaded, _, h2) = >>=_ok (load_cell o path) _ spec h1 in
      let (u, verified, e) = >>=_ok {0, 0, 0} (verify_wasm_digest o loaded required) _ spec h2 in
      subst (IsPinned o required) (ok_eq loaded spec _ refl e)
        (verify_wasm_digest-IsPinned o required loaded verified)

  -- A unit of two cells at least, with an artifact that comes from loading and provides what they do.
  pub record IsUnit (IsLoaded : CellSpec Other → Type 0) (cells : List (CellSpec Other))
      (u : ExecutionUnit Other) : Type 0 where
    pub named : is_empty u.name ≡ false
    pub two : 2 ≤ length u.members
    pub covered : All (IsCovered cells u.artifact.provides) u.members
    pub loaded : IsLoaded u.artifact

  abbrev pub all_members : List (ExecutionUnit Other) → List Text
  all_members [] = []
  all_members (u ∷ us) = u.members ++ all_members us

  build_units_steps :
      (load : Text → Result ArtifactError (CellSpec Other)) (cells : List (CellSpec Other))
      (index : ℕ) (u : RawUnit) (rest : List RawUnit) (claimed : Dict Text Text)
      (units : List (ExecutionUnit Other))
      → build_units load cells index (u ∷ rest) claimed ≡ ok units
      → (is_empty (trim_space u.name) ≡ false)
        × (artifact : CellSpec Other) × (load u.artifact ≡ ok artifact)
        × (ltb (length (dedupe u.members)) 2 ≡ false)
        × (next : Dict Text Text) × (claim_members cells
              (trim_space u.name)
              artifact.provides
              (dedupe u.members)
              claimed
            ≡ ok next)
        × (more : List (ExecutionUnit Other)) × (build_units load cells (suc index) rest next
            ≡ ok more)
        × (units
            ≡ record { name = trim_space u.name; artifact = artifact; members = dedupe u.members }
              ∷ more)
  unfolding build_units
  build_units_steps load cells index u rest claimed units h =
      let (named, h1) = fail_if-passed (is_empty (trim_space u.name)) _ _ units h in
      let (artifact, loaded, h2) =
        >>=_ok (lift (bad_artifact u.artifact) (load u.artifact)) _ units h1 in
      let (two, h3) = fail_if-passed (ltb (length (dedupe u.members)) 2) _ _ units h2 in
      let (next, claims, h4) =
        >>=_ok
          (claim_members cells (trim_space u.name) artifact.provides (dedupe u.members) claimed) _
          units h3 in
      let (more, built, e) = >>=_ok (build_units load cells (suc index) rest next) _ units h4 in
      (
        named,
        artifact,
        lift_ok (bad_artifact u.artifact) (load u.artifact) artifact loaded,
        two,
        next,
        claims,
        more,
        built,
        ok_eq _ _ _ e refl,
      )

  build_units-Distinct :
      (load : Text → Result ArtifactError (CellSpec Other)) (cells : List (CellSpec Other))
      (index : ℕ) (raw : List RawUnit) (claimed : Dict Text Text)
      (units : List (ExecutionUnit Other)) (IsLoaded : CellSpec Other → Type 0)
      → ((relative : Text) (c : CellSpec Other) → load relative ≡ ok c → IsLoaded c)
      → build_units load cells index raw claimed ≡ ok units
      → All (IsUnit IsLoaded cells) units
        × Distinct (all_members units)
        × ((k : Text) → contains (all_members units) k ≡ true → has k claimed ≡ false)
  unfolding build_units
  build_units-Distinct load cells index [] claimed units IsLoaded f h =
      rw (sym (ok_eq _ units _ refl h)) (tt, tt, λ k c. absurd cc)
  build_units-Distinct load cells index (u ∷ rest) claimed units IsLoaded f h =
      let (named, artifact, loaded, two, next, claims, more, built, e) =
        build_units_steps load cells index u rest claimed units h in
      let (covered, keys, free) =
        claim_members-IsCovered cells (trim_space u.name) artifact.provides (dedupe u.members)
          claimed next claims in
      let (good, distinct, others) =
        build_units-Distinct load cells (suc index) rest next more IsLoaded f built in
      rw e (
        (
          record {
            named = named;
            two = ground (arith, two);
            covered = covered;
            loaded = f u.artifact artifact loaded;
          },
          good,
        ),
        Distinct-join (dedupe u.members) (all_members more) (dedupe-Distinct u.members) distinct
            (λ k c. ground (arith, keys k, others k)),
        λ k c. ground (
          arith,
          keys k,
          free k,
          others k,
          contains-append (dedupe u.members) (all_members more) k,
        ),
      )

  -- Execution units that are built have a name, and two cells of the set at least, each once, with an
  -- artifact that provides all that they provide and whose file has the digest that its manifest pins,
  -- which it must where digests are required; no cell is in two units.
  pub build_execution_units-Distinct :
      (o : Sources Other) (base_dir : Text) (cells : List (CellSpec Other)) (raw : List RawUnit)
      (required : Bool) (units : List (ExecutionUnit Other))
      → build_execution_units o base_dir cells raw required ≡ ok units
      → All (IsUnit (IsPinned o required) cells) units × Distinct (all_members units)
  unfolding build_execution_units
  build_execution_units-Distinct o base_dir cells raw required units h =
      let (good, distinct, _) =
        build_units-Distinct (load_artifact o base_dir required) cells 0 raw [] units
          (IsPinned o required) (load_artifact-IsPinned o base_dir required) h in
      (good, distinct)
