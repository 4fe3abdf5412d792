-- ===== src/Manifest/Cells/Normal.antt =====
-- internal/manifest/manifest.go: what `normalize` returns.
use pulp.Prelude.{
  ℕ, zero, suc, ◌≡◌, ◌≢◌, ◌↔◌, map, refl, ◌⊎◌, inl, inr, true, false, not, ◌&&◌, List, [], ◌∷◌,
  Option, none, some, ok, contains, arith, All, fail_if-passed, >>=_ok, ok_eq,
}
use pulp.Prelude.Sets.{Distinct}
use pulp.Prelude.Text.{Text, text_eq, trim_space, is_empty}
use pulp.Manifest.Config.{ConfigTable, entries_of, apply_env}
use pulp.Manifest.Config.Paths.{get_parts}
use pulp.Manifest.Config.Environment.{
  AreApplied, IsClear, apply_env-AreApplied, apply_env-kept, apply_env-none,
}
use pulp.Manifest.Fields.{
  Execution, dedupe, lower_all, normalize_host_consumes, normalize_execution,
}
use pulp.Manifest.Fields.Exact.{
  IsExact, dedupe-contains, dedupe-Distinct, normalize_host_consumes-kept,
}
use pulp.Manifest.Fields.Digests.{
  IsPlaced, normalize_execution-IsPlaced, IsDigest, normalize_sha256-IsDigest,
}
use pulp.Manifest.Cells.{
  ℤ, pos, negsuc, RawCell, CellSpec, Platform, check_schema, never, on_crash, always, check_restart,
  check_sha256, lift_ok, lift, normalize, assemble, bad_field, bad_config,
}

-- The texts of a list that are not empty, without repetition.
pub record IsSetOf (out raw : List Text) : Type 0 where
  pub distinct : Distinct out
  pub members : (a : Text) → contains out a ≡ (contains raw a && not (is_empty a))

dedupe-IsSetOf : (raw : List Text) → IsSetOf (dedupe raw) raw
dedupe-IsSetOf raw = record { distinct = dedupe-Distinct raw; members = dedupe-contains raw }

-- What a cell's manifest comes to.
pub record IsNormal {Other : Type 0} (p : Platform) (r : RawCell Other) (s : CellSpec Other)
    : Type 0 where
  pub name : (s.name ≡ trim_space r.name) × (s.name ≢ [])
  pub version : (s.version ≡ trim_space r.version) × (s.version ≢ [])
  pub schema : (s.schema_version ≡ 1) × ((r.schema_version ≡ pos 0) ⊎ (r.schema_version ≡ pos 1))
  pub restart :
      (contains (never ∷ on_crash ∷ always ∷ []) s.restart ≡ true)
      × (((trim_space r.restart ≡ []) × (s.restart ≡ on_crash))
          ⊎ (s.restart ≡ trim_space r.restart))
  pub provides : IsSetOf s.provides r.provides
  pub consumes : IsSetOf s.consumes r.consumes
  pub depends_on : IsSetOf s.depends_on r.depends_on
  pub capabilities : IsSetOf s.capabilities (map (λ c. p.to_lower (trim_space c)) r.capabilities)
  pub shared_memory_groups : IsSetOf s.shared_memory_groups r.shared_memory_groups
  pub host_consumes :
      (s.host_consumes ≡ r.host_consumes) × Distinct r.host_consumes × All IsExact r.host_consumes
  pub execution : IsPlaced s.execution
  pub applied : AreApplied p.environment r.config_env (entries_of s.config)
  pub kept :
      (path : List Text)
      → IsClear p.environment r.config_env path
      → get_parts path (entries_of s.config) ≡ get_parts path (entries_of r.config)
  pub no_config :
      (s.config ≡ none)
      ↔ ((r.config ≡ none) × All (λ e. p.environment (trim_space e.1) ≡ none) r.config_env)
  pub digest :
      ((r.wasm_sha256 ≡ none) × (s.wasm_sha256 ≡ []))
      ⊎ ((v : Text) × (r.wasm_sha256 ≡ some v) × IsDigest v s.wasm_sha256)

check_schema-one :
    (raw : ℤ) (n : ℕ) → check_schema raw ≡ ok n → (n ≡ 1) × ((raw ≡ pos 0) ⊎ (raw ≡ pos 1))
unfolding check_schema
check_schema-one (pos zero) n h = ground arith
check_schema-one (pos (suc zero)) n h = ground arith
check_schema-one (pos (suc (suc k))) n h = absurd cc
check_schema-one (negsuc k) n h = absurd cc

check_restart-known :
    (raw restart : Text)
    → check_restart raw ≡ ok restart
    → (contains (never ∷ on_crash ∷ always ∷ []) restart ≡ true)
      × (((trim_space raw ≡ []) × (restart ≡ on_crash)) ⊎ (restart ≡ trim_space raw))
unfolding check_restart
check_restart-known raw restart h = ground arith

check_sha256-IsDigest :
    (raw : Option Text) (digest : Text)
    → check_sha256 raw ≡ ok digest
    → ((raw ≡ none) × (digest ≡ [])) ⊎ ((v : Text) × (raw ≡ some v) × IsDigest v digest)
unfolding check_sha256
check_sha256-IsDigest none digest h = inl (refl, cc)
check_sha256-IsDigest (some v) digest h =
    inr (v, refl, normalize_sha256-IsDigest v digest (lift_ok _ _ digest h))

-- The steps of `normalize`.
normalize_steps :
    {Other : Type 0} (p : Platform) (r : RawCell Other) (path : Text) (s : CellSpec Other)
    → normalize p r path ≡ ok s
    → (is_empty (trim_space r.name) ≡ false)
      × (is_empty (trim_space r.version) ≡ false)
      × (n : ℕ) × (check_schema r.schema_version ≡ ok n)
      × (restart : Text) × (check_restart r.restart ≡ ok restart)
      × (hosts : List Text) × (lift bad_field (normalize_host_consumes r.host_consumes) ≡ ok hosts)
      × (digest : Text) × (check_sha256 r.wasm_sha256 ≡ ok digest)
      × (execution : Execution) × (lift bad_field (normalize_execution p.to_lower r.execution)
          ≡ ok execution)
      × (config : Option (ConfigTable Other)) × (lift bad_config
            (apply_env p.environment r.config_env r.config)
          ≡ ok config)
      × (assemble p r path n restart hosts digest execution config ≡ s)
unfolding normalize
normalize_steps p r path s h =
    let (named, h1) = fail_if-passed _ _ _ s h in
    let (versioned, h2) = fail_if-passed _ _ _ s h1 in
    let (n, schema, h3) = >>=_ok _ _ s h2 in
    let (restart, known, h4) = >>=_ok _ _ s h3 in
    let (hosts, exact, h5) = >>=_ok _ _ s h4 in
    let (digest, hashed, h6) = >>=_ok _ _ s h5 in
    let (execution, placed, h7) = >>=_ok _ _ s h6 in
    let (config, applied, e) = >>=_ok _ _ s h7 in
    (
      named,
      versioned,
      n,
      schema,
      restart,
      known,
      hosts,
      exact,
      digest,
      hashed,
      execution,
      placed,
      config,
      applied,
      ok_eq _ _ _ refl e,
    )

is_empty-ne : (t : Text) → is_empty t ≡ false → t ≢ []
is_empty-ne t h e = ground arith

pub normalize-IsNormal :
    {Other : Type 0} (p : Platform) (r : RawCell Other) (path : Text) (s : CellSpec Other)
    → normalize p r path ≡ ok s
    → IsNormal p r s
unfolding assemble lower_all
normalize-IsNormal p r path s h =
    let (
      named, versioned, n, schema, restart, known, hosts, exact, digest, hashed, execution, placed,
      config, applied, e,
    ) =
      normalize_steps p r path s h in
    let (one, raw) = check_schema-one r.schema_version n schema in
    let (same, distinct, exacts) =
      normalize_host_consumes-kept r.host_consumes hosts (lift_ok _ _ hosts exact) in
    let env = p.environment in
    let entries = r.config_env in
    let set : apply_env env entries r.config ≡ ok config = (lift_ok _ _ config applied) in
    rw (← e) (record {
      name = (refl, is_empty-ne _ named);
      version = (refl, is_empty-ne _ versioned);
      schema = (one, raw);
      restart = check_restart-known r.restart restart known;
      provides = dedupe-IsSetOf r.provides;
      consumes = dedupe-IsSetOf r.consumes;
      depends_on = dedupe-IsSetOf r.depends_on;
      capabilities = dedupe-IsSetOf (map (λ c. p.to_lower (trim_space c)) r.capabilities);
      shared_memory_groups = dedupe-IsSetOf r.shared_memory_groups;
      host_consumes = (same, distinct, exacts);
      execution =
          normalize_execution-IsPlaced p.to_lower r.execution execution
            (lift_ok _ _ execution placed);
      applied = apply_env-AreApplied env entries r.config config set;
      kept = λ path clear. apply_env-kept env entries r.config config path set clear;
      no_config = apply_env-none env entries r.config config set;
      digest = check_sha256-IsDigest r.wasm_sha256 digest hashed;
    })
