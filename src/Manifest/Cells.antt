-- ===== src/Manifest/Cells.antt =====
-- internal/manifest/manifest.go, `normalize`: a decoded pulp.cell.toml becomes a `CellSpec`. The
-- functions of path/filepath and the environment are parameters.
pub mod Normal
use pulp.Prelude.{
  ℕ, zero, suc, ◌≡◌, refl, Bool, true, false, not, ◌&&◌, ◌||◌, List, [], ◌∷◌, Option, none, some,
  Result, ok, err, fail_if, ◌>>=◌, ◌>>◌, ◌==◌, contains, if◌then◌else◌,
}
use pulp.Prelude.Text.{Text, text_eq, codes, trim_space, is_empty}
use pulp.Manifest.Config.{ConfigTable, ConfigError, apply_env}
use pulp.Manifest.Fields.{
  FieldError, Execution, dedupe, lower_all, normalize_host_consumes, normalize_execution,
  normalize_sha256,
}

-- Go's int.
pub data ℤ : Type 0 where
  pos negsuc : ℕ → ℤ

pub record RawCell (Other : Type 0) : Type 0 where
  pub schema_version : ℤ
  pub name : Text
  pub version : Text
  pub wasm : Text
  pub wasm_sha256 : Option Text
  pub provides : List Text
  pub consumes : List Text
  pub host_consumes : List Text
  pub depends_on : List Text
  pub capabilities : List Text
  pub execution : Execution
  pub shared_memory_groups : List Text
  pub dedicated_thread : Bool
  pub snapshotable : Bool
  pub restart : Text
  pub max_memory_pages : ℕ
  pub call_timeout_ms : ℕ
  pub config : Option (ConfigTable Other)
  pub config_env : List (Text × Text)

pub record CellSpec (Other : Type 0) : Type 0 where
  pub schema_version : ℕ
  pub name : Text
  pub version : Text
  pub provides : List Text
  pub consumes : List Text
  pub host_consumes : List Text
  pub depends_on : List Text
  pub capabilities : List Text
  pub execution : Execution
  pub shared_memory_groups : List Text
  pub dedicated_thread : Bool
  pub snapshotable : Bool
  pub max_memory_pages : ℕ
  pub call_timeout_ms : ℕ
  pub restart : Text
  pub config : Option (ConfigTable Other)
  pub config_env : List (Text × Text)
  pub manifest_path : Text
  pub wasm_path : Text
  pub wasm_sha256 : Text

pub data CellError : Type 0 where
  name_required version_required newer_schema bad_schema : CellError
  unknown_restart : Text → CellError
  bad_field : FieldError → CellError
  bad_config : ConfigError → CellError

-- strings.ToLower, the package path/filepath and os.LookupEnv.
pub record Platform : Type 0 where
  pub to_lower : Text → Text
  pub is_abs : Text → Bool
  pub dir : Text → Text
  pub join : Text → Text → Text
  pub environment : Text → Option Text

-- `CurrentSchemaVersion` is 1, which 0 stands for too.
unfoldable pub check_schema : ℤ → Result CellError ℕ
check_schema (pos zero) = ok 1
check_schema (pos (suc zero)) = ok 1
check_schema (pos (suc (suc n))) = err newer_schema
check_schema (negsuc n) = err bad_schema

abbrev pub never : Text
never = codes "never"

abbrev pub on_crash : Text
on_crash = codes "on_crash"

abbrev pub always : Text
always = codes "always"

unfoldable pub check_restart : Text → Result CellError Text
check_restart raw =
    let restart = if is_empty (trim_space raw) then on_crash else trim_space raw in
    if contains (never ∷ on_crash ∷ always ∷ []) restart
    then ok restart
    else err (unknown_restart restart)

unfoldable pub wasm_path : Platform → Text → Text → Text
wasm_path p manifest_path wasm =
    let path = if is_empty wasm then codes "cell.wasm" else wasm in
    if p.is_abs path then path else p.join (p.dir manifest_path) path

-- An error of a helper, passed on.
abbrev pub lift {ℓ} : {A E : Type 0} {F : Type ℓ} → (E → F) → Result E A → Result F A
lift f (ok a) = ok a
lift f (err e) = err (f e)

pub lift_ok : {A E F : Type 0} (f : E → F) (r : Result E A) (a : A) → lift f r ≡ ok a → r ≡ ok a
lift_ok f (ok b) a h = cc
lift_ok f (err e) a h = absurd cc

unfoldable pub check_sha256 : Option Text → Result CellError Text
check_sha256 none = ok []
check_sha256 (some value) = lift bad_field (normalize_sha256 value)

-- The result.
unfoldable pub assemble :
    {Other : Type 0}
    → Platform
    → RawCell Other
    → Text
    → ℕ
    → Text
    → List Text
    → Text
    → Execution
    → Option (ConfigTable Other)
    → CellSpec Other
unfolding wasm_path
assemble p r manifest_path schema_version restart host_consumes wasm_sha256 execution config =
    record {
      schema_version = schema_version;
      name = trim_space r.name;
      version = trim_space r.version;
      provides = dedupe r.provides;
      consumes = dedupe r.consumes;
      host_consumes = host_consumes;
      depends_on = dedupe r.depends_on;
      capabilities = dedupe (lower_all p.to_lower r.capabilities);
      execution = execution;
      shared_memory_groups = dedupe r.shared_memory_groups;
      dedicated_thread = r.dedicated_thread;
      snapshotable = r.snapshotable;
      max_memory_pages = r.max_memory_pages;
      call_timeout_ms = r.call_timeout_ms;
      restart = restart;
      config = config;
      config_env = r.config_env;
      manifest_path = manifest_path;
      wasm_path = wasm_path p manifest_path r.wasm;
      wasm_sha256 = wasm_sha256;
    }

unfoldable pub normalize :
    {Other : Type 0} → Platform → RawCell Other → Text → Result CellError (CellSpec Other)
unfolding check_schema check_restart check_sha256 assemble
normalize p r manifest_path = do
  fail_if (is_empty (trim_space r.name)) name_required
  fail_if (is_empty (trim_space r.version)) version_required
  schema_version ← check_schema r.schema_version
  restart ← check_restart r.restart
  host_consumes ← lift bad_field (normalize_host_consumes r.host_consumes)
  wasm_sha256 ← check_sha256 r.wasm_sha256
  execution ← lift bad_field (normalize_execution p.to_lower r.execution)
  config ← lift bad_config (apply_env p.environment r.config_env r.config)
  ok (assemble p r manifest_path schema_version restart host_consumes wasm_sha256 execution config)
