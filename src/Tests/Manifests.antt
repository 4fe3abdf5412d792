-- ===== src/Tests/Manifests.antt =====
-- internal/manifest.
use pulp.Prelude.{
  ◌≡◌, ◌≢◌, refl, false, List, [], ◌∷◌, ◌++◌, Option, ℕ, ◌↔◌, map, none, some, Result, ok, err,
}
use pulp.Prelude.Text.{Text, codes, text_eq, trim_space, split}
use pulp.Prelude.Dict.{lookup, insert}
use pulp.Prelude.Sorting.{stable_sort}
use pulp.Dependency.Plan.{
  build, number_items, link_items, run_levels, initially_ready, count_dependencies,
}
use pulp.Dependency.Plan.Correct.{IsValid}
use pulp.Dependency.Plan.Ranks.{IsRanked}
use pulp.Manifest.Fields.{
  dedupe, lower_all, normalize_host_consumes, normalize_execution, check_execution,
}
use pulp.Manifest.Cells.{pos, RawCell, CellSpec, Platform, normalize}
use pulp.Manifest.Sets.{SetError, CellSet, build_set, cell_item}
use pulp.Manifest.Sets.Owners.{IsWired}
use pulp.Manifest.Sets.Wired.{IsDeployment, build_set_iff, build_set-IsDeployment}
use pulp.Manifest.Config.{ConfigTable, ConfigError, empty, text, table, apply_env, set_parts}
use pulp.Manifest.Config.Paths.{get_parts, set_parts_order}

-- `db` and `db.url`, in both orders.
abbrev environment : Text → Option Text
environment name = some (codes "x")

abbrev nothing : ConfigTable (Unit {0})
nothing = empty

short_first :
    (apply_env environment
      ((codes "db", codes "A") ∷ (codes "db.url", codes "B") ∷ [])
      (some nothing))
    ≡ err (ConfigError.not_a_table (codes "db"))
unfolding apply_env text_eq trim_space split
short_first = refl

abbrev db : Text
db = codes "db"

abbrev url : Text
url = codes "url"

abbrev short : ConfigTable (Unit {0})
short = ConfigTable.entry db (text (codes "x")) empty

abbrev long : ConfigTable (Unit {0})
long = ConfigTable.entry db (table (ConfigTable.entry url (text (codes "y")) empty)) empty

short_set : set_parts (db ∷ []) (codes "x") nothing ≡ ok short
unfolding set_parts
short_set = refl

long_set : set_parts (db ∷ url ∷ []) (codes "y") nothing ≡ ok long
unfolding set_parts
long_set = refl

not_empty : db ∷ [] ≢ []
not_empty e = cc

set_parts_order_example :
    ((x : ConfigError) × (set_parts (db ∷ url ∷ []) (codes "y") short ≡ err x))
    × ((t' : ConfigTable (Unit {0})) × (set_parts (db ∷ []) (codes "x") long ≡ ok t')
        × (get_parts (db ∷ []) t' ≡ some (text (codes "x"))))
set_parts_order_example =
    set_parts_order (db ∷ []) url [] (codes "x") (codes "y") nothing short long not_empty short_set
      long_set

abbrev pub platform : Platform
platform = record {
  to_lower = λ s. s;
  is_abs = λ s. false;
  dir = λ s. [];
  join = λ d s. d ++ s;
  environment = λ s. none;
}

-- `name` and what it provides, consumes and depends on.
abbrev pub raw_cell : Text → List Text → List Text → List Text → RawCell (Unit {0})
raw_cell name provides consumes depends_on = record {
  schema_version = pos 0;
  name = name;
  version = codes "1.0 ";
  wasm = [];
  wasm_sha256 = none;
  provides = provides;
  consumes = consumes;
  host_consumes = codes "pay::charge" ∷ [];
  depends_on = depends_on;
  capabilities = codes " fs" ∷ codes "fs" ∷ [];
  execution = record { mode = codes "fusible"; group = codes "g"; abi = codes "1" };
  shared_memory_groups = [];
  dedicated_thread = false;
  snapshotable = false;
  restart = [];
  max_memory_pages = 4;
  call_timeout_ms = 0;
  config = none;
  config_env = [];
}

abbrev pub cell : Text → List Text → List Text → List Text → CellSpec (Unit {0})
cell name provides consumes depends_on = record {
  schema_version = 1;
  name = name;
  version = codes "1.0";
  provides = provides;
  consumes = consumes;
  host_consumes = codes "pay::charge" ∷ [];
  depends_on = depends_on;
  capabilities = codes "fs" ∷ [];
  execution = record { mode = codes "fusible"; group = codes "g"; abi = codes "1" };
  shared_memory_groups = [];
  dedicated_thread = false;
  snapshotable = false;
  max_memory_pages = 4;
  call_timeout_ms = 0;
  restart = codes "on_crash";
  config = none;
  config_env = [];
  manifest_path = codes "m";
  wasm_path = codes "cell.wasm";
  wasm_sha256 = [];
}

abbrev pub cart : CellSpec (Unit {0})
cart = cell (codes "cart") (codes "add" ∷ []) (codes "find" ∷ []) (codes "stock" ∷ [])

abbrev pub stock : CellSpec (Unit {0})
stock = cell (codes "stock") (codes "find" ∷ []) [] []

pub cart_normalized :
    normalize platform
      (raw_cell
        (codes "cart")
        (codes "add" ∷ codes "add" ∷ [])
        (codes "find" ∷ [])
        (codes "stock" ∷ []))
      (codes "m")
    ≡ ok cart
unfolding normalize text_eq trim_space dedupe lower_all normalize_host_consumes normalize_execution
    check_execution apply_env
cart_normalized = refl

-- The same with a variable for `db.url`.
abbrev set_platform : Platform
set_platform = record platform { environment = environment }

abbrev raw_env : RawCell (Unit {0})
raw_env = record (raw_cell (codes "cart") (codes "add" ∷ codes "add" ∷ []) [] []) {
  config_env = (codes " db.url", codes "DB_URL") ∷ [];
}

abbrev env_cart : CellSpec (Unit {0})
env_cart = record (cell (codes "cart") (codes "add" ∷ []) [] []) {
  config =
      some (ConfigTable.entry db (table (ConfigTable.entry url (text (codes "x")) empty)) empty);
  config_env = (codes " db.url", codes "DB_URL") ∷ [];
}

build_set_iff_example : ((s : CellSet (Unit {0})) × (build_set (cart ∷ stock ∷ []) ≡ ok s)) ↔ (
    IsWired (cart ∷ stock ∷ [])
    × IsValid (map cell_item (cart ∷ stock ∷ []))
    × ((rank : Text → ℕ) × IsRanked rank (map cell_item (cart ∷ stock ∷ []))))
build_set_iff_example = build_set_iff (cart ∷ stock ∷ [])

abbrev set_of : Result SetError (CellSet (Unit {0})) → CellSet (Unit {0})
set_of (ok s) = s
set_of (err _) = record {
  cells = [];
  order = [];
  plan = record { nodes = []; levels = []; start_order = []; stop_order = [] };
}

started : build_set (cart ∷ stock ∷ []) ≡ ok (set_of (build_set (cart ∷ stock ∷ [])))
unfolding build_set text_eq lookup insert trim_space build number_items link_items run_levels
    stable_sort initially_ready count_dependencies
started = refl

build_set-IsDeployment_example :
    IsDeployment (cart ∷ stock ∷ []) (set_of (build_set (cart ∷ stock ∷ [])))
build_set-IsDeployment_example =
    build_set-IsDeployment (cart ∷ stock ∷ []) (set_of (build_set (cart ∷ stock ∷ []))) started

-- A provider with two owners.
ambiguous :
    build_set (cart ∷ stock ∷ cell (codes "shop") (codes "find" ∷ []) [] [] ∷ [])
    ≡ err (
        SetError.ambiguous_providers
          (codes "cart")
          (codes "find")
          (codes "stock" ∷ codes "shop" ∷ []))
unfolding build_set text_eq lookup insert
ambiguous = refl
