-- ===== src/Manifest/Config.antt =====
-- internal/manifest/manifest.go, `setConfigPath` and the loop over `ConfigEnv`. A configuration value is
-- a text, a table, or another one. Go keeps a map for a table, which is nil for none; a call that fails
-- has no result.
pub mod Paths
pub mod Environment
use pulp.Prelude.{
  ◌≡◌, Bool, true, false, ◌||◌, List, [], ◌∷◌, ◌++◌, Option, none, some, Result, ok, err, fail_if,
  ◌>>=◌, ◌>>◌, ◌==◌, if◌then◌else◌,
}
use pulp.Prelude.Text.{Text, text_eq, trim_space, is_empty, split}

mutual
  pub data ConfigValue (Other : Type 0) : Type 0 where
    text : Text → ConfigValue Other
    other : Other → ConfigValue Other
    table : ConfigTable Other → ConfigValue Other

  pub data ConfigTable (Other : Type 0) : Type 0 where
    empty : ConfigTable Other
    entry : Text → ConfigValue Other → ConfigTable Other → ConfigTable Other

pub data ConfigError : Type 0 where
  empty_segment empty_name : ConfigError
  not_a_table : Text → ConfigError

module _ {Other : Type 0} where
  -- `cursor[part]`
  unfoldable pub get : Text → ConfigTable Other → Option (ConfigValue Other)
  get part empty = none
  get part (entry name v rest) = if part == name then some v else get part rest

  -- `cursor[part] = value`
  unfoldable pub put : Text → ConfigValue Other → ConfigTable Other → ConfigTable Other
  put part v empty = entry part v empty
  put part v (entry name w rest) =
      if part == name then entry part v rest else entry name w (put part v rest)

  -- The table at a segment: a new one where there is none.
  unfoldable pub table_at : Text → ConfigTable Other → Result ConfigError (ConfigTable Other)
  unfolding get
  table_at part t = elim (get part t) [
    | none ↦ ok empty
    | some (table sub) ↦ ok sub
    | some (text v) ↦ err (not_a_table part)
    | some (other v) ↦ err (not_a_table part)
  ]

  -- The loop over the segments, the last of which is the leaf.
  unfoldable pub set_parts :
      List Text → Text → ConfigTable Other → Result ConfigError (ConfigTable Other)
  unfolding table_at put
  set_parts [] value t = err empty_segment
  set_parts (leaf ∷ []) value t = do
    fail_if (is_empty leaf) empty_segment
    ok (put leaf (text value) t)
  set_parts (part ∷ next ∷ rest) value t = do
    fail_if (is_empty part) empty_segment
    sub ← table_at part t
    sub' ← set_parts (next ∷ rest) value sub
    ok (put part (table sub') t)

  unfoldable pub set_config_path :
      Text → Text → ConfigTable Other → Result ConfigError (ConfigTable Other)
  unfolding set_parts
  set_config_path path value t = set_parts (split b'.' path) value t

  -- The entries of a map, of which a nil one has none.
  abbrev pub entries_of : Option (ConfigTable Other) → ConfigTable Other
  entries_of none = empty
  entries_of (some t) = t

  -- What the loop does with the value of a variable, if it is set.
  unfoldable pub set_env :
      Option Text
      → Text
      → Option (ConfigTable Other)
      → Result ConfigError (Option (ConfigTable Other))
  unfolding set_config_path
  set_env none key t = ok t
  set_env (some value) key t = do t' ← set_config_path key value (entries_of t); ok (some t')

  -- The loop over `ConfigEnv`, in some order of the map.
  unfoldable pub apply_env :
      (Text → Option Text)
      → List (Text × Text)
      → Option (ConfigTable Other)
      → Result ConfigError (Option (ConfigTable Other))
  unfolding set_env
  apply_env env [] t = ok t
  apply_env env ((key, name) ∷ rest) t = do
    fail_if (is_empty (trim_space key) || is_empty (trim_space name)) empty_name
    t' ← set_env (env (trim_space name)) (trim_space key) t
    apply_env env rest t'
