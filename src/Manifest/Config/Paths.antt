-- ===== src/Manifest/Config/Paths.antt =====
-- internal/manifest/manifest.go, `setConfigPath`: what is read back, and the order of two paths.
use pulp.Prelude.{
  ◌≡◌, ◌≢◌, refl, List, [], ◌∷◌, ◌++◌, Option, none, some, ok, err, arith, ◌==◌, if◌then◌else◌,
  Result-cases, inl, inr,
}
use pulp.Prelude.Text.{Text, text_eq}
use pulp.Manifest.Config.{
  ConfigValue, text, other, table, ConfigTable, empty, entry, ConfigError, not_a_table, get, put,
  table_at, set_parts,
}

module _ {Other : Type 0} where
  pub get-put :
      (j k : Text) (v : ConfigValue Other) (t : ConfigTable Other)
      → get j (put k v t) ≡ (if j == k then some v else get j t)
  unfolding get put
  get-put j k v empty = ground arith
  get-put j k v (entry name w rest) = ground (arith, get-put j k v rest)

  -- The value at the end of a path of segments.
  abbrev pub get_parts : List Text → ConfigTable Other → Option (ConfigValue Other)
  get_parts [] t = some (table t)
  get_parts (part ∷ rest) t = elim (get part t) [
    | none ↦ none
    | some (table sub) ↦ get_parts rest sub
    | some (text v) ↦ elim rest [ [] ↦ some (text v) | _ ∷ _ ↦ none ]
    | some (other v) ↦ elim rest [ [] ↦ some (other v) | _ ∷ _ ↦ none ]
  ]

  table_at-put :
      (part : Text) (sub t : ConfigTable Other) → table_at part (put part (table sub) t) ≡ ok sub
  unfolding table_at
  table_at-put part sub t = ground (arith, get-put part part (table sub) t)

  table_at-put_text :
      (part value : Text) (t : ConfigTable Other)
      → table_at part (put part (text value) t) ≡ err (not_a_table part)
  unfolding table_at
  table_at-put_text part value t = ground (arith, get-put part part (text value) t)

  -- What is set is read back.
  pub set_parts-get :
      (path : List Text) (value : Text) (t t' : ConfigTable Other)
      → set_parts path value t ≡ ok t'
      → get_parts path t' ≡ some (text value)
  unfolding set_parts
  set_parts-get [] value t t' h = absurd (ground arith)
  set_parts-get (leaf ∷ []) value t t' h = ground (arith, get-put leaf leaf (text value) t)
  set_parts-get (part ∷ next ∷ rest) value t t' h = elim (Result-cases (table_at part t)) [
    | inr (x, e) ↦ absurd (ground arith)
    | inl (sub, e) ↦ elim (Result-cases (set_parts (next ∷ rest) value sub)) [
      | inr (x, f) ↦ absurd (ground arith)
      | inl (sub', f) ↦
          ground
            (arith, get-put part part (table sub') t, set_parts-get (next ∷ rest) value sub sub' f)
    ]
  ]

  -- A path that goes on from one that is set already fails.
  set_parts-shadowed :
      (path : List Text) (next : Text) (more : List Text) (v w : Text) (t t' : ConfigTable Other)
      → set_parts path v t ≡ ok t'
      → (x : ConfigError) × (set_parts (path ++ next ∷ more) w t' ≡ err x)
  unfolding set_parts
  set_parts-shadowed [] next more v w t t' h = absurd (ground arith)
  set_parts-shadowed (leaf ∷ []) next more v w t t' h =
      (not_a_table leaf, ground (arith, table_at-put_text leaf v t))
  set_parts-shadowed (part ∷ b ∷ rest) next more v w t t' h =
      elim (Result-cases (table_at part t)) [
        | inr (x, e) ↦ absurd (ground arith)
        | inl (sub, e) ↦ elim (Result-cases (set_parts (b ∷ rest) v sub)) [
          | inr (x, f) ↦ absurd (ground arith)
          | inl (sub', f) ↦
              let (x, g) = set_parts-shadowed (b ∷ rest) next more v w sub sub' f in
              (x, ground (arith, table_at-put part sub' t))
        ]
      ]

  -- A path that stops short of one that is set already succeeds, and replaces it.
  set_parts-replaced :
      (path : List Text) (next : Text) (more : List Text) (v w : Text) (t t' : ConfigTable Other)
      → set_parts (path ++ next ∷ more) w t ≡ ok t'
      → path ≢ []
      → (t'' : ConfigTable Other) × (set_parts path v t' ≡ ok t'')
  unfolding set_parts
  set_parts-replaced [] next more v w t t' h n = absurd (n refl)
  set_parts-replaced (leaf ∷ []) next more v w t t' h n = (put leaf (text v) t', ground arith)
  set_parts-replaced (part ∷ b ∷ rest) next more v w t t' h n =
      elim (Result-cases (table_at part t)) [
        | inr (x, e) ↦ absurd (ground arith)
        | inl (sub, e) ↦ elim (Result-cases (set_parts (b ∷ (rest ++ next ∷ more)) w sub)) [
          | inr (x, f) ↦ absurd (ground arith)
          | inl (sub', f) ↦
              let (t'', g) = set_parts-replaced (b ∷ rest) next more v w sub sub' f (λ k. cc) in
              (put part (table t'') t', ground (arith, table_at-put part sub' t))
        ]
      ]

  -- Of a path and one that goes on from it, the shorter one set first makes the longer one fail, and
  -- the longer one set first leaves the shorter one to succeed: with both in `ConfigEnv`, the order in
  -- which the map is walked decides whether the manifest loads.
  pub set_parts_order :
      (path : List Text) (next : Text) (more : List Text) (v w : Text)
      (t short long : ConfigTable Other)
      → path ≢ []
      → set_parts path v t ≡ ok short
      → set_parts (path ++ next ∷ more) w t ≡ ok long
      → ((x : ConfigError) × (set_parts (path ++ next ∷ more) w short ≡ err x))
        × ((t' : ConfigTable Other) × (set_parts path v long ≡ ok t')
            × (get_parts path t' ≡ some (text v)))
  set_parts_order path next more v w t short long n first second =
      let (t', e) = set_parts-replaced path next more v w t long second n in
      (set_parts-shadowed path next more v w t short first, (t', e, set_parts-get path v long t' e))
