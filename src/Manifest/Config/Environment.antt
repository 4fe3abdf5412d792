-- ===== src/Manifest/Config/Environment.antt =====
-- internal/manifest/manifest.go, the loop over `ConfigEnv`: what a configuration holds behind it.
use pulp.Prelude.{
  ◌≡◌, ◌≢◌, refl, ◌↔◌, ◌⊎◌, inl, inr, List, [], ◌∷◌, Option, none, some, ok, arith, ◌==◌,
  Bool-cases, Option-cases, Result-cases, ◌∙◌, sym, fail_if-passed, >>=_ok, All, subst, ap,
}
use pulp.Prelude.Text.{Text, text_eq, trim_space, split}
use pulp.Manifest.Config.{
  text, other, table, ConfigTable, empty, get, put, table_at, set_parts, set_config_path,
  entries_of, set_env, apply_env,
}
use pulp.Manifest.Config.Paths.{get_parts, get-put, set_parts-get}

-- Neither path goes on from the other.
abbrev pub Apart : List Text → List Text → Type 0
Apart [] q = ⊥
Apart (a ∷ p) [] = ⊥
Apart (a ∷ p) (b ∷ q) = (a ≢ b) ⊎ Apart p q

Apart-nil : (p : List Text) → ¬ Apart p []
Apart-nil [] h = h
Apart-nil (a ∷ p) h = h

abbrev pub path_of : Text → List Text
path_of key = split b'.' (trim_space key)

-- No entry whose variable is set goes to a path that meets this one.
abbrev pub IsClear : (Text → Option Text) → List (Text × Text) → List Text → Type 0
IsClear env [] path = Unit
IsClear env ((key, name) ∷ rest) path =
    ((env (trim_space name) ≡ none) ⊎ Apart path (path_of key)) × IsClear env rest path

module _ {Other : Type 0} where
  table_at-cases :
      (part : Text) (t sub : ConfigTable Other)
      → table_at part t ≡ ok sub
      → (get part t ≡ some (table sub)) ⊎ ((get part t ≡ none) × (sub ≡ empty))
  unfolding table_at
  table_at-cases part t sub h = elim (Option-cases (get part t)) [
    | inl e ↦ inr (e, ground arith)
    | inr (table s, e) ↦ inl (ground arith)
    | inr (text v, e) ↦ absurd (ground arith)
    | inr (other v, e) ↦ absurd (ground arith)
  ]

  get_parts-get :
      (a : Text) (p : List Text) (t t' : ConfigTable Other)
      → get a t' ≡ get a t
      → get_parts (a ∷ p) t' ≡ get_parts (a ∷ p) t
  get_parts-get a p t t' e = rw (e, get_parts) refl

  get_parts-below :
      (a : Text) (p : List Text) (t s : ConfigTable Other)
      → get a t ≡ some (table s)
      → get_parts (a ∷ p) t ≡ get_parts p s
  get_parts-below a p t s e = rw (e, get_parts) refl

  get_parts-none :
      (a : Text) (p : List Text) (t : ConfigTable Other)
      → get a t ≡ none
      → get_parts (a ∷ p) t ≡ none
  get_parts-none a p t e = rw (e, get_parts) refl

  get_parts-empty :
      (p q : List Text) (t : ConfigTable Other) → t ≡ empty → Apart p q → get_parts p t ≡ none
  unfolding get
  get_parts-empty [] q t e h = absurd h
  get_parts-empty (a ∷ p) q t e h = get_parts-none a p t (rw e refl)

  -- What is set leaves the values at the other paths as they were.
  set_parts-Apart :
      (p q : List Text) (value : Text) (t t' : ConfigTable Other)
      → set_parts q value t ≡ ok t'
      → Apart p q
      → get_parts p t' ≡ get_parts p t
  unfolding set_parts
  set_parts-Apart [] q value t t' h n = absurd n
  set_parts-Apart (a ∷ p) [] value t t' h n = absurd n
  set_parts-Apart (a ∷ p) (leaf ∷ []) value t t' h (inr n) = absurd (Apart-nil p n)
  set_parts-Apart (a ∷ p) (leaf ∷ []) value t t' h (inl n) =
      get_parts-get a p t t' (ground (arith, get-put a leaf (text value) t))
  set_parts-Apart (a ∷ p) (part ∷ next ∷ rest) value t t' h n =
      elim (Result-cases (table_at part t)) [
        | inr (x, e) ↦ absurd (ground arith)
        | inl (sub, e) ↦ elim (Result-cases (set_parts (next ∷ rest) value sub)) [
          | inr (x, f) ↦ absurd (ground arith)
          | inl (sub', f) ↦
              let same : t' ≡ put part (table sub') t = (ground arith) in
              let read = get-put a part (table sub') t in
              elim n [
                | inl ne ↦ get_parts-get a p t t' (ground arith)
                | inr more ↦ elim (Bool-cases (a == part)) [
                  | inr ne ↦ get_parts-get a p t t' (ground arith)
                  | inl eq ↦
                      get_parts-below a p t' sub' (ground arith)
                      ∙ set_parts-Apart p (next ∷ rest) value sub sub' f more
                      ∙ (elim (table_at-cases part t sub e) [
                        | inl found ↦ sym (get_parts-below a p t sub (ground arith))
                        | inr (missing, new) ↦
                            get_parts-empty p (next ∷ rest) sub new more
                            ∙ sym (get_parts-none a p t (ground arith))
                      ])
                ]
              ]
        ]
      ]

  -- Each entry has a key and a name; the value of its variable, where it is set, is at its path, if
  -- no later entry that is set meets that path.
  abbrev pub AreApplied : (Text → Option Text) → List (Text × Text) → ConfigTable Other → Type 0
  AreApplied env [] out = Unit
  AreApplied env ((key, name) ∷ rest) out =
      (trim_space key ≢ [])
      × (trim_space name ≢ [])
      × ((value : Text)
          → env (trim_space name) ≡ some value
          → IsClear env rest (path_of key)
          → get_parts (path_of key) out ≡ some (text value))
      × AreApplied env rest out

  set_env-some :
      (value key : Text) (t t' : Option (ConfigTable Other))
      → set_env (some value) key t ≡ ok t'
      → (u : ConfigTable Other) × (set_parts (split b'.' key) value (entries_of t) ≡ ok u)
        × (t' ≡ some u)
  unfolding set_env set_config_path
  set_env-some value key t t' h = let (u, e, f) = >>=_ok _ _ t' h in (u, e, ground arith)

  set_env-none :
      (key : Text) (t t' : Option (ConfigTable Other)) → set_env none key t ≡ ok t' → t' ≡ t
  unfolding set_env
  set_env-none key t t' h = ground arith

  set_env-Apart :
      (env : Text → Option Text) (key name : Text) (t t' : Option (ConfigTable Other))
      (p : List Text)
      → set_env (env (trim_space name)) (trim_space key) t ≡ ok t'
      → (env (trim_space name) ≡ none) ⊎ Apart p (path_of key)
      → get_parts p (entries_of t') ≡ get_parts p (entries_of t)
  set_env-Apart env key name t t' p h n = elim (Option-cases (env (trim_space name))) [
    | inl e ↦
        ap (λ x. get_parts p (entries_of x)) (set_env-none (trim_space key) t t' (ground arith))
    | inr (value, e) ↦
        let (u, set, same) = set_env-some value (trim_space key) t t' (ground arith) in
        ap (λ x. get_parts p (entries_of x)) same
        ∙ set_parts-Apart p (path_of key) value (entries_of t) u set (ground arith)
  ]

  apply_env_steps :
      (env : Text → Option Text) (key name : Text) (rest : List (Text × Text))
      (t t' : Option (ConfigTable Other))
      → apply_env env ((key, name) ∷ rest) t ≡ ok t'
      → (trim_space key ≢ [])
        × (trim_space name ≢ [])
        × (u : Option (ConfigTable Other)) × (set_env (env (trim_space name)) (trim_space key) t
            ≡ ok u)
        × (apply_env env rest u ≡ ok t')
  unfolding apply_env
  apply_env_steps env key name rest t t' h =
      let (named, h1) = fail_if-passed _ _ _ t' h in
      let (u, e, f) = >>=_ok _ _ t' h1 in (ground arith, ground arith, u, e, f)

  pub apply_env-kept :
      (env : Text → Option Text) (entries : List (Text × Text)) (t t' : Option (ConfigTable Other))
      (p : List Text)
      → apply_env env entries t ≡ ok t'
      → IsClear env entries p
      → get_parts p (entries_of t') ≡ get_parts p (entries_of t)
  unfolding apply_env
  apply_env-kept env [] t t' p h c = ground arith
  apply_env-kept env ((key, name) ∷ rest) t t' p h c =
      let (keyed, named, u, e, f) = apply_env_steps env key name rest t t' h in
      apply_env-kept env rest u t' p f c.1 ∙ set_env-Apart env key name t u p e c.0

  pub apply_env-AreApplied :
      (env : Text → Option Text) (entries : List (Text × Text)) (t t' : Option (ConfigTable Other))
      → apply_env env entries t ≡ ok t'
      → AreApplied env entries (entries_of t')
  unfolding apply_env
  apply_env-AreApplied env [] t t' h = tt
  apply_env-AreApplied env ((key, name) ∷ rest) t t' h =
      let (keyed, named, u, e, f) = apply_env_steps env key name rest t t' h in
      (
        keyed,
        named,
        λ value found clear.
            let (s, set, same) =
              set_env-some value (trim_space key) t u
                (subst (λ v. set_env v (trim_space key) t ≡ ok u) found e) in
            apply_env-kept env rest u t' (path_of key) f clear
            ∙ ap (λ x. get_parts (path_of key) (entries_of x)) same
            ∙ set_parts-get (path_of key) value (entries_of t) s set,
        apply_env-AreApplied env rest u t' f,
      )

  -- There is no map behind the entries exactly if there was none and no variable is set.
  pub apply_env-none :
      (env : Text → Option Text) (entries : List (Text × Text)) (t t' : Option (ConfigTable Other))
      → apply_env env entries t ≡ ok t'
      → (t' ≡ none) ↔ ((t ≡ none) × All (λ e. env (trim_space e.1) ≡ none) entries)
  unfolding apply_env
  apply_env-none env [] t t' h = ground arith
  apply_env-none env ((key, name) ∷ rest) t t' h =
      let (keyed, named, u, e, f) = apply_env_steps env key name rest t t' h in
      let more = apply_env-none env rest u t' f in
      elim (Option-cases (env (trim_space name))) [
        | inl unset ↦
            let same = set_env-none (trim_space key) t u (ground arith) in
            ((λ h'. (ground arith, (unset, (more.0 h').1))), (λ h'. more.1 (ground arith, h'.1.1)))
        | inr (value, found) ↦
            let (s, set, same) = set_env-some value (trim_space key) t u (ground arith) in
            ((λ h'. absurd (ground (arith, more.0 h'))), (λ h'. absurd (ground arith)))
      ]
