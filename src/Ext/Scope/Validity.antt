-- ===== src/Ext/Scope/Validity.antt =====
-- ext/scope.go, `Validate`, `NewScope`, `LegacyScope`, `ScopeOf` and `EffectiveScope`.
use pulp.Prelude.{[], ◌≡◌, refl, false, arith, ok, ◌↔◌, Bool-cases, ◌⊎◌, inl, inr}
use pulp.Prelude.Text.{Text, codes, contains_rune, trim_space}
use pulp.Ext.Scope.{
  Scope, is_blank, validate, new_scope, legacy_scope, Cell, nil_cell, plain, scoped, scope_of,
  effective_scope,
}

-- What makes a text usable as an identifier.
pub record IsName (s : Text) : Type 0 where
  pub not_blank : is_blank s ≡ false
  pub no_nul : contains_rune 0 s ≡ false

pub record IsPlacement (s : Scope) : Type 0 where
  pub application : IsName s.application_id
  pub application_instance : IsName s.application_instance_id
  pub cell : IsName s.cell_id
  pub cell_instance : IsName s.cell_instance_id

-- `Validate` accepts a scope exactly when each of its four identifiers has a character that is not
-- a space and has no NUL.
pub validate_iff : (s : Scope) → (validate s ≡ ok tt) ↔ IsPlacement s
unfolding validate
validate_iff s = ground arith

-- `NewScope` returns the placement asked for exactly when it is valid.
pub new_scope_iff :
    (app instance_id cell cell_instance : Text) (s : Scope)
    → (new_scope app instance_id cell cell_instance ≡ ok s) ↔ (
        IsPlacement s
        × (s.application_id ≡ app)
        × (s.application_instance_id ≡ instance_id)
        × (s.cell_id ≡ cell)
        × (s.cell_instance_id ≡ cell_instance))
unfolding new_scope validate
new_scope_iff app instance_id cell cell_instance s = ground (arith, validate_iff s)

legacy-IsName : IsName (codes "legacy")
unfolding trim_space contains_rune
legacy-IsName = record { not_blank = refl; no_nul = refl }

default-IsName : IsName (codes "default")
unfolding trim_space contains_rune
default-IsName = record { not_blank = refl; no_nul = refl }

-- An empty name is replaced by `default`, so a name need only have no NUL.
legacy_cell-IsName :
    (name : Text) → contains_rune 0 name ≡ false → IsName (legacy_scope name).cell_id
unfolding legacy_scope
legacy_cell-IsName name h = elim (Bool-cases (is_blank name)) [
  | inl blank ↦ rw blank default-IsName
  | inr named ↦ rw named (record { not_blank = named; no_nul = h })
]

legacy_scope-IsPlacement :
    (name : Text) → contains_rune 0 name ≡ false → IsPlacement (legacy_scope name)
unfolding legacy_scope
legacy_scope-IsPlacement name h = record {
  application = legacy-IsName;
  application_instance = default-IsName;
  cell = legacy_cell-IsName name h;
  cell_instance = default-IsName;
}

-- The name of a cell without a NUL: what `LegacyScope` takes over as it is.
abbrev name_of : Cell → Text
name_of nil_cell = []
name_of (plain name) = name
name_of (scoped name s) = name

-- `ScopeOf` always gives a valid placement, for a cell whose name has no NUL.
pub scope_of-IsPlacement :
    (c : Cell) → contains_rune 0 (name_of c) ≡ false → IsPlacement (scope_of c)
unfolding scope_of contains_rune
scope_of-IsPlacement nil_cell h = legacy_scope-IsPlacement _ refl
scope_of-IsPlacement (plain name) h = legacy_scope-IsPlacement name h
scope_of-IsPlacement (scoped name s) h =
    ground (arith, validate_iff s, legacy_scope-IsPlacement name h)

-- `EffectiveScope` gives the explicit placement of the environment when that is valid, and otherwise
-- the legacy placement of its cell name; it is valid in both cases, for a name without a NUL.
pub effective_scope-IsPlacement :
    (s : Scope) (name : Text)
    → contains_rune 0 name ≡ false
    → IsPlacement (effective_scope s name)
      × ((effective_scope s name ≡ s)
          ⊎ ((¬ IsPlacement s) × (effective_scope s name ≡ legacy_scope name)))
unfolding effective_scope
effective_scope-IsPlacement s name h =
    ground (arith, validate_iff s, legacy_scope-IsPlacement name h)
