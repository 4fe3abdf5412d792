-- ===== src/Ext/Factory.antt =====
-- ext/scope.go, `ScopedFactory`. The constructor `new` is a parameter, which may answer differently at
-- each call; the state counts its calls. The mutex makes one call of `GetOrCreate` one step.
pub mod Ownership
use pulp.Prelude.{
  ℕ, ◌+◌, ◌≡◌, Bool, true, false, ◌||◌, List, [], ◌∷◌, ◌++◌, Option, none, some, Result, ok, err,
  if◌then◌else◌, length,
}
use pulp.Prelude.Text.{Text}
use pulp.Prelude.Dict.{Dict, lookup, insert}
use pulp.Ext.Scope.{Scope, ScopeError, is_blank, validate, ResourceKey, key_eq}

pub data FactoryError (E : Type 0) : Type 0 where
  bad_scope : ScopeError → FactoryError E
  invalid_resource_key : FactoryError E
  not_created : E → FactoryError E

-- The resources, and the keys for which `new` was called, the latest last.
pub record Factory (T : Type 0) : Type 0 where
  pub resources : Dict ResourceKey T
  pub calls : List ResourceKey

unfoldable pub new_factory : {T : Type 0} → Factory T
new_factory = record { resources = []; calls = [] }

module _ {T E : Type 0} (new : ℕ → ResourceKey → Result E T) where
  -- Under the lock, for a valid key.
  unfoldable pub obtain : ResourceKey → Factory T → Factory T × Result (FactoryError E) (T × Bool)
  obtain key f = elim (lookup key f.resources) [
    | some resource ↦ (f, ok (resource, false))
    | none ↦ elim (new (length f.calls) key) [
      | err e ↦ (record f { calls = f.calls ++ key ∷ [] }, err (not_created e))
      | ok resource ↦ (
        record { resources = insert key resource f.resources; calls = f.calls ++ key ∷ [] },
        ok (resource, true),
      )
    ]
  ]

  unfoldable pub get_or_create :
      ResourceKey → Factory T → Factory T × Result (FactoryError E) (T × Bool)
  unfolding obtain
  get_or_create key f = elim (validate key.scope) [
    | err e ↦ (f, err (bad_scope e))
    | ok _ ↦
        if is_blank key.resource_type || is_blank key.resource_id
        then (f, err invalid_resource_key)
        else obtain key f
  ]

  unfoldable pub count : Factory T → ℕ
  count f = length f.resources

  -- The factory after calls for these keys.
  unfoldable pub after_calls : List ResourceKey → Factory T → Factory T
  unfolding get_or_create
  after_calls [] f = f
  after_calls (key ∷ keys) f = after_calls keys (get_or_create key f).0
