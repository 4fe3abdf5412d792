-- ===== src/Ext/Factory/Ownership.antt =====
-- ext/scope.go, `ScopedFactory`: who owns a resource.
use pulp.Prelude.{
  ℕ, ◌≡◌, Bool, false, ◌||◌, List, [], ◌∷◌, some, Result, ok, arith, length, Option-cases,
  Result-cases, inl, inr,
}
use pulp.Prelude.Dict.{lookup, lookup-insert}
use pulp.Ext.Scope.{is_blank, validate, ResourceKey, key_eq}
use pulp.Ext.Factory.{Factory, obtain, get_or_create, after_calls}

module _ {T E : Type 0} (new : ℕ → ResourceKey → Result E T) where
  -- A key that `GetOrCreate` takes.
  pub record IsUsable (key : ResourceKey) : Type 0 where
    pub scope : validate key.scope ≡ ok tt
    pub names : (is_blank key.resource_type || is_blank key.resource_id) ≡ false

  get_or_create-usable :
      (key : ResourceKey) (f : Factory T)
      → IsUsable key
      → get_or_create new key f ≡ obtain new key f
  unfolding get_or_create
  get_or_create-usable key f u = ground (arith, u.scope, u.names)

  obtain-kept :
      (key j : ResourceKey) (f : Factory T) (r : T)
      → lookup j f.resources ≡ some r
      → lookup j (obtain new key f).0.resources ≡ some r
  unfolding obtain
  obtain-kept key j f r h = elim (Option-cases (lookup key f.resources)) [
    | inr (x, e) ↦ ground arith
    | inl e ↦ elim (Result-cases (new (length f.calls) key)) [
      | inl (x, d) ↦ ground (arith, lookup-insert j key x f.resources)
      | inr (x, d) ↦ ground arith
    ]
  ]

  get_or_create-kept :
      (key j : ResourceKey) (f : Factory T) (r : T)
      → lookup j f.resources ≡ some r
      → lookup j (get_or_create new key f).0.resources ≡ some r
  unfolding get_or_create
  get_or_create-kept key j f r h = ground (arith, obtain-kept key j f r h)

  after_calls-kept :
      (keys : List ResourceKey) (j : ResourceKey) (f : Factory T) (r : T)
      → lookup j f.resources ≡ some r
      → lookup j (after_calls new keys f).resources ≡ some r
  unfolding after_calls
  after_calls-kept [] j f r h = h
  after_calls-kept (key ∷ keys) j f r h =
      after_calls-kept keys j (get_or_create new key f).0 r (get_or_create-kept key j f r h)

  obtain-filed :
      (key : ResourceKey) (f g : Factory T) (r : T) (created : Bool)
      → obtain new key f ≡ (g, ok (r, created))
      → lookup key g.resources ≡ some r
  unfolding obtain
  obtain-filed key f g r created h = elim (Option-cases (lookup key f.resources)) [
    | inr (x, e) ↦ ground arith
    | inl e ↦ elim (Result-cases (new (length f.calls) key)) [
      | inl (x, d) ↦ ground (arith, lookup-insert key key x f.resources)
      | inr (x, d) ↦ ground arith
    ]
  ]

  obtain-again :
      (key : ResourceKey) (f : Factory T) (r : T)
      → lookup key f.resources ≡ some r
      → obtain new key f ≡ (f, ok (r, false))
  unfolding obtain
  obtain-again key f r h = ground arith

  -- What a usable key has got from `GetOrCreate` it gets again after any other calls, without a
  -- further call of `new`.
  pub get_or_create-stable :
      (key : ResourceKey) (f g : Factory T) (r : T) (created : Bool) (keys : List ResourceKey)
      → IsUsable key
      → get_or_create new key f ≡ (g, ok (r, created))
      → get_or_create new key (after_calls new keys g) ≡ (after_calls new keys g, ok (r, false))
  get_or_create-stable key f g r created keys u h = ground (
    arith,
    get_or_create-usable key f u,
    get_or_create-usable key (after_calls new keys g) u,
    obtain-filed key f g r created,
    after_calls-kept keys key g r,
    obtain-again key (after_calls new keys g) r,
  )
