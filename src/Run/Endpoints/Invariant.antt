-- ===== src/Run/Endpoints/Invariant.antt =====
-- run/endpoint_registry.go: the two indexes agree after any history of reports and removals.
use pulp.Prelude.{
  ◌≡◌, ◌≢◌, Option, none, some, ok, arith, ◌==◌, if◌then◌else◌, Option-cases, inl, inr,
}
use pulp.Prelude.Text.{text_eq}
use pulp.Prelude.Dict.{
  lookup, insert, delete, lookup-insert, lookup-delete, NodupKeys, insert-NodupKeys,
  delete-NodupKeys,
}
use pulp.Ext.Scope.{ResourceKey, key_eq, resource_key}
use pulp.Run.Endpoints.{
  Endpoint, ApplicationKey, application_key_eq, Registry, new_registry, endpoint_keys,
}

-- The front door that a resource is at.
abbrev pub front_door : ResourceKey → ApplicationKey
front_door k = record {
  application_id = k.scope.application_id;
  instance_id = k.scope.application_instance_id;
  capability = k.resource_type;
  name = k.resource_id;
}

abbrev pub key_of : Endpoint → ResourceKey
key_of e = record { scope = e.scope; resource_type = e.capability; resource_id = e.name }

-- What the host sees: the endpoint at a front door.
unfoldable pub at_door : Registry → ApplicationKey → Option Endpoint
at_door r a = elim (lookup a r.by_application) [ none ↦ none | some k ↦ lookup k r.by_resource ]

pub endpoint_keys-eq :
    (e : Endpoint) (resource : ResourceKey) (application : ApplicationKey)
    → endpoint_keys e ≡ ok (resource, application)
    → (resource ≡ key_of e) × (application ≡ front_door resource)
unfolding endpoint_keys resource_key
endpoint_keys-eq e resource application h = ground arith

-- The index by application has one entry for a front door, each front door is owned by a resource that is listed, and each listed endpoint owns its own.
pub record Inv (r : Registry) : Type 0 where
  pub unique : NodupKeys r.by_application
  pub owned :
      (a : ApplicationKey) (k : ResourceKey)
      → lookup a r.by_application ≡ some k
      → (front_door k ≡ a) × (lookup k r.by_resource ≢ none)
  pub listed :
      (k : ResourceKey) (e : Endpoint)
      → lookup k r.by_resource ≡ some e
      → (key_of e ≡ k) × (lookup (front_door k) r.by_application ≡ some k)

pub new_registry-Inv : Inv new_registry
unfolding new_registry lookup
new_registry-Inv = record {
  unique = tt;
  owned = λ a k h. absurd (cc);
  listed = λ k e h. absurd (cc);
}

module _ (r : Registry) (v : Inv r) where
  pub insert-Inv :
      (e : Endpoint)
      → lookup (key_of e) r.by_resource ≡ none
      → lookup (front_door (key_of e)) r.by_application ≡ none
      → Inv (record {
        by_resource = insert (key_of e) e r.by_resource;
        by_application = insert (front_door (key_of e)) (key_of e) r.by_application;
      })
  insert-Inv e free open_door = record {
    unique = insert-NodupKeys (front_door (key_of e)) (key_of e) r.by_application v.unique;
    owned = λ a k h. ground (
      arith,
      lookup-insert a (front_door (key_of e)) (key_of e) r.by_application,
      lookup-insert k (key_of e) e r.by_resource,
      v.owned a k,
    );
    listed = λ k e' h. ground (
      arith,
      lookup-insert k (key_of e) e r.by_resource,
      lookup-insert (front_door k) (front_door (key_of e)) (key_of e) r.by_application,
      v.listed k e',
    );
  }

  -- Taking a resource and its front door out together keeps the indexes in step.
  pub delete-Inv :
      (k : ResourceKey)
      → lookup (front_door k) r.by_application ≡ some k
      → Inv (record {
        by_resource = delete k r.by_resource;
        by_application = delete (front_door k) r.by_application;
      })
  delete-Inv k owner = record {
    unique = delete-NodupKeys (front_door k) r.by_application v.unique;
    owned = λ a k' h. ground (
      arith,
      lookup-delete a (front_door k) r.by_application,
      lookup-delete k' k r.by_resource,
      v.owned a k',
    );
    listed = λ k' e' h. ground (
      arith,
      lookup-delete k' k r.by_resource,
      lookup-delete (front_door k') (front_door k) r.by_application,
      v.listed k' e',
    );
  }

  pub at_door-delete :
      (k : ResourceKey) (a : ApplicationKey)
      → lookup (front_door k) r.by_application ≡ some k
      → at_door
          (record {
            by_resource = delete k r.by_resource;
            by_application = delete (front_door k) r.by_application;
          })
          a
        ≡ (if a == front_door k then none else at_door r a)
  unfolding at_door
  at_door-delete k a owner = elim (Option-cases (lookup a r.by_application)) [
    | inl e ↦ ground (arith, lookup-delete a (front_door k) r.by_application)
    | inr (k', e) ↦ ground (
      arith,
      lookup-delete a (front_door k) r.by_application,
      lookup-delete k' k r.by_resource,
      v.owned a k',
    )
  ]

  pub at_door-insert :
      (e : Endpoint) (a : ApplicationKey)
      → lookup (key_of e) r.by_resource ≡ none
      → at_door
          (record {
            by_resource = insert (key_of e) e r.by_resource;
            by_application = insert (front_door (key_of e)) (key_of e) r.by_application;
          })
          a
        ≡ (if a == front_door (key_of e) then some e else at_door r a)
  unfolding at_door
  at_door-insert e a free = elim (Option-cases (lookup a r.by_application)) [
    | inl none_here ↦ ground (
      arith,
      lookup-insert a (front_door (key_of e)) (key_of e) r.by_application,
      lookup-insert (key_of e) (key_of e) e r.by_resource,
    )
    | inr (k', here) ↦ ground (
      arith,
      lookup-insert a (front_door (key_of e)) (key_of e) r.by_application,
      lookup-insert (key_of e) (key_of e) e r.by_resource,
      lookup-insert k' (key_of e) e r.by_resource,
      v.owned a k',
    )
  ]

  pub at_door-listed :
      (a : ApplicationKey) (e : Endpoint)
      → at_door r a ≡ some e
      → (lookup (key_of e) r.by_resource ≡ some e) × (front_door (key_of e) ≡ a)
  unfolding at_door
  at_door-listed a e h = elim (Option-cases (lookup a r.by_application)) [
    | inl none_here ↦ absurd (ground arith)
    | inr (k, owner) ↦ ground (arith, v.owned a k owner, v.listed k e)
  ]
