-- ===== src/Run/Endpoints.antt =====
-- run/endpoint_registry.go, on a registry that is not nil. The lock around each method makes the
-- methods the steps of a history; `Registry` is the state that it guards.
pub mod Invariant
pub mod Doors
pub mod Removal
pub mod History
use pulp.Prelude.{
  Bool, ◌&&◌, List, [], ◌∷◌, Option, none, some, Result, ok, err, Eq, ◌==◌, if◌then◌else◌,
  ℕ_discrete,
}
use pulp.Prelude.Text.{Text, text_eq, trim_space}
use pulp.Prelude.Dict.{Dict, lookup, insert, delete}
use pulp.Ext.Scope.{
  Scope, ScopeError, validate, is_blank, ResourceKey, key_eq, KeyError, resource_key,
}

-- ext.Endpoint
pub record Endpoint : Type 0 where
  pub scope : Scope
  pub capability : Text
  pub name : Text
  pub address : Text

pub record ApplicationKey : Type 0 where
  pub application_id : Text
  pub instance_id : Text
  pub capability : Text
  pub name : Text

application_key_dec : Discrete ApplicationKey
application_key_dec = hlevel ℕ_discrete

instance unfoldable pub application_key_eq : Eq ApplicationKey
unfolding application_key_dec ℕ_discrete
application_key_eq = record { dec = application_key_dec }

pub record Registry : Type 0 where
  pub by_resource : Dict ResourceKey Endpoint
  pub by_application : Dict ApplicationKey ResourceKey

unfoldable pub new_registry : Registry
new_registry = record { by_resource = []; by_application = [] }

pub data EndpointError : Type 0 where
  endpoint_scope : ScopeError → EndpointError
  address_required : EndpointError
  endpoint_resource : KeyError → EndpointError

-- What `Ready` refuses: the address that is ready, or the endpoint that owns the front door.
pub data ReadyError : Type 0 where
  bad_endpoint : EndpointError → ReadyError
  already_ready : Text → ReadyError
  already_owned : Option Endpoint → ReadyError

application_key : Endpoint → ApplicationKey
application_key e = record {
  application_id = e.scope.application_id;
  instance_id = e.scope.application_instance_id;
  capability = e.capability;
  name = e.name;
}

unfoldable pub endpoint_keys : Endpoint → Result EndpointError (ResourceKey × ApplicationKey)
unfolding application_key
endpoint_keys e = elim (validate e.scope) [
  | err x ↦ err (endpoint_scope x)
  | ok _ ↦
      if is_blank e.address
      then err address_required
      else elim (resource_key e.scope e.capability e.name) [
        | err x ↦ err (endpoint_resource x)
        | ok resource ↦ ok (resource, application_key e)
      ]
]

-- The registration of an endpoint whose keys are known.
admit : Registry → Endpoint → ResourceKey → ApplicationKey → Result ReadyError Registry
admit r e resource application = elim (lookup resource r.by_resource) [
  | some existing ↦
      if existing.address == e.address then ok r else err (already_ready existing.address)
  | none ↦ elim (lookup application r.by_application) [
    | some owner ↦ err (already_owned (lookup owner r.by_resource))
    | none ↦ ok (record {
      by_resource = insert resource e r.by_resource;
      by_application = insert application resource r.by_application;
    })
  ]
]

unfoldable pub ready : Registry → Endpoint → Result ReadyError Registry
unfolding admit
ready r e = elim (endpoint_keys e) [
  | err x ↦ err (bad_endpoint x)
  | ok (resource, application) ↦ admit r e resource application
]

-- `if r.byApplication[application] == resource { delete … }`; a missing entry is the zero key, which
-- no valid endpoint has, so it is no match.
release :
    ApplicationKey → ResourceKey → Dict ApplicationKey ResourceKey → Dict ApplicationKey ResourceKey
release application resource index = elim (lookup application index) [
  | none ↦ index
  | some owner ↦ if owner == resource then delete application index else index
]

withdraw : Registry → Endpoint → ResourceKey → ApplicationKey → Registry
unfolding release
withdraw r e resource application = elim (lookup resource r.by_resource) [
  | none ↦ r
  | some existing ↦
      if existing.address == e.address
      then record {
        by_resource = delete resource r.by_resource;
        by_application = release application resource r.by_application;
      }
      else r
]

unfoldable pub gone : Registry → Endpoint → Registry
unfolding withdraw
gone r e = elim (endpoint_keys e) [
  | err _ ↦ r
  | ok (resource, application) ↦ withdraw r e resource application
]

unfoldable pub application_address : Registry → Text → Text → Text → Text → Option Text
application_address r app instance_id capability name = elim (lookup key r.by_application) [
  | none ↦ none
  | some resource ↦ elim (lookup resource r.by_resource) [ none ↦ none | some e ↦ some e.address ]
]
  where
    key : ApplicationKey
    key = record {
      application_id = trim_space app;
      instance_id = trim_space instance_id;
      capability = trim_space capability;
      name = trim_space name;
    }

unfoldable pub is_of : Text → Text → ApplicationKey → Bool
is_of app instance_id key = (key.application_id == app) && (key.instance_id == instance_id)

-- The loop of `RemoveApplication` over the entries that the index held when it began.
remove_entries : Text → Text → Dict ApplicationKey ResourceKey → Registry → Registry
remove_entries app instance_id [] r = r
remove_entries app instance_id ((key, resource) ∷ rest) r = remove_entries app instance_id rest (
    if is_of app instance_id key
    then record {
      by_resource = delete resource r.by_resource;
      by_application = delete key r.by_application;
    }
    else r)

unfoldable pub remove_application : Registry → Text → Text → Registry
unfolding remove_entries
remove_application r app instance_id = remove_entries app instance_id r.by_application r

pub data Call : Type 0 where
  readies gones : Endpoint → Call
  removes : Text → Text → Call

-- A refused report leaves the registry as it was.
abbrev after : Registry → Result ReadyError Registry → Registry
after r (ok s) = s
after r (err _) = r

unfoldable pub step : Registry → Call → Registry
step r (readies e) = after r (ready r e)
step r (gones e) = gone r e
step r (removes app instance_id) = remove_application r app instance_id

unfoldable pub run : Registry → List Call → Registry
run r [] = r
run r (c ∷ cs) = run (step r c) cs
