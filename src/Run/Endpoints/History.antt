-- ===== src/Run/Endpoints/History.antt =====
-- run/endpoint_registry.go over any history of calls, and what `ApplicationAddress` answers.
use mathlib.Core.Option
use pulp.Prelude.{◌≡◌, ◌≢◌, List, [], ◌∷◌, none, some, ok, arith, Result-cases, inl, inr}
use pulp.Prelude.Text.{Text, text_eq, trim_space}
use pulp.Prelude.Dict.{lookup}
use pulp.Ext.Scope.{ResourceKey, key_eq}
use pulp.Run.Endpoints.{
  Endpoint, ApplicationKey, application_key_eq, Registry, new_registry, ready, application_address,
  Call, readies, gones, removes, step, run,
}
use pulp.Run.Endpoints.Invariant.{front_door, key_of, Inv, at_door, new_registry-Inv}
use pulp.Run.Endpoints.Doors.{ready-Inv, ready-at_door, gone-Inv}
use pulp.Run.Endpoints.Removal.{remove_application-Inv}

pub step-Inv : (r : Registry) (c : Call) → Inv r → Inv (step r c)
unfolding step
step-Inv r (readies e) v = elim (Result-cases (ready r e)) [
  | inl (s, eq) ↦ rw eq (ready-Inv r v e s eq)
  | inr (x, eq) ↦ rw eq v
]
step-Inv r (gones e) v = gone-Inv r v e
step-Inv r (removes app instance_id) v = remove_application-Inv app instance_id r v

run-Inv : (r : Registry) (cs : List Call) → Inv r → Inv (run r cs)
unfolding run
run-Inv r [] v = v
run-Inv r (c ∷ cs) v = run-Inv (step r c) cs (step-Inv r c v)

-- After any history of calls the two indexes agree.
pub run-new_registry-Inv : (cs : List Call) → Inv (run new_registry cs)
run-new_registry-Inv cs = run-Inv new_registry cs new_registry-Inv

-- After any history the front door of an application instance is singular: two listed endpoints of
-- one application instance, capability and name are the same endpoint.
pub front_door_singular :
    (cs : List Call) (k l : ResourceKey) (d e : Endpoint)
    → lookup k (run new_registry cs).by_resource ≡ some d
    → lookup l (run new_registry cs).by_resource ≡ some e
    → d.scope.application_id ≡ e.scope.application_id
    → d.scope.application_instance_id ≡ e.scope.application_instance_id
    → d.capability ≡ e.capability
    → d.name ≡ e.name
    → d ≡ e
front_door_singular cs k l d e hk hl app instance_id capability name =
    let v = run-new_registry-Inv cs in ground (arith, v.listed k d hk, v.listed l e hl)

-- `ApplicationAddress` answers with the address of the endpoint at the front door that the trimmed
-- identifiers name.
pub application_address-at_door :
    (r : Registry) (app instance_id capability name : Text)
    → application_address r app instance_id capability name
      ≡ Option.map
          (λ e. e.address)
          (at_door r (record {
            application_id = trim_space app;
            instance_id = trim_space instance_id;
            capability = trim_space capability;
            name = trim_space name;
          }))
unfolding application_address at_door
application_address-at_door r app instance_id capability name = ground arith

-- An endpoint whose four identifiers have no outer space is found at its address as soon as its
-- report is accepted.
pub application_address-ready :
    (r s : Registry) (e : Endpoint)
    → Inv r
    → ready r e ≡ ok s
    → trim_space e.scope.application_id ≡ e.scope.application_id
    → trim_space e.scope.application_instance_id ≡ e.scope.application_instance_id
    → trim_space e.capability ≡ e.capability
    → trim_space e.name ≡ e.name
    → application_address s e.scope.application_id e.scope.application_instance_id e.capability
        e.name
      ≡ some e.address
application_address-ready r s e v h t1 t2 t3 t4 = ground (
  arith,
  application_address-at_door s e.scope.application_id e.scope.application_instance_id e.capability
      e.name,
  ready-at_door r v e s h (front_door (key_of e)),
)

-- The keys of a report are not trimmed and those of a query are: an endpoint whose capability or name has outer
-- space is not found after its report is accepted by a registry in which no front door of its
-- trimmed identifiers is taken.
pub application_address_untrimmed :
    (r s : Registry) (e : Endpoint)
    → Inv r
    → ready r e ≡ ok s
    → trim_space e.name ≢ e.name
    → application_address r e.scope.application_id e.scope.application_instance_id e.capability
        e.name
      ≡ none
    → application_address s e.scope.application_id e.scope.application_instance_id e.capability
        e.name
      ≡ none
application_address_untrimmed r s e v h t before =
    let queried : ApplicationKey = record {
      application_id = trim_space e.scope.application_id;
      instance_id = trim_space e.scope.application_instance_id;
      capability = trim_space e.capability;
      name = trim_space e.name;
    } in
    ground (
      arith,
      application_address-at_door r e.scope.application_id e.scope.application_instance_id
          e.capability e.name,
      application_address-at_door s e.scope.application_id e.scope.application_instance_id
          e.capability e.name,
      ready-at_door r v e s h queried,
    )
