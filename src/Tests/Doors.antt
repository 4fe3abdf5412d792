-- ===== src/Tests/Doors.antt =====
-- run/endpoint_registry.go.
use pulp.Prelude.{
  ◌≡◌, ◌≢◌, refl, List, [], ◌∷◌, ok, err, none, some, ◌⊎◌, ◌==◌, ◌&&◌, if◌then◌else◌, arith,
}
use pulp.Prelude.Text.{text_eq, codes, trim_space, contains_rune}
use pulp.Prelude.Dict.{lookup, insert}
use pulp.Ext.Scope.{Scope, validate, resource_key, key_eq}
use pulp.Run.Endpoints.{
  Endpoint, ApplicationKey, Registry, application_key_eq, new_registry, endpoint_keys, ready,
  ReadyError, remove_application, application_address, Call, readies, gones, removes, step, run,
}
use pulp.Run.Endpoints.Invariant.{Inv, front_door, key_of, at_door, new_registry-Inv}
use pulp.Run.Endpoints.Doors.{IsFiled, ready_cases}
use pulp.Run.Endpoints.Removal.{remove_application-at_door}
use pulp.Run.Endpoints.History.{
  run-new_registry-Inv, front_door_singular, application_address_untrimmed,
}

abbrev shop : Scope
shop = record {
  application_id = codes "shop";
  application_instance_id = codes "1";
  cell_id = codes "cart";
  cell_instance_id = codes "1";
}

abbrev front : Endpoint
front = record {
  scope = shop;
  capability = codes "http";
  name = codes "public";
  address = codes ":80";
}

abbrev padded : Endpoint
padded = record front { name = codes " public" }

-- The registry that holds one endpoint.
abbrev holding : Endpoint → Registry
holding e = record {
  by_resource = (key_of e, e) ∷ [];
  by_application = (front_door (key_of e), key_of e) ∷ [];
}

front-IsFiled : IsFiled front
unfolding endpoint_keys validate resource_key trim_space contains_rune
front-IsFiled = refl

front_ready : ready new_registry front ≡ ok (holding front)
unfolding ready new_registry endpoint_keys validate resource_key trim_space contains_rune lookup
    insert
front_ready = refl

padded_ready : ready new_registry padded ≡ ok (holding padded)
unfolding ready new_registry endpoint_keys validate resource_key trim_space contains_rune lookup
    insert
padded_ready = refl

abbrev history : List Call
history = readies front ∷ gones padded ∷ removes (codes "other") (codes "1") ∷ []

run-new_registry-Inv_example : Inv (run new_registry history)
run-new_registry-Inv_example = run-new_registry-Inv history

history_holds : run new_registry (readies front ∷ []) ≡ holding front
unfolding run ready new_registry endpoint_keys validate resource_key trim_space contains_rune lookup
    insert step
history_holds = refl

front_listed :
    lookup (key_of front) (run new_registry (readies front ∷ [])).by_resource ≡ some front
unfolding run ready new_registry endpoint_keys validate resource_key trim_space contains_rune lookup
    insert step key_eq
front_listed = refl

front_door_singular_example : front ≡ front
front_door_singular_example =
    front_door_singular (readies front ∷ []) (key_of front) (key_of front) front front front_listed
      front_listed refl refl refl refl

ready_cases_example :
    ((at_door new_registry (front_door (key_of front)) ≡ none)
      × (s : Registry) × (ready new_registry front ≡ ok s)
      × ((a : ApplicationKey)
          → at_door s a
            ≡ (if a == front_door (key_of front) then some front else at_door new_registry a)))
    ⊎ ((at_door new_registry (front_door (key_of front)) ≡ some front)
        × (ready new_registry front ≡ ok new_registry))
    ⊎ ((o : Endpoint) × (x : ReadyError) × (at_door new_registry (front_door (key_of front))
          ≡ some o)
        × (o ≢ front)
        × (ready new_registry front ≡ err x))
ready_cases_example = ready_cases new_registry new_registry-Inv front front-IsFiled

remove_application-at_door_example :
    at_door
      (remove_application (run new_registry history) (codes "shop") (codes "1"))
      (front_door (key_of front))
    ≡ (if (front_door (key_of front)).application_id == codes "shop"
          && (front_door (key_of front)).instance_id == codes "1"
        then none
        else at_door (run new_registry history) (front_door (key_of front)))
remove_application-at_door_example =
    remove_application-at_door (codes "shop") (codes "1") (run new_registry history)
      (run-new_registry-Inv history) (front_door (key_of front))

application_address_untrimmed_example :
    application_address (holding padded) (codes "shop") (codes "1") (codes "http") (codes " public")
    ≡ none
unfolding trim_space application_address new_registry lookup
application_address_untrimmed_example =
    application_address_untrimmed new_registry (holding padded) padded new_registry-Inv padded_ready
      (λ e. ground arith) refl
