-- ===== src/Tests/Hosts.antt =====
-- run/cross_application.go: an application is called, withdrawn, and left when the call has returned.
use pulp.Prelude.{
  ℕ, ◌≡◌, ◌≢◌, refl, ◌⊎◌, inl, true, false, [], ◌∷◌, none, some, ok, err, contains, nat_eq,
}
use pulp.Prelude.Text.{codes, text_eq}
use pulp.Prelude.Dict.{lookup, insert, delete}
use pulp.Run.CrossCalls.{
  Identity, identity_eq, Registry, denied, unavailable, invalid_route, new_registry, set_at,
  mark_ready, revoke, deactivate, acquire, release, Caller, open_call,
}
use pulp.Run.CrossCalls.Steps.{
  System, new_system, ready, withdraw, close, join, enter, done, Reach, here, next, revoked,
  joining, left,
}
use pulp.Run.CrossCalls.Drained.{left-drained, withdrawal_ends}
use pulp.Run.CrossCalls.Authority.{IsRoute, IsAllowed, open_call_cases}

abbrev stock : Identity
stock = record { application_id = codes "stock"; instance_id = codes "1" }

abbrev ready_registry : Registry
ready_registry = record {
  entries = (stock, 0) ∷ [];
  next = 1;
  active = set_at 0 true (λ p. false);
  calls = set_at 0 0 (λ p. 0);
}

readied : mark_ready stock new_registry ≡ ok ready_registry
unfolding mark_ready new_registry lookup insert
readied = refl

abbrev called_registry : Registry
called_registry = record ready_registry { calls = set_at 0 1 ready_registry.calls }

called : acquire stock ready_registry ≡ ok (0, called_registry)
unfolding acquire lookup identity_eq set_at
called = refl

abbrev ready_system : System
ready_system = record new_system { registry = ready_registry }

abbrev called_system : System
called_system = record ready_system { registry = called_registry; running = 0 ∷ [] }

abbrev revoked_registry : Registry
revoked_registry = record called_registry { entries = [] }

withdrawn : revoke stock called_registry ≡ (some 0, revoked_registry)
unfolding revoke lookup delete identity_eq
withdrawn = refl

abbrev revoked_system : System
revoked_system = record called_system {
  registry = revoked_registry;
  phase = set_at 0 revoked called_system.phase;
}

abbrev joining_system : System
joining_system = record revoked_system {
  registry = deactivate 0 revoked_registry;
  phase = set_at 0 joining revoked_system.phase;
}

abbrev returned_system : System
returned_system = record joining_system {
  registry = release 0 joining_system.registry;
  running = [];
}

abbrev left_system : System
left_system = record returned_system { phase = set_at 0 left returned_system.phase }

Reach-ready : Reach new_system ready_system
unfolding new_system
Reach-ready = next here (ready stock ready_registry readied)

Reach-called : Reach new_system called_system
unfolding new_system
Reach-called = next Reach-ready (enter stock 0 called_registry called)

Reach-revoked : Reach new_system revoked_system
unfolding new_system
Reach-revoked = next Reach-called (withdraw stock 0 revoked_registry withdrawn)

is_revoked : revoked_system.phase 0 ≡ revoked
unfolding set_at
is_revoked = refl

is_joining : returned_system.phase 0 ≡ joining
unfolding set_at
is_joining = refl

no_calls : returned_system.registry.calls 0 ≡ 0
unfolding set_at release deactivate
no_calls = refl

Reach-left : Reach new_system left_system
unfolding new_system
Reach-left =
    next (next (next Reach-revoked (close 0 is_revoked)) (done 0 [] [] refl))
      (join 0 is_joining no_calls)

is_left : left_system.phase 0 ≡ left
unfolding set_at
is_left = refl

left-drained_example :
    (contains left_system.running 0 ≡ false)
    × ((id : Identity) (r : Registry) → acquire id left_system.registry ≢ ok (0, r))
left-drained_example = left-drained Reach-left here 0 is_left

withdrawal_ends_example :
    (t : System) × Reach revoked_system t
    × (t.phase 0 ≡ left)
    × (t.registry.entries ≡ revoked_system.registry.entries)
withdrawal_ends_example = withdrawal_ends Reach-revoked 0 (inl is_revoked)

abbrev shop : Caller
shop = record {
  identity = record { application_id = codes "shop"; instance_id = codes "1" };
  depends_on = codes "stock" ∷ [];
  host_consumes = codes "stock::find" ∷ [];
}

let_in :
    open_call shop stock (codes "shelf") (codes "find") ready_system.registry
    ≡ ok (0, called_registry)
unfolding open_call lookup identity_eq set_at text_eq
let_in = refl

other_provider :
    open_call shop stock (codes "shelf") (codes "add") ready_system.registry ≡ err denied
unfolding open_call lookup identity_eq set_at text_eq
other_provider = refl

open_call_cases_example :
    ((open_call shop stock (codes "shelf") (codes "find") ready_system.registry ≡ err invalid_route)
      × ¬ IsRoute stock (codes "shelf") (codes "find"))
    ⊎ ((open_call shop stock (codes "shelf") (codes "find") ready_system.registry ≡ err denied)
        × IsRoute stock (codes "shelf") (codes "find")
        × ¬ IsAllowed shop stock (codes "find"))
    ⊎ ((open_call shop stock (codes "shelf") (codes "find") ready_system.registry ≡ err unavailable)
        × IsRoute stock (codes "shelf") (codes "find")
        × IsAllowed shop stock (codes "find")
        × (lookup stock ready_system.registry.entries ≡ none))
    ⊎ ((p : ℕ) × (r : Registry) × (open_call shop stock
            (codes "shelf")
            (codes "find")
            ready_system.registry
          ≡ ok (p, r))
        × IsRoute stock (codes "shelf") (codes "find")
        × IsAllowed shop stock (codes "find")
        × (lookup stock ready_system.registry.entries ≡ some p))
open_call_cases_example = open_call_cases Reach-ready shop stock (codes "shelf") (codes "find")
