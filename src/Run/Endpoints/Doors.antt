-- ===== src/Run/Endpoints/Doors.antt =====
-- run/endpoint_registry.go: what each method does to the front doors of the applications.
use pulp.Prelude.{
  ◌≡◌, ◌≢◌, refl, none, some, ok, err, Result-cases, arith, ◌==◌, if◌then◌else◌, Bool-cases,
  Option-cases, ==_true, ==_refl, inl, inr, ◌⊎◌,
}
use pulp.Prelude.Text.{text_eq}
use pulp.Prelude.Dict.{lookup, insert, delete}
use pulp.Ext.Scope.{ResourceKey, key_eq}
use pulp.Run.Endpoints.{
  Endpoint, ApplicationKey, application_key_eq, Registry, endpoint_keys, admit, ready, release,
  withdraw, gone, EndpointError, ReadyError, already_ready, already_owned,
}
use pulp.Run.Endpoints.Invariant.{
  front_door, key_of, endpoint_keys-eq, Inv, at_door, insert-Inv, delete-Inv, at_door-delete,
  at_door-insert, at_door-listed,
}

-- A report is accepted as a repetition or as a new entry in both indexes.
admit-cases :
    (r s : Registry) (e : Endpoint) (k : ResourceKey) (a : ApplicationKey)
    → admit r e k a ≡ ok s
    → ((s ≡ r) × (old : Endpoint) × (lookup k r.by_resource ≡ some old) × (old.address ≡ e.address))
      ⊎ ((lookup k r.by_resource ≡ none)
          × (lookup a r.by_application ≡ none)
          × (s ≡ record {
            by_resource = insert k e r.by_resource;
            by_application = insert a k r.by_application;
          }))
unfolding admit
admit-cases r s e k a h = ground arith

-- The keys that a valid endpoint is filed under.
abbrev pub IsFiled : Endpoint → Type 0
IsFiled e = endpoint_keys e ≡ ok (key_of e, front_door (key_of e))

module _ (r : Registry) (v : Inv r) (e : Endpoint) where
  abbrev door : ApplicationKey
  door = front_door (key_of e)

  ready-IsFiled : (s : Registry) → ready r e ≡ ok s → IsFiled e × (admit r e (key_of e) door ≡ ok s)
  unfolding ready
  ready-IsFiled s h = elim (Result-cases (endpoint_keys e)) [
    | inl ((k, a), eq) ↦ ground (arith, endpoint_keys-eq e k a)
    | inr (x, eq) ↦ absurd (ground arith)
  ]

  pub ready-Inv : (s : Registry) → ready r e ≡ ok s → Inv s
  ready-Inv s h = elim (admit-cases r s e (key_of e) door (ready-IsFiled s h).1) [
    | inl (same, _, _, _) ↦ rw same v
    | inr (free, open_door, eq) ↦ rw eq (insert-Inv r v e free open_door)
  ]

  -- An endpoint listed under this key at this address is this endpoint, at its own door.
  at_door_self :
      (old : Endpoint)
      → lookup (key_of e) r.by_resource ≡ some old
      → old.address ≡ e.address
      → at_door r door ≡ some e
  unfolding at_door
  at_door_self old h same = ground (arith, v.listed (key_of e) old)

  -- After a report is accepted its endpoint is at its front door, and the other front doors are as
  -- they were.
  pub ready-at_door :
      (s : Registry)
      → ready r e ≡ ok s
      → (a : ApplicationKey) → at_door s a ≡ (if a == door then some e else at_door r a)
  ready-at_door s h a = elim (admit-cases r s e (key_of e) door (ready-IsFiled s h).1) [
    | inl (same, old, listed, address) ↦ ground (arith, at_door_self old listed address)
    | inr (free, open_door, eq) ↦ rw eq (at_door-insert r v e a free)
  ]

  filed : Registry
  filed = record {
    by_resource = insert (key_of e) e r.by_resource;
    by_application = insert door (key_of e) r.by_application;
  }

  -- On a registry whose indexes agree, a valid report whose front door is free puts its endpoint there
  -- and leaves the other doors as they were; it changes nothing where the same endpoint is there
  -- already, and is refused where another one is.
  pub ready_cases :
      IsFiled e
      → ((at_door r door ≡ none)
          × (s : Registry) × (ready r e ≡ ok s)
          × ((a : ApplicationKey) → at_door s a ≡ (if a == door then some e else at_door r a)))
        ⊎ ((at_door r door ≡ some e) × (ready r e ≡ ok r))
        ⊎ ((o : Endpoint) × (x : ReadyError) × (at_door r door ≡ some o)
            × (o ≢ e)
            × (ready r e ≡ err x))
  unfolding ready admit at_door filed
  ready_cases f = elim (Option-cases (lookup (key_of e) r.by_resource)) [
    | inr (old, listed) ↦ elim (Bool-cases (old.address == e.address)) [
      | inl same ↦ inr (
          inl (
            at_door_self old listed (==_true _ _ same),
            rw (f, ready) (rw (listed, admit) (rw same)),
          ))
      | inr differs ↦ inr (
          inr (
            old,
            already_ready old.address,
            ground (arith, v.listed (key_of e) old),
            λ o. ground arith,
            rw (f, ready) (rw (listed, admit) (rw differs)),
          ))
    ]
    | inl free ↦ elim (Option-cases (lookup door r.by_application)) [
      | inl open_door ↦
          let eq : ready r e ≡ ok filed =
            (rw (f, ready) (rw (free, admit) (rw (open_door, admit) refl))) in
          inl (rw (open_door, at_door) refl, filed, eq, ready-at_door filed eq)
      | inr (k, owner) ↦ elim (Option-cases (lookup k r.by_resource)) [
        | inl missing ↦ absurd ((v.owned door k owner).1 missing)
        | inr (o, listed) ↦ inr (
            inr (
              o,
              already_owned (some o),
              rw (owner, at_door) listed,
              (λ same. ground (arith, v.listed k o)),
              rw (f, ready) (rw (free, admit) (rw (owner, admit) (rw listed))),
            ))
      ]
    ]
  ]

  emptied : Registry
  emptied = record {
    by_resource = delete (key_of e) r.by_resource;
    by_application = delete door r.by_application;
  }

  IsFiled-cases : IsFiled e ⊎ ((x : EndpointError) × (endpoint_keys e ≡ err x))
  IsFiled-cases = elim (Result-cases (endpoint_keys e)) [
    | inl ((k, a), eq) ↦ inl (ground (arith, endpoint_keys-eq e k a))
    | inr (x, eq) ↦ inr (x, eq)
  ]

  -- A notice takes effect only for the endpoint that is at its front door.
  gone_filed :
      IsFiled e
      → ((at_door r door ≡ some e)
          × (lookup door r.by_application ≡ some (key_of e))
          × (gone r e ≡ emptied))
        ⊎ ((gone r e ≡ r) × (at_door r door ≢ some e))
  unfolding gone withdraw release at_door emptied
  gone_filed f = elim (Option-cases (lookup (key_of e) r.by_resource)) [
    | inl free ↦ inr (
      rw (f, gone) (rw (free, withdraw) refl),
      λ here. ground (arith, at_door-listed r v door e here),
    )
    | inr (old, listed) ↦ elim (Bool-cases (old.address == e.address)) [
      | inl same ↦
          let owner : lookup door r.by_application ≡ some (key_of e) =
            (ground (arith, v.listed (key_of e) old listed)) in
          inl (
            at_door_self old listed (==_true _ _ same),
            owner,
            rw (f, gone)
                (rw (listed, withdraw) (rw (same) (rw (owner, release) (rw ==_refl refl)))),
          )
      | inr differs ↦ inr (
        rw (f, gone) (rw (listed, withdraw) (rw differs refl)),
        λ here. ground (arith, at_door-listed r v door e here),
      )
    ]
  ]

  gone_cases :
      (IsFiled e
        × (at_door r door ≡ some e)
        × (lookup door r.by_application ≡ some (key_of e))
        × (gone r e ≡ emptied))
      ⊎ ((gone r e ≡ r) × ((¬ IsFiled e) ⊎ (at_door r door ≢ some e)))
  unfolding gone
  gone_cases = elim IsFiled-cases [
    | inr (x, eq) ↦ inr (rw (eq, gone) refl, inl (λ f. cc))
    | inl f ↦ elim (gone_filed f) [
      | inl (here, owner, eq) ↦ inl (f, here, owner, eq)
      | inr (same, other) ↦ inr (same, inr other)
    ]
  ]

  pub gone-Inv : Inv (gone r e)
  unfolding emptied
  gone-Inv = elim gone_cases [
    | inl (_, _, owner, eq) ↦ rw eq (delete-Inv r v (key_of e) owner)
    | inr (same, _) ↦ rw same v
  ]

  -- A notice that an endpoint is gone empties its front door if exactly that endpoint, with its
  -- address, is there, and leaves the other doors alone; any other notice changes nothing.
  pub gone-at_door :
      IsFiled e
      → ((at_door r door ≡ some e)
          × ((a : ApplicationKey)
              → at_door (gone r e) a ≡ (if a == door then none else at_door r a)))
        ⊎ ((at_door r door ≢ some e) × (gone r e ≡ r))
  unfolding emptied
  gone-at_door f = elim gone_cases [
    | inl (_, here, owner, eq) ↦ inl (here, λ a. rw eq (at_door-delete r v (key_of e) a owner))
    | inr (same, inl unfiled) ↦ absurd (unfiled f)
    | inr (same, inr other) ↦ inr (other, same)
  ]
