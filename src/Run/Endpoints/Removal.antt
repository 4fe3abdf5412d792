-- ===== src/Run/Endpoints/Removal.antt =====
-- run/endpoint_registry.go, `RemoveApplication`: the loop over the index that it deletes from.
use pulp.Prelude.{
  ◌≡◌, sym, subst, Bool, true, false, ◌&&◌, [], ◌∷◌, none, some, arith, ◌==◌, if◌then◌else◌,
  Bool-cases, inl, inr,
}
use pulp.Prelude.Text.{Text, text_eq}
use pulp.Prelude.Dict.{Dict, NodupKeys, lookup, delete, lookup-delete}
use pulp.Ext.Scope.{ResourceKey, key_eq}
use pulp.Run.Endpoints.{
  ApplicationKey, application_key_eq, Registry, is_of, remove_entries, remove_application,
}
use pulp.Run.Endpoints.Invariant.{front_door, Inv, at_door, delete-Inv, at_door-delete}

-- The entries of a loop that are not yet visited are still in the index.
record IsPending (rest : Dict ApplicationKey ResourceKey) (r : Registry) : Type 0 where
  once : NodupKeys rest
  held :
      (a : ApplicationKey) (k : ResourceKey)
      → lookup a rest ≡ some k
      → lookup a r.by_application ≡ some k

abbrev without : ApplicationKey → ResourceKey → Registry → Registry
without a k r = record {
  by_resource = delete k r.by_resource;
  by_application = delete a r.by_application;
}

module _ (a : ApplicationKey) (k : ResourceKey) (rest : Dict ApplicationKey ResourceKey)
    (r : Registry) (p : IsPending ((a, k) ∷ rest) r) where
  pending-head : lookup a r.by_application ≡ some k
  unfolding lookup
  pending-head = ground (arith, p.held a k)

  IsPending-kept : IsPending rest r
  unfolding lookup
  IsPending-kept = record { once = p.once.1; held = λ b j h. ground (arith, p.held b j, p.once) }

  IsPending-removed : IsPending rest (without a k r)
  unfolding lookup
  IsPending-removed = record {
    once = p.once.1;
    held = λ b j h. ground (arith, p.held b j, p.once, lookup-delete b a r.by_application);
  }

module _ (a : ApplicationKey) (k : ResourceKey) (r : Registry) (v : Inv r)
    (owner : lookup a r.by_application ≡ some k) where
  at_own_door : front_door k ≡ a
  at_own_door = (v.owned a k owner).0

  without-Inv : Inv (without a k r)
  without-Inv =
      subst (λ x. Inv (without x k r)) at_own_door
        (delete-Inv r v k (subst (λ x. lookup x r.by_application ≡ some k) (sym at_own_door) owner))

  at_door-without :
      (b : ApplicationKey) → at_door (without a k r) b ≡ (if b == a then none else at_door r b)
  at_door-without b =
      subst (λ x. at_door (without x k r) b ≡ (if b == x then none else at_door r b)) at_own_door
        (at_door-delete r v k b
          (subst (λ x. lookup x r.by_application ≡ some k) (sym at_own_door) owner))

abbrev visited : ApplicationKey → Dict ApplicationKey ResourceKey → Bool
visited a rest = elim (lookup a rest) [ none ↦ false | some _ ↦ true ]

module _ (app instance_id : Text) where
  remove_entries-Inv :
      (rest : Dict ApplicationKey ResourceKey) (r : Registry)
      → IsPending rest r
      → Inv r
      → Inv (remove_entries app instance_id rest r)
  unfolding remove_entries
  remove_entries-Inv [] r p v = v
  remove_entries-Inv ((a, k) ∷ rest) r p v = elim (Bool-cases (is_of app instance_id a)) [
    | inl mine ↦ rw mine (
        remove_entries-Inv rest (without a k r) (IsPending-removed a k rest r p)
          (without-Inv a k r v (pending-head a k rest r p)))
    | inr other ↦ rw other (remove_entries-Inv rest r (IsPending-kept a k rest r p) v)
  ]

  remove_entries-at_door :
      (rest : Dict ApplicationKey ResourceKey) (r : Registry)
      → IsPending rest r
      → Inv r
      → (b : ApplicationKey)
      → at_door (remove_entries app instance_id rest r) b
        ≡ (if is_of app instance_id b && visited b rest then none else at_door r b)
  unfolding remove_entries lookup
  remove_entries-at_door [] r p v b = ground arith
  remove_entries-at_door ((a, k) ∷ rest) r p v b = elim (Bool-cases (is_of app instance_id a)) [
    | inl mine ↦ rw mine (
        ground (
          arith,
          remove_entries-at_door rest (without a k r) (IsPending-removed a k rest r p)
              (without-Inv a k r v (pending-head a k rest r p)) b,
          at_door-without a k r v (pending-head a k rest r p) b,
        ))
    | inr other ↦ rw other (
        ground (
          arith,
          remove_entries-at_door rest r (IsPending-kept a k rest r p) v b,
          at_door-without a k r v (pending-head a k rest r p) b,
        ))
  ]

  everything-IsPending : (r : Registry) → Inv r → IsPending r.by_application r
  everything-IsPending r v = record { once = v.unique; held = λ a k h. h }

  pub remove_application-Inv : (r : Registry) → Inv r → Inv (remove_application r app instance_id)
  unfolding remove_application
  remove_application-Inv r v = remove_entries-Inv r.by_application r (everything-IsPending r v) v

  -- On a registry whose indexes agree, removing an application instance empties exactly its own front
  -- doors, those with its application and its instance, and leaves the others as they were.
  pub remove_application-at_door :
      (r : Registry)
      → Inv r
      → (a : ApplicationKey)
      → at_door (remove_application r app instance_id) a ≡ (
          if (a.application_id == app) && (a.instance_id == instance_id) then none else at_door r a)
  unfolding remove_application at_door is_of
  remove_application-at_door r v a =
      ground (arith, remove_entries-at_door r.by_application r (everything-IsPending r v) v a)
