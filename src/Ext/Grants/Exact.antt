-- ===== src/Ext/Grants/Exact.antt =====
-- ext/placement_grant.go: which grant a placement gets.
use pulp.Prelude.{◌≡◌, refl, ◌↔◌, ◌⊎◌, inl, inr, List, [], ◌∷◌, none, some, ok, arith, Result-cases}
use pulp.Prelude.Text.{Text}
use pulp.Prelude.Dict.{Dict, lookup, insert, lookup-insert}
use pulp.Ext.Scope.{Scope, validate}
use pulp.Ext.Grants.{
  Grant, GrantKey, grant_key_eq, folded, normalize, key_of, add_grants, new_static_grants,
  resolve_grant,
}

module _ (to_lower : Text → Text) where
  -- A grant of a list, in its normal form, has a key.
  abbrev pub IsGranted : List Grant → GrantKey → Grant → Type 0
  IsGranted [] k g = ⊥
  IsGranted (raw ∷ more) k g =
      ((normalize to_lower raw ≡ ok g) × (g.scope ≡ k.scope) × (g.capability ≡ k.capability))
      ⊎ IsGranted more k g

  IsGranted-cons :
      (raw : Grant) (more : List Grant) (k : GrantKey) (g : Grant)
      → IsGranted (raw ∷ more) k g ↔ (
          ((normalize to_lower raw ≡ ok g) × (g.scope ≡ k.scope) × (g.capability ≡ k.capability))
          ⊎ IsGranted more k g)
  IsGranted-cons raw more k g = (λ h. h, λ h. h)

  add_grants-kept :
      (input : List Grant) (start out : Dict GrantKey Grant) (k : GrantKey) (g : Grant)
      → add_grants to_lower input start ≡ ok out
      → lookup k start ≡ some g
      → lookup k out ≡ some g
  unfolding add_grants
  add_grants-kept [] start out k g h e = ground arith
  add_grants-kept (raw ∷ more) start out k g h e = elim (Result-cases (normalize to_lower raw)) [
    | inr (x, f) ↦ absurd (ground arith)
    | inl (n, f) ↦ ground (
      arith,
      add_grants-kept more (insert (key_of to_lower n) n start) out k g,
      lookup-insert k (key_of to_lower n) n start,
    )
  ]

  add_grants-lookup :
      (input : List Grant) (start out : Dict GrantKey Grant) (k : GrantKey) (g : Grant)
      → add_grants to_lower input start ≡ ok out
      → (lookup k out ≡ some g) ↔ ((lookup k start ≡ some g) ⊎ IsGranted input k g)
  unfolding add_grants
  add_grants-lookup [] start out k g h = ground arith
  add_grants-lookup (raw ∷ more) start out k g h = elim (Result-cases (normalize to_lower raw)) [
    | inr (x, f) ↦ absurd (ground arith)
    | inl (n, f) ↦ ground (
      arith,
      add_grants-lookup more (insert (key_of to_lower n) n start) out k g,
      add_grants-kept more (insert (key_of to_lower n) n start) out k g,
      lookup-insert k (key_of to_lower n) n start,
      IsGranted-cons raw more k g,
    )
  ]

  no_grant : (k : GrantKey) → lookup {V = Grant} k [] ≡ none
  unfolding lookup
  no_grant k = refl

  -- A placement gets a grant for a capability exactly if that grant is one of the list in its normal
  -- form, for this scope and this capability in small letters without outer space, and the scope is
  -- valid.
  pub resolve_grant_iff :
      (input : List Grant) (grants : Dict GrantKey Grant) (scope : Scope) (capability : Text)
      (g : Grant)
      → new_static_grants to_lower input ≡ ok grants
      → (resolve_grant to_lower grants scope capability ≡ some g) ↔ (
          (validate scope ≡ ok tt)
          × IsGranted input (record { scope = scope; capability = folded to_lower capability }) g)
  unfolding new_static_grants resolve_grant
  resolve_grant_iff input grants scope capability g h =
      let k : GrantKey = record { scope = scope; capability = folded to_lower capability } in
      elim (Result-cases (validate scope)) [
        | inr (x, e) ↦ ground arith
        | inl (u, e) ↦ ground (arith, add_grants-lookup input [] grants k g h, no_grant k)
      ]
