-- ===== src/Manifest/Sets/Owners.antt =====
-- internal/manifest/batch.go: the one owner of what a cell consumes.
use mathlib.Core.List.{append-nil, append_assoc}
use pulp.Prelude.{
  ◌≡◌, ◌↔◌, refl, sym, ◌∙◌, not, ◌&&◌, List, [], ◌∷◌, ◌++◌, ok, contains, if◌then◌else◌, map, arith,
  All, All-mono, select, >>=_ok,
}
use pulp.Prelude.Text.{Text, text_eq}
use pulp.Prelude.Dict.{Dict, lookup, insert, lookup-insert}
use pulp.Dependency.Plan.{value_at}
use pulp.Manifest.Cells.{CellSpec}
use pulp.Manifest.Sets.{add_provided, check_owners, check_consumed, add_owners, check_all_consumed}

value_at-add_provided :
    (name : Text) (seen ps : List Text) (owners : Dict Text (List Text)) (q : Text)
    → value_at q (add_provided name seen ps owners) [] ≡ (
        if contains ps q && not (contains seen q)
        then value_at q owners [] ++ name ∷ []
        else value_at q owners [])
unfolding add_provided
value_at-add_provided name seen [] owners q = ground arith
value_at-add_provided name seen (p ∷ ps) owners q = ground (
  arith,
  value_at-add_provided name seen ps owners q,
  value_at-add_provided name (p ∷ seen) ps (insert p (value_at p owners [] ++ name ∷ []) owners) q,
  lookup-insert q p (value_at p owners [] ++ name ∷ []) owners,
)

check_owners_iff :
    (name consumed : Text) (owners : List Text)
    → (check_owners name consumed owners ≡ ok tt) ↔ ((owner : Text) × (owners ≡ owner ∷ []))
unfolding check_owners
check_owners_iff name consumed [] = (λ h. absurd cc, λ (o, e). absurd cc)
check_owners_iff name consumed (owner ∷ []) = (λ h. (owner, refl), λ e. refl)
check_owners_iff name consumed (owner ∷ other ∷ rest) = (λ h. absurd cc, λ (o, e). absurd cc)

-- Each consumed provider has one owner.
abbrev HasOwners : Dict Text (List Text) → List Text → Type 0
HasOwners owners consumes = All (λ q. (owner : Text) × (value_at q owners [] ≡ owner ∷ [])) consumes

check_consumed_iff :
    (owners : Dict Text (List Text)) (name : Text) (consumes : List Text)
    → (check_consumed owners name consumes ≡ ok tt) ↔ HasOwners owners consumes
unfolding check_consumed
check_consumed_iff owners name [] = (λ h. tt, λ h. refl)
check_consumed_iff owners name (q ∷ rest) = (
  λ h.
      let (u, one, more) = >>=_ok _ _ _ h in
      ((check_owners_iff name q _).0 one, (check_consumed_iff owners name rest).0 more),
  λ (one, more).
      rw ((check_owners_iff name q _).1 one) ((check_consumed_iff owners name rest).1 more),
)

module _ {Other : Type 0} where
  -- The cells that provide it, by name.
  abbrev pub owners_of : List (CellSpec Other) → Text → List Text
  owners_of specs q = map (λ c. c.name) (select (λ c. contains c.provides q) specs)

  -- What a cell consumes is provided by one cell.
  abbrev pub IsWired : List (CellSpec Other) → Type 0
  IsWired specs =
      All (λ c. All (λ q. (owner : Text) × (owners_of specs q ≡ owner ∷ [])) c.consumes) specs

  value_at-add_owners :
      (specs : List (CellSpec Other)) (owners : Dict Text (List Text)) (q : Text)
      → value_at q (add_owners specs owners) [] ≡ value_at q owners [] ++ owners_of specs q
  unfolding add_owners
  value_at-add_owners [] owners q = sym (append-nil (value_at q owners []))
  value_at-add_owners (c ∷ rest) owners q = ground (
    arith,
    value_at-add_owners rest (add_provided c.name [] c.provides owners) q,
    value_at-add_provided c.name [] c.provides owners q,
    append_assoc (value_at q owners []) (c.name ∷ []) (owners_of rest q),
  )

  check_all_consumed_iff :
      (owners : Dict Text (List Text)) (specs : List (CellSpec Other))
      → (check_all_consumed owners specs ≡ ok tt) ↔ All (λ c. HasOwners owners c.consumes) specs
  unfolding check_all_consumed
  check_all_consumed_iff owners [] = (λ h. tt, λ h. refl)
  check_all_consumed_iff owners (c ∷ rest) = (
    λ h.
        let (u, one, more) = >>=_ok _ _ _ h in
        (
          (check_consumed_iff owners c.name c.consumes).0 one,
          (check_all_consumed_iff owners rest).0 more,
        ),
    λ (one, more).
        rw ((check_consumed_iff owners c.name c.consumes).1 one)
          ((check_all_consumed_iff owners rest).1 more),
  )

  pub check_all_consumed-IsWired :
      (specs : List (CellSpec Other))
      → (check_all_consumed (add_owners specs []) specs ≡ ok tt) ↔ IsWired specs
  unfolding lookup
  check_all_consumed-IsWired specs =
      let e = value_at-add_owners specs [] in
      (
        λ h.
            All-mono (λ c. All-mono (λ q (owner, one). (owner, sym (e q) ∙ one)) c.consumes) specs
              ((check_all_consumed_iff _ specs).0 h),
        λ h.
            (check_all_consumed_iff _ specs).1
              (All-mono (λ c. All-mono (λ q (owner, one). (owner, e q ∙ one)) c.consumes) specs h),
      )
