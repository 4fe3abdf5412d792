-- ===== src/Composition/Contracts/Resolved.antt =====
-- composition/contracts.go: what a module consumes leads to another module.
use pulp.Prelude.{
  ◌≡◌, ◌≢◌, refl, inl, inr, Bool, true, false, not, ◌||◌, List, [], ◌∷◌, some, ok, or_fail, ◌==◌,
  contains, arith, All, map, fail_if-passed, >>=_ok, ok_eq, or_fail_ok, subst, ==_true,
  Option-cases,
}
use pulp.Prelude.Text.{Text, text_eq, trim_space, is_empty}
use pulp.Prelude.Dict.{lookup, insert, lookup-insert}
use pulp.Dependency.Plan.{has, value_at}
use pulp.Composition.Contracts.{
  Contract, Module, Catalog, kinds, is_contract_id, check_names, trimmed, add_contract,
  add_contracts, check_provided, check_consumed, check_modules, build, resolve, provides_undeclared,
}

-- A contract that is declared, for a module that is there.
pub record IsDeclared (names : List Text) (id : Text) (c : Contract) : Type 0 where
  pub same_id : c.id ≡ id
  pub well_formed : is_contract_id id ≡ true
  pub kind : contains kinds c.kind ≡ true
  pub owner : contains names c.owner ≡ true

-- What the loop over the contracts keeps.
record IsCatalog (names : List Text) (catalog : Catalog) : Type 0 where
  declared :
      (id : Text) (c : Contract) → lookup id catalog.contracts ≡ some c → IsDeclared names id c
  provider :
      (id : Text) (c : Contract)
      → lookup id catalog.contracts ≡ some c
      → value_at id catalog.providers [] ≡ c.owner

check_names-contains :
    (seen : List Text) (modules : List Module) (names : List Text) (n : Text)
    → check_names seen modules ≡ ok names
    → contains names n ≡ (contains (map (λ m. m.name) modules) n || contains seen n)
unfolding check_names
check_names-contains seen [] names n h = ground arith
check_names-contains seen (m ∷ rest) names n h =
    let (_, h1) =
      fail_if-passed (is_empty (trim_space m.name) || contains seen m.name) _ _ names h in
    ground (arith, check_names-contains (m.name ∷ seen) rest names n h1)

not-false : (b : Bool) → not b ≡ false → b ≡ true
not-false true h = refl
not-false false h = absurd cc

-- The tests on one contract.
add_contract_steps :
    (names : List Text) (c : Contract) (catalog next : Catalog)
    → add_contract names c catalog ≡ ok next
    → (is_contract_id c.id ≡ true)
      × (contains kinds c.kind ≡ true)
      × (contains names c.owner ≡ true)
      × (next ≡ record {
        contracts = insert c.id c catalog.contracts;
        providers = insert c.id c.owner catalog.providers;
      })
unfolding add_contract
add_contract_steps names c catalog next h =
    let (a, h1) = fail_if-passed (not (is_contract_id c.id)) _ _ next h in
    let (b, h2) = fail_if-passed (not (contains kinds c.kind)) _ _ next h1 in
    let (d, h3) = fail_if-passed (has c.id catalog.contracts) _ _ next h2 in
    let (e, h4) = fail_if-passed (not (contains names c.owner)) _ _ next h3 in
    (not-false _ a, not-false _ b, not-false _ e, ok_eq _ _ _ h4 refl)

add_contract-IsCatalog :
    (names : List Text) (c : Contract) (catalog next : Catalog)
    → IsCatalog names catalog
    → add_contract names c catalog ≡ ok next
    → IsCatalog names next
add_contract-IsCatalog names c catalog next inv h =
    let (well_formed, kind, owner, e) = add_contract_steps names c catalog next h in
    rw e (record {
      declared =
          λ id d l. ground (arith, lookup-insert id c.id c catalog.contracts, inv.declared id d);
      provider = λ id d l. ground (
        arith,
        lookup-insert id c.id c catalog.contracts,
        lookup-insert id c.id c.owner catalog.providers,
        inv.provider id d,
      );
    })

add_contracts-IsCatalog :
    (names : List Text) (contracts : List Contract) (catalog next : Catalog)
    → IsCatalog names catalog
    → add_contracts names contracts catalog ≡ ok next
    → IsCatalog names next
unfolding add_contracts
add_contracts-IsCatalog names [] catalog next inv h =
    subst (IsCatalog names) (ok_eq _ next _ refl h) inv
add_contracts-IsCatalog names (c ∷ rest) catalog next inv h =
    let (middle, one, more) = >>=_ok (add_contract names (trimmed c) catalog) _ next h in
    add_contracts-IsCatalog names rest middle next
      (add_contract-IsCatalog names (trimmed c) catalog middle inv one) more

-- What a module consumes: `Resolve` gives it the contract and its owner, another module that is there.
pub record IsResolved (names : List Text) (catalog : Catalog) (consumer id : Text) : Type 0 where
  pub contract : Contract
  pub route : resolve catalog consumer id ≡ ok (contract, contract.owner)
  pub declared : IsDeclared names id contract
  pub other : contract.owner ≢ consumer

resolved :
    (names : List Text) (catalog : Catalog) (name id : Text)
    → IsCatalog names catalog
    → has id catalog.contracts ≡ true
    → (value_at id catalog.providers [] == name) ≡ false
    → IsResolved names catalog name id
unfolding resolve
resolved names catalog name id inv known apart = elim (Option-cases (lookup id catalog.contracts)) [
  | inl e ↦ absurd (ground arith)
  | inr (c, e) ↦ record {
    contract = c;
    route = ground (arith, inv.provider id c);
    declared = inv.declared id c e;
    other = ground (arith, inv.provider id c);
  }
]

check_consumed-IsResolved :
    (names : List Text) (catalog : Catalog) (name : Text) (consumes : List Text)
    → IsCatalog names catalog
    → check_consumed catalog name consumes ≡ ok tt
    → All (IsResolved names catalog name) consumes
unfolding check_consumed
check_consumed-IsResolved names catalog name [] inv h = tt
check_consumed-IsResolved names catalog name (id ∷ rest) inv h =
    let (known, h1) = fail_if-passed {0, 0} (not (has id catalog.contracts)) _ _ tt h in
    let (apart, h2) = fail_if-passed {0, 0} (value_at id catalog.providers [] == name) _ _ tt h1 in
    (
      resolved names catalog name id inv (not-false _ known) apart,
      check_consumed-IsResolved names catalog name rest inv h2,
    )

-- What a module provides is declared, and its own.
abbrev pub IsProvided : Catalog → Text → Text → Type 0
IsProvided catalog name id =
    (c : Contract) × (lookup id catalog.contracts ≡ some c) × (c.owner ≡ name)

check_provided-IsProvided :
    (catalog : Catalog) (name : Text) (provides : List Text)
    → check_provided catalog name provides ≡ ok tt
    → All (IsProvided catalog name) provides
unfolding check_provided
check_provided-IsProvided catalog name [] h = tt
check_provided-IsProvided catalog name (id ∷ rest) h =
    let (c, known, h1) =
      >>=_ok {0, 0, 0} (or_fail (lookup id catalog.contracts) (provides_undeclared name id)) _ tt
        h in
    let (own, h2) = fail_if-passed {0, 0} (not (c.owner == name)) _ _ tt h1 in
    (
      (c, or_fail_ok _ _ c known, ==_true c.owner name (not-false _ own)),
      check_provided-IsProvided catalog name rest h2,
    )

-- A module whose parts fit the catalog.
pub record IsComposed (names : List Text) (catalog : Catalog) (m : Module) : Type 0 where
  pub provides : All (IsProvided catalog m.name) m.provides
  pub consumes : All (IsResolved names catalog m.name) m.consumes

check_modules-IsComposed :
    (names : List Text) (catalog : Catalog) (modules : List Module)
    → IsCatalog names catalog
    → check_modules catalog modules ≡ ok tt
    → All (IsComposed names catalog) modules
unfolding check_modules
check_modules-IsComposed names catalog [] inv h = tt
check_modules-IsComposed names catalog (m ∷ rest) inv h =
    let (u, provided, h1) = >>=_ok {0, 0, 0} (check_provided catalog m.name m.provides) _ tt h in
    let (v, consumed, h2) = >>=_ok {0, 0, 0} (check_consumed catalog m.name m.consumes) _ tt h1 in
    (
      record {
        provides = check_provided-IsProvided catalog m.name m.provides provided;
        consumes = check_consumed-IsResolved names catalog m.name m.consumes inv consumed;
      },
      check_modules-IsComposed names catalog rest inv h2,
    )

-- A composition that is built: everything that a module consumes is routed to another of the modules,
-- and everything that it provides is declared as its own.
pub build-IsComposed :
    (contracts : List Contract) (modules : List Module) (catalog : Catalog)
    → build contracts modules ≡ ok catalog
    → (names : List Text) × ((n : Text) → contains names n ≡ contains (map (λ m. m.name) modules) n)
      × All (IsComposed names catalog) modules
unfolding build lookup
build-IsComposed contracts modules catalog h =
    let (names, named, h1) = >>=_ok (check_names [] modules) _ catalog h in
    let (built, added, h2) =
      >>=_ok (add_contracts names contracts (record { contracts = []; providers = [] })) _ catalog
        h1 in
    let (u, checked, e) = >>=_ok (check_modules built modules) _ catalog h2 in
    let inv =
      add_contracts-IsCatalog names contracts (record { contracts = []; providers = [] }) built
        (record { declared = λ id c l. absurd cc; provider = λ id c l. absurd cc }) added in
    (
      names,
      λ n. ground (arith, check_names-contains [] modules names n named),
      subst (λ c. All (IsComposed names c) modules) (ok_eq _ catalog _ refl e)
          (check_modules-IsComposed names built modules inv checked),
    )
