-- ===== src/Composition/Contracts.antt =====
-- composition/contracts.go. The regular expression `contractID` splits a name at its dots: the last part
-- is a version, and those before it are names.
pub mod Resolved
use pulp.Prelude.{
  ℕ, ◌≡◌, Bool, true, false, not, ◌&&◌, ◌||◌, List, [], ◌∷◌, Option, none, some, Result, ok, err,
  fail_if, or_fail, ◌>>=◌, ◌>>◌, ◌==◌, contains, if◌then◌else◌, leb, eqb, any, map,
}
use pulp.Prelude.Text.{Text, text_eq, codes, trim_space, is_empty, split, text_before}
use pulp.Prelude.Dict.{Dict, lookup, insert}
use pulp.Prelude.Decimal.{is_digit, all_digits}
use pulp.Prelude.Sorting.{stable_sort}
use pulp.Dependency.Plan.{has, value_at}

pub record Contract : Type 0 where
  pub id : Text
  pub kind : Text
  pub owner : Text
  pub request : Text
  pub reply : Text

pub record Module : Type 0 where
  pub name : Text
  pub provides : List Text
  pub consumes : List Text

pub record Catalog : Type 0 where
  pub contracts : Dict Text Contract
  pub providers : Dict Text Text

pub data CompositionError : Type 0 where
  bad_module_name bad_id duplicate_contract : Text → CompositionError
  bad_kind unknown_owner : Text → Text → CompositionError
  provides_undeclared consumes_undeclared consumes_own : Text → Text → CompositionError
  provides_owned : Text → Text → Text → CompositionError
  undeclared : Text → CompositionError
  routed_back : Text → Text → CompositionError

abbrev pub kinds : List Text
kinds = codes "command" ∷ codes "event" ∷ codes "query" ∷ codes "state" ∷ codes "lifecycle" ∷ []

-- `[a-z][a-z0-9-]*`
unfoldable pub is_part : Text → Bool
is_part [] = false
is_part (c ∷ s) =
    leb b'a' c
    && leb c b'z'
    && not (any (λ d. not ((leb b'a' d && leb d b'z') || is_digit d || eqb d b'-')) s)

-- `v[1-9][0-9]*`
unfoldable pub is_version_part : Text → Bool
is_version_part [] = false
is_version_part (v ∷ []) = false
is_version_part (v ∷ d ∷ s) = eqb v b'v' && leb b'1' d && leb d b'9' && all_digits s

-- The parts of an ID, one name at least before the version.
unfoldable pub are_parts : List Text → Bool
unfolding is_part is_version_part
are_parts [] = false
are_parts (p ∷ []) = false
are_parts (p ∷ v ∷ []) = is_part p && is_version_part v
are_parts (p ∷ q ∷ r ∷ rest) = is_part p && are_parts (q ∷ r ∷ rest)

unfoldable pub is_contract_id : Text → Bool
unfolding are_parts
is_contract_id id = are_parts (split b'.' id)

-- The loop over the modules' names.
unfoldable pub check_names : List Text → List Module → Result CompositionError (List Text)
check_names seen [] = ok seen
check_names seen (m ∷ rest) = do
  fail_if (is_empty (trim_space m.name) || contains seen m.name) (bad_module_name m.name)
  check_names (m.name ∷ seen) rest

abbrev pub trimmed : Contract → Contract
trimmed c = record c { id = trim_space c.id; owner = trim_space c.owner }

-- One pass of the loop over the contracts, with its trimmed copy.
unfoldable pub add_contract : List Text → Contract → Catalog → Result CompositionError Catalog
unfolding is_contract_id
add_contract names c catalog = do
  fail_if (not (is_contract_id c.id)) (bad_id c.id)
  fail_if (not (contains kinds c.kind)) (bad_kind c.id c.kind)
  fail_if (has c.id catalog.contracts) (duplicate_contract c.id)
  fail_if (not (contains names c.owner)) (unknown_owner c.id c.owner)
  ok (record {
    contracts = insert c.id c catalog.contracts;
    providers = insert c.id c.owner catalog.providers;
  })

unfoldable pub add_contracts : List Text → List Contract → Catalog → Result CompositionError Catalog
unfolding add_contract
add_contracts names [] catalog = ok catalog
add_contracts names (c ∷ rest) catalog = do
  next ← add_contract names (trimmed c) catalog
  add_contracts names rest next

unfoldable pub check_provided : Catalog → Text → List Text → Result CompositionError (Unit {0})
check_provided catalog name [] = ok tt
check_provided catalog name (provided ∷ rest) = do
  contract ← or_fail (lookup provided catalog.contracts) (provides_undeclared name provided)
  fail_if (not (contract.owner == name)) (provides_owned name provided contract.owner)
  check_provided catalog name rest

unfoldable pub check_consumed : Catalog → Text → List Text → Result CompositionError (Unit {0})
check_consumed catalog name [] = ok tt
check_consumed catalog name (consumed ∷ rest) = do
  fail_if (not (has consumed catalog.contracts)) (consumes_undeclared name consumed)
  fail_if (value_at consumed catalog.providers [] == name) (consumes_own name consumed)
  check_consumed catalog name rest

unfoldable pub check_modules : Catalog → List Module → Result CompositionError (Unit {0})
unfolding check_provided check_consumed
check_modules catalog [] = ok tt
check_modules catalog (m ∷ rest) = do
  check_provided catalog m.name m.provides
  check_consumed catalog m.name m.consumes
  check_modules catalog rest

unfoldable pub build : List Contract → List Module → Result CompositionError Catalog
unfolding check_names add_contracts check_modules
build contracts modules = do
  names ← check_names [] modules
  catalog ← add_contracts names contracts (record { contracts = []; providers = [] })
  check_modules catalog modules
  ok catalog

unfoldable pub resolve : Catalog → Text → Text → Result CompositionError (Contract × Text)
resolve catalog consumer id = do
  contract ← or_fail (lookup id catalog.contracts) (undeclared id)
  fail_if (consumer == contract.owner) (routed_back consumer id)
  ok (contract, contract.owner)

-- `Catalog.IDs`
unfoldable pub contract_ids : Catalog → List Text
contract_ids catalog = stable_sort text_before (map (λ (id, _). id) catalog.contracts)
