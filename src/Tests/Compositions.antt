-- ===== src/Tests/Compositions.antt =====
-- composition/contracts.go.
use pulp.Prelude.{◌≡◌, refl, List, [], ◌∷◌, ok, err, All, map, contains}
use pulp.Prelude.Text.{Text, codes, text_eq, trim_space, split}
use pulp.Prelude.Decimal.{all_digits}
use pulp.Prelude.Dict.{lookup, insert}
use pulp.Composition.Contracts.{
  Contract, Module, Catalog, bad_id, is_contract_id, build, resolve, routed_back,
}
use pulp.Composition.Contracts.Resolved.{IsComposed, build-IsComposed}

abbrev found : Contract
found = record {
  id = codes "stock.find.v1";
  kind = codes "query";
  owner = codes "stock";
  request = codes "q";
  reply = codes "r";
}

abbrev modules : List Module
modules =
    record { name = codes "cart"; provides = []; consumes = codes "stock.find.v1" ∷ [] }
    ∷ record { name = codes "stock"; provides = codes "stock.find.v1" ∷ []; consumes = [] }
    ∷ []

abbrev catalog : Catalog
catalog = record {
  contracts = (codes "stock.find.v1", found) ∷ [];
  providers = (codes "stock.find.v1", codes "stock") ∷ [];
}

built : build (found ∷ []) modules ≡ ok catalog
unfolding build is_contract_id text_eq trim_space split lookup insert all_digits
built = refl

-- A version without a name before it.
no_name : build (record found { id = codes "v1" } ∷ []) modules ≡ err (bad_id (codes "v1"))
unfolding build is_contract_id text_eq trim_space split
no_name = refl

to_itself :
    resolve catalog (codes "stock") (codes "stock.find.v1")
    ≡ err (routed_back (codes "stock") (codes "stock.find.v1"))
unfolding resolve lookup text_eq
to_itself = refl

build-IsComposed_example :
    (names : List Text) × ((n : Text) → contains names n ≡ contains (map (λ m. m.name) modules) n)
    × All (IsComposed names catalog) modules
build-IsComposed_example = build-IsComposed (found ∷ []) modules catalog built
