-- ===== src/Tests/Placements.antt =====
-- internal/manifest/app.go.
use pulp.Prelude.{◌≡◌, refl, List, [], ◌∷◌, Result, ok, err, map, All}
use pulp.Prelude.Sets.{Distinct}
use pulp.Prelude.Text.{codes, text_eq, trim_space, contains_rune}
use pulp.Prelude.Decimal.{decimal}
use pulp.Prelude.Dict.{lookup, insert}
use pulp.Manifest.Config.{empty}
use pulp.Manifest.Cells.{pos}
use pulp.Manifest.Placements.{RawPlacement, CellPlacement, PlacementError, build_placements}
use pulp.Manifest.Placements.Instances.{IsPlain}
use pulp.Manifest.Placements.Addresses.{ArePlacements, names_of, build_placements-ArePlacements}
use pulp.Tests.Manifests.{cart, stock}

abbrev two_carts : List (RawPlacement (Unit {0}))
two_carts =
    record { cell = codes "cart"; instances = []; aliases = []; count = pos 2; config = empty } ∷ []

abbrev placed : List (CellPlacement (Unit {0}))
placed =
    record { spec = stock; instance_id = codes "primary"; address = codes "stock" }
    ∷ record { spec = cart; instance_id = codes "1"; address = codes "cart@1" }
    ∷ record { spec = cart; instance_id = codes "2"; address = codes "cart@2" }
    ∷ []

two_placed : build_placements (cart ∷ stock ∷ []) (stock ∷ cart ∷ []) two_carts ≡ ok placed
unfolding build_placements lookup insert text_eq trim_space decimal contains_rune
two_placed = refl

names_Distinct : Distinct (names_of (stock ∷ cart ∷ []))
unfolding text_eq
names_Distinct = (refl, (refl, tt))

names_plain : All IsPlain (names_of (stock ∷ cart ∷ []))
unfolding contains_rune
names_plain = (refl, (refl, tt))

build_placements-ArePlacements_example : ArePlacements (stock ∷ cart ∷ []) placed
build_placements-ArePlacements_example =
    build_placements-ArePlacements (cart ∷ stock ∷ []) (stock ∷ cart ∷ []) two_carts placed
      two_placed names_Distinct names_plain

abbrev placements_in :
    Result PlacementError (List (CellPlacement (Unit {0}))) → List (CellPlacement (Unit {0}))
placements_in (ok ps) = ps
placements_in (err _) = []

-- A cell with an `@` in its name gets the address of another cell's instance.
same_address :
    map
      (λ p. p.address)
      (placements_in (
        build_placements
          (cart ∷ record stock { name = codes "cart@1" } ∷ [])
          (cart ∷ record stock { name = codes "cart@1" } ∷ [])
          two_carts))
    ≡ codes "cart@1" ∷ codes "cart@2" ∷ codes "cart@1" ∷ []
unfolding build_placements lookup insert text_eq trim_space decimal contains_rune
same_address = refl
