-- ===== src/Tests/Scopes.antt =====
-- ext/scope.go.
use pulp.Prelude.{◌≡◌, refl, ◌↔◌, ok}
use pulp.Prelude.Text.{codes, byte_len}
use pulp.Prelude.Decimal.{decimal}
use pulp.Ext.Scope.{Scope, new_scope, routing_id, ResourceKey}
use pulp.Ext.Scope.Names.{routing_id-injective}
use pulp.Ext.Scope.Validity.{IsPlacement, new_scope_iff}

abbrev shop : Scope
shop = record {
  application_id = codes "shop";
  application_instance_id = codes "1|2";
  cell_id = codes "cart";
  cell_instance_id = codes "é";
}

routing_id_test : routing_id shop ≡ codes "pulp-scope/v1/4:shop|3:1|2|4:cart|2:é"
unfolding routing_id decimal byte_len
routing_id_test = refl

routing_id-injective_example : shop ≡ shop
routing_id-injective_example = routing_id-injective shop shop refl

abbrev listener : ResourceKey
listener = record { scope = shop; resource_type = codes "http"; resource_id = codes "public" }

new_scope_iff_example :
    (new_scope (codes "shop") (codes "1|2") (codes "cart") (codes "é") ≡ ok shop) ↔ (
      IsPlacement shop
      × (codes "shop" ≡ shop.application_id)
      × (codes "1|2" ≡ shop.application_instance_id)
      × (codes "cart" ≡ shop.cell_id)
      × (codes "é" ≡ shop.cell_instance_id))
new_scope_iff_example = new_scope_iff (codes "shop") (codes "1|2") (codes "cart") (codes "é") shop
