-- ===== src/Tests/Grants.antt =====
-- ext/placement_grant.go.
use pulp.Prelude.{◌≡◌, refl, ◌↔◌, [], ◌∷◌, some, ok}
use pulp.Prelude.Text.{Text, codes, text_eq, trim_space, contains_rune, compare_text}
use pulp.Prelude.Dict.{Dict, lookup, insert}
use pulp.Prelude.Sorting.{stable_sort}
use pulp.Ext.Scope.{Scope, validate}
use pulp.Ext.Grants.{
  Grant, GrantKey, grant_key_eq, has_blank, fold_rights, fold_attributes, normalize, add_grants,
  new_static_grants, folded, resolve_grant,
}
use pulp.Ext.Grants.Exact.{IsGranted, resolve_grant_iff}

-- Letters as they are.
abbrev as_is : Text → Text
as_is s = s

abbrev place : Scope
place = record {
  application_id = codes "shop";
  application_instance_id = codes "1";
  cell_id = codes "cart";
  cell_instance_id = codes "1";
}

abbrev given : Grant
given = record {
  scope = place;
  capability = codes "db ";
  resource = codes "orders";
  rights = codes "write" ∷ codes "read" ∷ [];
  attributes = (codes "region", codes "EU") ∷ [];
}

abbrev normal : Grant
normal = record {
  scope = place;
  capability = codes "db";
  resource = codes "orders";
  rights = codes "read" ∷ codes "write" ∷ [];
  attributes = (codes "region", codes "EU") ∷ [];
}

abbrev table : Dict GrantKey Grant
table = (record { scope = place; capability = codes "db" }, normal) ∷ []

filed : new_static_grants as_is (given ∷ []) ≡ ok table
unfolding new_static_grants add_grants normalize fold_rights fold_attributes has_blank validate
    trim_space contains_rune text_eq lookup insert stable_sort compare_text
filed = refl

resolve_grant_iff_example : (resolve_grant as_is table place (codes " db") ≡ some normal) ↔ (
    (validate place ≡ ok tt)
    × IsGranted as_is
        (given ∷ [])
        (record { scope = place; capability = folded as_is (codes " db") })
        normal)
resolve_grant_iff_example =
    resolve_grant_iff as_is (given ∷ []) table place (codes " db") normal filed
