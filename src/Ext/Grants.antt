-- ===== src/Ext/Grants.antt =====
-- ext/placement_grant.go. strings.ToLower is a parameter. The attributes are walked in the order of the
-- list, where Go's order of a map is any. `Allows` and the copies of `clonePlacementGrant` are left out.
pub mod Exact
use pulp.Prelude.{
  Bool, true, false, not, ◌&&◌, ◌||◌, List, [], ◌∷◌, ◌++◌, Option, none, some, Result, ok, err,
  fail_if, ◌>>=◌, ◌>>◌, Eq, ◌==◌, contains, any, eqb, if◌then◌else◌, ℕ_discrete, Ordering,
}
use pulp.Prelude.Text.{Text, text_eq, trim_space, is_empty, compare_text}
use pulp.Prelude.Dict.{Dict, lookup, insert}
use pulp.Prelude.Sorting.{stable_sort}
use pulp.Ext.Scope.{Scope, ScopeError, scope_dec, validate}
use pulp.Ext.Providers.{text_less}

pub record Grant : Type 0 where
  pub scope : Scope
  pub capability : Text
  pub resource : Text
  pub rights : List Text
  pub attributes : Dict Text Text

pub record GrantKey : Type 0 where
  pub scope : Scope
  pub capability : Text

grant_key_dec : Discrete GrantKey
grant_key_dec = hlevel (ℕ_discrete, scope_dec)

instance unfoldable pub grant_key_eq : Eq GrantKey
unfolding grant_key_dec scope_dec ℕ_discrete
grant_key_eq = record { dec = grant_key_dec }

pub data GrantError : Type 0 where
  bad_scope : ScopeError → GrantError
  capability_or_resource_missing invalid_right no_rights invalid_attribute : GrantError
  duplicate_right duplicate_attribute : Text → GrantError
  duplicate_grant : Scope → Text → GrantError

-- strings.ContainsAny(s, " \t\r\n")
unfoldable pub has_blank : Text → Bool
has_blank s = any (λ c. eqb c 32 || eqb c 9 || eqb c 13 || eqb c 10) s

module _ (to_lower : Text → Text) where
  abbrev pub folded : Text → Text
  folded s = trim_space (to_lower s)

  -- The loop over the rights; `rights` are those before.
  unfoldable pub fold_rights : List Text → List Text → Result GrantError (List Text)
  unfolding has_blank
  fold_rights rights [] = ok rights
  fold_rights rights (raw ∷ more) = do
    fail_if (is_empty (folded raw) || has_blank (folded raw)) invalid_right
    fail_if (contains rights (folded raw)) (duplicate_right (folded raw))
    fold_rights (rights ++ folded raw ∷ []) more

  unfoldable pub fold_attributes :
      Dict Text Text → Dict Text Text → Result GrantError (Dict Text Text)
  unfolding has_blank
  fold_attributes attrs [] = ok attrs
  fold_attributes attrs ((raw, v) ∷ more) = do
    fail_if (is_empty (folded raw) || has_blank (folded raw)) invalid_attribute
    fail_if (elim (lookup (folded raw) attrs) [ none ↦ false | some _ ↦ true ])
        (duplicate_attribute (folded raw))
    fold_attributes (insert (folded raw) v attrs) more

  unfoldable pub normalize : Grant → Result GrantError Grant
  unfolding fold_rights fold_attributes
  normalize g = elim (validate g.scope) [
    | err e ↦ err (bad_scope e)
    | ok _ ↦ do
      fail_if (is_empty (folded g.capability) || is_empty (trim_space g.resource))
          capability_or_resource_missing
      rights ← fold_rights [] g.rights
      fail_if (is_empty rights) no_rights
      attributes ← fold_attributes [] g.attributes
      ok (record {
        scope = g.scope;
        capability = folded g.capability;
        resource = trim_space g.resource;
        rights = stable_sort text_less rights;
        attributes = attributes;
      })
  ]

  abbrev pub key_of : Grant → GrantKey
  key_of g = record { scope = g.scope; capability = g.capability }

  -- The loop over the grants; `grants` holds those before.
  unfoldable pub add_grants :
      List Grant → Dict GrantKey Grant → Result GrantError (Dict GrantKey Grant)
  add_grants [] grants = ok grants
  add_grants (raw ∷ more) grants = do
    g ← normalize raw
    fail_if (elim (lookup (key_of g) grants) [ none ↦ false | some _ ↦ true ])
        (duplicate_grant g.scope g.capability)
    add_grants more (insert (key_of g) g grants)

  unfoldable pub new_static_grants : List Grant → Result GrantError (Dict GrantKey Grant)
  unfolding add_grants
  new_static_grants input = add_grants input []

  unfoldable pub resolve_grant : Dict GrantKey Grant → Scope → Text → Option Grant
  resolve_grant grants scope capability = elim (validate scope) [
    | err _ ↦ none
    | ok _ ↦ lookup (record { scope = scope; capability = folded capability }) grants
  ]
