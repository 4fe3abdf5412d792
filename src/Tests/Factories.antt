-- ===== src/Tests/Factories.antt =====
-- ext/scope.go, `ScopedFactory`.
use pulp.Prelude.{◌≡◌, refl, true, false, ℕ, ◌+◌, [], ◌∷◌, Result, ok, err, eqb, if◌then◌else◌}
use pulp.Prelude.Text.{Text, codes, trim_space, contains_rune}
use pulp.Prelude.Dict.{lookup, insert}
use pulp.Ext.Scope.{ResourceKey, key_eq, validate}
use pulp.Ext.Factory.{Factory, new_factory, get_or_create, after_calls}
use pulp.Ext.Factory.Ownership.{IsUsable, get_or_create-stable}

abbrev key_of : Text → ResourceKey
key_of name = record {
  scope = record {
    application_id = codes "shop";
    application_instance_id = codes "1";
    cell_id = codes "cart";
    cell_instance_id = codes "1";
  };
  resource_type = codes "db";
  resource_id = name;
}

-- A constructor that hands out numbers, and fails at its second call.
abbrev hand_out : ℕ → ResourceKey → Result ℕ ℕ
hand_out n key = if eqb n 1 then err 7 else ok (n + 100)

abbrev one : Factory ℕ
one = record { resources = (key_of (codes "a"), 100) ∷ []; calls = key_of (codes "a") ∷ [] }

key-IsUsable : IsUsable hand_out (key_of (codes "a"))
unfolding trim_space contains_rune validate
key-IsUsable = record { scope = refl; names = refl }

first : get_or_create hand_out (key_of (codes "a")) new_factory ≡ (one, ok (100, true))
unfolding get_or_create trim_space contains_rune validate lookup insert key_eq new_factory
first = refl

get_or_create-stable_example :
    get_or_create hand_out
      (key_of (codes "a"))
      (after_calls hand_out (key_of (codes "b") ∷ key_of (codes "b") ∷ []) one)
    ≡ (after_calls hand_out (key_of (codes "b") ∷ key_of (codes "b") ∷ []) one, ok (100, false))
get_or_create-stable_example =
    get_or_create-stable hand_out (key_of (codes "a")) new_factory one 100 true
      (key_of (codes "b") ∷ key_of (codes "b") ∷ []) key-IsUsable first
