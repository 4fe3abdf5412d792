-- ===== src/Tests/Providers.antt =====
-- ext/ext.go, `SelectCapabilities`.
use pulp.Prelude.{◌≡◌, refl, ℕ, [], ◌∷◌, List, ok, contains}
use pulp.Prelude.Text.{Text, codes, trim_space, text_eq, compare_text}
use pulp.Prelude.Dict.{Dict, lookup}
use pulp.Prelude.Sets.{Distinct}
use pulp.Prelude.Sorting.{stable_sort}
use pulp.Ext.Providers.{
  Capability, select_capabilities, candidates_of, check_pins, check_registered, select_all,
  order_of,
}
use pulp.Ext.Providers.Chosen.{names_of, IsSelection, select_capabilities-IsSelection}

abbrev http_gin : Capability ℕ
http_gin = record { name = codes "http"; provider = codes "gin"; callbacks = 1 }

abbrev http_std : Capability ℕ
http_std = record { name = codes "http"; provider = codes "std"; callbacks = 2 }

abbrev files : Capability ℕ
files = record { name = codes "fs"; provider = []; callbacks = 3 }

abbrev registered : List (Capability ℕ)
registered = http_gin ∷ files ∷ http_std ∷ []

abbrev pins : Dict Text Text
pins = (codes "http", codes "std") ∷ []

selected : select_capabilities registered pins ≡ ok (http_std ∷ files ∷ [])
unfolding select_capabilities candidates_of check_pins check_registered select_all order_of lookup
    trim_space text_eq stable_sort compare_text
selected = refl

select_capabilities-IsSelection_example :
    (names : List Text) × Distinct names
    × ((name : Text) → contains names name ≡ contains (names_of registered) name)
    × IsSelection registered pins names (http_std ∷ files ∷ [])
select_capabilities-IsSelection_example =
    select_capabilities-IsSelection registered (http_std ∷ files ∷ []) pins selected
