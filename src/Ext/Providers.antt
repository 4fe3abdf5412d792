-- ===== src/Ext/Providers.antt =====
-- ext/ext.go, `SelectCapabilities`. The callbacks of a capability are a parameter; the pins are walked
-- in the order of the list, where Go's order of a map is any, and only tells which error comes first.
pub mod Chosen
use pulp.Prelude.{
  ℕ, ◌≡◌, Bool, true, false, not, List, [], ◌∷◌, ◌++◌, Option, none, some, Result, ok, err, fail_if,
  ◌>>=◌, ◌>>◌, ◌==◌, contains, if◌then◌else◌, length, select, Ordering,
}
use pulp.Prelude.Text.{Text, text_eq, trim_space, is_empty, codes, compare_text}
use pulp.Prelude.Sorting.{stable_sort}
use pulp.Prelude.Dict.{Dict, lookup}

pub record Capability (Callbacks : Type 0) : Type 0 where
  pub name : Text
  pub provider : Text
  pub callbacks : Callbacks

pub data SelectionError : Type 0 where
  empty_name : SelectionError
  empty_provider not_registered : Text → SelectionError
  needs_selection : Text → ℕ → SelectionError
  provider_missing : Text → List Text → Text → SelectionError
  provider_repeated : Text → ℕ → Text → SelectionError

-- The order of sort.Strings.
abbrev pub text_less : Text → Text → Bool
text_less a b = elim (compare_text a b) [ Ordering.lt ↦ true | _ ↦ false ]

abbrev pub pinned_names : Dict Text Text → List Text
pinned_names [] = []
pinned_names ((name, _) ∷ pins) = name ∷ pinned_names pins

-- The first loop over the pins.
unfoldable pub check_pins : Dict Text Text → Result SelectionError (Unit {0})
check_pins [] = ok tt
check_pins ((name, provider) ∷ pins) = do
  fail_if (is_empty (trim_space name)) empty_name
  fail_if (is_empty (trim_space provider)) (empty_provider name)
  check_pins pins

module _ {C : Type 0} where
  -- `byName[name]`
  unfoldable pub candidates_of : Text → List (Capability C) → List (Capability C)
  candidates_of name registered = select (λ c. c.name == name) registered

  -- The names in the order of their first registration; `order` holds those before.
  unfoldable pub order_of : List Text → List (Capability C) → List Text
  order_of order [] = order
  order_of order (c ∷ cs) =
      order_of (if contains order c.name then order else order ++ c.name ∷ []) cs

  -- The second one, over their names in order.
  unfoldable pub check_registered :
      List (Capability C) → List Text → Result SelectionError (Unit {0})
  unfolding candidates_of
  check_registered registered [] = ok tt
  check_registered registered (name ∷ names) = do
    fail_if (is_empty (candidates_of name registered)) (not_registered name)
    check_registered registered names

  providers_of : List (Capability C) → List Text
  providers_of [] = []
  providers_of (c ∷ cs) =
      (if is_empty c.provider then codes "<legacy-unidentified>" else c.provider) ∷ providers_of cs

  -- Of the candidates without a pin there must be one.
  unfoldable pub only : Text → List (Capability C) → Result SelectionError (Capability C)
  only name (c ∷ []) = ok c
  only name [] = err (needs_selection name 0)
  only name (c ∷ d ∷ cs) = err (needs_selection name (length (c ∷ d ∷ cs)))

  -- Of the candidates with the pinned provider there must be one.
  unfoldable pub exact :
      Text → Text → List (Capability C) → List (Capability C) → Result SelectionError (Capability C)
  unfolding providers_of
  exact name want candidates (c ∷ []) = ok c
  exact name want candidates [] =
      err (provider_missing name (stable_sort text_less (providers_of candidates)) want)
  exact name want candidates (c ∷ d ∷ cs) = err (provider_repeated name (length (c ∷ d ∷ cs)) want)

  unfoldable pub select_one :
      List (Capability C) → Dict Text Text → Text → Result SelectionError (Capability C)
  unfolding candidates_of only exact
  select_one registered pins name = elim (lookup name pins) [
    | none ↦ only name (candidates_of name registered)
    | some want ↦
        exact name want (candidates_of name registered)
          (select (λ c. c.provider == want) (candidates_of name registered))
  ]

  unfoldable pub select_all :
      List (Capability C) → Dict Text Text → List Text → Result SelectionError (List (Capability C))
  unfolding select_one
  select_all registered pins [] = ok []
  select_all registered pins (name ∷ names) = do
    c ← select_one registered pins name
    cs ← select_all registered pins names
    ok (c ∷ cs)

  unfoldable pub select_capabilities :
      List (Capability C) → Dict Text Text → Result SelectionError (List (Capability C))
  unfolding check_pins check_registered select_all order_of
  select_capabilities registered pins = do
    check_pins pins
    check_registered registered (stable_sort text_less (pinned_names pins))
    select_all registered pins (order_of [] registered)
