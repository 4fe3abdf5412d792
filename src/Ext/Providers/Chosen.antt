-- ===== src/Ext/Providers/Chosen.antt =====
-- ext/ext.go, `SelectCapabilities`: the providers that it chooses.
use pulp.Prelude.{
  ◌≡◌, refl, Bool, true, List, [], ◌∷◌, ◌++◌, none, some, ok, arith, ◌==◌, contains, select, All,
  ◌||◌, ◌&&◌, Bool-cases, Result-cases, Option-cases, inl, inr,
}
use pulp.Prelude.Text.{Text, text_eq}
use pulp.Prelude.Dict.{Dict, lookup}
use pulp.Prelude.Sets.{Distinct, contains-append, Distinct-join}
use pulp.Ext.Providers.{
  Capability, candidates_of, order_of, only, exact, select_one, select_all, select_capabilities,
}

module _ {C : Type 0} where
  -- A capability is the one choice for its name: the only registration of the name if it has no pin,
  -- and the only one with the pinned provider otherwise.
  abbrev pub IsChosen : List (Capability C) → Dict Text Text → Capability C → Type 0
  IsChosen registered pins c = elim (lookup c.name pins) [
    | none ↦ select (λ d. d.name == c.name) registered ≡ c ∷ []
    | some want ↦ select (λ d. d.name == c.name && d.provider == want) registered ≡ c ∷ []
  ]

  only-ok :
      (name : Text) (cs : List (Capability C)) (c : Capability C)
      → only name cs ≡ ok c
      → cs ≡ c ∷ []
  unfolding only
  only-ok name [] c h = ground arith
  only-ok name (d ∷ []) c h = ground arith
  only-ok name (d ∷ e ∷ cs) c h = ground arith

  exact-ok :
      (name want : Text) (candidates cs : List (Capability C)) (c : Capability C)
      → exact name want candidates cs ≡ ok c
      → cs ≡ c ∷ []
  unfolding exact
  exact-ok name want candidates [] c h = ground arith
  exact-ok name want candidates (d ∷ []) c h = ground arith
  exact-ok name want candidates (d ∷ e ∷ cs) c h = ground arith

  -- What is selected from a list has the test.
  select-head :
      (p : Capability C → Bool) (cs rest : List (Capability C)) (c : Capability C)
      → select p cs ≡ c ∷ rest
      → p c ≡ true
  select-head p [] rest c h = absurd (ground arith)
  select-head p (d ∷ cs) rest c h = ground (arith, select-head p cs rest c)

  select-select :
      (p q : Capability C → Bool) (cs : List (Capability C))
      → select q (select p cs) ≡ select (λ c. p c && q c) cs
  select-select p q [] = refl
  select-select p q (c ∷ cs) = elim (Bool-cases (p c)) [
    | inl e ↦ ground (arith, select-select p q cs)
    | inr e ↦ ground (arith, select-select p q cs)
  ]

  All-select :
      (q : Capability C → Bool) (cs : List (Capability C)) → All (λ c. q c ≡ true) (select q cs)
  All-select q [] = tt
  All-select q (c ∷ cs) = elim (Bool-cases (q c)) [
    | inl e ↦ ground (arith, All-select q cs)
    | inr e ↦ ground (arith, All-select q cs)
  ]

  select-head-All :
      (p q : Capability C → Bool) (cs rest : List (Capability C)) (c : Capability C)
      → All (λ d. q d ≡ true) cs
      → select p cs ≡ c ∷ rest
      → q c ≡ true
  select-head-All p q [] rest c a h = absurd (ground arith)
  select-head-All p q (d ∷ cs) rest c a h = ground (arith, select-head-All p q cs rest c)

  select_one-IsChosen :
      (registered : List (Capability C)) (pins : Dict Text Text) (name : Text) (c : Capability C)
      → select_one registered pins name ≡ ok c
      → (c.name ≡ name) × IsChosen registered pins c
  unfolding select_one candidates_of
  select_one-IsChosen registered pins name c h =
      let found = select (λ d. d.name == name) registered in
      elim (Option-cases (lookup name pins)) [
        | inl e ↦
            ground (arith, only-ok name found c, select-head (λ d. d.name == name) registered [] c)
        | inr (want, e) ↦ ground (
          arith,
          exact-ok name want found (select (λ d. d.provider == want) found) c,
          select-select (λ d. d.name == name) (λ d. d.provider == want) registered,
          select-head-All (λ d. d.provider == want) (λ d. d.name == name) found [] c
              (All-select (λ d. d.name == name) registered),
        )
      ]

  abbrev pub names_of : List (Capability C) → List Text
  names_of [] = []
  names_of (c ∷ cs) = c.name ∷ names_of cs

  -- Each selected capability is the choice for the name in its place.
  abbrev pub IsSelection :
      List (Capability C) → Dict Text Text → List Text → List (Capability C) → Type 0
  IsSelection registered pins [] [] = Unit
  IsSelection registered pins [] (_ ∷ _) = ⊥
  IsSelection registered pins (_ ∷ _) [] = ⊥
  IsSelection registered pins (name ∷ names) (c ∷ cs) =
      (c.name ≡ name) × IsChosen registered pins c × IsSelection registered pins names cs

  select_all-IsSelection :
      (registered : List (Capability C)) (pins : Dict Text Text) (names : List Text)
      (cs : List (Capability C))
      → select_all registered pins names ≡ ok cs
      → IsSelection registered pins names cs
  unfolding select_all
  select_all-IsSelection registered pins [] [] h = tt
  select_all-IsSelection registered pins [] (c ∷ cs) h = absurd (ground arith)
  select_all-IsSelection registered pins (name ∷ names) cs h =
      elim (Result-cases (select_one registered pins name)) [
        | inr (x, e) ↦ absurd (ground arith)
        | inl (c, e) ↦ elim (Result-cases (select_all registered pins names)) [
          | inr (y, f) ↦ absurd (ground arith)
          | inl (ds, f) ↦ ground (
            arith,
            select_one-IsChosen registered pins name c e,
            select_all-IsSelection registered pins names ds f,
          )
        ]
      ]

  order_of-Distinct :
      (order : List Text) (cs : List (Capability C)) → Distinct order → Distinct (order_of order cs)
  unfolding order_of
  order_of-Distinct order [] d = d
  order_of-Distinct order (c ∷ cs) d = elim (Bool-cases (contains order c.name)) [
    | inl e ↦ rw e (order_of-Distinct order cs d)
    | inr e ↦ rw e (
        order_of-Distinct (order ++ c.name ∷ []) cs
          (Distinct-join order (c.name ∷ []) d (refl, tt) (λ a k. ground arith)))
  ]

  -- The names of the selection are those of the registered capabilities.
  contains-order_of :
      (order : List Text) (cs : List (Capability C)) (name : Text)
      → contains (order_of order cs) name ≡ (contains order name || contains (names_of cs) name)
  unfolding order_of
  contains-order_of order [] name = ground arith
  contains-order_of order (c ∷ cs) name = ground (
    arith,
    contains-order_of order cs name,
    contains-order_of (order ++ c.name ∷ []) cs name,
    contains-append order (c.name ∷ []) name,
  )

  -- A successful selection lists one capability for each registered name and for no other, and each
  -- is the only choice for its name: the only registration of a name without a pin, and the only one
  -- with the pinned provider otherwise.
  pub select_capabilities-IsSelection :
      (registered cs : List (Capability C)) (pins : Dict Text Text)
      → select_capabilities registered pins ≡ ok cs
      → (names : List Text) × Distinct names
        × ((name : Text) → contains names name ≡ contains (names_of registered) name)
        × IsSelection registered pins names cs
  unfolding select_capabilities
  select_capabilities-IsSelection registered cs pins h = (
    order_of [] registered,
    order_of-Distinct [] registered tt,
    contains-order_of [] registered,
    ground (arith, select_all-IsSelection registered pins (order_of [] registered) cs),
  )
