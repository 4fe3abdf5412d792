-- ===== src/Run/CrossCalls/Authority.antt =====
-- run/cross_application.go: which calls are let in.
use pulp.Prelude.{
  ℕ, suc, ◌≡◌, ◌≢◌, ◌↔◌, refl, ◌⊎◌, inl, inr, Bool, true, ◌||◌, [], ◌∷◌, ◌++◌, none, some, ok, err,
  arith, Option-cases, Bool-cases, contains,
}
use pulp.Prelude.Text.{Text, text_eq, is_empty}
use pulp.Prelude.Dict.{lookup}
use pulp.Run.CrossCalls.{
  Identity, identity_eq, set_at, Registry, denied, unavailable, invalid_route, acquire, Caller,
  validate_route, allows_call, open_call,
}
use pulp.Run.CrossCalls.Steps.{System, new_system, Reach}
use pulp.Run.CrossCalls.Invariant.{Reach-Inv}

-- A route that names everything.
pub record IsRoute (target : Identity) (cell provider : Text) : Type 0 where
  pub application : target.application_id ≢ []
  pub instance_ : target.instance_id ≢ []
  pub cell_name : cell ≢ []
  pub provider_name : provider ≢ []

-- Another application that the caller's depends on, with a provider that its cell asks hosts for,
-- either of any application or of that one.
pub record IsAllowed (caller : Caller) (target : Identity) (provider : Text) : Type 0 where
  pub other_application : caller.identity ≢ target
  pub asked :
      (contains caller.host_consumes provider ≡ true)
      ⊎ (contains caller.host_consumes (target.application_id ++ b':' ∷ b':' ∷ provider) ≡ true)
  pub dependency : contains caller.depends_on target.application_id ≡ true

abbrev lacks_name : Identity → Text → Text → Bool
lacks_name target cell provider =
    is_empty target.application_id
    || is_empty target.instance_id
    || is_empty cell
    || is_empty provider

lacks-IsRoute :
    (target : Identity) (cell provider : Text)
    → lacks_name target cell provider ≡ true
    → ¬ IsRoute target cell provider
lacks-IsRoute target cell provider e route =
    ground (arith, route.application, route.instance_, route.cell_name, route.provider_name)

validate_route_cases :
    (target : Identity) (cell provider : Text)
    → ((validate_route target cell provider ≡ err invalid_route) × ¬ IsRoute target cell provider)
      ⊎ ((validate_route target cell provider ≡ ok tt) × IsRoute target cell provider)
unfolding validate_route
validate_route_cases target cell provider = elim (Bool-cases (lacks_name target cell provider)) [
  | inl e ↦ inl (rw e refl, λ route. lacks-IsRoute target cell provider e route)
  | inr e ↦ inr (rw e refl, ground arith)
]

allows_call_iff :
    (caller : Caller) (target : Identity) (provider : Text)
    → (allows_call caller target provider ≡ true) ↔ IsAllowed caller target provider
unfolding allows_call
allows_call_iff caller target provider = ground arith

-- In a state that the host can reach, a registered target lets a call in.
acquire_total :
    {s : System}
    → Reach new_system s
    → (target : Identity)
    → ((lookup target s.registry.entries ≡ none) × (acquire target s.registry ≡ err unavailable))
      ⊎ ((p : ℕ) × (r : Registry) × (lookup target s.registry.entries ≡ some p)
          × (acquire target s.registry ≡ ok (p, r)))
unfolding acquire set_at
acquire_total {s} reach target = elim (Option-cases (lookup target s.registry.entries)) [
  | inl e ↦ inl (e, ground arith)
  | inr (p, e) ↦
      let (_, active, _) = (Reach-Inv reach).live target p e in
      inr (
        p,
        record s.registry { calls = set_at p (suc (s.registry.calls p)) s.registry.calls },
        e,
        ground arith,
      )
]

-- A call is let in exactly if its route names everything, the caller may make it, and the target is
-- registered; otherwise it is refused by the first of these that fails.
pub open_call_cases :
    {s : System}
    → Reach new_system s
    → (caller : Caller) (target : Identity) (cell provider : Text)
    → ((open_call caller target cell provider s.registry ≡ err invalid_route)
        × ¬ IsRoute target cell provider)
      ⊎ ((open_call caller target cell provider s.registry ≡ err denied)
          × IsRoute target cell provider
          × ¬ IsAllowed caller target provider)
      ⊎ ((open_call caller target cell provider s.registry ≡ err unavailable)
          × IsRoute target cell provider
          × IsAllowed caller target provider
          × (lookup target s.registry.entries ≡ none))
      ⊎ ((p : ℕ) × (r : Registry) × (open_call caller target cell provider s.registry ≡ ok (p, r))
          × IsRoute target cell provider
          × IsAllowed caller target provider
          × (lookup target s.registry.entries ≡ some p))
unfolding open_call
open_call_cases {s} reach caller target cell provider =
    elim (validate_route_cases target cell provider) [
      | inl (e, no_route) ↦ inl (rw e refl, no_route)
      | inr (e, route) ↦ elim (Bool-cases (allows_call caller target provider)) [
        | inr n ↦ inr (
            inl (
              rw (e, n) refl,
              route,
              λ a. ground (arith, (allows_call_iff caller target provider).1 a),
            ))
        | inl y ↦
            let allowed = (allows_call_iff caller target provider).0 y in
            elim (acquire_total reach target) [
              | inl (unknown, e') ↦ inr (inr (inl (rw (e, y, e') refl, route, allowed, unknown)))
              | inr (p, r, known, e') ↦
                  inr (inr (inr (p, r, rw (e, y, e') refl, route, allowed, known)))
            ]
      ]
    ]
