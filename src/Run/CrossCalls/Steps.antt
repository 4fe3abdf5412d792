-- ===== src/Run/CrossCalls/Steps.antt =====
-- run/cross_application.go: the steps of a host whose applications start, stop and call each other at
-- any time.
use pulp.Prelude.{ℕ, ◌≡◌, List, [], ◌∷◌, ◌++◌, some, ok}
use pulp.Run.CrossCalls.{
  Identity, set_at, Registry, new_registry, mark_ready, revoke, deactivate, acquire, release,
}

-- Where the call of `markUnavailable` stands that found an entry.
pub data Phase : Type 0 where
  staying revoked joining left : Phase

-- The registry, the phases, and the entries of the calls that run.
pub record System : Type 0 where
  pub registry : Registry
  pub phase : ℕ → Phase
  pub running : List ℕ

unfoldable pub new_system : System
unfolding new_registry
new_system = record { registry = new_registry; phase = λ p. staying; running = [] }

pub data Step (s : System) : System → Type 0 where
  ready :
      (id : Identity) (r : Registry)
      → mark_ready id s.registry ≡ ok r
      → Step s (record s { registry = r })
  withdraw :
      (id : Identity) (p : ℕ) (r : Registry)
      → revoke id s.registry ≡ (some p, r)
      → Step s (record s { registry = r; phase = set_at p revoked s.phase })
  close :
      (p : ℕ)
      → s.phase p ≡ revoked
      → Step s (record s { registry = deactivate p s.registry; phase = set_at p joining s.phase })
  join :
      (p : ℕ)
      → s.phase p ≡ joining
      → s.registry.calls p ≡ 0
      → Step s (record s { phase = set_at p left s.phase })
  enter :
      (id : Identity) (p : ℕ) (r : Registry)
      → acquire id s.registry ≡ ok (p, r)
      → Step s (record s { registry = r; running = p ∷ s.running })
  done :
      (p : ℕ) (before after : List ℕ)
      → s.running ≡ before ++ p ∷ after
      → Step s (record s { registry = release p s.registry; running = before ++ after })

pub data Reach (s : System) : System → Type 0 where
  here : Reach s s
  next : {t u : System} → Reach s t → Step t u → Reach s u
