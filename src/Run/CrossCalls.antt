-- ===== src/Run/CrossCalls.antt =====
-- run/cross_application.go, on a registry that is not nil. A pointer to an entry is a number, and the
-- registry has the entries behind them; each function that holds a lock is one step.
pub mod Steps
pub mod Invariant
pub mod Drained
pub mod Authority
use pulp.Prelude.{
  ℕ, suc, ◌+◌, ◌-◌, ◌≡◌, Bool, true, false, not, ◌&&◌, ◌||◌, List, [], ◌∷◌, ◌++◌, Option, none,
  some, Result, ok, err, Eq, fail_if, or_fail, ◌>>=◌, ◌>>◌, ◌==◌, contains, if◌then◌else◌,
  ℕ_discrete, eqb,
}
use pulp.Prelude.Text.{Text, text_eq, is_empty}
use pulp.Prelude.Dict.{Dict, lookup, insert, delete}

pub record Identity : Type 0 where
  pub application_id : Text
  pub instance_id : Text

identity_dec : Discrete Identity
identity_dec = hlevel ℕ_discrete

instance unfoldable pub identity_eq : Eq Identity
unfolding identity_dec ℕ_discrete
identity_eq = record { dec = identity_dec }

-- `f[p] = v`
unfoldable pub set_at {ℓ} : {A : Type ℓ} → ℕ → A → (ℕ → A) → ℕ → A
set_at p v f q = if eqb q p then v else f q

-- `entries`, and of an entry `active` and the counter of `calls`; pointers from `next` on are not in use.
pub record Registry : Type 0 where
  pub entries : Dict Identity ℕ
  pub next : ℕ
  pub active : ℕ → Bool
  pub calls : ℕ → ℕ

unfoldable pub new_registry : Registry
new_registry = record { entries = []; next = 0; active = λ p. false; calls = λ p. 0 }

pub data CallError : Type 0 where
  denied unavailable invalid_route : CallError

-- `markReady`; the error names the target that is registered already.
unfoldable pub mark_ready : Identity → Registry → Result Identity Registry
unfolding set_at
mark_ready id r = elim (lookup id r.entries) [
  | some p ↦ err id
  | none ↦ ok (record {
    entries = insert id r.next r.entries;
    next = suc r.next;
    active = set_at r.next true r.active;
    calls = set_at r.next 0 r.calls;
  })
]

-- `markUnavailable` up to the unlocking of the registry: the entry that it found.
unfoldable pub revoke : Identity → Registry → Option ℕ × Registry
revoke id r = (lookup id r.entries, record r { entries = delete id r.entries })

-- The part of `markUnavailable` that locks the entry.
unfoldable pub deactivate : ℕ → Registry → Registry
unfolding set_at
deactivate p r = record r { active = set_at p false r.active }

-- `acquire`
unfoldable pub acquire : Identity → Registry → Result CallError (ℕ × Registry)
unfolding set_at
acquire id r = elim (lookup id r.entries) [
  | none ↦ err unavailable
  | some p ↦
      if r.active p
      then ok (p, record r { calls = set_at p (suc (r.calls p)) r.calls })
      else err unavailable
]

-- `calls.Done()`
unfoldable pub release : ℕ → Registry → Registry
unfolding set_at
release p r = record r { calls = set_at p (r.calls p - 1) r.calls }

pub record Caller : Type 0 where
  pub identity : Identity
  pub depends_on : List Text
  pub host_consumes : List Text

-- `validateCrossApplicationRoute`
unfoldable pub validate_route : Identity → Text → Text → Result CallError (Unit {0})
validate_route target cell provider =
    fail_if
      (is_empty target.application_id
        || is_empty target.instance_id
        || is_empty cell
        || is_empty provider)
      invalid_route

-- `allowsCrossApplicationCall`
unfoldable pub allows_call : Caller → Identity → Text → Bool
allows_call caller target provider =
    if caller.identity == target
      || (not (contains caller.host_consumes provider)
          && not (contains caller.host_consumes (target.application_id ++ b':' ∷ b':' ∷ provider)))
    then false
    else contains caller.depends_on target.application_id

-- `call` up to the invocation.
unfoldable pub open_call :
    Caller → Identity → Text → Text → Registry → Result CallError (ℕ × Registry)
unfolding validate_route allows_call acquire
open_call caller target cell provider r = do
  validate_route target cell provider
  fail_if (not (allows_call caller target provider)) denied
  acquire target r

-- What `callDeclaredProvider` reads of a cell's runtime.
pub record ProviderCell : Type 0 where
  pub failed : Bool
  pub loaded : Bool
  pub provides : List Text

-- `callDeclaredProvider` up to the call of the provider.
unfoldable pub declared_provider :
    Dict Text ProviderCell → Text → Text → Result CallError ProviderCell
declared_provider runtimes cell provider = do
  target ← or_fail (lookup cell runtimes) unavailable
  fail_if (target.failed || not target.loaded) unavailable
  fail_if (not (contains target.provides provider)) unavailable
  ok target
