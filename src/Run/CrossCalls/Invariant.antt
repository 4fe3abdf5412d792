-- ===== src/Run/CrossCalls/Invariant.antt =====
-- run/cross_application.go: what holds in every state of the registry.
use pulp.Prelude.{
  ℕ, suc, ◌≤◌, ◌<◌, ◌≡◌, refl, inl, inr, true, List, [], ◌∷◌, ◌++◌, none, some, ok, arith, eqb,
  if◌then◌else◌, Option-cases, Bool-cases,
}
use pulp.Prelude.Dict.{lookup, insert, delete, lookup-insert, lookup-delete}
use pulp.Run.CrossCalls.{
  Identity, identity_eq, set_at, Registry, mark_ready, revoke, deactivate, acquire, release,
}
use pulp.Run.CrossCalls.Steps.{
  staying, revoked, joining, left, System, new_system, Step, ready, withdraw, close, join, enter,
  done, Reach, here, next,
}

-- The calls that run at an entry.
abbrev pub count : ℕ → List ℕ → ℕ
count p [] = 0
count p (q ∷ rest) = if eqb q p then suc (count p rest) else count p rest

pub count-middle :
    (p q : ℕ) (before after : List ℕ)
    → count p (before ++ q ∷ after)
      ≡ (if eqb q p then suc (count p (before ++ after)) else count p (before ++ after))
count-middle p q [] after = refl
count-middle p q (x ∷ before) after = ground (arith, count-middle p q before after)

-- A registered entry is active and has not been withdrawn; an identity has one of its own; the counter
-- of an entry is the number of calls that run at it; a pointer that is not in use has none, and so has
-- an entry whose withdrawal has returned.
pub record Inv (s : System) : Type 0 where
  pub live :
      (id : Identity) (p : ℕ)
      → lookup id s.registry.entries ≡ some p
      → (p < s.registry.next) × (s.registry.active p ≡ true) × (s.phase p ≡ staying)
  pub own :
      (i j : Identity) (p : ℕ)
      → lookup i s.registry.entries ≡ some p
      → lookup j s.registry.entries ≡ some p
      → i ≡ j
  pub counted : (p : ℕ) → s.registry.calls p ≡ count p s.running
  pub fresh : (p : ℕ) → s.registry.next ≤ p → (count p s.running ≡ 0) × (s.phase p ≡ staying)
  pub drained : (p : ℕ) → s.phase p ≡ left → s.registry.calls p ≡ 0

new_system-Inv : Inv new_system
unfolding new_system lookup
new_system-Inv = record {
  live = λ id p h. absurd cc;
  own = λ i j p h k. absurd cc;
  counted = λ p. refl;
  fresh = λ p h. (refl, refl);
  drained = λ p h. absurd cc;
}

mark_ready_ok :
    (id : Identity) (r r' : Registry)
    → mark_ready id r ≡ ok r'
    → (lookup id r.entries ≡ none)
      × (r' ≡ record {
        entries = insert id r.next r.entries;
        next = suc r.next;
        active = set_at r.next true r.active;
        calls = set_at r.next 0 r.calls;
      })
unfolding mark_ready
mark_ready_ok id r r' h = elim (Option-cases (lookup id r.entries)) [
  | inl e ↦ (e, ground arith)
  | inr (p, e) ↦ absurd (ground arith)
]

pub revoke-some :
    (id : Identity) (r r' : Registry) (p : ℕ)
    → revoke id r ≡ (some p, r')
    → (lookup id r.entries ≡ some p) × (r' ≡ record r { entries = delete id r.entries })
unfolding revoke
revoke-some id r r' p h = (ground arith, ground arith)

pub acquire_ok :
    (id : Identity) (r r' : Registry) (p : ℕ)
    → acquire id r ≡ ok (p, r')
    → (lookup id r.entries ≡ some p)
      × (r.active p ≡ true)
      × (r' ≡ record r { calls = set_at p (suc (r.calls p)) r.calls })
unfolding acquire
acquire_ok id r r' p h = elim (Option-cases (lookup id r.entries)) [
  | inl e ↦ absurd (ground arith)
  | inr (q, e) ↦ elim (Bool-cases (r.active q)) [
    | inl a ↦ (ground arith, ground arith, ground arith)
    | inr a ↦ absurd (ground arith)
  ]
]

module _ (s : System) (inv : Inv s) where
  ready-Inv :
      (id : Identity) (r : Registry)
      → mark_ready id s.registry ≡ ok r
      → Inv (record s { registry = r })
  unfolding set_at
  ready-Inv id r h =
      let (unknown, e) = mark_ready_ok id s.registry r h in
      rw e (record {
        live = λ i p l. ground (
          arith,
          inv.live i p,
          inv.fresh p,
          lookup-insert i id s.registry.next s.registry.entries,
        );
        own = λ i j p l m. ground (
          arith,
          inv.own i j p,
          inv.live i p,
          inv.live j p,
          lookup-insert i id s.registry.next s.registry.entries,
          lookup-insert j id s.registry.next s.registry.entries,
        );
        counted = λ p. ground (arith, inv.counted p, inv.fresh p);
        fresh = λ p l. ground (arith, inv.fresh p);
        drained = λ p l. ground (arith, inv.drained p);
      })

  withdraw-Inv :
      (id : Identity) (p : ℕ) (r : Registry)
      → revoke id s.registry ≡ (some p, r)
      → Inv (record s { registry = r; phase = set_at p revoked s.phase })
  unfolding set_at revoke
  withdraw-Inv id p r h =
      let (known, e) = revoke-some id s.registry r p h in
      rw e (record {
        live = λ i q l.
            ground (arith, lookup-delete i id s.registry.entries, inv.live i q, inv.own i id p);
        own = λ i j q l m. ground (
          arith,
          inv.own i j q,
          lookup-delete i id s.registry.entries,
          lookup-delete j id s.registry.entries,
        );
        counted = inv.counted;
        fresh = λ q l. ground (arith, inv.fresh q, inv.live id p known);
        drained = λ q l. ground (arith, inv.drained q);
      })

  close-Inv :
      (p : ℕ)
      → s.phase p ≡ revoked
      → Inv (record s { registry = deactivate p s.registry; phase = set_at p joining s.phase })
  unfolding set_at deactivate
  close-Inv p h = record {
    live = λ i q l. ground (arith, inv.live i q);
    own = inv.own;
    counted = inv.counted;
    fresh = λ q l. ground (arith, inv.fresh q);
    drained = λ q l. ground (arith, inv.drained q);
  }

  join-Inv :
      (p : ℕ)
      → s.phase p ≡ joining
      → s.registry.calls p ≡ 0
      → Inv (record s { phase = set_at p left s.phase })
  unfolding set_at
  join-Inv p h z = record {
    live = λ i q l. ground (arith, inv.live i q);
    own = inv.own;
    counted = inv.counted;
    fresh = λ q l. ground (arith, inv.fresh q);
    drained = λ q l. ground (arith, inv.drained q);
  }

  enter-Inv :
      (id : Identity) (p : ℕ) (r : Registry)
      → acquire id s.registry ≡ ok (p, r)
      → Inv (record s { registry = r; running = p ∷ s.running })
  unfolding set_at
  enter-Inv id p r h =
      let (known, active, e) = acquire_ok id s.registry r p h in
      let (used, _, stays) = inv.live id p known in
      rw e (record {
        live = inv.live;
        own = inv.own;
        counted = λ q. ground (arith, inv.counted q);
        fresh = λ q l. ground (arith, inv.fresh q);
        drained = λ q l. ground (arith, inv.drained q);
      })

  done-Inv :
      (p : ℕ) (before after : List ℕ)
      → s.running ≡ before ++ p ∷ after
      → Inv (record s { registry = release p s.registry; running = before ++ after })
  unfolding set_at release
  done-Inv p before after h = record {
    live = inv.live;
    own = inv.own;
    counted = λ q. ground (arith, inv.counted q, count-middle q p before after);
    fresh = λ q l. ground (arith, inv.fresh q, count-middle q p before after);
    drained = λ q l. ground (arith, inv.drained q);
  }

pub Step-Inv : {s t : System} → Step s t → Inv s → Inv t
Step-Inv {s} (ready id r h) inv = ready-Inv s inv id r h
Step-Inv {s} (withdraw id p r h) inv = withdraw-Inv s inv id p r h
Step-Inv {s} (close p h) inv = close-Inv s inv p h
Step-Inv {s} (join p h z) inv = join-Inv s inv p h z
Step-Inv {s} (enter id p r h) inv = enter-Inv s inv id p r h
Step-Inv {s} (done p before after h) inv = done-Inv s inv p before after h

pub Reach-Inv : {s : System} → Reach new_system s → Inv s
Reach-Inv here = new_system-Inv
Reach-Inv (next r st) = Step-Inv st (Reach-Inv r)
