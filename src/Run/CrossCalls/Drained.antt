-- ===== src/Run/CrossCalls/Drained.antt =====
-- run/cross_application.go: withdrawals end, and then no call runs.
use pulp.Prelude.{
  ℕ, zero, suc, ◌≤◌, ◌≡◌, ◌≢◌, refl, ◌∙◌, ◌⊎◌, inl, inr, false, List, [], ◌∷◌, ◌++◌, ok, arith, eqb,
  Bool-cases, contains, nat_eq,
}
use pulp.Run.CrossCalls.{Identity, set_at, Registry, deactivate, acquire, release}
use pulp.Run.CrossCalls.Steps.{
  revoked, joining, left, System, new_system, Step, ready, withdraw, close, join, enter, done,
  Reach, here, next,
}
use pulp.Run.CrossCalls.Invariant.{
  Inv, Reach-Inv, count, count-middle, acquire_ok, revoke-some, Step-Inv,
}

contains-count : (p : ℕ) (xs : List ℕ) → count p xs ≡ 0 → contains xs p ≡ false
contains-count p [] h = refl
contains-count p (x ∷ xs) h = ground (arith, contains-count p xs)

-- A withdrawal that has returned stays so: its entry is not found again.
left_kept : {s t : System} → Inv s → Step s t → (p : ℕ) → s.phase p ≡ left → t.phase p ≡ left
unfolding set_at
left_kept inv (ready id r h) p l = l
left_kept {s} inv (withdraw id q r h) p l =
    let (known, _) = revoke-some id s.registry r q h in ground (arith, inv.live id q known)
left_kept inv (close q h) p l = ground arith
left_kept inv (join q h z) p l = ground arith
left_kept inv (enter id q r h) p l = l
left_kept inv (done q before after h) p l = l

Reach-left :
    {s t : System} → Inv s → Reach s t → (p : ℕ) → s.phase p ≡ left → Inv t × (t.phase p ≡ left)
Reach-left inv here p l = (inv, l)
Reach-left inv (next r st) p l =
    let (inv', l') = Reach-left inv r p l in (Step-Inv st inv', left_kept inv' st p l')

-- When the withdrawal of an application has returned, then from there on no call runs at its entry, and
-- none can enter it.
pub left-drained :
    {s t : System}
    → Reach new_system s
    → Reach s t
    → (p : ℕ) → s.phase p ≡ left
    → (contains t.running p ≡ false)
      × ((id : Identity) (r : Registry) → acquire id t.registry ≢ ok (p, r))
left-drained {t} before later p h =
    let (inv, l) = Reach-left (Reach-Inv before) later p h in
    (
      contains-count p t.running (ground (arith, inv.counted p, inv.drained p)),
      λ id r e. ground (arith, inv.live id p (acquire_ok id t.registry r p e).0),
    )

-- A call of an entry that has one.
find_call :
    (p : ℕ) (xs : List ℕ)
    → 1 ≤ count p xs
    → (before : List ℕ) × (after : List ℕ) × (xs ≡ before ++ p ∷ after)
find_call p [] h = absurd (omega (arith, h))
find_call p (x ∷ xs) h = elim (Bool-cases (eqb x p)) [
  | inl e ↦ ([], xs, ground arith)
  | inr e ↦
      let (before, after, f) = find_call p xs (ground arith) in (x ∷ before, after, ground arith)
]

-- The calls at an entry that is closed can return, one after the other.
calls_return :
    (n : ℕ) {s u : System} (p : ℕ)
    → Reach s u
    → Inv u
    → count p u.running ≡ n
    → u.phase p ≡ joining
    → (t : System) × Reach s t
      × Inv t
      × (count p t.running ≡ 0)
      × (t.phase p ≡ joining)
      × (t.registry.entries ≡ u.registry.entries)
unfolding release
calls_return zero {u} p r inv c j = (u, r, inv, c, j, refl)
calls_return (suc n) {u} p r inv c j =
    let (before, after, e) = find_call p u.running (omega (arith, c)) in
    let st = done p before after e in
    calls_return n p (next r st) (Step-Inv st inv) (ground (arith, count-middle p p before after)) j

close_and_join :
    {s u : System} (p : ℕ)
    → Reach s u
    → Inv u
    → u.phase p ≡ joining
    → (t : System) × Reach s t × (t.phase p ≡ left) × (t.registry.entries ≡ u.registry.entries)
unfolding set_at
close_and_join {u} p r inv j =
    let (t, r', inv', none_left, j', same) = calls_return (count p u.running) p r inv refl j in
    (
      record t { phase = set_at p left t.phase },
      next r' (join p j' (inv'.counted p ∙ none_left)),
      ground arith,
      same,
    )

-- A withdrawal that has begun can end, whatever calls run: they return, and nothing is registered or
-- withdrawn for it.
pub withdrawal_ends :
    {s : System}
    → Reach new_system s
    → (p : ℕ) → (s.phase p ≡ revoked) ⊎ (s.phase p ≡ joining)
    → (t : System) × Reach s t × (t.phase p ≡ left) × (t.registry.entries ≡ s.registry.entries)
unfolding set_at deactivate
withdrawal_ends reach p (inr j) = close_and_join p here (Reach-Inv reach) j
withdrawal_ends {s} reach p (inl h) =
    let st = close p h in
    close_and_join p (next here st) (Step-Inv st (Reach-Inv reach)) (ground arith)
