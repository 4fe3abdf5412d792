-- ===== src/Manifest/Placements/Instances.antt =====
-- internal/manifest/app.go, `placementInstances`.
use pulp.Prelude.{
  ℕ, ◌≤◌, sym, suc, ◌≡◌, refl, false, List, [], ◌∷◌, Option, none, some, ok, fail_if, ◌>>◌,
  if◌then◌else◌, contains, arith, All, fail_if-passed, >>=_ok, ok_eq, length,
}
use pulp.Prelude.Sets.{Distinct, All-fresh}
use pulp.Prelude.Text.{Text, text_eq, trim_space, is_empty, contains_rune}
use pulp.Manifest.Placements.{
  RawPlacement, no_instances, counted, check_instances, placement_instances,
}

-- The steps of the last loop on one name.
check_instances_steps :
    (index : ℕ) (seen rest out : List Text) (r : Text)
    → check_instances index seen (r ∷ rest) ≡ ok out
    → (contains_rune b'@' (trim_space r) ≡ false)
      × (contains seen (trim_space r) ≡ false)
      × (more : List Text) × (check_instances (suc index) (trim_space r ∷ seen) rest ≡ ok more)
      × (out ≡ trim_space r ∷ more)
unfolding check_instances
check_instances_steps index seen rest out r h =
    let (some_text, h1) = fail_if-passed _ _ _ out h in
    let (no_at, h2) = fail_if-passed _ _ _ out h1 in
    let (unseen, h3) = fail_if-passed _ _ _ out h2 in
    let (more, done, e) = >>=_ok _ _ out h3 in (no_at, unseen, more, done, ok_eq _ _ _ e refl)

-- A name without the sign that joins it to an instance.
abbrev pub IsPlain : Text → Type 0
IsPlain i = contains_rune b'@' i ≡ false

check_instances-Distinct :
    (index : ℕ) (seen raw out : List Text)
    → check_instances index seen raw ≡ ok out
    → Distinct out
      × All (λ i. contains seen i ≡ false) out
      × All IsPlain out
      × (length out ≡ length raw)
unfolding check_instances
check_instances-Distinct index seen [] out h = ground arith
check_instances-Distinct index seen (r ∷ rest) out h =
    let (no_at, unseen, more, done, e) = check_instances_steps index seen rest out r h in
    let (distinct, fresh, plain, size) =
      check_instances-Distinct (suc index) (trim_space r ∷ seen) rest more done in
    let (new, fresh') = All-fresh (trim_space r) seen more fresh in
    rw e ((new, distinct), (unseen, fresh'), (no_at, plain), omega (arith, size))

-- The instances of one cell: some, all different, and none with an `@`.
pub record AreInstances (instances : List Text) : Type 0 where
  pub some_instance : 1 ≤ length instances
  pub distinct : Distinct instances
  pub plain : All IsPlain instances

some_length : (xs : List Text) → is_empty xs ≡ false → 1 ≤ length xs
some_length [] h = absurd cc
some_length (x ∷ xs) h = omega arith

placement_instances_steps :
    {Other : Type 0} (p : RawPlacement Other) (instances : List Text)
    → placement_instances (some p) ≡ ok instances
    → (names : List Text) × (is_empty names ≡ false) × (check_instances 0 [] names ≡ ok instances)
unfolding placement_instances
placement_instances_steps p instances h =
    let (names, _, h1) =
      >>=_ok (counted p.count (if is_empty p.instances then p.aliases else p.instances))
        (λ names. fail_if (is_empty names) no_instances >> check_instances 0 [] names) instances
        h in
    let (some_names, checked) = fail_if-passed _ _ _ instances h1 in (names, some_names, checked)

pub placement_instances-AreInstances :
    {Other : Type 0} (p : Option (RawPlacement Other)) (instances : List Text)
    → placement_instances p ≡ ok instances
    → AreInstances instances
unfolding placement_instances contains_rune
placement_instances-AreInstances none instances h =
    rw (sym (ok_eq _ instances _ refl h))
      (record { some_instance = omega arith; distinct = (refl, tt); plain = (refl, tt) })
placement_instances-AreInstances (some p) instances h =
    let (names, some_names, checked) = placement_instances_steps p instances h in
    let (distinct, _, plain, size) = check_instances-Distinct 0 [] names instances checked in
    record {
      some_instance = omega (arith, size, some_length names some_names);
      distinct = distinct;
      plain = plain;
    }
