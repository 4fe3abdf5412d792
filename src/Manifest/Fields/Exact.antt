-- ===== src/Manifest/Fields/Exact.antt =====
-- What the helpers on single fields return.
use pulp.Prelude.{
  ℕ, suc, ◌≤◌, ◌≡◌, false, not, ◌&&◌, ◌||◌, List, [], ◌∷◌, ok, ◌>>◌, ◌==◌, contains, ltb, arith,
  All, fail_if-passed, >>=_ok, ==_true, subst, ap,
}
use pulp.Prelude.Sets.{Distinct, All-fresh}
use pulp.Prelude.Text.{Text, text_eq, trim_space, is_empty}
use pulp.Manifest.Fields.{
  dedupe, dedupe_from, has_space, count_qualifiers, bad_application, check_provider,
  check_providers, normalize_host_consumes,
}

dedupe_from-contains :
    (seen xs : List Text) (a : Text)
    → contains (dedupe_from seen xs) a
      ≡ (contains xs a && not (is_empty a) && not (contains seen a))
unfolding dedupe_from
dedupe_from-contains seen [] a = ground arith
dedupe_from-contains seen (s ∷ rest) a =
    ground (arith, dedupe_from-contains seen rest a, dedupe_from-contains (s ∷ seen) rest a)

-- The texts that are not empty are kept.
pub dedupe-contains :
    (xs : List Text) (a : Text) → contains (dedupe xs) a ≡ (contains xs a && not (is_empty a))
unfolding dedupe
dedupe-contains xs a = ground (arith, dedupe_from-contains [] xs a)

dedupe_from-Distinct : (seen xs : List Text) → Distinct (dedupe_from seen xs)
unfolding dedupe_from
dedupe_from-Distinct seen [] = tt
dedupe_from-Distinct seen (s ∷ rest) = ground (
  arith,
  dedupe_from-contains (s ∷ seen) rest s,
  dedupe_from-Distinct seen rest,
  dedupe_from-Distinct (s ∷ seen) rest,
)

pub dedupe-Distinct : (xs : List Text) → Distinct (dedupe xs)
unfolding dedupe
dedupe-Distinct xs = dedupe_from-Distinct [] xs

-- A provider that a host may be asked for: no space in it, and at most one application before it.
pub record IsExact (value : Text) : Type 0 where
  pub trimmed : trim_space value ≡ value
  pub some_text : is_empty value ≡ false
  pub no_space : has_space value ≡ false
  pub one_qualifier : count_qualifiers value ≤ 1
  pub application : bad_application value ≡ false

tests-IsExact :
    (value : Text)
    → (not (trim_space value == value) || has_space (trim_space value)) ≡ false
    → is_empty (trim_space value) ≡ false
    → ltb 1 (count_qualifiers (trim_space value)) ≡ false
    → bad_application (trim_space value) ≡ false
    → IsExact value
tests-IsExact value plain some_text one application =
    let e = ==_true (trim_space value) value (ground arith) in
    record {
      trimmed = e;
      some_text = ground arith;
      no_space = ground arith;
      one_qualifier = ground arith;
      application = ground arith;
    }

check_provider-passed :
    (index : ℕ) (seen : List Text) (value : Text)
    → check_provider index seen value (trim_space value) ≡ ok tt
    → IsExact value × (contains seen (trim_space value) ≡ false)
unfolding check_provider
check_provider-passed index seen value h =
    let (some_text, h1) = fail_if-passed {0, 0} _ _ _ tt h in
    let (plain, h2) = fail_if-passed {0, 0} _ _ _ tt h1 in
    let (one, h3) = fail_if-passed {0, 0} _ _ _ tt h2 in
    let (application, h4) = fail_if-passed {0, 0} _ _ _ tt h3 in
    let (fresh, _) = fail_if-passed {0, 0} _ _ (ok tt) tt (ap (λ m. m >> ok tt) h4) in
    (tests-IsExact value plain some_text one application, fresh)

check_providers-kept :
    (index : ℕ) (seen values out : List Text)
    → check_providers index seen values ≡ ok out
    → (out ≡ values)
      × Distinct values
      × All IsExact values
      × All (λ v. contains seen v ≡ false) values
unfolding check_providers
check_providers-kept index seen [] out h = ground arith
check_providers-kept index seen (v ∷ rest) out h =
    let (u, tested, h1) = >>=_ok _ _ _ h in
    let (out', done, e) = >>=_ok _ _ _ h1 in
    let (exact, fresh) = check_provider-passed index seen v tested in
    let (same, distinct, exacts, unseen) =
      check_providers-kept (suc index) (trim_space v ∷ seen) rest out' done in
    let trimmed = exact.trimmed in
    let unseen' =
      All-fresh v seen rest
        (subst (λ t. All (λ v'. contains (t ∷ seen) v' ≡ false) rest) trimmed unseen) in
    (cc, (unseen'.0, distinct), (exact, exacts), (cc, unseen'.1))

pub normalize_host_consumes-kept :
    (values out : List Text)
    → normalize_host_consumes values ≡ ok out
    → (out ≡ values) × Distinct values × All IsExact values
unfolding normalize_host_consumes
normalize_host_consumes-kept values out h =
    let (same, distinct, exacts, _) = check_providers-kept 0 [] values out h in
    (same, distinct, exacts)
