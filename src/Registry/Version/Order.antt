-- ===== src/Registry/Version/Order.antt =====
-- registry/model.go, `Version.Compare`.
use pulp.Prelude.{◌≡◌, refl, ◌↔◌, List, [], ◌∷◌, arith, Ordering, ◌≢◌}
use pulp.Prelude.Text.{Text, text_eq, compare_text, split}
use pulp.Registry.Version.{
  Version, compare_identifier, compare_identifiers, compare_pre, compare_version,
}

compare_text-eq : (s t : Text) → compare_text s t ≡ Ordering.eq → s ≡ t
unfolding compare_text
compare_text-eq [] [] h = refl
compare_text-eq [] (d ∷ t) h = absurd (ground arith)
compare_text-eq (c ∷ s) [] h = absurd (ground arith)
compare_text-eq (c ∷ s) (d ∷ t) h = ground (arith, compare_text-eq s t)

compare_identifier-ne : (a b : Text) → a ≢ b → compare_identifier a b ≢ Ordering.eq
unfolding compare_identifier
compare_identifier-ne a b h e = ground (arith, compare_text-eq a b)

-- The loop never finds two prereleases equal.
compare_identifiers-ne : (many bs : List Text) → compare_identifiers many bs ≢ Ordering.eq
unfolding compare_identifiers
compare_identifiers-ne [] [] e = ground arith
compare_identifiers-ne [] (b ∷ bs) e = ground arith
compare_identifiers-ne (a ∷ more) [] e = ground arith
compare_identifiers-ne (a ∷ more) (b ∷ bs) e =
    ground (arith, compare_identifiers-ne more bs, compare_identifier-ne a b)

-- Two versions compare as equal exactly when they are the same.
pub compare_version-eq_iff : (v w : Version) → (compare_version v w ≡ Ordering.eq) ↔ (v ≡ w)
unfolding compare_version compare_pre
compare_version-eq_iff v w =
    ground (arith, compare_identifiers-ne (split b'.' v.pre) (split b'.' w.pre))
