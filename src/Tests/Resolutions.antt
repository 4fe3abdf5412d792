-- ===== src/Tests/Resolutions.antt =====
-- registry/resolve.go, `solve` and `Resolve`.
use pulp.Prelude.{◌≡◌, refl, [], ◌∷◌, List, some, ok, ◌==◌, if◌then◌else◌, arith}
use pulp.Prelude.Text.{Text, codes, text_eq, trim_space, split, contains_rune, compare_text}
use pulp.Prelude.Dict.{Dict, lookup, insert}
use pulp.Prelude.Sorting.{stable_sort}
use pulp.Prelude.Decimal.{parse_uint}
use pulp.Registry.Version.{
  Version, parse_version, compare_version, compare_pre, matches, has_leading_zero, cut_dash,
  check_pre, in_range,
}
use pulp.Registry.Store.{Digests, Manifest, Store}
use pulp.Registry.Resolve.{
  Chosen, first_unresolved, meets_all, constrain, add_dependencies, try_versions, solve,
}
use pulp.Registry.Resolve.Sound.{IsHonest, IsSolution, solve-IsSolution}

abbrev plain : Digests
plain = record {
  Digest = Text;
  Blob = Text;
  digest_eq = text_eq;
  sum = λ b. b;
  digest_string = λ d. d;
  parse_digest = λ s. some s;
}

abbrev old : Version
old = record { major = 1; minor = 2; patch = 0; pre = [] }

abbrev recent : Version
recent = record { major = 2; minor = 0; patch = 0; pre = [] }

-- Any release of web needs a core of the first line.
abbrev manifest_of : Text → Version → Manifest plain
manifest_of id v = record {
  id = id;
  version = v;
  dependencies =
      if id == codes "web"
      then record { id = codes "core"; requirement = codes "^1.0.0" } ∷ []
      else [];
  artifacts = record { target = codes "linux"; digest = id } ∷ [];
  canonical = id;
}

abbrev shelf : Store plain
shelf = record {
  versions = λ id. some (recent ∷ old ∷ []);
  manifest = λ id v. some (manifest_of id v);
  blob = λ d. some d;
}

shelf-IsHonest : IsHonest plain shelf
shelf-IsHonest id v m e = ground arith

abbrev wanted : Dict Text (List Text)
wanted = (codes "web", codes "*" ∷ []) ∷ []

abbrev chosen : Chosen plain
chosen =
    (codes "web", manifest_of (codes "web") recent)
    ∷ (codes "core", manifest_of (codes "core") old)
    ∷ []

solved : solve plain 4 shelf wanted [] ≡ ok chosen
unfolding solve first_unresolved meets_all constrain add_dependencies try_versions lookup insert
    stable_sort text_eq compare_text matches parse_version compare_version compare_pre in_range
    has_leading_zero cut_dash check_pre parse_uint trim_space split contains_rune
solved = refl

solve-IsSolution_example : IsSolution plain wanted [] chosen
solve-IsSolution_example = solve-IsSolution plain 4 shelf wanted [] chosen shelf-IsHonest solved
