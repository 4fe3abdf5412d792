-- ===== src/Tests/Locks.antt =====
-- registry/resolve.go.
use pulp.Prelude.{◌≡◌, refl, [], ◌∷◌, All, none, some, ok, ◌==◌, if◌then◌else◌}
use pulp.Prelude.Text.{
  Text, codes, text_eq, trim_space, split, contains_rune, byte_len, compare_text,
}
use pulp.Prelude.Dict.{Dict, lookup, insert}
use pulp.Prelude.Decimal.{parse_uint}
use pulp.Registry.Version.{
  Version, parse_version, compare_version, compare_pre, matches, has_leading_zero, cut_dash,
  check_pre, in_range,
}
use pulp.Registry.Store.{
  Digests, Manifest, Store, Lock, LockedModule, parse_module_id, valid_requirement,
}
use pulp.Registry.Verify.{lock_modules, check_roots, check_modules, is_met, verify}
use pulp.Registry.Verify.Sound.{IsTable, IsLocked, IsStored, verify-IsStored}

-- Contents that are their own digests.
abbrev plain : Digests
plain = record {
  Digest = Text;
  Blob = Text;
  digest_eq = text_eq;
  sum = λ b. b;
  digest_string = λ d. d;
  parse_digest = λ s. some s;
}

abbrev one : Version
one = record { major = 1; minor = 2; patch = 0; pre = [] }

abbrev web : Manifest plain
web = record {
  id = codes "web";
  version = one;
  dependencies = record { id = codes "core"; requirement = codes "^1.0.0" } ∷ [];
  artifacts = record { target = codes "linux"; digest = codes "w" } ∷ [];
  canonical = codes "web@1.2.0";
}

abbrev core : Manifest plain
core = record {
  id = codes "core";
  version = one;
  dependencies = [];
  artifacts = record { target = codes "linux"; digest = codes "c" } ∷ [];
  canonical = codes "core@1.2.0";
}

abbrev shelf : Store plain
shelf = record {
  versions = λ id. some (one ∷ []);
  manifest = λ id v.
      if id == codes "web" then some web else if id == codes "core" then some core else none;
  blob = λ d. some d;
}

abbrev locked_core : LockedModule
locked_core = record {
  id = codes "core";
  version = codes "1.2.0";
  manifest_digest = codes "core@1.2.0";
  artifact_digest = codes "c";
  dependencies = [];
}

abbrev lock : Lock
lock = record {
  schema_version = 1;
  target = codes "linux";
  roots = record { id = codes "web"; requirement = codes "~1.2.0" } ∷ [];
  modules =
      locked_core
      ∷ record {
        id = codes "web";
        version = codes "1.2.0";
        manifest_digest = codes "web@1.2.0";
        artifact_digest = codes "w";
        dependencies = record { id = codes "core"; version = codes "1.2.0" } ∷ [];
      }
      ∷ [];
}

verified : verify plain shelf lock ≡ ok tt
unfolding verify lock_modules check_roots check_modules is_met parse_module_id valid_requirement
    parse_version matches compare_version compare_pre in_range has_leading_zero cut_dash check_pre
    parse_uint lookup insert trim_space split contains_rune byte_len text_eq compare_text
verified = refl

verify-IsStored_example :
    (locked : Dict Text LockedModule) × IsTable lock.modules locked
    × All (IsLocked locked) lock.roots
    × All (IsStored plain shelf lock.target locked) lock.modules
verify-IsStored_example = verify-IsStored plain shelf lock verified
