-- ===== src/Registry/Verify/Sound.antt =====
-- registry/resolve.go, `Verify`: what a verified lock is.
use pulp.Prelude.{
  ◌≡◌, refl, true, List, [], ◌∷◌, Option, none, some, ok, arith, All, In, ◌⊎◌, any, Result-cases,
  Bool-cases, Option-cases, inl, inr,
}
use pulp.Prelude.Text.{Text, text_eq}
use pulp.Prelude.Dict.{Dict, lookup, insert, lookup-insert}
use pulp.Registry.Version.{Version, parse_version, matches}
use pulp.Registry.Store.{
  Artifact, Dependency, Digests, Manifest, Store, LockedDependency, LockedModule, Lock,
}
use pulp.Registry.Verify.{
  lock_modules, has_module, is_met, check_root, check_roots, check_dependency, check_dependencies,
  is_target, same_digest, check_artifact, check_manifest, check_module, check_modules, verify,
}

-- A module is locked under a name at a version that meets a requirement.
abbrev pub IsLocked : Dict Text LockedModule → Dependency → Type 0
IsLocked locked dep =
    (lm : LockedModule) × (v : Version) × (lookup dep.id locked ≡ some lm)
    × (parse_version lm.version ≡ ok v)
    × (matches dep.requirement v ≡ true)

is_met-ok :
    (requirement version : Text)
    → is_met requirement version ≡ true
    → (v : Version) × (parse_version version ≡ ok v) × (matches requirement v ≡ true)
unfolding is_met
is_met-ok requirement version h = elim (Result-cases (parse_version version)) [
  | inl (v, e) ↦ (v, e, ground arith)
  | inr (x, e) ↦ absurd (ground arith)
]

check_root-IsLocked :
    (locked : Dict Text LockedModule) (root : Dependency)
    → check_root locked root ≡ ok tt
    → IsLocked locked root
unfolding check_root
check_root-IsLocked locked root h = elim (Option-cases (lookup root.id locked)) [
  | inl e ↦ absurd (ground arith)
  | inr (lm, e) ↦
      let (v, p, m) = is_met-ok root.requirement lm.version (ground arith) in (lm, v, e, p, m)
]

check_roots-IsLocked :
    (locked : Dict Text LockedModule) (roots : List Dependency)
    → check_roots locked roots ≡ ok tt
    → All (IsLocked locked) roots
unfolding check_roots
check_roots-IsLocked locked [] h = tt
check_roots-IsLocked locked (root ∷ roots) h = elim (Result-cases (check_root locked root)) [
  | inl (u, e) ↦
      (check_root-IsLocked locked root e, check_roots-IsLocked locked roots (ground arith))
  | inr (x, e) ↦ absurd (ground arith)
]

check_dependency-IsLocked :
    (name : Text) (locked : Dict Text LockedModule) (dep : Dependency) (got : LockedDependency)
    → check_dependency name locked dep got ≡ ok tt
    → IsLocked locked dep
unfolding check_dependency
check_dependency-IsLocked name locked dep got h = elim (Option-cases (lookup dep.id locked)) [
  | inl e ↦ absurd (ground arith)
  | inr (lm, e) ↦
      let (v, p, m) = is_met-ok dep.requirement lm.version (ground arith) in (lm, v, e, p, m)
]

check_dependencies-IsLocked :
    (name : Text) (locked : Dict Text LockedModule) (deps : List Dependency)
    (gots : List LockedDependency)
    → check_dependencies name locked deps gots ≡ ok tt
    → All (IsLocked locked) deps
unfolding check_dependencies
check_dependencies-IsLocked name locked [] gots h = tt
check_dependencies-IsLocked name locked (dep ∷ deps) [] h = absurd (ground arith)
check_dependencies-IsLocked name locked (dep ∷ deps) (got ∷ gots) h =
    elim (Result-cases (check_dependency name locked dep got)) [
      | inl (u, e) ↦ (
        check_dependency-IsLocked name locked dep got e,
        check_dependencies-IsLocked name locked deps gots (ground arith),
      )
      | inr (x, e) ↦ absurd (ground arith)
    ]

module _ (D : Digests) (s : Store D) (target : Text) (locked : Dict Text LockedModule) where
  same_digest-eq : (a b : D.Digest) → same_digest D a b ≡ true → a ≡ b
  same_digest-eq a b h = ground arith

  -- One of the artifacts is for the target and has the digest.
  abbrev pub HasArtifact : D.Digest → List (Artifact D) → Type 0
  HasArtifact d [] = ⊥
  HasArtifact d (a ∷ rest) = ((a.target ≡ target) × (a.digest ≡ d)) ⊎ HasArtifact d rest

  is_target-HasArtifact :
      (d : D.Digest) (artifacts : List (Artifact D))
      → any (is_target D target d) artifacts ≡ true
      → HasArtifact d artifacts
  unfolding is_target
  is_target-HasArtifact d [] h = absurd (ground arith)
  is_target-HasArtifact d (a ∷ rest) h = elim (Bool-cases (is_target D target d a)) [
    | inl e ↦ inl (ground (arith, same_digest-eq a.digest d))
    | inr e ↦ inr (is_target-HasArtifact d rest (ground arith))
  ]

  -- The store has a locked module: its manifest with the locked digest, whose dependencies are
  -- locked, and its artifact for the target, whose content has the locked digest.
  abbrev pub IsStored : LockedModule → Type 0
  IsStored lm =
      (v : Version) × (m : Manifest D) × (d : D.Digest) × (b : D.Blob) × (parse_version lm.version
        ≡ ok v)
      × (s.manifest lm.id v ≡ some m)
      × (D.digest_string (D.sum m.canonical) ≡ lm.manifest_digest)
      × All (IsLocked locked) m.dependencies
      × (D.parse_digest lm.artifact_digest ≡ some d)
      × HasArtifact d m.artifacts
      × (s.blob d ≡ some b)
      × (D.sum b ≡ d)

  check_artifact-ok :
      (lm : LockedModule) (m : Manifest D)
      → check_artifact D s target lm m ≡ ok tt
      → (d : D.Digest) × (b : D.Blob) × (D.parse_digest lm.artifact_digest ≡ some d)
        × HasArtifact d m.artifacts
        × (s.blob d ≡ some b)
        × (D.sum b ≡ d)
  unfolding check_artifact
  check_artifact-ok lm m h = elim (Option-cases (D.parse_digest lm.artifact_digest)) [
    | inl e ↦ absurd (ground arith)
    | inr (d, e) ↦ elim (Option-cases (s.blob d)) [
      | inl f ↦ absurd (ground arith)
      | inr (b, f) ↦ (
        d,
        b,
        e,
        is_target-HasArtifact d m.artifacts (ground arith),
        f,
        same_digest-eq (D.sum b) d (ground arith),
      )
    ]
  ]

  check_manifest-ok :
      (lm : LockedModule) (m : Manifest D)
      → check_manifest D s target locked lm m ≡ ok tt
      → (D.digest_string (D.sum m.canonical) ≡ lm.manifest_digest)
        × (check_dependencies lm.id locked m.dependencies lm.dependencies ≡ ok tt)
        × (check_artifact D s target lm m ≡ ok tt)
  unfolding check_manifest
  check_manifest-ok lm m h =
      elim (Result-cases (check_dependencies lm.id locked m.dependencies lm.dependencies)) [
        | inr (y, g) ↦ absurd (ground arith)
        | inl (u, g) ↦ (ground arith, g, ground arith)
      ]

  check_module-IsStored :
      (lm : LockedModule) → check_module D s target locked lm ≡ ok tt → IsStored lm
  unfolding check_module
  check_module-IsStored lm h = elim (Result-cases (parse_version lm.version)) [
    | inr (x, e) ↦ absurd (ground arith)
    | inl (v, e) ↦ elim (Option-cases (s.manifest lm.id v)) [
      | inl f ↦ absurd (ground arith)
      | inr (m, f) ↦
          let (digest, deps, artifact) = check_manifest-ok lm m (ground arith) in
          let (d, b, parsed, found, read, same) = check_artifact-ok lm m artifact in
          (
            v,
            m,
            d,
            b,
            e,
            f,
            digest,
            check_dependencies-IsLocked lm.id locked m.dependencies lm.dependencies deps,
            parsed,
            found,
            read,
            same,
          )
    ]
  ]

  check_modules-IsStored :
      (lms : List LockedModule) → check_modules D s target locked lms ≡ ok tt → All IsStored lms
  unfolding check_modules
  check_modules-IsStored [] h = tt
  check_modules-IsStored (lm ∷ lms) h = elim (Result-cases (check_module D s target locked lm)) [
    | inl (u, e) ↦ (check_module-IsStored lm e, check_modules-IsStored lms (ground arith))
    | inr (x, e) ↦ absurd (ground arith)
  ]

-- A table of locked modules has exactly the modules of a list, each under its name.
abbrev pub IsTable : List LockedModule → Dict Text LockedModule → Type 0
IsTable lms locked =
    All (λ lm. lookup lm.id locked ≡ some lm) lms
    × ((id : Text) (lm : LockedModule) → lookup id locked ≡ some lm → In lm lms × (lm.id ≡ id))

lock_modules-kept :
    (before : Option Text) (lms : List LockedModule) (start out : Dict Text LockedModule)
    (id : Text) (lm : LockedModule)
    → lock_modules before lms start ≡ ok out
    → lookup id start ≡ some lm
    → lookup id out ≡ some lm
unfolding lock_modules has_module
lock_modules-kept before [] start out id lm h k = ground arith
lock_modules-kept before (x ∷ xs) start out id lm h k = ground (
  arith,
  lock_modules-kept (some x.id) xs (insert x.id x start) out id lm,
  lookup-insert id x.id x start,
)

lock_modules-filed :
    (before : Option Text) (lms : List LockedModule) (start out : Dict Text LockedModule)
    → lock_modules before lms start ≡ ok out
    → All (λ lm. lookup lm.id out ≡ some lm) lms
unfolding lock_modules
lock_modules-filed before [] start out h = tt
lock_modules-filed before (x ∷ xs) start out h = (
  ground (
    arith,
    lock_modules-kept (some x.id) xs (insert x.id x start) out x.id x,
    lookup-insert x.id x.id x start,
  ),
  lock_modules-filed (some x.id) xs (insert x.id x start) out (ground arith),
)

lock_modules-only :
    (before : Option Text) (lms : List LockedModule) (start out : Dict Text LockedModule)
    (id : Text) (lm : LockedModule)
    → lock_modules before lms start ≡ ok out
    → lookup id out ≡ some lm
    → (lookup id start ≡ some lm) ⊎ (In lm lms × (lm.id ≡ id))
unfolding lock_modules
lock_modules-only before [] start out id lm h k = ground arith
lock_modules-only before (x ∷ xs) start out id lm h k = ground (
  arith,
  lock_modules-only (some x.id) xs (insert x.id x start) out id lm,
  lookup-insert id x.id x start,
)

no_module : (id : Text) → lookup {V = LockedModule} id [] ≡ none
unfolding lookup
no_module id = refl

-- A lock that Verify accepts has a table of its modules in which every root is locked at a version
-- that meets it, and the store has each of its modules.
pub verify-IsStored :
    (D : Digests) (s : Store D) (l : Lock)
    → verify D s l ≡ ok tt
    → (locked : Dict Text LockedModule) × IsTable l.modules locked
      × All (IsLocked locked) l.roots
      × All (IsStored D s l.target locked) l.modules
unfolding verify
verify-IsStored D s l h = elim (Result-cases (lock_modules none l.modules [])) [
  | inr (x, e) ↦ absurd (ground arith)
  | inl (locked, e) ↦ elim (Result-cases (check_roots locked l.roots)) [
    | inr (y, f) ↦ absurd (ground arith)
    | inl (u, f) ↦ (
      locked,
      (
        lock_modules-filed none l.modules [] locked e,
        λ id lm k. elim (lock_modules-only none l.modules [] locked id lm e k) [
          | inl f ↦ absurd (ground (arith, no_module id))
          | inr r ↦ r
        ],
      ),
      check_roots-IsLocked locked l.roots f,
      check_modules-IsStored D s l.target locked l.modules (ground arith),
    )
  ]
]
