-- ===== src/Registry/Resolve/Sound.antt =====
-- registry/resolve.go, `solve`: what a solution meets.
use pulp.Prelude.{
  ℕ, zero, suc, ◌≡◌, refl, sym, subst, ◌↔◌, ◌⊎◌, inl, inr, Bool, true, false, not, List, [], ◌∷◌,
  ◌++◌, none, some, Result, ok, arith, ◌==◌, contains, select, All, Bool-cases, Option-cases,
  Result-cases,
}
use pulp.Prelude.Text.{Text, text_eq}
use pulp.Prelude.Dict.{Dict, lookup, insert, lookup-insert}
use pulp.Prelude.Sets.{contains-append}
use pulp.Prelude.Sorting.{length-stable_sort, contains-stable_sort}
use pulp.Registry.Version.{Version, matches}
use pulp.Registry.Store.{Dependency, Digests, Manifest, Store}
use pulp.Registry.Resolve.{
  ResolveError, id_less, keys, is_key, constrain, meets_all, Chosen, first_unresolved,
  add_dependencies, try_versions, solve,
}

List-cases : (xs : List Text) → (xs ≡ []) ⊎ ((x : Text) × (rest : List Text) × (xs ≡ x ∷ rest))
List-cases [] = inl refl
List-cases (x ∷ rest) = inr (x, rest, refl)

-- `c[id]`
abbrev pub requirements : Dict Text (List Text) → Text → List Text
requirements c id = elim (lookup id c) [ none ↦ [] | some rs ↦ rs ]

constrain-requirements :
    (i q j r : Text) (c : Dict Text (List Text))
    → (contains (requirements (constrain i q c) j) r ≡ true)
      ↔ ((contains (requirements c j) r ≡ true) ⊎ ((j ≡ i) × (r ≡ q)))
unfolding constrain
constrain-requirements i q j r c = ground (
  arith,
  lookup-insert j i (requirements c i ++ q ∷ []) c,
  contains-append (requirements c i) (q ∷ []) r,
)

meets_all-matches :
    (rs : List Text) (v : Version) (r : Text)
    → meets_all rs v ≡ true
    → contains rs r ≡ true
    → matches r v ≡ true
unfolding meets_all
meets_all-matches [] v r h k = absurd (ground arith)
meets_all-matches (q ∷ rs) v r h k = ground (arith, meets_all-matches rs v r)

select-nil :
    (p : Text → Bool) (xs : List Text) (x : Text)
    → select p xs ≡ []
    → contains xs x ≡ true
    → p x ≡ false
select-nil p [] x h k = absurd (ground arith)
select-nil p (y ∷ xs) x h k = ground (arith, select-nil p xs x)

contains-select :
    (p : Text → Bool) (xs : List Text) (x : Text) → contains (select p xs) x ≡ true → p x ≡ true
contains-select p [] x h = absurd (ground arith)
contains-select p (y ∷ xs) x h = ground (arith, contains-select p xs x)

contains-keys :
    (c : Dict Text (List Text)) (id r : Text)
    → contains (requirements c id) r ≡ true
    → contains (keys c) id ≡ true
unfolding lookup
contains-keys [] id r h = absurd (ground arith)
contains-keys ((k, rs) ∷ c) id r h = ground (arith, contains-keys c id r)

module _ (D : Digests) where
  -- A dependency that a chosen module meets.
  abbrev pub IsMet : Chosen D → Dependency → Type 0
  IsMet out d =
      (m : Manifest D) × (lookup d.id out ≡ some m) × (matches d.requirement m.version ≡ true)

  -- A solution keeps what was chosen, meets the requirements on every other module, and meets the
  -- dependencies of those, but for one of a module on itself.
  pub record IsSolution (c : Dict Text (List Text)) (chosen out : Chosen D) : Type 0 where
    pub kept : (id : Text) (m : Manifest D) → lookup id chosen ≡ some m → lookup id out ≡ some m
    pub meets :
        (id r : Text)
        → contains (requirements c id) r ≡ true
        → lookup id chosen ≡ none
        → IsMet out (record { id = id; requirement = r })
    pub closed :
        (id : Text) (m : Manifest D)
        → lookup id out ≡ some m
        → lookup id chosen ≡ none
        → All (λ d. (d.id ≡ id) ⊎ IsMet out d) m.dependencies

  add_dependencies-kept :
      (chosen : Chosen D) (ds : List Dependency) (c c' : Dict Text (List Text)) (j r : Text)
      → add_dependencies D chosen ds c ≡ some c'
      → contains (requirements c j) r ≡ true
      → contains (requirements c' j) r ≡ true
  unfolding add_dependencies
  add_dependencies-kept chosen [] c c' j r h k = ground arith
  add_dependencies-kept chosen (d ∷ ds) c c' j r h k = ground (
    arith,
    add_dependencies-kept chosen ds (constrain d.id d.requirement c) c' j r,
    constrain-requirements d.id d.requirement j r c,
  )

  -- Each dependency is among the requirements, and met where its module is chosen.
  abbrev IsConstrained : Chosen D → Dict Text (List Text) → Dependency → Type 0
  IsConstrained chosen c d =
      (contains (requirements c d.id) d.requirement ≡ true)
      × ((m : Manifest D) → lookup d.id chosen ≡ some m → matches d.requirement m.version ≡ true)

  add_dependencies-IsConstrained :
      (chosen : Chosen D) (ds : List Dependency) (c c' : Dict Text (List Text))
      → add_dependencies D chosen ds c ≡ some c'
      → All (IsConstrained chosen c') ds
  unfolding add_dependencies
  add_dependencies-IsConstrained chosen [] c c' h = tt
  add_dependencies-IsConstrained chosen (d ∷ ds) c c' h =
      let c1 = constrain d.id d.requirement c in
      (
        (
          ground (
            arith,
            add_dependencies-kept chosen ds c1 c' d.id d.requirement,
            constrain-requirements d.id d.requirement d.id d.requirement c,
          ),
          λ m e. ground arith,
        ),
        add_dependencies-IsConstrained chosen ds c1 c' (ground arith),
      )

  All-map :
      {P Q : Dependency → Type 0} (ds : List Dependency)
      → ((d : Dependency) → P d → Q d)
      → All P ds
      → All Q ds
  All-map [] f h = tt
  All-map (d ∷ ds) f h = (f d h.0, All-map ds f h.1)

  insert-other :
      (j id : Text) (m : Manifest D) (chosen : Chosen D)
      → (j == id) ≡ false
      → lookup j (insert id m chosen) ≡ lookup j chosen
  insert-other j id m chosen h = ground (arith, lookup-insert j id m chosen)

  insert-same :
      (id : Text) (m : Manifest D) (chosen : Chosen D) → lookup id (insert id m chosen) ≡ some m
  insert-same id m chosen = ground (arith, lookup-insert id id m chosen)

  -- The dependencies of the module that is chosen next are met.
  own-IsMet :
      (id : Text) (m : Manifest D) (c' : Dict Text (List Text)) (chosen out : Chosen D)
      → IsSolution c' (insert id m chosen) out
      → All (IsConstrained chosen c') m.dependencies
      → All (λ d. (d.id ≡ id) ⊎ IsMet out d) m.dependencies
  own-IsMet id m c' chosen out s = All-map m.dependencies (λ d h. elim (Bool-cases (d.id == id)) [
    | inl same ↦ inl (ground arith)
    | inr other ↦ elim (Option-cases (lookup d.id chosen)) [
      | inl e ↦
          inr (s.meets d.id d.requirement h.0 (ground (arith, insert-other d.id id m chosen other)))
      | inr (x, e) ↦
          inr (x, s.kept d.id x (ground (arith, insert-other d.id id m chosen other)), h.1 x e)
    ]
  ])

  -- A solution of the rest with one more module chosen is a solution.
  extend-IsSolution :
      (id : Text) (m : Manifest D) (c c' : Dict Text (List Text)) (chosen out : Chosen D)
      → lookup id chosen ≡ none
      → meets_all (requirements c id) m.version ≡ true
      → add_dependencies D chosen m.dependencies c ≡ some c'
      → IsSolution c' (insert id m chosen) out
      → IsSolution c chosen out
  extend-IsSolution id m c c' chosen out fresh met added s =
      let found : lookup id out ≡ some m = s.kept id m (insert-same id m chosen) in
      record {
        kept = λ j k e. s.kept j k (ground (arith, lookup-insert j id m chosen));
        meets = λ j r h n. elim (Bool-cases (j == id)) [
          | inl same ↦ (
            m,
            ground arith,
            meets_all-matches (requirements c id) m.version r met (ground arith),
          )
          | inr other ↦
              s.meets j r (add_dependencies-kept chosen m.dependencies c c' j r added h)
                (ground (arith, insert-other j id m chosen other))
        ];
        closed = λ j k e n. elim (Bool-cases (j == id)) [
          | inl same ↦
              let at_id : id ≡ j = (ground arith) in
              let is_m : m ≡ k = (ground arith) in
              subst (λ x. All (λ d. (d.id ≡ x) ⊎ IsMet out d) k.dependencies) at_id
                (subst (λ y. All (λ d. (d.id ≡ id) ⊎ IsMet out d) y.dependencies) is_m
                  (own-IsMet id m c' chosen out s
                    (add_dependencies-IsConstrained chosen m.dependencies c c' added)))
          | inr other ↦ s.closed j k e (ground (arith, insert-other j id m chosen other))
        ];
      }

  -- A store gives for a release a manifest of its version.
  abbrev pub IsHonest : Store D → Type 0
  IsHonest s = (id : Text) (v : Version) (m : Manifest D) → s.manifest id v ≡ some m → m.version ≡ v

  try_versions-IsSolution :
      (solve_rest : Dict Text (List Text) → Chosen D → Result ResolveError (Chosen D)) (s : Store D)
      (id : Text) (c : Dict Text (List Text)) (chosen out : Chosen D) (vs : List Version)
      → IsHonest s
      → lookup id chosen ≡ none
      → ((c' : Dict Text (List Text)) (next : Chosen D)
          → solve_rest c' next ≡ ok out
          → IsSolution c' next out)
      → try_versions D solve_rest s id c chosen vs ≡ ok out
      → IsSolution c chosen out
  unfolding try_versions
  try_versions-IsSolution solve_rest s id c chosen out [] honest fresh rest h =
      absurd (ground arith)
  try_versions-IsSolution solve_rest s id c chosen out (v ∷ vs) honest fresh rest h =
      let later = try_versions-IsSolution solve_rest s id c chosen out vs honest fresh rest in
      elim (Bool-cases (meets_all (requirements c id) v)) [
        | inr unmet ↦ later (ground arith)
        | inl met ↦ elim (Option-cases (s.manifest id v)) [
          | inl e ↦ later (ground arith)
          | inr (m, e) ↦ elim (Option-cases (add_dependencies D chosen m.dependencies c)) [
            | inl f ↦ later (ground arith)
            | inr (c', f) ↦ elim (Result-cases (solve_rest c' (insert id m chosen))) [
              | inl (found, g) ↦
                  extend-IsSolution id m c c' chosen out fresh
                    (subst (λ w. meets_all (requirements c id) w ≡ true) (sym (honest id v m e))
                      met)
                    f (rest c' (insert id m chosen) (ground arith))
              | inr (x, g) ↦ later (ground arith)
            ]
          ]
        ]
      ]

  first_unresolved-fresh :
      (c : Dict Text (List Text)) (chosen : Chosen D) (id : Text) (ids : List Text)
      → first_unresolved D c chosen ≡ id ∷ ids
      → lookup id chosen ≡ none
  unfolding first_unresolved
  first_unresolved-fresh c chosen id ids h =
      let fresh : Text → Bool = λ j. not (is_key j chosen) in
      ground (
        arith,
        contains-stable_sort id_less (select fresh (keys c)) id,
        contains-select fresh (keys c) id,
      )

  resolved-IsSolution :
      (c : Dict Text (List Text)) (chosen : Chosen D)
      → first_unresolved D c chosen ≡ []
      → IsSolution c chosen chosen
  unfolding first_unresolved
  resolved-IsSolution c chosen h = record {
    kept = λ id m e. e;
    meets = λ id r k n.
        let fresh : Text → Bool = λ j. not (is_key j chosen) in
        absurd (
          ground (
            arith,
            contains-stable_sort id_less (select fresh (keys c)) id,
            length-stable_sort id_less (select fresh (keys c)),
            select-nil fresh (keys c) id,
            contains-keys c id r k,
          ));
    closed = λ id m e n. absurd (ground arith);
  }

  -- What `solve` returns keeps what was chosen, meets the requirements on every other module, and
  -- meets the dependencies of those, but for one of a module on itself.
  pub solve-IsSolution :
      (fuel : ℕ) (s : Store D) (c : Dict Text (List Text)) (chosen out : Chosen D)
      → IsHonest s
      → solve D fuel s c chosen ≡ ok out
      → IsSolution c chosen out
  unfolding solve
  solve-IsSolution zero s c chosen out honest h = absurd (ground arith)
  solve-IsSolution (suc fuel) s c chosen out honest h =
      elim (List-cases (first_unresolved D c chosen)) [
        | inl e ↦ subst (IsSolution c chosen) (ground arith) (resolved-IsSolution c chosen e)
        | inr (id, ids, e) ↦ elim (Option-cases (s.versions id)) [
          | inl f ↦ absurd (ground arith)
          | inr (vs, f) ↦
              try_versions-IsSolution (solve D fuel s) s id c chosen out vs honest
                (first_unresolved-fresh c chosen id ids e)
                (λ c' next g. solve-IsSolution fuel s c' next out honest g) (ground arith)
        ]
      ]
