-- ===== src/Dependency/Plan/Kahn.antt =====
-- internal/dependency/plan.go: the invariant of the level loop.
use mathlib.Core.List.{append-nil, append_assoc}
use pulp.Prelude.{
  ℕ, zero, suc, ◌+◌, ◌-◌, ◌≤◌, ◌<◌, ◌≡◌, refl, sym, ap, subst, Bool, true, false, ◌||◌, List, [],
  ◌∷◌, ◌++◌, ◌==◌, eqb, contains, if◌then◌else◌, length, length-append, select, arith, Bool-cases,
  inl, inr,
}
use pulp.Prelude.Text.{Text, text_eq, is_empty}
use pulp.Prelude.Dict.{Dict, insert, lookup-insert}
use pulp.Prelude.Sets.{
  Distinct, Distinct-join, Distinct-append_left, Distinct-append_right, Distinct-disjoint,
  contains-append, length-le_of_subset,
}
use pulp.Prelude.Sorting.{stable_sort, contains-stable_sort, Distinct-stable_sort}
use pulp.Dependency.Plan.{
  Links, value_at, Progress, release, release_all, visit_level, Levels, next_level, level_loop,
}
use pulp.Dependency.Plan.Edges.{deps_of, dependents_of, IsGraph}
use pulp.Dependency.Plan.Counts.{
  missing, missing-zero, missing-visit, contains-select, Distinct-select, select_congr,
}

abbrev left_of : Text → Progress → ℕ
left_of y p = value_at y p.remaining 0

release-left :
    (x y : Text) (p : Progress)
    → left_of y (release x p) ≡ (if y == x then left_of x p - 1 else left_of y p)
unfolding release
release-left x y p = ground (arith, lookup-insert y x (value_at x p.remaining 0 - 1) p.remaining)

release-next :
    (x : Text) (p : Progress)
    → (release x p).next ≡ (if eqb (left_of x p) 1 then p.next ++ x ∷ [] else p.next)
unfolding release
release-next x p = ground arith

abbrev is_last : Progress → Text → Bool
is_last p y = eqb (left_of y p) 1

-- Each of the dependents counts one down, and those that reach 0 follow in their order.
release_all-left :
    (ds : List Text) (p : Progress) (y : Text)
    → Distinct ds
    → left_of y (release_all ds p) ≡ (if contains ds y then left_of y p - 1 else left_of y p)
unfolding release_all
release_all-left [] p y d = refl
release_all-left (x ∷ ds) p y d =
    ground (arith, d.0, release_all-left ds (release x p) y d.1, release-left x y p)

release_all-next :
    (ds : List Text) (p : Progress)
    → Distinct ds
    → (release_all ds p).next ≡ p.next ++ select (is_last p) ds
unfolding release_all
release_all-next [] p d = sym (append-nil p.next)
release_all-next (x ∷ ds) p d = ground (
  arith,
  release_all-next ds (release x p) d.1,
  select_congr (is_last (release x p)) (is_last p) ds
      (λ y c. ground (arith, d.0, release-left x y p)),
  release-next x p,
  append_assoc p.next (x ∷ []) (select (is_last p) ds),
)

pub is_empty-eq : (xs : List Text) → is_empty xs ≡ true → xs ≡ []
is_empty-eq [] h = refl
is_empty-eq (x ∷ xs) h = absurd (ground arith)

pub is_empty-pos : (xs : List Text) → is_empty xs ≡ false → 1 ≤ length xs
is_empty-pos [] h = absurd (ground arith)
is_empty-pos (x ∷ xs) h = omega arith

-- Each node stands behind all its dependencies.
abbrev pub Ordered : Links → List Text → List Text → Type 0
Ordered l before [] = Unit
Ordered l before (x ∷ xs) =
    ((d : Text) → contains (deps_of l x) d ≡ true → contains before d ≡ true)
    × Ordered l (x ∷ before) xs

Ordered-snoc :
    (l : Links) (before xs : List Text) (x : Text)
    → ((d : Text) → contains (deps_of l x) d ≡ true → (contains before d || contains xs d) ≡ true)
    → Ordered l before xs
    → Ordered l before (xs ++ x ∷ [])
Ordered-snoc l before [] x h o = (λ d c. ground (arith, h d c), tt)
Ordered-snoc l before (y ∷ xs) x h o =
    (o.0, Ordered-snoc l (y ∷ before) xs x (λ d c. ground (arith, h d c)) o.1)

module _ (nodes : List Text) (l : Links) (g : IsGraph nodes l) where
  -- The nodes visited, those of the level that are still to be visited, and those of the next level.
  pub record IsSweep (visited pending next : List Text) (remaining : Dict Text ℕ) : Type 0 where
    pub counted : (y : Text) → value_at y remaining 0 ≡ missing visited (deps_of l y)
    pub reached :
        (y : Text)
        → contains (visited ++ (pending ++ next)) y ≡ true
        → (contains nodes y ≡ true) × (missing visited (deps_of l y) ≡ 0)
    pub complete :
        (y : Text)
        → contains nodes y ≡ true
        → missing visited (deps_of l y) ≡ 0
        → contains (visited ++ (pending ++ next)) y ≡ true
    pub distinct : Distinct (visited ++ (pending ++ next))
    pub ordered : Ordered l [] visited

  module _ (x : Text) (visited pending : List Text) (p : Progress)
      (s : IsSweep visited (x ∷ pending) p.next p.remaining) where
    abbrev p' : Progress
    p' = release_all (dependents_of l x) p

    abbrev freed : List Text
    freed = select (is_last p) (dependents_of l x)

    unvisited : contains visited x ≡ false
    unvisited = ground (arith, Distinct-disjoint visited (x ∷ pending ++ p.next) x s.distinct)

    missing-next :
        (y : Text)
        → missing visited (deps_of l y)
          ≡ missing (visited ++ x ∷ []) (deps_of l y) + (if contains (deps_of l y) x then 1 else 0)
    missing-next y = missing-visit visited (deps_of l y) x (g.distinct_deps y) unvisited

    contains-freed :
        (y : Text)
        → contains freed y
          ≡ (if contains (deps_of l y) x then eqb (missing visited (deps_of l y)) 1 else false)
    contains-freed y =
        ground
          (arith, contains-select (is_last p) (dependents_of l x) y, s.counted y, g.symmetric y x)

    same_nodes :
        (visited ++ x ∷ []) ++ (pending ++ (p.next ++ freed))
        ≡ (visited ++ (x ∷ pending ++ p.next)) ++ freed
    same_nodes = simp append_assoc

    next_eq : p'.next ≡ p.next ++ freed
    next_eq = release_all-next (dependents_of l x) p (g.distinct_dependents x)

    visit-counted :
        (y : Text) → value_at y p'.remaining 0 ≡ missing (visited ++ x ∷ []) (deps_of l y)
    visit-counted y = ground (
      arith,
      release_all-left (dependents_of l x) p y (g.distinct_dependents x),
      g.symmetric y x,
      s.counted y,
      missing-next y,
    )

    abbrev known : List Text
    known = visited ++ (x ∷ pending ++ p.next)

    visit-reached :
        (y : Text)
        → contains (known ++ freed) y ≡ true
        → (contains nodes y ≡ true) × (missing (visited ++ x ∷ []) (deps_of l y) ≡ 0)
    visit-reached y h = elim (Bool-cases (contains known y)) [
      | inl old ↦ ((s.reached y old).0, omega (arith, (s.reached y old).1, missing-next y))
      | inr new ↦
          let here : contains freed y ≡ true = (ground (arith, contains-append known freed y)) in
          ground (arith, contains-freed y, missing-next y, g.sources y x)
    ]

    visit_complete :
        (y : Text)
        → contains nodes y ≡ true
        → missing (visited ++ x ∷ []) (deps_of l y) ≡ 0
        → contains (known ++ freed) y ≡ true
    visit_complete y n h =
        ground
          (arith, contains-append known freed y, contains-freed y, missing-next y, s.complete y n)

    visit-Distinct : Distinct (known ++ freed)
    visit-Distinct =
        Distinct-join known freed s.distinct
          (Distinct-select (is_last p) (dependents_of l x) (g.distinct_dependents x))
          (λ y c. ground (arith, s.reached y c, contains-freed y))

    visit-Ordered : Ordered l [] (visited ++ x ∷ [])
    visit-Ordered =
        Ordered-snoc l [] visited x
          (λ d c.
            missing-zero visited (deps_of l x) d
              (s.reached x (ground (arith, contains-append visited (x ∷ pending ++ p.next) x))).1 c)
          s.ordered

    visit-IsSweep : IsSweep (visited ++ x ∷ []) pending p'.next p'.remaining
    visit-IsSweep = record {
      counted = visit-counted;
      reached = λ y h. visit-reached y (rw (← same_nodes) (rw (← next_eq) h));
      complete = λ y n h. rw (next_eq, same_nodes) (visit_complete y n h);
      distinct = rw (next_eq, same_nodes) visit-Distinct;
      ordered = visit-Ordered;
    }

  visit_level-IsSweep :
      (level : ℕ) (visited pending : List Text) (p : Progress)
      → IsSweep visited pending p.next p.remaining
      → let p' = visit_level level l.dependents pending p in
        IsSweep (visited ++ pending) [] p'.next p'.remaining
  unfolding visit_level
  visit_level-IsSweep level visited [] p s = rw (append-nil visited) s
  visit_level-IsSweep level visited (x ∷ pending) p s =
      let marked : Progress = record p { level_by_id = insert x level p.level_by_id } in
      subst
        (λ v.
          IsSweep v []
            (visit_level level l.dependents pending (release_all (dependents_of l x) marked)).next
            (visit_level level l.dependents pending
              (release_all (dependents_of l x) marked)).remaining)
        (append_assoc visited (x ∷ []) pending)
        (visit_level-IsSweep level (visited ++ x ∷ []) pending
          (release_all (dependents_of l x) marked) (visit-IsSweep x visited pending marked s))

  module _ (less : Text → Text → Bool) where
    -- The nodes left over become the next level, in the order of the sort.
    sort-IsSweep :
        (visited next : List Text) (remaining : Dict Text ℕ)
        → IsSweep visited [] next remaining
        → IsSweep visited (stable_sort less next) [] remaining
    sort-IsSweep visited next remaining s = record {
      counted = s.counted;
      reached = λ y h. s.reached y (ground (arith, same y));
      complete = λ y n h. ground (arith, same y, s.complete y n h);
      distinct =
          Distinct-join visited (stable_sort less next ++ [])
            (Distinct-append_left visited next s.distinct)
            (rw (append-nil (stable_sort less next))
              (Distinct-stable_sort less next (Distinct-append_right visited next s.distinct)))
            (λ y c. ground (
              arith,
              Distinct-disjoint visited next y s.distinct c,
              contains-append (stable_sort less next) [] y,
              contains-stable_sort less next y,
            ));
      ordered = s.ordered;
    }
      where
        same :
            (y : Text)
            → contains (visited ++ (stable_sort less next ++ [])) y ≡ contains (visited ++ next) y
        same y = ground (
          arith,
          contains-append visited next y,
          contains-append visited (stable_sort less next ++ []) y,
          contains-append (stable_sort less next) [] y,
          contains-stable_sort less next y,
        )

    abbrev pub IsLoop : Levels → Type 0
    IsLoop s = IsSweep s.start_order s.ready [] s.remaining

    next_level-IsLoop : (s : Levels) → IsLoop s → IsLoop (next_level less l.dependents s)
    unfolding next_level
    next_level-IsLoop s h = sort-IsSweep _ _ _ (
        visit_level-IsSweep (length s.levels) s.start_order s.ready
          (record { remaining = s.remaining; next = []; level_by_id = s.level_by_id }) h)

    start_order-next_level :
        (s : Levels) → (next_level less l.dependents s).start_order ≡ s.start_order ++ s.ready
    unfolding next_level
    start_order-next_level s = refl

    -- Nothing is visited twice, so the nodes bound the start order.
    start_order-le : (s : Levels) → IsLoop s → length s.start_order + length s.ready ≤ length nodes
    start_order-le s h = omega (
      arith,
      length-le_of_subset (s.start_order ++ s.ready) nodes (rw (← append-nil s.ready) h.distinct)
          (λ y c. (h.reached y (rw (append-nil s.ready) c)).0),
      length-append s.start_order s.ready,
    )

    -- With fuel for the nodes that are left, the loop ends with no node ready.
    pub level_loop-IsLoop :
        (fuel : ℕ) (s : Levels)
        → length nodes < length s.start_order + fuel
        → IsLoop s
        → let s' = level_loop fuel less l.dependents s in IsLoop s' × (s'.ready ≡ [])
    unfolding level_loop
    level_loop-IsLoop zero s f h = absurd (omega (arith, start_order-le s h))
    level_loop-IsLoop (suc fuel) s f h = elim (Bool-cases (is_empty s.ready)) [
      | inl done ↦ rw done (h, is_empty-eq s.ready done)
      | inr more ↦ rw more (
          level_loop-IsLoop fuel (next_level less l.dependents s)
            (omega (
              arith,
              ap length (start_order-next_level s),
              length-append s.start_order s.ready,
              is_empty-pos s.ready more,
            ))
            (next_level-IsLoop s h))
    ]
