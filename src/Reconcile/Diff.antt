-- ===== src/Reconcile/Diff.antt =====
-- internal/reconcile/reconciler.go, `diff`: what changes between two plans.
use pulp.Prelude.{
  ℕ, zero, suc, ◌+◌, Bool, true, false, not, ◌&&◌, List, [], ◌∷◌, ◌++◌, none, some, ◌==◌, contains,
  if◌then◌else◌, length, select,
}
use pulp.Prelude.Text.{Text, text_eq}
use pulp.Prelude.Dict.{Dict, lookup}
use pulp.Dependency.Plan.{Plan, value_at}

pub record ChangeSet : Type 0 where
  pub added : List Text
  pub updated : List Text
  pub removed : List Text
  pub unchanged : List Text
  pub affected : List Text

unfoldable pub dependencies : Plan → Text → List Text
dependencies p id = elim (lookup id p.nodes) [ none ↦ [] | some n ↦ n.depends_on ]

unfoldable pub dependents : Plan → Text → List Text
dependents p id = elim (lookup id p.nodes) [ none ↦ [] | some n ↦ n.dependents ]

-- slices.Equal
unfoldable pub same_list : List Text → List Text → Bool
same_list [] [] = true
same_list [] (_ ∷ _) = false
same_list (_ ∷ _) [] = false
same_list (a ∷ xs) (b ∷ ys) = a == b && same_list xs ys

-- The two plans that are compared, with the revisions of their nodes.
pub record Comparison : Type 0 where
  pub old : Plan
  pub next : Plan
  pub old_revisions : Dict Text Text
  pub next_revisions : Dict Text Text

unfoldable pub is_added : Comparison → Text → Bool
is_added c id = not (contains c.old.start_order id)

unfoldable pub is_same : Comparison → Text → Bool
unfolding same_list dependencies
is_same c id =
    same_list (dependencies c.old id) (dependencies c.next id)
    && value_at id c.old_revisions [] == value_at id c.next_revisions []

unfoldable pub is_updated : Comparison → Text → Bool
is_updated c id = not (is_added c id) && not (is_same c id)

unfoldable pub is_unchanged : Comparison → Text → Bool
is_unchanged c id = not (is_added c id) && is_same c id

unfoldable pub is_removed : Comparison → Text → Bool
is_removed c id = not (contains c.next.start_order id)

-- `changed` as the list of its keys; a dependant that is new to it goes to the end of the queue.
unfoldable pub mark : List Text → List Text × List Text → List Text × List Text
mark [] (changed, queue) = (changed, queue)
mark (d ∷ ds) (changed, queue) =
    mark ds (if contains changed d then (changed, queue) else (changed ++ d ∷ [], queue ++ d ∷ []))

unfoldable pub neighbours : Comparison → Text → List Text
unfolding dependents
neighbours c id = dependents c.old id ++ dependents c.next id

-- `for len(queue) > 0`, with fuel.
unfoldable pub spread : ℕ → Comparison → List Text → List Text → List Text
spread fuel c changed [] = changed
spread zero c changed (id ∷ queue) = changed
spread (suc fuel) c changed (id ∷ queue) =
    let (changed', queue') = mark (neighbours c id) (changed, queue) in
    spread fuel c changed' queue'

-- The nodes of the list that are changed, each once.
unfoldable pub collect : List Text → List Text → List Text → List Text
collect changed found [] = found
collect changed found (id ∷ rest) =
    collect changed
      (if contains changed id && not (contains found id) then found ++ id ∷ [] else found) rest

unfoldable pub seeds : Comparison → List Text
unfolding is_updated is_removed is_added
seeds c =
    select (is_added c) c.next.start_order
    ++ (select (is_updated c) c.next.start_order ++ select (is_removed c) c.old.start_order)

-- Every node of the two plans enters the queue at most once.
unfoldable pub diff : Comparison → ChangeSet
unfolding seeds is_unchanged spread collect
diff c = record {
  added = select (is_added c) c.next.start_order;
  updated = select (is_updated c) c.next.start_order;
  removed = select (is_removed c) c.old.start_order;
  unchanged = select (is_unchanged c) c.next.start_order;
  affected = collect changed [] (c.old.start_order ++ c.next.start_order);
}
  where
    changed : List Text
    changed =
        spread (length (c.old.start_order ++ c.next.start_order) + length (seeds c) + 1) c (seeds c)
          (seeds c)
