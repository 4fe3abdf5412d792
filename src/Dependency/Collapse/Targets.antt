-- ===== src/Dependency/Collapse/Targets.antt =====
-- internal/dependency/collapse.go: the physical graph of a logical plan.
use pulp.Prelude.{
  ◌≡◌, ◌≢◌, refl, ◌↔◌, ◌⊎◌, inl, inr, true, false, List, [], ◌∷◌, ◌++◌, ok, arith, ◌==◌, contains,
  if◌then◌else◌, map, sym, ==_true, Bool-cases, Result-cases,
}
use pulp.Prelude.Text.{Text, text_eq}
use pulp.Prelude.Dict.{Dict, lookup, lookup-insert}
use pulp.Prelude.Sets.{Distinct, contains-append}
use pulp.Dependency.Plan.{Item, Plan, build, value_at}
use pulp.Dependency.Plan.Edges.{ids}
use pulp.Dependency.Plan.Ranks.{Behind, IsStartOrder}
use pulp.Dependency.Plan.Orders.{build-IsStartOrder}
use pulp.Dependency.Collapse.{
  Physical, depends_on, add_edge, add_edges, add_nodes, physical_items, collapse,
}

-- The target of a node, which is empty for a node without one.
abbrev pub target : Dict Text Text → Text → Text
target physical_for id = value_at id physical_for []

-- Some of the nodes has this target.
abbrev pub HasTarget : Dict Text Text → Text → List Text → Type 0
HasTarget physical_for q [] = ⊥
HasTarget physical_for q (d ∷ ds) = (target physical_for d ≡ q) ⊎ HasTarget physical_for q ds

-- A node with the first target has a dependency with the second.
abbrev pub HasEdge : Plan → Dict Text Text → Text → Text → List Text → Type 0
HasEdge logical physical_for p q [] = ⊥
HasEdge logical physical_for p q (id ∷ rest) =
    ((target physical_for id ≡ p) × HasTarget physical_for q (depends_on logical id))
    ⊎ HasEdge logical physical_for p q rest

add_edge-edges :
    (node t p q : Text) (edges : Dict Text (List Text))
    → (contains (value_at p (add_edge node t edges) []) q ≡ true)
      ↔ ((contains (value_at p edges []) q ≡ true) ⊎ ((p ≡ node) × (q ≡ t)))
unfolding add_edge
add_edge-edges node t p q edges = ground (
  arith,
  lookup-insert p node (value_at node edges [] ++ t ∷ []) edges,
  contains-append (value_at node edges []) (t ∷ []) q,
)

HasTarget-cons :
    (physical_for : Dict Text Text) (q d : Text) (ds : List Text)
    → HasTarget physical_for q (d ∷ ds)
      ↔ ((target physical_for d ≡ q) ⊎ HasTarget physical_for q ds)
HasTarget-cons physical_for q d ds = (λ h. h, λ h. h)

add_edges-edges :
    (physical_for : Dict Text Text) (node p q : Text) (ds : List Text)
    (edges out : Dict Text (List Text))
    → add_edges physical_for node ds edges ≡ ok out
    → (contains (value_at p out []) q ≡ true) ↔ (
        (contains (value_at p edges []) q ≡ true)
        ⊎ ((p ≡ node) × (q ≢ node) × HasTarget physical_for q ds))
unfolding add_edges
add_edges-edges physical_for node p q [] edges out h = ground arith
add_edges-edges physical_for node p q (d ∷ ds) edges out h =
    let t = target physical_for d in
    elim (Bool-cases (t == node)) [
      | inl e ↦ ground (
        arith,
        add_edges-edges physical_for node p q ds edges out,
        HasTarget-cons physical_for q d ds,
      )
      | inr e ↦ ground (
        arith,
        add_edges-edges physical_for node p q ds (add_edge node t edges) out,
        add_edge-edges node t p q edges,
        HasTarget-cons physical_for q d ds,
      )
    ]

HasEdge-cons :
    (logical : Plan) (physical_for : Dict Text Text) (p q id : Text) (rest : List Text)
    → HasEdge logical physical_for p q (id ∷ rest) ↔ (
        ((target physical_for id ≡ p) × HasTarget physical_for q (depends_on logical id))
        ⊎ HasEdge logical physical_for p q rest)
HasEdge-cons logical physical_for p q id rest = (λ h. h, λ h. h)

add_nodes-edges :
    (logical : Plan) (physical_for : Dict Text Text) (p q : Text) (ids : List Text)
    (start out : Physical)
    → add_nodes logical physical_for ids start ≡ ok out
    → (contains (value_at p out.edges []) q ≡ true) ↔ (
        (contains (value_at p start.edges []) q ≡ true)
        ⊎ ((p ≢ q) × HasEdge logical physical_for p q ids))
unfolding add_nodes
add_nodes-edges logical physical_for p q [] start out h = ground arith
add_nodes-edges logical physical_for p q (id ∷ rest) start out h =
    let node = target physical_for id in
    elim (Result-cases (add_edges physical_for node (depends_on logical id) start.edges)) [
      | inr (x, e) ↦ absurd (ground arith)
      | inl (edges, e) ↦ ground (
        arith,
        add_edges-edges physical_for node p q (depends_on logical id) start.edges edges e,
        add_nodes-edges logical physical_for p q rest
            (record {
              order = if contains start.order node then start.order else start.order ++ node ∷ [];
              edges = edges;
            })
            out,
        HasEdge-cons logical physical_for p q id rest,
      )
    ]

add_nodes-order :
    (logical : Plan) (physical_for : Dict Text Text) (p : Text) (ids : List Text)
    (start out : Physical)
    → add_nodes logical physical_for ids start ≡ ok out
    → (contains out.order p ≡ true)
      ↔ ((contains start.order p ≡ true) ⊎ HasTarget physical_for p ids)
unfolding add_nodes
add_nodes-order logical physical_for p [] start out h = ground arith
add_nodes-order logical physical_for p (id ∷ rest) start out h =
    let node = target physical_for id in
    elim (Result-cases (add_edges physical_for node (depends_on logical id) start.edges)) [
      | inr (x, e) ↦ absurd (ground arith)
      | inl (edges, e) ↦ ground (
        arith,
        contains-append start.order (node ∷ []) p,
        add_nodes-order logical physical_for p rest
            (record {
              order = if contains start.order node then start.order else start.order ++ node ∷ [];
              edges = edges;
            })
            out,
        HasTarget-cons physical_for p id rest,
      )
    ]

-- A physical graph has the targets of the logical nodes as its nodes, and an edge between two of
-- them that differ exactly if a logical edge lies over it.
abbrev pub IsCollapsed : Plan → Dict Text Text → Physical → Type 0
IsCollapsed logical physical_for g =
    ((p : Text) → (contains g.order p ≡ true) ↔ HasTarget physical_for p logical.start_order)
    × ((p q : Text)
        → (contains (value_at p g.edges []) q ≡ true)
          ↔ ((p ≢ q) × HasEdge logical physical_for p q logical.start_order))

no_edge : (p q : Text) → contains (value_at p [] []) q ≡ false
unfolding lookup
no_edge p q = refl

abbrev item_of : Dict Text (List Text) → Text → Item
item_of edges node = record { id = node; depends_on = value_at node edges [] }

ids-item_of : (edges : Dict Text (List Text)) (ps : List Text) → ids (map (item_of edges) ps) ≡ ps
ids-item_of edges [] = refl
ids-item_of edges (p ∷ ps) = ground (arith, ids-item_of edges ps)

Behind-item_of :
    (edges : Dict Text (List Text)) (order ps before after : List Text) (p q : Text)
    → Behind order (map (item_of edges) ps)
    → contains ps p ≡ true
    → order ≡ before ++ p ∷ after
    → contains (value_at p edges []) q ≡ true
    → contains before q ≡ true
Behind-item_of edges order [] before after p q b c e d = absurd (ground arith)
Behind-item_of edges order (r ∷ ps) before after p q b c e d = elim (Bool-cases (p == r)) [
  | inl same ↦
      let eq : p ≡ r = (==_true p r same) in b.0 before after (rw (sym eq) e) q (rw (sym eq) d)
  | inr other ↦ Behind-item_of edges order ps before after p q b.1 (ground arith) e d
]

contains-middle : (before after : List Text) (p : Text) → contains (before ++ p ∷ after) p ≡ true
contains-middle [] after p = ground arith
contains-middle (x ∷ before) after p = ground (arith, contains-middle before after p)

-- An order has the targets of the logical nodes, each once, and each behind the other targets that
-- a logical edge leads to.
abbrev pub IsTargetOrder : Plan → Dict Text Text → List Text → Type 0
IsTargetOrder logical physical_for order =
    Distinct order
    × ((p : Text) → (contains order p ≡ true) ↔ HasTarget physical_for p logical.start_order)
    × ((before after : List Text) (p q : Text)
        → order ≡ before ++ p ∷ after
        → p ≢ q
        → HasEdge logical physical_for p q logical.start_order
        → contains before q ≡ true)

IsStartOrder-IsTargetOrder :
    (logical : Plan) (physical_for : Dict Text Text) (g : Physical) (order : List Text)
    → IsCollapsed logical physical_for g
    → IsStartOrder (physical_items g) order
    → IsTargetOrder logical physical_for order
unfolding physical_items
IsStartOrder-IsTargetOrder logical physical_for g order c s =
    let same : (p : Text) → contains order p ≡ contains g.order p =
      (λ p. ground (arith, s.members p, ids-item_of g.edges g.order)) in
    (
      s.distinct,
      λ p. ground (arith, same p, c.0 p),
      λ before after p q e n h.
          Behind-item_of g.edges order g.order before after p q s.behind
            (ground (arith, same p, contains-middle before after p)) e ((c.1 p q).1 (n, h)),
    )

-- A collapsed plan starts exactly the targets of the logical nodes, each once, and each behind every
-- other target that a logical edge leads to.
pub collapse-IsTargetOrder :
    (logical plan : Plan) (physical_for : Dict Text Text)
    → collapse logical physical_for ≡ ok plan
    → IsTargetOrder logical physical_for plan.start_order
unfolding collapse
collapse-IsTargetOrder logical plan physical_for h =
    let start : Physical = record { order = []; edges = [] } in
    elim (Result-cases (add_nodes logical physical_for logical.start_order start)) [
      | inr (x, e) ↦ absurd (ground arith)
      | inl (g, e) ↦ elim (Result-cases (build (physical_items g))) [
        | inr (x, f) ↦ absurd (ground arith)
        | inl (b, f) ↦
            IsStartOrder-IsTargetOrder logical physical_for g plan.start_order
              (
                λ p.
                    ground
                      (arith, add_nodes-order logical physical_for p logical.start_order start g e),
                λ p q. ground (
                  arith,
                  no_edge p q,
                  add_nodes-edges logical physical_for p q logical.start_order start g e,
                ),
              )
              (build-IsStartOrder (physical_items g) plan (ground arith)).0
      ]
    ]
