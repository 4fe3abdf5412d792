-- ===== src/Fusion/Plan/Groups.antt =====
-- internal/fusion/plan.go: what the cells of one group have in common.
use pulp.Prelude.{
  ◌≤◌, ◌≡◌, refl, sym, ◌∙◌, inl, inr, Bool, false, List, [], ◌∷◌, ◌++◌, Option, none, some, ◌==◌,
  if◌then◌else◌, length, map, arith, All, All-append, All-mono, All-zip, ok, ==_true, subst,
  Option-cases, Bool-cases,
}
use pulp.Prelude.Sets.{Distinct}
use pulp.Prelude.Text.{Text, text_before, text_eq}
use pulp.Prelude.Dict.{Dict, lookup, insert, lookup-insert}
use pulp.Prelude.Sorting.{stable_sort, All-stable_sort}
use pulp.Dependency.Plan.{value_at}
use pulp.Manifest.Config.{ConfigTable}
use pulp.Manifest.Fields.{fusible, has_space, Execution}
use pulp.Manifest.Fields.Digests.{IsPlaced}
use pulp.Manifest.Cells.Normal.{normalize-IsNormal}
use pulp.Manifest.Cells.{CellSpec, RawCell, Platform, normalize}
use pulp.Fusion.Plan.{
  Group, Decision, Plan, compatible, place_members, place_keys, by_name, request, group_key, build,
}
use pulp.Fusion.Plan.Cases.{
  request-fusible, request-isolated, place_members-group, place_members-isolate,
}
use pulp.Fusion.Plan.Compatible.{IsFit, IsAlike, compatible-All, group_key-injective}
use pulp.Fusion.Plan.Partition.{present}

value_at-insert :
    {V : Type 0} (j k : Text) (v : List V) (d : Dict Text (List V))
    → value_at j (insert k v d) [] ≡ (if j == k then v else value_at j d [])
value_at-insert j k v d = ground (arith, lookup-insert j k v d)

module _ {Other : Type 0} where
  -- What `normalize` makes sure of.
  pub record IsNormal (c : CellSpec Other) : Type 0 where
    pub group : has_space c.execution.group ≡ false
    pub capabilities : Distinct c.capabilities

  -- A cell that asks for a group, of a key.
  pub record IsRequest (key : Text) (c : CellSpec Other) : Type 0 where
    pub normal : IsNormal c
    pub mode : c.execution.mode ≡ fusible
    pub filed : group_key c ≡ key

  -- A cell that asked for this group.
  pub record IsMember (g : Group Other) (c : CellSpec Other) : Type 0 where
    pub mode : c.execution.mode ≡ fusible
    pub group : c.execution.group ≡ g.name
    pub abi : c.execution.abi ≡ g.abi
    pub fit : IsFit g.abi c

  abbrev AreRequests : Dict Text (List (CellSpec Other)) → Type 0
  AreRequests requested = (key : Text) → All (IsRequest key) (value_at key requested [])

  insert-AreRequests :
      (c : CellSpec Other) (requested : Dict Text (List (CellSpec Other)))
      → IsNormal c
      → c.execution.mode ≡ fusible
      → AreRequests requested
      → AreRequests (insert (group_key c) (value_at (group_key c) requested [] ++ c ∷ []) requested)
  insert-AreRequests c requested n m r key =
      let all = value_at (group_key c) requested [] ++ c ∷ [] in
      subst (All (IsRequest key)) (sym (value_at-insert key (group_key c) all requested))
        (elim (Bool-cases (key == group_key c)) [
          | inr e ↦ rw e (r key)
          | inl e ↦
              let same = ==_true key (group_key c) e in
              rw e (
                All-append (IsRequest key) (value_at (group_key c) requested []) (c ∷ [])
                  (subst (λ k. All (IsRequest key) (value_at k requested [])) same (r key))
                  (record { normal = n; mode = m; filed = sym same }, tt))
        ])

  -- Two cells of one key ask for the same group.
  request-IsMember :
      (key : Text) (base c : CellSpec Other) (members : List (CellSpec Other))
      → IsRequest key base
      → IsRequest key c
      → IsFit base.execution.abi c
      → IsMember
          (record { name = base.execution.group; abi = base.execution.abi; members = members })
          c
  request-IsMember key base c members b r f =
      let (group, abi) =
        group_key-injective c base r.normal.group b.normal.group (r.filed ∙ sym b.filed) in
      record { mode = r.mode; group = group; abi = abi; fit = f }

  request-AreRequests :
      (cells : List (Option (CellSpec Other))) (requested : Dict Text (List (CellSpec Other)))
      (isolated : List (Decision Other))
      → All IsNormal (present cells)
      → AreRequests requested
      → AreRequests (request cells requested isolated).0
  unfolding request
  request-AreRequests [] requested isolated h r = r
  request-AreRequests (none ∷ rest) requested isolated h r =
      request-AreRequests rest requested isolated h r
  request-AreRequests (some c ∷ rest) requested isolated h r =
      elim (Bool-cases (c.execution.mode == fusible)) [
        | inr n ↦
            rw (request-isolated c rest requested isolated n)
              (request-AreRequests rest requested _ h.1 r)
        | inl y ↦ rw (request-fusible c rest requested isolated y) (
            request-AreRequests rest _ isolated h.1
              (insert-AreRequests c requested h.0 (==_true c.execution.mode fusible y) r))
      ]

module _ {Other : Type 0}
    (same_config : Option (ConfigTable Other) → Option (ConfigTable Other) → Bool) where
  -- Two cells at least, which asked for this group and run as the first of them.
  pub record IsGroup (g : Group Other) : Type 0 where
    pub first : CellSpec Other
    pub others : List (CellSpec Other)
    pub members : g.members ≡ first ∷ others
    pub two : 2 ≤ length g.members
    pub asked : All (IsMember g) g.members
    pub alike : All (IsAlike same_config first) others

  compatible-IsGroup :
      (key : Text) (c d : CellSpec Other) (rest : List (CellSpec Other))
      → All (IsRequest key) (c ∷ d ∷ rest)
      → compatible same_config (c ∷ d ∷ rest) ≡ none
      → IsGroup (record { name = c.execution.group; abi = c.execution.abi; members = c ∷ d ∷ rest })
  compatible-IsGroup key c d rest r e =
      let (fit, alike) = compatible-All same_config c (d ∷ rest) r.0.normal.capabilities e in
      record {
        first = c;
        others = d ∷ rest;
        members = refl;
        two = omega arith;
        asked = (
          request-IsMember key c c (c ∷ d ∷ rest) r.0 r.0 fit,
          All-zip (λ x p q. request-IsMember key c x (c ∷ d ∷ rest) r.0 p q.0) (d ∷ rest) r.1 alike,
        );
        alike = All-mono (λ x q. q.1) (d ∷ rest) alike;
      }

  place_members-IsGroup :
      (key : Text) (members : List (CellSpec Other)) (plan : Plan Other)
      → All (IsRequest key) members
      → All IsGroup plan.groups
      → All IsGroup (place_members same_config members plan).groups
  unfolding place_members
  place_members-IsGroup key [] plan r h = h
  place_members-IsGroup key (c ∷ []) plan r h = h
  place_members-IsGroup key (c ∷ d ∷ rest) plan r h =
      elim (Option-cases (compatible same_config (c ∷ d ∷ rest))) [
        | inr (why, e) ↦ rw (place_members-isolate same_config c d rest plan why e) h
        | inl e ↦
            rw (place_members-group same_config c d rest plan e)
              (All-append IsGroup plan.groups _ h (compatible-IsGroup key c d rest r e, tt))
      ]

  place_keys-IsGroup :
      (requested : Dict Text (List (CellSpec Other))) (keys : List Text) (plan : Plan Other)
      → AreRequests requested
      → All IsGroup plan.groups
      → All IsGroup (place_keys same_config requested keys plan).groups
  unfolding place_keys
  place_keys-IsGroup requested [] plan r h = h
  place_keys-IsGroup requested (key ∷ keys) plan r h = place_keys-IsGroup requested keys _ r (
      place_members-IsGroup key _ plan
        (All-stable_sort by_name (IsRequest key) (value_at key requested []) (r key)) h)

  -- Every group of the plan is one as above, where the cells are as `normalize` leaves them.
  build-IsGroup :
      (cells : List (Option (CellSpec Other)))
      → All IsNormal (present cells)
      → All IsGroup (build same_config cells).groups
  unfolding build lookup
  build-IsGroup cells h =
      let (requested, isolated) = request cells [] [] in
      place_keys-IsGroup requested (stable_sort text_before (map (λ (k, _). k) requested))
        (record { groups = []; isolated = isolated })
        (request-AreRequests cells [] [] h (λ key. tt)) tt

IsPlaced-has_space : (e : Execution) → IsPlaced e → has_space e.group ≡ false
unfolding has_space
IsPlaced-has_space e h = ground arith

module _ {Other : Type 0} where
  -- A cell whose manifest passed.
  abbrev pub IsNormalized : CellSpec Other → Type 0
  IsNormalized c =
      (p : Platform) × (r : RawCell Other) × (path : Text) × (normalize p r path ≡ ok c)

  IsNormalized-IsNormal : (c : CellSpec Other) → IsNormalized c → IsNormal c
  IsNormalized-IsNormal c (p, r, path, e) =
      let n = normalize-IsNormal p r path c e in
      record {
        group = IsPlaced-has_space c.execution n.execution;
        capabilities = n.capabilities.distinct;
      }

-- The groups of cells whose manifests passed.
pub build-normalize :
    {Other : Type 0} (same_config : Option (ConfigTable Other) → Option (ConfigTable Other) → Bool)
    (cells : List (Option (CellSpec Other)))
    → All IsNormalized (present cells)
    → All (IsGroup same_config) (build same_config cells).groups
build-normalize same_config cells h =
    build-IsGroup same_config cells (All-mono IsNormalized-IsNormal (present cells) h)
