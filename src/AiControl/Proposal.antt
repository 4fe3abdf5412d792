-- ===== src/AiControl/Proposal.antt =====
-- aicontrol/model.go. A digest is SHA-256 over JSON, both of which are a parameter. The sorts order by
-- names; elements with the same name keep their order, which slices.SortFunc leaves open.
use pulp.Prelude.{
  Bool, true, false, not, ◌||◌, List, [], ◌∷◌, Result, ok, fail_if, ◌>>=◌, ◌>>◌, ◌==◌, contains,
  Ordering, any,
}
use pulp.Prelude.Text.{Text, text_eq, trim_space, is_empty, compare_text, text_before}
use pulp.Prelude.Sorting.{stable_sort}

pub record FileDiff : Type 0 where
  pub path : Text
  pub before_digest : Text
  pub after_digest : Text

pub record ContractDiff : Type 0 where
  pub name : Text
  pub before : Text
  pub after : Text

pub record CapabilityDiff : Type 0 where
  pub module_ : Text
  pub capability : Text
  pub change : Text

pub record GraphNode : Type 0 where
  pub id : Text
  pub revision : Text
  pub depends_on : List Text

-- A draft, and the content of a proposal.
pub record Draft : Type 0 where
  pub base_revision : Text
  pub intent : Text
  pub graph : List GraphNode
  pub lua : List FileDiff
  pub contracts : List ContractDiff
  pub capabilities : List CapabilityDiff

pub record Proposal : Type 0 where
  pub digest : Text
  pub content : Draft

pub record EvidenceItem : Type 0 where
  pub kind : Text
  pub name : Text
  pub digest : Text
  pub passed : Bool

pub record Evidence : Type 0 where
  pub proposal : Text
  pub items : List EvidenceItem
  pub artifact_digest : Text
  pub digest : Text

-- `digest` of a proposal's content, and of an evidence's proposal, items and artifact.
pub record Hashes : Type 0 where
  pub of_content : Draft → Text
  pub of_evidence : Text → List EvidenceItem → Text → Text

pub data ProposalError : Type 0 where
  base_and_intent_required unsealed invalid_item : ProposalError
  invalid_node duplicate_dependency : Text → ProposalError
  unknown_dependency : Text → Text → ProposalError

-- The first name decides, and the second where the first ones are equal.
abbrev pub pair_before : Text → Text → Text → Text → Bool
pair_before a x b y = elim (compare_text a b) [
  | Ordering.lt ↦ true
  | Ordering.gt ↦ false
  | Ordering.eq ↦ text_before x y
]

-- The loop over neighbours of a sorted list.
unfoldable pub find_repeated : List Text → Result ProposalError (Unit {0})
find_repeated [] = ok tt
find_repeated (a ∷ []) = ok tt
find_repeated (a ∷ b ∷ rest) = do
  fail_if (b == a) (duplicate_dependency b)
  find_repeated (b ∷ rest)

unfoldable pub trimmed_node : GraphNode → GraphNode
trimmed_node n = record {
  id = trim_space n.id;
  revision = trim_space n.revision;
  depends_on = stable_sort text_before n.depends_on;
}

-- The first loop over the graph: its nodes in their normal form; `seen` holds the names before.
unfoldable pub normal_nodes : List Text → List GraphNode → Result ProposalError (List GraphNode)
unfolding find_repeated trimmed_node
normal_nodes seen [] = ok []
normal_nodes seen (raw ∷ rest) = do
  let n = trimmed_node raw
  fail_if (is_empty n.id || is_empty n.revision || contains seen n.id) (invalid_node n.id)
  find_repeated n.depends_on
  ns ← normal_nodes (n.id ∷ seen) rest
  ok (n ∷ ns)

abbrev pub node_ids : List GraphNode → List Text
node_ids [] = []
node_ids (n ∷ ns) = n.id ∷ node_ids ns

unfoldable pub check_known : List Text → Text → List Text → Result ProposalError (Unit {0})
check_known seen id [] = ok tt
check_known seen id (dep ∷ deps) = do
  fail_if (not (contains seen dep)) (unknown_dependency id dep)
  check_known seen id deps

-- The second loop over the graph.
unfoldable pub check_nodes : List Text → List GraphNode → Result ProposalError (Unit {0})
unfolding check_known
check_nodes seen [] = ok tt
check_nodes seen (n ∷ ns) = do check_known seen n.id n.depends_on; check_nodes seen ns

unfoldable pub sorted_content : Text → Text → Draft → List GraphNode → Draft
sorted_content base intent d nodes = record {
  base_revision = base;
  intent = intent;
  graph = stable_sort (λ a b. text_before a.id b.id) nodes;
  lua = stable_sort (λ a b. text_before a.path b.path) d.lua;
  contracts = stable_sort (λ a b. text_before a.name b.name) d.contracts;
  capabilities =
      stable_sort (λ a b. pair_before a.module_ a.capability b.module_ b.capability) d.capabilities;
}

module _ (h : Hashes) where
  unfoldable pub new_proposal : Draft → Result ProposalError Proposal
  unfolding normal_nodes check_nodes sorted_content
  new_proposal d = do
    let base = trim_space d.base_revision
    let intent = trim_space d.intent
    fail_if (is_empty base || is_empty intent) base_and_intent_required
    nodes ← normal_nodes [] d.graph
    check_nodes (node_ids nodes) nodes
    let content = sorted_content base intent d nodes
    ok (record { digest = h.of_content content; content = content })

  is_incomplete : EvidenceItem → Bool
  is_incomplete i = is_empty i.kind || is_empty i.name || is_empty i.digest

  unfoldable pub computed_digest : Evidence → Text
  computed_digest e = h.of_evidence e.proposal e.items e.artifact_digest

  unfoldable pub new_evidence : Proposal → List EvidenceItem → Text → Result ProposalError Evidence
  unfolding is_incomplete
  new_evidence p items artifact = do
    fail_if (is_empty p.digest) unsealed
    let sorted = stable_sort (λ a b. pair_before a.kind a.name b.kind b.name) items
    fail_if (any is_incomplete sorted) invalid_item
    ok (record {
      proposal = p.digest;
      items = sorted;
      artifact_digest = artifact;
      digest = h.of_evidence p.digest sorted artifact;
    })
