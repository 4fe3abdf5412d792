-- ===== src/AiControl/Controller.antt =====
-- aicontrol/controller.go. The mutex makes a call of `Deploy` or `Rollback` one step. What the ports
-- answer is an argument, since each is asked at most once for its answer; the calls with an effect are
-- listed in their order, with the events of the audit.
pub mod Gate
pub mod Assessed
use pulp.Prelude.{
  ℕ, ◌≡◌, Bool, true, false, not, ◌&&◌, ◌||◌, List, [], ◌∷◌, ◌++◌, Option, none, some, Result, ok,
  err, fail_if, or_fail, ◌>>=◌, ◌>>◌, ◌==◌, contains, if◌then◌else◌, ltb, any, select, map,
}
use pulp.Prelude.Text.{Text, text_eq, is_empty, codes}
use pulp.AiControl.Proposal.{
  CapabilityDiff, Proposal, Evidence, EvidenceItem, Hashes, ProposalError, computed_digest,
  new_evidence,
}

pub record PolicyDecision : Type 0 where
  pub policy_digest : Text
  pub allowed : Bool
  pub reasons : List Text
  pub requires_approval : Bool

-- The time is in the clock's units.
pub record Approval : Type 0 where
  pub proposal : Text
  pub evidence : Text
  pub policy : Text
  pub approver : Text
  pub nonce : Text
  pub expires_at : ℕ
  pub signature : Text

-- What the ports answer to the calls of one `Deploy`; `none` is an error.
pub record Answers : Type 0 where
  pub decision : Option PolicyDecision
  pub now : ℕ
  pub verified : Bool
  pub current : Option Text
  pub deployed : Option Text

pub data DeployError : Type 0 where
  unbound_evidence modified_evidence policy_failed decision_mismatch : DeployError
  policy_denied : List Text → DeployError
  evidence_failed : Text → Text → DeployError
  approval_required approval_mismatch approval_incomplete approval_rejected : DeployError
  revision_unread deploy_failed : DeployError
  stale_proposal : Text → Text → DeployError

-- The calls with an effect, and the audit's events by their result and detail.
pub data Call : Type 0 where
  deploy_call : Proposal → Evidence → Call
  rollback_call : Text → Call
  denied : Text → Text → DeployError → Call
  deployed_event : Text → Text → Text → Call
  rolled_back_event : Text → Text → Bool → Call
  assess_failed : Text → Text → Call
  assessed_event : Text → Text → Text → Call

-- slices.Equal
unfoldable pub same_texts : List Text → List Text → Bool
same_texts [] [] = true
same_texts [] (_ ∷ _) = false
same_texts (_ ∷ _) [] = false
same_texts (a ∷ xs) (b ∷ ys) = a == b && same_texts xs ys

same_flag : Bool → Bool → Bool
same_flag true b = b
same_flag false b = not b

unfoldable pub same_decision : PolicyDecision → PolicyDecision → Bool
unfolding same_texts same_flag
same_decision x d =
    x.policy_digest == d.policy_digest
    && same_flag x.allowed d.allowed
    && same_flag x.requires_approval d.requires_approval
    && same_texts x.reasons d.reasons

-- The loop over the evidence.
unfoldable pub check_items : List EvidenceItem → Result DeployError (Unit {0})
check_items [] = ok tt
check_items (i ∷ rest) = do fail_if (not i.passed) (evidence_failed i.kind i.name); check_items rest

-- The tests on an approval that is there.
unfoldable pub check_given :
    Answers → Proposal → Evidence → PolicyDecision → Approval → Result DeployError (Unit {0})
check_given s p e d a = do
  fail_if (not (a.proposal == p.digest && a.evidence == e.digest && a.policy == d.policy_digest))
      approval_mismatch
  fail_if (is_empty a.approver || is_empty a.nonce || not (ltb s.now a.expires_at))
      approval_incomplete
  fail_if (not s.verified) approval_rejected

unfoldable pub check_approval :
    Answers → Proposal → Evidence → PolicyDecision → Option Approval → Result DeployError (Unit {0})
unfolding check_given
check_approval s p e d none = fail_if d.requires_approval approval_required
check_approval s p e d (some a) = if d.requires_approval then check_given s p e d a else ok tt

unfoldable pub check_revision : Answers → Proposal → Result DeployError (Unit {0})
check_revision s p = do
  current ← or_fail s.current revision_unread
  fail_if (not (current == p.content.base_revision))
      (stale_proposal p.content.base_revision current)

module _ (h : Hashes) where
  -- `Deploy` up to the call of the deployer.
  unfoldable pub check_deploy :
      Answers
      → Proposal
      → Evidence
      → PolicyDecision
      → Option Approval
      → Result DeployError (Unit {0})
  unfolding same_decision check_items check_approval check_revision
  check_deploy s p e d a = do
    fail_if (is_empty p.digest || not (e.proposal == p.digest) || is_empty e.digest)
        unbound_evidence
    fail_if (not (computed_digest h e == e.digest)) modified_evidence
    verified ← or_fail s.decision policy_failed
    fail_if (not (same_decision verified d)) decision_mismatch
    fail_if (not d.allowed) (policy_denied d.reasons)
    check_items e.items
    check_approval s p e d a
    check_revision s p

  -- `Deploy`: the calls made, and the result.
  unfoldable pub deploy :
      Answers
      → Proposal
      → Evidence
      → PolicyDecision
      → Option Approval
      → Text
      → List Call × Result DeployError Text
  unfolding check_deploy
  deploy s p e d a actor = elim (check_deploy s p e d a) [
    | err x ↦ (denied p.digest actor x ∷ [], err x)
    | ok _ ↦ elim s.deployed [
      | none ↦ (deploy_call p e ∷ denied p.digest actor deploy_failed ∷ [], err deploy_failed)
      | some id ↦ (deploy_call p e ∷ deployed_event p.digest actor id ∷ [], ok id)
    ]
  ]

  pub data AssessError : Type 0 where
    unsealed_proposal build_failed test_failed evaluation_failed empty_policy_digest : AssessError
    bad_evidence : ProposalError → AssessError

  -- `Assess`, by what the builder, the tester and the policy answer.
  unfoldable pub assess :
      Option Text
      → Option (List EvidenceItem)
      → (Evidence → Option PolicyDecision)
      → Proposal
      → Text
      → List Call × Result AssessError (Evidence × PolicyDecision)
  assess built tested evaluated p actor =
      if is_empty p.digest then ([], err unsealed_proposal) else elim built [
        | none ↦ (assess_failed p.digest actor ∷ [], err build_failed)
        | some artifact ↦ elim tested [
          | none ↦ (assess_failed p.digest actor ∷ [], err test_failed)
          | some items ↦ elim (new_evidence h p items artifact) [
            | err x ↦ ([], err (bad_evidence x))
            | ok e ↦ elim (evaluated e) [
              | none ↦ ([], err evaluation_failed)
              | some d ↦
                  if is_empty d.policy_digest
                  then ([], err empty_policy_digest)
                  else (assessed_event p.digest actor e.digest ∷ [], ok (e, d))
            ]
          ]
        ]
      ]

-- `Rollback`, with whether the deployer's call succeeds; the flag is the result.
unfoldable pub roll_back : Bool → Text → Text → List Call × Bool
roll_back done id actor =
    if is_empty id
    then ([], false)
    else (rollback_call id ∷ rolled_back_event id actor done ∷ [], done)

pub record StaticPolicy : Type 0 where
  pub digest : Text
  pub allowed_capabilities : List Text
  pub require_approval : Bool

unfoldable pub is_refused : List Text → CapabilityDiff → Bool
is_refused allowed c = c.change == codes "add" && not (contains allowed c.capability)

refusal : CapabilityDiff → Text
refusal c = codes "capability not allowed: " ++ (c.module_ ++ b'/' ∷ c.capability)

-- `StaticPolicy.Evaluate`; membership does not depend on the order of the sorted copy.
unfoldable pub evaluate_static : StaticPolicy → Proposal → PolicyDecision
unfolding is_refused refusal
evaluate_static policy p =
    let reasons =
      map refusal (select (is_refused policy.allowed_capabilities) p.content.capabilities) in
    record {
      policy_digest = policy.digest;
      allowed = is_empty reasons;
      reasons = reasons;
      requires_approval = policy.require_approval;
    }
