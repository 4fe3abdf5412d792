-- ===== src/AiControl/Controller/Assessed.antt =====
-- aicontrol/controller.go: a deployment of what `Assess` returned.
use pulp.Prelude.{
  ◌≡◌, ◌≢◌, ◌↔◌, ◌⊎◌, true, false, List, [], Option, none, some, ok, arith, All, Option-cases,
  Result-cases, inl, inr,
}
use pulp.Prelude.Text.{Text, text_eq}
use pulp.AiControl.Proposal.{Proposal, Evidence, EvidenceItem, Hashes, new_evidence}
use pulp.AiControl.Controller.{PolicyDecision, Approval, Answers, assess}
use pulp.AiControl.Controller.Gate.{IsCleared, HasApproval}

module _ (h : Hashes) where
  new_evidence-bound :
      (p : Proposal) (items : List EvidenceItem) (artifact : Text) (e : Evidence)
      → new_evidence h p items artifact ≡ ok e
      → (p.digest ≢ [])
        × (e.proposal ≡ p.digest)
        × (h.of_evidence e.proposal e.items e.artifact_digest ≡ e.digest)
  unfolding new_evidence
  new_evidence-bound p items artifact e k = ground arith

  assess-bound :
      (built : Option Text) (tested : Option (List EvidenceItem))
      (evaluated : Evidence → Option PolicyDecision) (p : Proposal) (actor : Text) (e : Evidence)
      (d : PolicyDecision)
      → (assess h built tested evaluated p actor).1 ≡ ok (e, d)
      → (p.digest ≢ [])
        × (e.proposal ≡ p.digest)
        × (h.of_evidence e.proposal e.items e.artifact_digest ≡ e.digest)
  unfolding assess
  assess-bound none tested evaluated p actor e d k = ground arith
  assess-bound (some artifact) none evaluated p actor e d k = ground arith
  assess-bound (some artifact) (some items) evaluated p actor e d k =
      elim (Result-cases (new_evidence h p items artifact)) [
        | inr (x, bad) ↦ absurd (ground arith)
        | inl (f, good) ↦ elim (Option-cases (evaluated f)) [
          | inl n ↦ absurd (ground arith)
          | inr (g, n) ↦ ground (arith, new_evidence-bound p items artifact f good)
        ]
      ]

  -- Evidence that `Assess` returned is never refused as unbound or modified: a deployment with it and
  -- its decision needs no more than that the policy still decides so and allows it, that every item
  -- passed, that there is an approval if one is wanted, and that the proposal is based on the current
  -- revision.
  pub assess-IsCleared :
      (built : Option Text) (tested : Option (List EvidenceItem))
      (evaluated : Evidence → Option PolicyDecision) (p : Proposal) (actor : Text) (e : Evidence)
      (d : PolicyDecision) (s : Answers) (a : Option Approval)
      → ((proposal : Text) (items : List EvidenceItem) (artifact : Text)
          → h.of_evidence proposal items artifact ≢ [])
      → (assess h built tested evaluated p actor).1 ≡ ok (e, d)
      → IsCleared h s p e d a ↔ (
          (s.decision ≡ some d)
          × (d.allowed ≡ true)
          × All (λ i. i.passed ≡ true) e.items
          × ((d.requires_approval ≡ false) ⊎ HasApproval s p e d a)
          × (s.current ≡ some p.content.base_revision))
  assess-IsCleared built tested evaluated p actor e d s a full k =
      let (sealed, bound, intact) = assess-bound built tested evaluated p actor e d k in
      (
        λ c. (c.current_decision, c.allowed, c.passed, c.approved, c.based),
        λ (current, allowed, passed, approved, based). record {
          sealed = sealed;
          bound = bound;
          sealed_evidence = λ n. ground (arith, full e.proposal e.items e.artifact_digest);
          intact = intact;
          current_decision = current;
          allowed = allowed;
          passed = passed;
          approved = approved;
          based = based;
        },
      )
