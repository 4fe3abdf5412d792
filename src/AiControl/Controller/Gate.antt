-- ===== src/AiControl/Controller/Gate.antt =====
-- aicontrol/controller.go: what a deployment needs.
use pulp.Prelude.{
  ◌<◌, ◌≡◌, ◌≢◌, refl, sym, subst, ◌↔◌, ◌⊎◌, inl, inr, Bool, true, false, not, List, [], ◌∷◌,
  Option, none, some, ok, err, arith, contains, any, select, All, Option-cases, Result-cases,
}
use pulp.Prelude.Text.{Text, text_eq, is_empty, codes}
use pulp.AiControl.Proposal.{
  CapabilityDiff, Proposal, Evidence, EvidenceItem, Hashes, computed_digest,
}
use pulp.AiControl.Controller.{
  PolicyDecision, Approval, Answers, DeployError, Call, deploy_failed, deploy_call, rollback_call,
  denied, deployed_event, rolled_back_event, assess_failed, assessed_event, same_texts,
  same_decision, check_items, check_given, check_approval, check_revision, check_deploy, deploy,
  StaticPolicy, is_refused, evaluate_static,
}

same_texts_iff : (xs ys : List Text) → (same_texts xs ys ≡ true) ↔ (xs ≡ ys)
unfolding same_texts
same_texts_iff [] [] = (λ h. refl, λ h. refl)
same_texts_iff [] (y ∷ ys) = ground arith
same_texts_iff (x ∷ xs) [] = ground arith
same_texts_iff (x ∷ xs) (y ∷ ys) = ground (arith, same_texts_iff xs ys)

same_decision_iff : (x d : PolicyDecision) → (same_decision x d ≡ true) ↔ (x ≡ d)
unfolding same_decision
same_decision_iff x d = ground (arith, same_texts_iff x.reasons d.reasons)

check_items_iff :
    (items : List EvidenceItem) → (check_items items ≡ ok tt) ↔ All (λ i. i.passed ≡ true) items
unfolding check_items
check_items_iff [] = (λ h. tt, λ h. refl)
check_items_iff (i ∷ rest) = ground (arith, check_items_iff rest)

-- An approval of this proposal, evidence and policy, by someone, once, that has not expired and that
-- the verifier accepts.
pub record IsApproved (s : Answers) (p : Proposal) (e : Evidence) (d : PolicyDecision)
    (a : Approval) : Type 0 where
  pub of_proposal : a.proposal ≡ p.digest
  pub of_evidence : a.evidence ≡ e.digest
  pub of_policy : a.policy ≡ d.policy_digest
  pub approver : a.approver ≢ []
  pub nonce : a.nonce ≢ []
  pub in_time : s.now < a.expires_at
  pub verified : s.verified ≡ true

abbrev pub HasApproval : Answers → Proposal → Evidence → PolicyDecision → Option Approval → Type 0
HasApproval s p e d none = ⊥
HasApproval s p e d (some a) = IsApproved s p e d a

-- What a deployment needs.
pub record IsCleared (h : Hashes) (s : Answers) (p : Proposal) (e : Evidence) (d : PolicyDecision)
    (a : Option Approval) : Type 0 where
  pub sealed : p.digest ≢ []
  pub bound : e.proposal ≡ p.digest
  pub sealed_evidence : e.digest ≢ []
  pub intact : h.of_evidence e.proposal e.items e.artifact_digest ≡ e.digest
  pub current_decision : s.decision ≡ some d
  pub allowed : d.allowed ≡ true
  pub passed : All (λ i. i.passed ≡ true) e.items
  pub approved : (d.requires_approval ≡ false) ⊎ HasApproval s p e d a
  pub based : s.current ≡ some p.content.base_revision

check_given_iff :
    (s : Answers) (p : Proposal) (e : Evidence) (d : PolicyDecision) (a : Approval)
    → (check_given s p e d a ≡ ok tt) ↔ IsApproved s p e d a
unfolding check_given
check_given_iff s p e d a = ground arith

check_approval_iff :
    (s : Answers) (p : Proposal) (e : Evidence) (d : PolicyDecision) (a : Option Approval)
    → (check_approval s p e d a ≡ ok tt) ↔ ((d.requires_approval ≡ false) ⊎ HasApproval s p e d a)
unfolding check_approval
check_approval_iff s p e d none = ground arith
check_approval_iff s p e d (some a) = ground (arith, check_given_iff s p e d a)

check_revision_iff :
    (s : Answers) (p : Proposal)
    → (check_revision s p ≡ ok tt) ↔ (s.current ≡ some p.content.base_revision)
unfolding check_revision
check_revision_iff s p = elim (Option-cases s.current) [
  | inl e ↦ ground arith
  | inr (x, e) ↦ ground arith
]

abbrev pub is_deploy : Call → Bool
is_deploy (deploy_call p e) = true
is_deploy (rollback_call id) = false
is_deploy (denied p actor x) = false
is_deploy (deployed_event p actor id) = false
is_deploy (rolled_back_event id actor done) = false
is_deploy (assess_failed p actor) = false
is_deploy (assessed_event p actor e) = false

nil_or_cons :
    (cs : List CapabilityDiff)
    → (cs ≡ []) ⊎ ((c : CapabilityDiff) × (rest : List CapabilityDiff) × (cs ≡ c ∷ rest))
nil_or_cons [] = inl refl
nil_or_cons (c ∷ rest) = inr (c, rest, refl)

module _ (h : Hashes) where
  check_deploy_iff :
      (s : Answers) (p : Proposal) (e : Evidence) (d : PolicyDecision) (a : Option Approval)
      → (check_deploy h s p e d a ≡ ok tt) ↔ IsCleared h s p e d a
  unfolding check_deploy computed_digest
  check_deploy_iff s p e d a = elim (Option-cases s.decision) [
    | inl none_given ↦ ground arith
    | inr (x, given) ↦ ground (
      arith,
      same_decision_iff x d,
      check_items_iff e.items,
      check_approval_iff s p e d a,
      check_revision_iff s p,
    )
  ]

  module _ (s : Answers) (p : Proposal) (e : Evidence) (d : PolicyDecision) (a : Option Approval)
      (actor : Text) where
    deploy-refused :
        (x : DeployError)
        → check_deploy h s p e d a ≡ err x
        → deploy h s p e d a actor ≡ (denied p.digest actor x ∷ [], err x)
    unfolding deploy
    deploy-refused x refused = ground arith

    deploy-failed :
        check_deploy h s p e d a ≡ ok tt
        → s.deployed ≡ none
        → deploy h s p e d a actor
          ≡ (deploy_call p e ∷ denied p.digest actor deploy_failed ∷ [], err deploy_failed)
    unfolding deploy
    deploy-failed cleared failed = ground arith

    deploy-done :
        (id : Text)
        → check_deploy h s p e d a ≡ ok tt
        → s.deployed ≡ some id
        → deploy h s p e d a actor
          ≡ (deploy_call p e ∷ deployed_event p.digest actor id ∷ [], ok id)
    unfolding deploy
    deploy-done id cleared done = ground arith

    -- `Deploy` calls the deployer exactly if everything that a deployment needs is there; it succeeds
    -- exactly if that call does too, with its identifier, and otherwise refuses with one event in the
    -- audit.
    pub deploy_iff :
        ((any is_deploy (deploy h s p e d a actor).0 ≡ true) ↔ IsCleared h s p e d a)
        × ((id : Text)
            → ((deploy h s p e d a actor).1 ≡ ok id)
              ↔ (IsCleared h s p e d a × (s.deployed ≡ some id)))
        × (((id : Text) × ((deploy h s p e d a actor).1 ≡ ok id))
            ⊎ ((x : DeployError) × ((deploy h s p e d a actor).1 ≡ err x)
                × (select (λ c. not (is_deploy c)) (deploy h s p e d a actor).0
                    ≡ denied p.digest actor x ∷ [])))
    deploy_iff = elim (Result-cases (check_deploy h s p e d a)) [
      | inr (x, refused) ↦
          let never : ¬ IsCleared h s p e d a = λ c. cc ((check_deploy_iff s p e d a).1 c) in
          rw (deploy-refused x refused) (
            (λ k. cc, λ c. absurd (never c)),
            λ id. (λ k. cc, λ c. absurd (never c.0)),
            inr (x, refl, refl),
          )
      | inl (u, cleared) ↦
          let all : IsCleared h s p e d a = (check_deploy_iff s p e d a).0 cleared in
          elim (Option-cases s.deployed) [
            | inl failed ↦
                rw (deploy-failed cleared failed)
                  ((λ k. all, λ c. refl), λ id. (λ k. cc, λ c. cc), inr (deploy_failed, refl, refl))
            | inr (id', done) ↦
                rw (deploy-done id' cleared done)
                  ((λ k. all, λ c. refl), λ id. (λ k. (all, cc), λ c. cc), inl (id', refl))
          ]
    ]

  select-nil :
      (allowed : List Text) (cs : List CapabilityDiff)
      → is_empty (select (is_refused allowed) cs) ≡ true
      → All (λ c. (c.change ≡ codes "add") → contains allowed c.capability ≡ true) cs
  unfolding is_refused
  select-nil allowed [] k = tt
  select-nil allowed (c ∷ cs) k = ground (arith, select-nil allowed cs)

  static-allowed :
      (policy : StaticPolicy) (p : Proposal)
      → (evaluate_static policy p).allowed ≡ true
      → is_empty (select (is_refused policy.allowed_capabilities) p.content.capabilities) ≡ true
  unfolding evaluate_static
  static-allowed policy p k =
      elim (nil_or_cons (select (is_refused policy.allowed_capabilities) p.content.capabilities)) [
        | inl e ↦ ground arith
        | inr (c, cs, e) ↦ absurd (ground arith)
      ]

  static-approval :
      (policy : StaticPolicy) (p : Proposal)
      → (evaluate_static policy p).requires_approval ≡ policy.require_approval
  unfolding evaluate_static
  static-approval policy p = refl

  -- Under a static policy a deployment that succeeds adds no capability outside the policy's list, and
  -- has an approval if the policy wants one.
  pub deploy-static :
      (policy : StaticPolicy) (s : Answers) (p : Proposal) (e : Evidence) (d : PolicyDecision)
      (a : Option Approval) (actor id : Text)
      → s.decision ≡ some (evaluate_static policy p)
      → (deploy h s p e d a actor).1 ≡ ok id
      → All
          (λ c. (c.change ≡ codes "add") → contains policy.allowed_capabilities c.capability ≡ true)
          p.content.capabilities
        × ((policy.require_approval ≡ false) ⊎ HasApproval s p e d a)
  deploy-static policy s p e d a actor id current done =
      let all : IsCleared h s p e d a = (((deploy_iff s p e d a actor).1 id).0 done).0 in
      let same : evaluate_static policy p ≡ d = (cc (all.current_decision)) in
      (
        select-nil policy.allowed_capabilities p.content.capabilities
            (static-allowed policy p (subst (λ x. x.allowed ≡ true) (sym same) all.allowed)),
        ground (arith, all.approved, static-approval policy p),
      )
