-- ===== src/Tests/Deployments.antt =====
-- aicontrol/controller.go.
use pulp.Prelude.{
  ◌≡◌, ◌≢◌, refl, ◌↔◌, ◌⊎◌, true, false, not, [], ◌∷◌, List, Option, none, some, ok, err, All, any,
  select, ◌++◌, contains,
}
use pulp.Prelude.Text.{Text, codes, text_eq, compare_text}
use pulp.Prelude.Sorting.{stable_sort}
use pulp.AiControl.Proposal.{
  Proposal, Evidence, EvidenceItem, Hashes, new_evidence, computed_digest,
}
use pulp.AiControl.Controller.{
  PolicyDecision, Answers, DeployError, denied, deploy, assess, StaticPolicy, evaluate_static,
  check_deploy, same_texts,
}
use pulp.AiControl.Controller.Gate.{IsCleared, HasApproval, is_deploy, deploy_iff, deploy-static}
use pulp.AiControl.Controller.Assessed.{assess-IsCleared}

-- Digests that are a letter before a name.
abbrev marks : Hashes
marks = record {
  of_content = λ d. b'p' ∷ d.intent;
  of_evidence = λ proposal items artifact. b'e' ∷ (proposal ++ artifact);
}

abbrev plan : Proposal
plan = record {
  digest = codes "pgrow";
  content = record {
    base_revision = codes "r1";
    intent = codes "grow";
    graph = [];
    lua = [];
    contracts = [];
    capabilities =
        record { module_ = codes "cart"; capability = codes "fs"; change = codes "add" }
        ∷ record { module_ = codes "cart"; capability = codes "net"; change = codes "remove" }
        ∷ [];
  };
}

abbrev items : List EvidenceItem
items = record { kind = codes "test"; name = codes "unit"; digest = codes "d"; passed = true } ∷ []

abbrev proof : Evidence
proof = record {
  proposal = codes "pgrow";
  items = items;
  artifact_digest = codes "w";
  digest = codes "epgroww";
}

abbrev policy : StaticPolicy
policy = record {
  digest = codes "s";
  allowed_capabilities = codes "fs" ∷ [];
  require_approval = false;
}

abbrev decision : PolicyDecision
decision = record {
  policy_digest = codes "s";
  allowed = true;
  reasons = [];
  requires_approval = false;
}

abbrev answers : Answers
answers = record {
  decision = some decision;
  now = 5;
  verified = true;
  current = some (codes "r1");
  deployed = some (codes "d7");
}

decided : answers.decision ≡ some (evaluate_static policy plan)
unfolding evaluate_static text_eq
decided = refl

deployed : (deploy marks answers plan proof decision none (codes "bot")).1 ≡ ok (codes "d7")
unfolding deploy same_texts check_deploy text_eq computed_digest
deployed = refl

deploy_iff_example :
    ((any is_deploy (deploy marks answers plan proof decision none (codes "bot")).0 ≡ true)
      ↔ IsCleared marks answers plan proof decision none)
    × ((id : Text)
        → ((deploy marks answers plan proof decision none (codes "bot")).1 ≡ ok id)
          ↔ (IsCleared marks answers plan proof decision none × (answers.deployed ≡ some id)))
    × (((id : Text) × ((deploy marks answers plan proof decision none (codes "bot")).1 ≡ ok id))
        ⊎ ((x : DeployError) × ((deploy marks answers plan proof decision none (codes "bot")).1
              ≡ err x)
            × (select
                  (λ c. not (is_deploy c))
                  (deploy marks answers plan proof decision none (codes "bot")).0
                ≡ denied plan.digest (codes "bot") x ∷ [])))
deploy_iff_example = deploy_iff marks answers plan proof decision none (codes "bot")

deploy-static_example :
    All
      (λ c. (c.change ≡ codes "add") → contains policy.allowed_capabilities c.capability ≡ true)
      plan.content.capabilities
    × ((policy.require_approval ≡ false) ⊎ HasApproval answers plan proof decision none)
deploy-static_example =
    deploy-static marks policy answers plan proof decision none (codes "bot") (codes "d7") decided
      deployed

abbrev judge : Evidence → Option PolicyDecision
judge e = some decision

never_empty :
    (proposal : Text) (items : List EvidenceItem) (artifact : Text)
    → marks.of_evidence proposal items artifact ≢ []
never_empty proposal items artifact e = cc

assessed :
    (assess marks (some (codes "w")) (some items) judge plan (codes "bot")).1 ≡ ok (proof, decision)
unfolding assess new_evidence stable_sort compare_text
assessed = refl

assess-IsCleared_example : IsCleared marks answers plan proof decision none ↔ (
    (answers.decision ≡ some decision)
    × (decision.allowed ≡ true)
    × All (λ i. i.passed ≡ true) proof.items
    × ((decision.requires_approval ≡ false) ⊎ HasApproval answers plan proof decision none)
    × (answers.current ≡ some plan.content.base_revision))
assess-IsCleared_example =
    assess-IsCleared marks (some (codes "w")) (some items) judge plan (codes "bot") proof decision
      answers none never_empty assessed
