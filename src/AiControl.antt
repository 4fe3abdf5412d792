-- ===== src/AiControl.antt =====
-- aicontrol/: proposals for a running application, their assessment and their deployment.
pub mod Proposal
pub mod Controller
