-- ===== src/Governance/Interface.antt =====
-- The part of `GovernanceInterface` (governance/governance.rs) that other components ask for.
use taple_core.Prelude.{ℕ, List, Result}
use taple_core.Identifier.Digests.{DigestIdentifier}
use taple_core.Identifier.Keys.{KeyIdentifier}
use taple_core.Models.Events.{Metadata}
use taple_core.Governance.Stages.{ValidationStage}
use taple_core.Governance.Errors.{RequestError}

-- The answers that the governance component gives at one moment.
pub record GovernanceApi : Type 0 where
  pub get_governance_version : DigestIdentifier → DigestIdentifier → Result ℕ RequestError
  pub get_signers : Metadata → ValidationStage → Result (List KeyIdentifier) RequestError
  pub get_quorum : Metadata → ValidationStage → Result ℕ RequestError
