-- ===== src/Governance/Stages.antt =====
-- governance/stage.rs
use taple_core.Prelude.{◌≡◌, ◌↔◌, Bool, true, false, arith, Str, text, Eq}

pub data ValidationStage : Type 0 where
  approve evaluate validate witness create invoke : ValidationStage

abbrev stage_beq : ValidationStage → ValidationStage → Bool
stage_beq approve approve = true
stage_beq evaluate evaluate = true
stage_beq validate validate = true
stage_beq witness witness = true
stage_beq create create = true
stage_beq invoke invoke = true
stage_beq _ _ = false

pub stage_beq_iff : (a b : ValidationStage) → (stage_beq a b ≡ true) ↔ (a ≡ b)
stage_beq_iff a b = (λ h. ground arith, λ h. ground arith)

instance abbrev pub stage_eq : Eq ValidationStage
stage_eq = record { test = stage_beq; test_iff = stage_beq_iff }

-- `ValidationStage::to_str`
unfoldable pub to_str : ValidationStage → Str
to_str approve = text "approve"
to_str evaluate = text "evaluate"
to_str validate = text "validate"
to_str witness = text "witness"
to_str create = text "create"
to_str invoke = text "issue"

-- `ValidationStage::to_role`
unfoldable pub to_role : ValidationStage → Str
to_role approve = text "APPROVER"
to_role evaluate = text "EVALUATOR"
to_role validate = text "VALIDATOR"
to_role witness = text "WITNESS"
to_role create = text "CREATOR"
to_role invoke = text "ISSUER"
