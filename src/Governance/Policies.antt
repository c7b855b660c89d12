-- ===== src/Governance/Policies.antt =====
-- schema_handler/gov_models.rs: the roles and quorums that a governance lists. The percentage is a
-- float, so its type `F` is a parameter.
use taple_core.Prelude.{ℕ, Str}

pub data Quorum (F : Type 0) : Type 0 where
  majority : Quorum F
  fixed : ℕ → Quorum F
  percentage : F → Quorum F

pub data Who : Type 0 where
  id name : Str → Who
  members all not_members : Who

pub data SchemaEnum : Type 0 where
  id : Str → SchemaEnum
  not_governance all : SchemaEnum

pub record Role : Type 0 where
  pub who : Who
  pub namespace : Str
  pub role : Str
  pub schema : SchemaEnum
