-- ===== src/Argo.antt =====
-- internal/ingest/argo: the events of Argo CD applications, and the cursor that is kept for each
-- application.
pub mod Checkpoint
pub mod Normalize
pub mod Collector
pub mod Client
use evidra_gitops.Base.{ℕ, String, Option}
use evidra_gitops.Base.Int.{ℤ}
use evidra_gitops.Base.Dict.{Dict}
use evidra_gitops.Value.{Value}

pub record SourceEvent : Type 0 where
  pub id : String
  pub app_uid : String
  pub app : String
  pub cluster : String
  pub namespace : String
  pub revision : String
  pub occurred : ℕ
  pub actor : String
  pub event_type : String
  pub result : String
  pub health_status : String
  pub history_id : ℤ
  pub operation_key : String
  pub payload : Option (Dict Value)

pub record AppCheckpoint : Type 0 where
  pub last_history_id : ℤ
  pub last_history_at : ℕ
  pub last_start_key : String
  pub last_terminal_key : String
  pub last_health : String
