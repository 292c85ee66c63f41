-- ===== src/Changes.antt =====
-- internal/app/changes.go: the projection of stored events to changes. One change is one deployment
-- operation; its events share an identity.
pub mod Identity
pub mod Status
pub mod Evidence
pub mod Build
pub mod Filter
use evidra_gitops.Base.{ℕ, String, Bool, Option, List}
use evidra_gitops.Event.{StoredEvent}

pub record PostDeployDegradation : Type 0 where
  pub observed : Bool
  pub first_timestamp : Option ℕ

pub record Change : Type 0 where
  pub id : String
  pub change_id : String
  pub permalink : String
  pub subject : String
  pub application : String
  pub project : String
  pub target_cluster : String
  pub namespace : String
  pub primary_provider : String
  pub primary_reference : String
  pub revision : String
  pub initiator : String
  pub external_change_id : String
  pub ticket_id : String
  pub approval_reference : String
  pub result_status : String
  pub health_status : String
  pub health_at_operation_start : String
  pub health_after_deploy : String
  pub post_deploy_degradation : PostDeployDegradation
  pub evidence_last_updated_at : ℕ
  pub evidence_window_seconds : ℕ
  pub evidence_may_be_incomplete : Bool
  pub has_approvals : Bool
  pub started_at : ℕ
  pub completed_at : ℕ
  pub event_count : ℕ

pub record ChangeDetail : Type 0 where
  pub change : Change
  pub events : List StoredEvent
