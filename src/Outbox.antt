-- ===== src/Outbox.antt =====
-- octonomy/events/models.py: the rows of the transactional outbox.
pub mod Retry
pub mod World
pub mod Dispatch
pub mod Machine
pub mod Run
pub mod Interleave
mod Tests
use octonomy.Prelude.{ℕ, String, Option}
use octonomy.Json.{Json}
use octonomy.Scope.{Namespace}

-- `OutboxEvent.Status`
pub data Status : Type 0 where
  pending processing published failed dead_letter : Status

pub record OutboxEvent : Type 0 where
  pub id : ℕ
  pub tenant_id : String
  pub application_id : Option String
  pub namespace : Namespace
  pub event_type : String
  pub aggregate_type : String
  pub aggregate_id : ℕ
  pub payload : Json
  pub metadata : Json
  pub status : Status
  pub attempts : ℕ
  pub recoveries : ℕ
  pub last_error : String
  pub available_at : ℕ
  pub claim_id : Option ℕ
  pub claimed_at : Option ℕ
  pub claim_expires_at : Option ℕ
  pub published_at : Option ℕ
  pub operation_id : Option ℕ
  pub request_id : Option String
  pub actor_id : Option String
  pub tag_id : Option ℕ
  pub resource_type : Option String
  pub resource_id : Option String
  pub created_at : ℕ
  pub updated_at : ℕ
