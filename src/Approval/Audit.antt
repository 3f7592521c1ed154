-- ===== src/Approval/Audit.antt =====
-- The audit log of the approval service: `logAction` of packages/db/src/services/approval-service.ts.
-- SHA-256 of the JSON text of a payload is the parameter `digest`. The log is a list, newest entry
-- first, which is the order of `created_at` as long as no two entries are written at one instant.
use cerniq_app_v.Prelude.{ℕ, List, ◌∷◌, Bool, ◌&&◌, Option, none, some, String, ◌==◌, find_by}
use cerniq_app_v.Approval.Model.{
  ApprovalStatus, ApprovalPriority, ApprovalDecision, UserRole, Action, ActorType,
}

-- The `metadata` that each caller passes.
pub data Metadata : Type 0 where
  of_create : ApprovalPriority → String → Metadata
  of_assign : ℕ → Metadata
  of_decide : ApprovalDecision → Option String → Metadata
  of_escalate : String → Option ℕ → UserRole → ℕ → Metadata

pub record Event : Type 0 where
  pub tenant_id : ℕ
  pub approval_task_id : ℕ
  pub action : Action
  pub actor_id : Option ℕ
  pub actor_type : ActorType
  pub previous_status : Option ApprovalStatus
  pub new_status : Option ApprovalStatus
  pub metadata : Metadata

-- `payloadToHash`: the event with the hash of the entry before it.
pub record Payload (Hash : Type 0) : Type 0 where
  pub event : Event
  pub previous_hash : Option Hash

pub record Entry (Hash : Type 0) : Type 0 where
  pub event : Event
  pub previous_hash : Option Hash
  pub event_hash : Hash

-- The entries of one task of one tenant.
abbrev pub is_about : {Hash : Type 0} → ℕ → ℕ → Entry Hash → Bool
is_about tenant task e = e.event.tenant_id == tenant && e.event.approval_task_id == task

-- `previous?.eventHash ?? null`
unfoldable pub last_hash : {Hash : Type 0} → ℕ → ℕ → List (Entry Hash) → Option Hash
last_hash tenant task log = elim (find_by (is_about tenant task) log) [
  | none ↦ none
  | some e ↦ some e.event_hash
]

unfoldable pub log_action :
    {Hash : Type 0} → (Payload Hash → Hash) → Event → List (Entry Hash) → List (Entry Hash)
log_action digest event log =
    let previous = last_hash event.tenant_id event.approval_task_id log in
    record {
      event = event;
      previous_hash = previous;
      event_hash = digest (record { event = event; previous_hash = previous });
    }
    ∷ log
