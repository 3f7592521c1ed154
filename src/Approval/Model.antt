-- ===== src/Approval/Model.antt =====
-- The rows that the approval service reads and writes: packages/db/src/schemas/approval.ts,
-- audit.ts and users.ts, the columns that the service uses.
-- An id (uuid) is a number: the service only compares ids. A time is a number of milliseconds.
use cerniq_app_v.Prelude.{ℕ, Bool, true, false, ◌&&◌, Option, String, ◌==◌}

pub data ApprovalStatus : Type 0 where
  pending assigned approved rejected escalated expired cancelled : ApprovalStatus

pub data ApprovalPriority : Type 0 where
  critical high normal low : ApprovalPriority

pub data Urgency : Type 0 where
  low medium high critical : Urgency

pub data ApprovalDecision : Type 0 where
  approve reject merge skip : ApprovalDecision

pub data UserRole : Type 0 where
  owner admin manager operator viewer : UserRole

pub record ApprovalTask : Type 0 where
  pub id : ℕ
  pub tenant_id : ℕ
  pub approval_type : String
  pub status : ApprovalStatus
  pub urgency : Urgency
  pub priority_level : ApprovalPriority
  pub pipeline_stage : String
  pub entity_type : String
  pub entity_id : ℕ
  pub title : String
  pub requested_by : ℕ
  pub created_by : Option ℕ
  pub assigned_to : Option ℕ
  pub assigned_at : Option ℕ
  pub decided_by : Option ℕ
  pub decided_at : Option ℕ
  pub decision : Option ApprovalDecision
  pub decision_reason : Option String
  pub due_at : Option ℕ
  pub expires_at : Option ℕ
  pub escalation_level : ℕ
  pub escalated_at : Option ℕ
  pub escalated_to : Option ℕ
  pub blocked_job_id : Option String
  pub blocked_queue_name : Option String
  pub created_at : ℕ
  pub updated_at : ℕ

pub record User : Type 0 where
  pub id : ℕ
  pub tenant_id : ℕ
  pub role : UserRole
  pub is_active : Bool
  pub updated_at : ℕ

pub data Action : Type 0 where
  created assigned decided escalated expired : Action

pub data ActorType : Type 0 where
  user system scheduler : ActorType

-- The statuses in which a task may still be assigned, decided or escalated.
unfoldable pub is_open : ApprovalStatus → Bool
is_open pending = true
is_open assigned = true
is_open escalated = true
is_open _ = false

-- `eq(t.tenantId, tenantId) && eq(t.id, taskId)`
abbrev pub has_key : ℕ → ℕ → ApprovalTask → Bool
has_key tenant task t = t.tenant_id == tenant && t.id == task

-- The order of the values of `user_role` in the database: the order of their declaration.
unfoldable pub role_rank : UserRole → ℕ
role_rank owner = 0
role_rank admin = 1
role_rank manager = 2
role_rank operator = 3
role_rank viewer = 4

abbrev pub same_role : UserRole → UserRole → Bool
same_role a b = role_rank a == role_rank b
