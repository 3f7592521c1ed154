-- ===== src/Approval/Operations.antt =====
-- `createTask`, `assignTask` and `decide` of `ApprovalService` (packages/db/src/services/approval-service.ts).
use cerniq_app_v.Prelude.{ℕ, ◌∷◌, Bool, true, false, Option, none, some, find_by}
use cerniq_app_v.Prelude.Rows.{update_where}
use cerniq_app_v.Approval.Model
use cerniq_app_v.Approval.Model.{
  ApprovalStatus, ApprovalTask, User, UserRole, Action, is_open, has_key, user, system,
}
use cerniq_app_v.Approval.Audit.{Event, Payload, log_action, of_create, of_assign, of_decide}
use cerniq_app_v.Approval.Service.{
  Db, Error, Result, ok, err, ◌>>=◌, CreateInput, AssignInput, DecideInput, or_else, sla_hours,
  now_plus_hours, urgency_of, requester, may_decide, decided_status, task_not_found,
  cannot_be_reassigned, cannot_be_decided, forbidden,
}

-- A person if an id is given, otherwise the system.
abbrev pub actor_type_of : Option ℕ → Model.ActorType
actor_type_of none = system
actor_type_of (some _) = user

abbrev pub guard : Bool → Error → Result (Unit {0})
guard true e = ok tt
guard false e = err e

infixl 5 ◌>>◌
abbrev pub ◌>>◌ {ℓ} : {B : Type ℓ} → Result (Unit {0}) → Result B → Result B
m >> k = m >>= λ _. k

-- `findFirst` by tenant and id; what to throw if there is no such task.
unfoldable pub find_task : {Hash : Type 0} → ℕ → ℕ → Db Hash → Result ApprovalTask
find_task tenant task db = elim (find_by (has_key tenant task) db.tasks) [
  | none ↦ err task_not_found
  | some t ↦ ok t
]

-- The row that `createTask` inserts; `new_id` is the id that the database gives it.
unfoldable pub created_row : ℕ → ℕ → CreateInput → ℕ → ApprovalTask
unfolding sla_hours now_plus_hours urgency_of
created_row now new_id input requested_by =
    let priority = or_else input.priority Model.normal in
    let due = now_plus_hours now (sla_hours priority) in
    record {
      id = new_id;
      tenant_id = input.tenant_id;
      approval_type = or_else input.approval_type "manual_verification";
      status = Model.pending;
      urgency = urgency_of priority;
      priority_level = priority;
      pipeline_stage = or_else input.pipeline_stage "E1";
      entity_type = input.entity_type;
      entity_id = input.entity_id;
      title = input.title;
      requested_by = requested_by;
      created_by = input.created_by;
      assigned_to = none;
      assigned_at = none;
      decided_by = none;
      decided_at = none;
      decision = none;
      decision_reason = none;
      due_at = some due;
      expires_at = some due;
      escalation_level = 0;
      escalated_at = none;
      escalated_to = none;
      blocked_job_id = input.blocked_job_id;
      blocked_queue_name = input.blocked_queue_name;
      created_at = now;
      updated_at = now;
    }

abbrev pub create_event : ℕ → CreateInput → Event
create_event new_id input = record {
  tenant_id = input.tenant_id;
  approval_task_id = new_id;
  action = Action.created;
  actor_id = input.created_by;
  actor_type = actor_type_of input.created_by;
  previous_status = none;
  new_status = some Model.pending;
  metadata =
      of_create (or_else input.priority Model.normal)
        (or_else input.approval_type "manual_verification");
}

-- What `assignTask` sets, and what it logs.
abbrev pub assigned_row : ℕ → AssignInput → ApprovalTask → ApprovalTask
assigned_row now input t = record t {
  assigned_to = some input.assignee_user_id;
  assigned_at = some now;
  status = Model.assigned;
  updated_at = now;
}

abbrev pub assign_event : AssignInput → ApprovalTask → Event
assign_event input current = record {
  tenant_id = input.tenant_id;
  approval_task_id = input.task_id;
  action = Action.assigned;
  actor_id = some input.actor_id;
  actor_type = user;
  previous_status = some current.status;
  new_status = some Model.assigned;
  metadata = of_assign input.assignee_user_id;
}

-- What `decide` sets, and what it logs.
abbrev pub decided_row : ℕ → DecideInput → ApprovalTask → ApprovalTask
decided_row now input t = record t {
  status = decided_status input.decision;
  decision = some input.decision;
  -- an undefined value is left out of the update
  decision_reason = elim input.reason [ none ↦ t.decision_reason | some r ↦ some r ];
  decided_by = some input.actor_id;
  decided_at = some now;
  updated_at = now;
}

abbrev pub decide_event : DecideInput → ApprovalTask → Event
decide_event input existing = record {
  tenant_id = input.tenant_id;
  approval_task_id = input.task_id;
  action = Action.decided;
  actor_id = some input.actor_id;
  actor_type = user;
  previous_status = some existing.status;
  new_status = some (decided_status input.decision);
  metadata = of_decide input.decision input.reason;
}

module _ {Hash : Type 0} (digest : Payload Hash → Hash) (now : ℕ) where
  unfoldable pub create_task : ℕ → CreateInput → Db Hash → Result (Db Hash × ApprovalTask)
  unfolding requester log_action created_row
  create_task new_id input db =
      requester input.created_by input.tenant_id db.users >>= λ requested_by.
      let task = created_row now new_id input requested_by in
      let event = create_event new_id input in
      ok (record db { tasks = task ∷ db.tasks; audit = log_action digest event db.audit }, task)

  -- `update … set … where tenant and id` with `returning`, and the audit entry, in one transaction.
  -- The row returned is the task that was read, changed.
  unfoldable pub write_task :
      ApprovalTask → (ApprovalTask → ApprovalTask) → Event → Db Hash → Db Hash × ApprovalTask
  unfolding update_where log_action
  write_task current set event db = (
    record db {
      tasks = update_where (has_key event.tenant_id event.approval_task_id) set db.tasks;
      audit = log_action digest event db.audit;
    },
    set current,
  )

  unfoldable pub assign_task : AssignInput → Db Hash → Result (Db Hash × ApprovalTask)
  unfolding find_task write_task is_open
  assign_task input db = do
    current ← find_task input.tenant_id input.task_id db
    guard (is_open current.status) (cannot_be_reassigned current.status)
    ok (write_task current (assigned_row now input) (assign_event input current) db)

  unfoldable pub decide : DecideInput → Db Hash → Result (Db Hash × ApprovalTask)
  unfolding find_task write_task is_open may_decide
  decide input db = do
    existing ← find_task input.tenant_id input.task_id db
    guard (is_open existing.status) (cannot_be_decided existing.status)
    guard (may_decide existing input) forbidden
    ok (write_task existing (decided_row now input) (decide_event input existing) db)
