-- ===== src/Approval/Escalation.antt =====
-- `escalate` and `escalateBreachedTasks` of `ApprovalService`
-- (packages/db/src/services/approval-service.ts).
use cerniq_app_v.Prelude.{
  ℕ, ◌+◌, List, [], ◌∷◌, Bool, true, false, ◌&&◌, ◌||◌, Option, none, some, ◌==◌, if◌then◌else◌,
  filter_by, take, ltb, length,
}
use cerniq_app_v.Approval.Model
use cerniq_app_v.Approval.Model.{ApprovalStatus, ApprovalTask, User, Action, is_open}
use cerniq_app_v.Approval.Audit.{Event, Payload, of_escalate}
use cerniq_app_v.Approval.Service.{
  Db, Result, ok, ◌>>=◌, EscalateInput, escalation_role, escalation_target,
}
use cerniq_app_v.Approval.Operations.{actor_type_of, find_task, write_task}

-- `insertion sort` with a strict order: rows that it does not order stay as they were.
unfoldable pub insert_by {ℓ} : {A : Type ℓ} → (A → A → Bool) → A → List A → List A
insert_by before x [] = x ∷ []
insert_by before x (y ∷ ys) =
    let rest = insert_by before x ys in if before y x then y ∷ rest else x ∷ y ∷ ys

unfoldable pub sort_by {ℓ} : {A : Type ℓ} → (A → A → Bool) → List A → List A
unfolding insert_by
sort_by before [] = []
sort_by before (x ∷ xs) = insert_by before x (sort_by before xs)

-- `lt(approvalTasks.dueAt, now)`, which a missing due time does not satisfy.
unfoldable pub is_overdue : ℕ → ApprovalTask → Bool
is_overdue now t = elim t.due_at [ none ↦ false | some due ↦ ltb due now ]

-- Ascending due time, missing ones last; then descending time of creation.
unfoldable pub due_before : ApprovalTask → ApprovalTask → Bool
due_before a b = elim a.due_at [
  | none ↦ (elim b.due_at [ none ↦ ltb b.created_at a.created_at | some _ ↦ false ])
  | some x ↦ (elim b.due_at [
    | none ↦ true
    | some y ↦ ltb x y || (x == y && ltb b.created_at a.created_at)
  ])
]

-- Escalation goes to the target if there is one; otherwise the task expires.
unfoldable pub escalated_status : Option User → ApprovalStatus
escalated_status none = Model.expired
escalated_status (some _) = Model.escalated

unfoldable pub escalated_action : Option User → Action
escalated_action none = Action.expired
escalated_action (some _) = Action.escalated

abbrev pub id_of : Option User → Option ℕ
id_of none = none
id_of (some u) = some u.id

-- `targetUser?.id ?? task.assignedTo`
abbrev pub assignee_after : Option User → Option ℕ → Option ℕ
assignee_after none before = before
assignee_after (some u) before = some u.id

-- What `escalate` sets on the task that it read, and what it logs.
abbrev pub escalated_row : ℕ → Option User → ApprovalTask → ApprovalTask → ApprovalTask
escalated_row now target task t = record t {
  status = escalated_status target;
  escalation_level = task.escalation_level + 1;
  escalated_at = some now;
  escalated_to = id_of target;
  assigned_to = assignee_after target task.assigned_to;
  updated_at = now;
}

abbrev pub escalate_event : EscalateInput → Option User → Model.UserRole → ApprovalTask → Event
escalate_event input target role task = record {
  tenant_id = input.tenant_id;
  approval_task_id = input.task_id;
  action = escalated_action target;
  actor_id = input.actor_id;
  actor_type = actor_type_of input.actor_id;
  previous_status = some task.status;
  new_status = some (escalated_status target);
  metadata = of_escalate input.reason (id_of target) role (task.escalation_level + 1);
}

-- The input with which the sweep escalates a task.
abbrev pub sweep_input : ℕ → ApprovalTask → EscalateInput
sweep_input tenant t = record {
  tenant_id = tenant;
  task_id = t.id;
  actor_id = none;
  reason = "SLA breach auto escalation";
}

module _ {Hash : Type 0} (digest : Payload Hash → Hash) (now : ℕ) where
  -- A task that is not open is returned as it is.
  unfoldable pub escalate : EscalateInput → Db Hash → Result (Db Hash × ApprovalTask)
  unfolding find_task write_task is_open escalation_role escalation_target
  escalate input db = do
    task ← find_task input.tenant_id input.task_id db
    let role = escalation_role task.escalation_level
    let target = escalation_target input.tenant_id role db.users
    ok (
        if is_open task.status
        then write_task digest now task (escalated_row now target task)
            (escalate_event input target role task) db
        else (db, task))

  -- The open tasks that are past due: at most a hundred, in the order of their due times.
  unfoldable pub breached_tasks : ℕ → Db Hash → List ApprovalTask
  unfolding is_open is_overdue due_before sort_by
  breached_tasks tenant db = take 100 (
      sort_by due_before
        (filter_by (λ t. t.tenant_id == tenant && (is_open t.status && is_overdue now t)) db.tasks))

  -- The loop over the tasks found, each escalated by its id; the ids of the rows returned.
  unfoldable pub escalate_each : ℕ → List ApprovalTask → Db Hash → Result (Db Hash × List ℕ)
  unfolding escalate
  escalate_each tenant [] db = ok (db, [])
  escalate_each tenant (t ∷ ts) db = escalate (sweep_input tenant t) db >>= λ r.
      escalate_each tenant ts r.0 >>= λ s. ok (s.0, r.1.id ∷ s.1)

  -- The number of tasks scanned and the ids of the tasks escalated.
  unfoldable pub escalate_breached_tasks : ℕ → Db Hash → Result (Db Hash × ℕ × List ℕ)
  escalate_breached_tasks tenant db =
      let breached = breached_tasks tenant db in
      escalate_each tenant breached db >>= λ r. ok (r.0, length breached, r.1)
