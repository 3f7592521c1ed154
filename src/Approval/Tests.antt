-- ===== src/Approval/Tests.antt =====
-- Runs of the approval service at concrete inputs.
use cerniq_app_v.Prelude.{
  ℕ, ◌≡◌, ◌≢◌, refl, [], ◌∷◌, map, length, true, false, ◌&&◌, none, some, ◌==◌, inl, inr, every,
  ◌≤◌, ◌⊎◌, arith, Option-cases,
}
use cerniq_app_v.Approval.Model
use cerniq_app_v.Approval.Model.{ApprovalTask, User, is_open, approve}
use cerniq_app_v.Approval.Audit.{Event, Payload, last_hash}
use cerniq_app_v.Approval.Service.{
  Db, Result, ok, err, CreateInput, DecideInput, has_elevated_role, cannot_be_reassigned,
  decided_status,
}
use cerniq_app_v.Approval.Operations.{decide, create_task, assign_task, created_row, decided_row}
use cerniq_app_v.Approval.Writes.{lookup_task}
use cerniq_app_v.Approval.Invariants.{IsMirrored, last_status}
use cerniq_app_v.Approval.Guarantees.{
  Command, perform, IsFresh, tenant_of, closed_stays, tenant_isolation, perform-IsMirrored,
}
use cerniq_app_v.Approval.Chain.{IsChained, history, perform-IsChained, history_determined}
use cerniq_app_v.Approval.Decisions.{MayDecide, decide_correct}
use cerniq_app_v.Approval.Escalation.{escalate_breached_tasks, breached_tasks, is_overdue}
use cerniq_app_v.Approval.Sweep.{escalate_breached_tasks_total}
use cerniq_app_v.Approval.Queries.{PendingTasksFilters, anyone, get_pending_tasks}
use cerniq_app_v.Approval.Reports.{get_pending_tasks_sound}

-- A hash that loses nothing: the event and the hashes before it.
data Digest : Type 0 where
  root : Event → Digest
  link : Event → Digest → Digest

abbrev digest : Payload Digest → Digest
digest p = elim p.previous_hash [ none ↦ root p.event | some h ↦ link p.event h ]

abbrev now : ℕ
now = 1000

abbrev boss : User
boss = record { id = 7; tenant_id = 1; role = Model.manager; is_active = true; updated_at = 5 }

abbrev empty_db : Db Digest
empty_db = record { tasks = []; audit = []; users = boss ∷ [] }

abbrev request : CreateInput
request = record {
  tenant_id = 1;
  entity_type = "company";
  entity_id = 40;
  approval_type = none;
  title = "merge two companies";
  pipeline_stage = none;
  priority = none;
  blocked_job_id = none;
  blocked_queue_name = none;
  created_by = none;
}

abbrev verdict : DecideInput
verdict = record {
  tenant_id = 1;
  task_id = 5;
  actor_id = 7;
  actor_role = none;
  decision = approve;
  reason = none;
}

abbrev result_or : Db Digest → Result (Db Digest) → Db Digest
result_or db (ok a) = a
result_or db (err e) = db

abbrev run : Command → Db Digest → Db Digest
run c db = result_or db (perform digest now c db)

abbrev create_5 : Command
create_5 = Command.create 5 request

abbrev decide_5 : Command
decide_5 = Command.decide verdict

abbrev assign_5 : Command
assign_5 =
    Command.assign (record { tenant_id = 1; task_id = 5; assignee_user_id = 7; actor_id = 7 })

abbrev create_6 : Command
create_6 = Command.create 6 request

abbrev open_db : Db Digest
open_db = run create_5 empty_db

abbrev closed_db : Db Digest
closed_db = run decide_5 open_db

abbrev later_db : Db Digest
later_db = run create_6 closed_db

abbrev task_5 : ApprovalTask
task_5 = decided_row now verdict (created_row now 5 request 7)

later-is : perform digest now create_6 closed_db ≡ ok later_db
unfolding perform create_task decide has_elevated_role
later-is = refl

closed-is : perform digest now decide_5 open_db ≡ ok closed_db
unfolding perform create_task decide has_elevated_role
closed-is = refl

open-is : perform digest now create_5 empty_db ≡ ok open_db
unfolding perform create_task
open-is = refl

-- A decided task is not assigned again.
assign-refused : perform digest now assign_5 closed_db ≡ err (cannot_be_reassigned Model.approved)
unfolding perform create_task assign_task decide has_elevated_role decided_status
assign-refused = refl

IsFresh-6 : IsFresh digest create_6 closed_db
unfolding perform create_task decide has_elevated_role
IsFresh-6 = refl

IsFresh-5 : IsFresh digest create_5 empty_db
IsFresh-5 = refl

found-5 : lookup_task 1 5 closed_db ≡ some task_5
unfolding perform create_task decide has_elevated_role
found-5 = refl

shut-5 : is_open task_5.status ≡ false
unfolding is_open decided_status
shut-5 = refl

closed_stays_example : lookup_task 1 5 later_db ≡ some task_5
closed_stays_example =
    closed_stays digest now create_6 closed_db later_db 1 5 task_5 IsFresh-6 later-is found-5 shut-5

foreign-6 : 2 ≢ tenant_of create_6
unfolding tenant_of
foreign-6 h = cc

tenant_isolation_example :
    (lookup_task 2 5 later_db ≡ lookup_task 2 5 closed_db)
    × (last_status 2 5 later_db.audit ≡ last_status 2 5 closed_db.audit)
tenant_isolation_example =
    tenant_isolation digest now create_6 closed_db later_db 2 5 IsFresh-6 later-is foreign-6

empty-IsMirrored : IsMirrored empty_db
empty-IsMirrored tenant task = tt

perform-IsMirrored_example : IsMirrored open_db
perform-IsMirrored_example =
    perform-IsMirrored digest now create_5 empty_db open_db IsFresh-5 open-is empty-IsMirrored

empty-IsChained : IsChained digest empty_db.audit
empty-IsChained = tt

perform-IsChained_example : IsChained digest open_db.audit
perform-IsChained_example =
    perform-IsChained digest now create_5 empty_db open_db IsFresh-5 open-is empty-IsChained

closed-IsChained : IsChained digest closed_db.audit
closed-IsChained =
    perform-IsChained digest now decide_5 open_db closed_db tt closed-is perform-IsChained_example

digest-injective : (p q : Payload Digest) → digest p ≡ digest q → p ≡ q
digest-injective p q h = elim (Option-cases p.previous_hash) [
  | inl p_first ↦ elim (Option-cases q.previous_hash) [
    | inl q_first ↦ ground arith
    | inr (i, q_later) ↦ absurd (ground arith)
  ]
  | inr (i, p_later) ↦ elim (Option-cases q.previous_hash) [
    | inl q_first ↦ absurd (ground arith)
    | inr (j, q_later) ↦ ground arith
  ]
]

later-IsChained : IsChained digest later_db.audit
later-IsChained =
    perform-IsChained digest now create_6 closed_db later_db IsFresh-6 later-is closed-IsChained

later-last_hash : last_hash 1 5 closed_db.audit ≡ last_hash 1 5 later_db.audit
unfolding perform create_task decide has_elevated_role decided_status last_hash
later-last_hash = refl

-- The log after another task's entry, and the one before it.
history_determined_example : history 1 5 closed_db.audit ≡ history 1 5 later_db.audit
history_determined_example =
    history_determined digest 1 5 digest-injective closed_db.audit later_db.audit closed-IsChained
      later-IsChained later-last_hash

decide-is : decide digest now verdict open_db ≡ ok (closed_db, task_5)
unfolding perform create_task decide has_elevated_role
decide-is = refl

decide_correct_example :
    (t : ApprovalTask) × (lookup_task 1 5 open_db ≡ some t)
    × (is_open t.status ≡ true)
    × MayDecide verdict t
    × (lookup_task 1 5 closed_db ≡ some task_5)
    × (((approve ≡ approve) ⊎ (approve ≡ Model.merge)) × (task_5.status ≡ Model.approved)
        ⊎ ((approve ≡ Model.reject) ⊎ (approve ≡ Model.skip)) × (task_5.status ≡ Model.rejected))
    × (task_5.decision ≡ some approve)
    × (task_5.decided_by ≡ some 7)
    × (task_5.decided_at ≡ some now)
decide_correct_example = decide_correct digest now verdict open_db closed_db task_5 decide-is

abbrev tomorrow : ℕ
tomorrow = 90000000

escalate_breached_tasks_total_example :
    (db' : Db Digest) × (escalate_breached_tasks digest tomorrow 1 open_db
      ≡ ok (
        db',
        length (breached_tasks digest tomorrow 1 open_db),
        map (λ t. t.id) (breached_tasks digest tomorrow 1 open_db),
      ))
    × (length (breached_tasks digest tomorrow 1 open_db) ≤ 100)
    × (every
          (λ t. is_open t.status && is_overdue tomorrow t)
          (breached_tasks digest tomorrow 1 open_db)
        ≡ true)
escalate_breached_tasks_total_example = escalate_breached_tasks_total digest tomorrow 1 open_db

abbrev everything : PendingTasksFilters
everything = record {
  statuses = [];
  assigned_to = anyone;
  approval_type = none;
  priority_level = none;
  pipeline_stage = none;
  overdue = false;
  sort_by = none;
  sort_dir = none;
  limit = none;
  offset = none;
}

get_pending_tasks_sound_example :
    (every (λ t. t.tenant_id == 1 && is_open t.status) (get_pending_tasks now 1 everything later_db)
      ≡ true)
    × (length (get_pending_tasks now 1 everything later_db) ≤ 200)
get_pending_tasks_sound_example = get_pending_tasks_sound now 1 everything later_db refl
