-- ===== src/Approval/Writes.antt =====
-- What readers of the tasks and of the audit log see after one write.
use cerniq_app_v.Prelude.{
  ℕ, ◌≡◌, refl, ◌∙◌, false, ◌&&◌, Option, some, arith, ◌==◌, find_by, Option-cases, inl, inr,
}
use cerniq_app_v.Prelude.Rows.{find_by-update_where, find_by-update_other}
use cerniq_app_v.Approval.Model.{ApprovalTask, has_key}
use cerniq_app_v.Approval.Audit.{Event, Payload}
use cerniq_app_v.Approval.Service.{Db, ok}
use cerniq_app_v.Approval.Operations.{find_task, write_task}

-- A change that keeps the columns by which a task is found.
abbrev pub KeepsKey : (ApprovalTask → ApprovalTask) → Type 0
KeepsKey set = (t : ApprovalTask) → ((set t).id ≡ t.id) × ((set t).tenant_id ≡ t.tenant_id)

-- A task as readers find it.
abbrev pub lookup_task : {Hash : Type 0} → ℕ → ℕ → Db Hash → Option ApprovalTask
lookup_task tenant task db = find_by (has_key tenant task) db.tasks

module _ {Hash : Type 0} where
  pub find_task-ok :
      (tenant task : ℕ) (db : Db Hash) (t : ApprovalTask)
      → find_task tenant task db ≡ ok t
      → lookup_task tenant task db ≡ some t
  unfolding find_task
  find_task-ok tenant task db t h = elim (Option-cases (find_by (has_key tenant task) db.tasks)) [
    | inl e ↦ ground arith
    | inr (u, e) ↦ ground arith
  ]

module _ {Hash : Type 0} (digest : Payload Hash → Hash) (now : ℕ) where
  -- The task written is read changed.
  pub lookup-write_self :
      (current : ApprovalTask) (set : ApprovalTask → ApprovalTask) (event : Event) (db : Db Hash)
      → KeepsKey set
      → lookup_task event.tenant_id event.approval_task_id db ≡ some current
      → lookup_task event.tenant_id event.approval_task_id
          (write_task digest now current set event db).0
        ≡ some (set current)
  unfolding write_task
  lookup-write_self current set event db keep found =
      find_by-update_where (has_key event.tenant_id event.approval_task_id) set db.tasks
        (λ a. ground (arith, keep a))
      ∙ rw found

  -- Every other task is read as before.
  pub lookup-write_other :
      (tenant task : ℕ) (current : ApprovalTask) (set : ApprovalTask → ApprovalTask) (event : Event)
      (db : Db Hash)
      → KeepsKey set
      → (tenant == event.tenant_id && task == event.approval_task_id) ≡ false
      → lookup_task tenant task (write_task digest now current set event db).0
        ≡ lookup_task tenant task db
  unfolding write_task
  lookup-write_other tenant task current set event db keep apart =
      find_by-update_other (has_key event.tenant_id event.approval_task_id) (has_key tenant task)
        set db.tasks (λ a. ground (arith, keep a)) (λ a h. ground arith)

  -- The row that a write returns.
  pub write_task-row :
      (current : ApprovalTask) (set : ApprovalTask → ApprovalTask) (event : Event) (db : Db Hash)
      → (write_task digest now current set event db).1 ≡ set current
  unfolding write_task
  write_task-row current set event db = refl
