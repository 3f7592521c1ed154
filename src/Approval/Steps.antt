-- ===== src/Approval/Steps.antt =====
-- The writes of the approval service as a step relation: every operation is a sequence of them.
use cerniq_app_v.Prelude.{
  subst, ℕ, ◌≡◌, refl, List, [], ◌∷◌, true, none, some, arith, Bool-cases, inl, inr,
}
use cerniq_app_v.Approval.Model.{ApprovalTask, is_open}
use cerniq_app_v.Approval.Audit.{Event, Payload, log_action}
use cerniq_app_v.Approval.Service.{
  Db, ok, CreateInput, AssignInput, DecideInput, EscalateInput, requester, escalation_role,
  escalation_target, Result-cases,
}
use cerniq_app_v.Approval.Operations.{
  find_task, write_task, created_row, create_event, assigned_row, assign_event, decided_row,
  decide_event, create_task, assign_task, decide,
}
use cerniq_app_v.Approval.Escalation.{
  escalate, escalate_each, escalate_breached_tasks, breached_tasks, escalated_row, escalate_event,
  sweep_input,
}
use cerniq_app_v.Approval.Writes.{KeepsKey, lookup_task, find_task-ok}

module _ {Hash : Type 0} (digest : Payload Hash → Hash) where
  -- One transaction of a tenant that writes: a new task under a free id, or a change of an open
  -- task of the tenant.
  pub data Step (tenant : ℕ) (db db' : Db Hash) : Type 0 where
    insert :
        (task : ApprovalTask) (event : Event)
        → event.tenant_id ≡ tenant
        → lookup_task event.tenant_id event.approval_task_id db ≡ none
        → task.tenant_id ≡ event.tenant_id
        → task.id ≡ event.approval_task_id
        → event.new_status ≡ some task.status
        → db' ≡ record db { tasks = task ∷ db.tasks; audit = log_action digest event db.audit }
        → Step tenant db db'
    change :
        (now : ℕ) (current : ApprovalTask) (set : ApprovalTask → ApprovalTask) (event : Event)
        → event.tenant_id ≡ tenant
        → KeepsKey set
        → lookup_task event.tenant_id event.approval_task_id db ≡ some current
        → is_open current.status ≡ true
        → event.new_status ≡ some (set current).status
        → db' ≡ (write_task digest now current set event db).0
        → Step tenant db db'

  pub data Steps (tenant : ℕ) (db : Db Hash) : Db Hash → Type 0 where
    here : Steps tenant db db
    next : {db' db'' : Db Hash} → Steps tenant db db' → Step tenant db' db'' → Steps tenant db db''

  pub Steps-append : {n : ℕ} {a b c : Db Hash} → Steps n a b → Steps n b c → Steps n a c
  Steps-append l here = l
  Steps-append l (next r s) = next (Steps-append l r) s

  one : {n : ℕ} {a b : Db Hash} → Step n a b → Steps n a b
  one s = next here s

  stay : {n : ℕ} {a b : Db Hash} → a ≡ b → Steps n a b
  stay {n} {a} e = subst (Steps n a) e here

  -- A write that is what an operation returned.
  written :
      (now : ℕ) (current : ApprovalTask) (set : ApprovalTask → ApprovalTask) (event : Event)
      (db db' : Db Hash) (t : ApprovalTask)
      → KeepsKey set
      → lookup_task event.tenant_id event.approval_task_id db ≡ some current
      → is_open current.status ≡ true
      → event.new_status ≡ some (set current).status
      → ok (write_task digest now current set event db) ≡ ok (db', t)
      → Steps event.tenant_id db db'
  written now current set event db db' t keep found is status h =
      one (change now current set event refl keep found is status (ground arith))

  module _ (now : ℕ) where
    pub create_task-Steps :
        (new_id : ℕ) (input : CreateInput) (db db' : Db Hash) (t : ApprovalTask)
        → lookup_task input.tenant_id new_id db ≡ none
        → create_task digest now new_id input db ≡ ok (db', t)
        → Steps input.tenant_id db db'
    unfolding create_task created_row
    create_task-Steps new_id input db db' t fresh h =
        elim (Result-cases (requester input.created_by input.tenant_id db.users)) [
          | inr (e, r) ↦ absurd (ground arith)
          | inl (u, r) ↦ one (
              insert (created_row now new_id input u) (create_event new_id input) refl fresh refl
                refl refl (ground arith))
        ]

    pub assign_task-Steps :
        (input : AssignInput) (db db' : Db Hash) (t : ApprovalTask)
        → assign_task digest now input db ≡ ok (db', t)
        → Steps input.tenant_id db db'
    unfolding assign_task
    assign_task-Steps input db db' t h =
        elim (Result-cases (find_task input.tenant_id input.task_id db)) [
          | inr (e, r) ↦ absurd (ground arith)
          | inl (current, r) ↦ elim (Bool-cases (is_open current.status)) [
            | inr shut ↦ absurd (ground arith)
            | inl is ↦
                written now current (assigned_row now input) (assign_event input current) db db' t
                  (λ t. (refl, refl)) (find_task-ok input.tenant_id input.task_id db current r) is
                  refl (ground arith)
          ]
        ]

    pub decide-Steps :
        (input : DecideInput) (db db' : Db Hash) (t : ApprovalTask)
        → decide digest now input db ≡ ok (db', t)
        → Steps input.tenant_id db db'
    unfolding decide
    decide-Steps input db db' t h =
        elim (Result-cases (find_task input.tenant_id input.task_id db)) [
          | inr (e, r) ↦ absurd (ground arith)
          | inl (existing, r) ↦ elim (Bool-cases (is_open existing.status)) [
            | inr shut ↦ absurd (ground arith)
            | inl is ↦
                written now existing (decided_row now input) (decide_event input existing) db db' t
                  (λ t. (refl, refl)) (find_task-ok input.tenant_id input.task_id db existing r) is
                  refl (ground arith)
          ]
        ]

    pub escalate-Steps :
        (input : EscalateInput) (db db' : Db Hash) (t : ApprovalTask)
        → escalate digest now input db ≡ ok (db', t)
        → Steps input.tenant_id db db'
    unfolding escalate
    escalate-Steps input db db' t h =
        elim (Result-cases (find_task input.tenant_id input.task_id db)) [
          | inr (e, r) ↦ absurd (ground arith)
          | inl (task, r) ↦
              let role = escalation_role task.escalation_level in
              let target = escalation_target input.tenant_id role db.users in
              elim (Bool-cases (is_open task.status)) [
                | inr shut ↦ stay (ground arith)
                | inl is ↦
                    written now task (escalated_row now target task)
                      (escalate_event input target role task) db db' t (λ t. (refl, refl))
                      (find_task-ok input.tenant_id input.task_id db task r) is refl (ground arith)
              ]
        ]

    escalate_each-Steps :
        (tenant : ℕ) (ts : List ApprovalTask) (db db' : Db Hash) (ids : List ℕ)
        → escalate_each digest now tenant ts db ≡ ok (db', ids)
        → Steps tenant db db'
    unfolding escalate_each
    escalate_each-Steps tenant [] db db' ids h = stay (ground arith)
    escalate_each-Steps tenant (t ∷ ts) db db' ids h =
        elim (Result-cases (escalate digest now (sweep_input tenant t) db)) [
          | inr (e, r) ↦ absurd (ground arith)
          | inl ((mid, u), r) ↦ elim (Result-cases (escalate_each digest now tenant ts mid)) [
            | inr (e, q) ↦ absurd (ground arith)
            | inl ((last, us), q) ↦
                Steps-append (escalate-Steps (sweep_input tenant t) db mid u r)
                  (Steps-append (escalate_each-Steps tenant ts mid last us q) (stay (ground arith)))
          ]
        ]

    pub escalate_breached_tasks-Steps :
        (tenant : ℕ) (db db' : Db Hash) (n : ℕ) (ids : List ℕ)
        → escalate_breached_tasks digest now tenant db ≡ ok (db', n, ids)
        → Steps tenant db db'
    unfolding escalate_breached_tasks
    escalate_breached_tasks-Steps tenant db db' n ids h =
        elim (Result-cases
          (escalate_each digest now tenant (breached_tasks digest now tenant db) db)) [
            | inr (e, r) ↦ absurd (ground arith)
            | inl ((last, us), r) ↦
                Steps-append
                  (escalate_each-Steps tenant (breached_tasks digest now tenant db) db last us r)
                  (stay (ground arith))
          ]
