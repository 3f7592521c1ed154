-- ===== src/Approval/Decisions.antt =====
-- Who may decide a task, and what a decision leaves behind.
use cerniq_app_v.Prelude.{
  ℕ, ◌≡◌, refl, ◌⊎◌, inl, inr, ◌∙◌, sym, ap, true, none, some, arith, Bool-cases,
}
use cerniq_app_v.Approval.Model.{
  ApprovalTask, ApprovalDecision, is_open, approve, merge, reject, skip, approved, rejected,
}
use cerniq_app_v.Approval.Audit.{Payload}
use cerniq_app_v.Approval.Service.{
  Db, ok, DecideInput, Result-cases, may_decide, has_elevated_role, decided_status,
}
use cerniq_app_v.Approval.Operations.{decide, find_task, write_task, decided_row, decide_event}
use cerniq_app_v.Approval.Writes.{lookup_task, lookup-write_self, write_task-row, find_task-ok}

-- The actor is assigned, or escalated to, or has an elevated role, or nobody is assigned.
abbrev pub MayDecide : DecideInput → ApprovalTask → Type 0
MayDecide input t =
    (t.assigned_to ≡ some input.actor_id)
    ⊎ ((t.escalated_to ≡ some input.actor_id)
        ⊎ ((has_elevated_role input.actor_role ≡ true) ⊎ (t.assigned_to ≡ none)))

may_decide-MayDecide :
    (input : DecideInput) (t : ApprovalTask) → may_decide t input ≡ true → MayDecide input t
unfolding may_decide
may_decide-MayDecide input t h = ground arith

decided_status-cases :
    (d : ApprovalDecision)
    → ((d ≡ approve) ⊎ (d ≡ merge)) × (decided_status d ≡ approved)
      ⊎ ((d ≡ reject) ⊎ (d ≡ skip)) × (decided_status d ≡ rejected)
unfolding decided_status
decided_status-cases d = ground arith

module _ {Hash : Type 0} (digest : Payload Hash → Hash) (now : ℕ) where
  -- A decision that succeeds found an open task which the actor was entitled to decide (as its
  -- assignee, as the one it was escalated to, by an elevated role, or because nobody was assigned),
  -- and leaves that task approved after `approve` or `merge`, rejected after `reject` or `skip`,
  -- with the decision, the actor and the time recorded.
  pub decide_correct :
      (input : DecideInput) (db db' : Db Hash) (t' : ApprovalTask)
      → decide digest now input db ≡ ok (db', t')
      → (t : ApprovalTask) × (lookup_task input.tenant_id input.task_id db ≡ some t)
        × (is_open t.status ≡ true)
        × MayDecide input t
        × (lookup_task input.tenant_id input.task_id db' ≡ some t')
        × (((input.decision ≡ approve) ⊎ (input.decision ≡ merge)) × (t'.status ≡ approved)
            ⊎ ((input.decision ≡ reject) ⊎ (input.decision ≡ skip)) × (t'.status ≡ rejected))
        × (t'.decision ≡ some input.decision)
        × (t'.decided_by ≡ some input.actor_id)
        × (t'.decided_at ≡ some now)
  unfolding decide
  decide_correct input db db' t' h =
      elim (Result-cases (find_task input.tenant_id input.task_id db)) [
        | inr (e, r) ↦ absurd (ground arith)
        | inl (t, r) ↦ elim (Bool-cases (is_open t.status)) [
          | inr shut ↦ absurd (ground arith)
          | inl is ↦ elim (Bool-cases (may_decide t input)) [
            | inr not_allowed ↦ absurd (ground arith)
            | inl allowed ↦
                let row = decided_row now input in
                let event = decide_event input t in
                let found = find_task-ok input.tenant_id input.task_id db t r in
                let w : write_task digest now t row event db ≡ (db', t') = ground arith in
                let same : row t ≡ t' =
                  sym (write_task-row digest now t row event db) ∙ ap (λ x. x.1) w in
                (
                  t,
                  found,
                  is,
                  may_decide-MayDecide input t allowed,
                  ap (λ x. lookup_task input.tenant_id input.task_id x.0) (sym w)
                      ∙ (lookup-write_self digest now t row event db (λ u. (refl, refl)) found
                          ∙ ap some same),
                  ground (arith, decided_status-cases input.decision, ap (λ u. u.status) same),
                  ap (λ u. u.decision) (sym same),
                  ap (λ u. u.decided_by) (sym same),
                  ap (λ u. u.decided_at) (sym same),
                )
          ]
        ]
      ]
