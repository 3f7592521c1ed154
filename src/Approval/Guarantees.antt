-- ===== src/Approval/Guarantees.antt =====
-- What every call of the approval service guarantees.
use cerniq_app_v.Prelude.{
  ℕ, ◌≡◌, refl, ◌≢◌, ◌∙◌, sym, subst, false, none, some, arith, Bool-cases, Option-cases, inl, inr,
}
use cerniq_app_v.Approval.Model.{ApprovalTask, is_open}
use cerniq_app_v.Approval.Audit.{Payload}
use cerniq_app_v.Approval.Service.{
  Db, Result, ok, ◌>>=◌, CreateInput, AssignInput, DecideInput, EscalateInput, Result-cases,
}
use cerniq_app_v.Approval.Operations
use cerniq_app_v.Approval.Escalation
use cerniq_app_v.Approval.Writes.{lookup_task}
use cerniq_app_v.Approval.Steps.{
  Step, Steps, here, next, create_task-Steps, assign_task-Steps, decide-Steps, escalate-Steps,
  escalate_breached_tasks-Steps,
}
use cerniq_app_v.Approval.Invariants.{
  Mirrors, Recorded, IsMirrored, last_status, touched, Step-touched, Step-untouched,
}

-- A call of the service. `create` names the id that the database draws for the row.
pub data Command : Type 0 where
  create : ℕ → CreateInput → Command
  assign : AssignInput → Command
  decide : DecideInput → Command
  escalate : EscalateInput → Command
  sweep : ℕ → Command

unfoldable pub tenant_of : Command → ℕ
tenant_of (create new_id input) = input.tenant_id
tenant_of (assign input) = input.tenant_id
tenant_of (decide input) = input.tenant_id
tenant_of (escalate input) = input.tenant_id
tenant_of (sweep tenant) = tenant

module _ {Hash : Type 0} (digest : Payload Hash → Hash) where
  -- The id that a creation draws is not in use.
  abbrev pub IsFresh : Command → Db Hash → Type 0
  IsFresh (create new_id input) db = lookup_task input.tenant_id new_id db ≡ none
  IsFresh _ db = Unit

  -- The database after the call, or what it throws.
  unfoldable pub perform : ℕ → Command → Db Hash → Result (Db Hash)
  perform now (create new_id input) db =
      Operations.create_task digest now new_id input db >>= λ r. ok r.0
  perform now (assign input) db = Operations.assign_task digest now input db >>= λ r. ok r.0
  perform now (decide input) db = Operations.decide digest now input db >>= λ r. ok r.0
  perform now (escalate input) db = Escalation.escalate digest now input db >>= λ r. ok r.0
  perform now (sweep tenant) db =
      Escalation.escalate_breached_tasks digest now tenant db >>= λ r. ok r.0

  pub perform-Steps :
      (now : ℕ) (c : Command) (db db' : Db Hash)
      → IsFresh c db
      → perform now c db ≡ ok db'
      → Steps digest (tenant_of c) db db'
  unfolding perform tenant_of
  perform-Steps now (create new_id input) db db' f h =
      elim (Result-cases (Operations.create_task digest now new_id input db)) [
        | inr (e, r) ↦ absurd (ground arith)
        | inl ((last, t), r) ↦ create_task-Steps digest now new_id input db db' t f (ground arith)
      ]
  perform-Steps now (assign input) db db' f h =
      elim (Result-cases (Operations.assign_task digest now input db)) [
        | inr (e, r) ↦ absurd (ground arith)
        | inl ((last, t), r) ↦ assign_task-Steps digest now input db db' t (ground arith)
      ]
  perform-Steps now (decide input) db db' f h =
      elim (Result-cases (Operations.decide digest now input db)) [
        | inr (e, r) ↦ absurd (ground arith)
        | inl ((last, t), r) ↦ decide-Steps digest now input db db' t (ground arith)
      ]
  perform-Steps now (escalate input) db db' f h =
      elim (Result-cases (Escalation.escalate digest now input db)) [
        | inr (e, r) ↦ absurd (ground arith)
        | inl ((last, t), r) ↦ escalate-Steps digest now input db db' t (ground arith)
      ]
  perform-Steps now (sweep tenant) db db' f h =
      elim (Result-cases (Escalation.escalate_breached_tasks digest now tenant db)) [
        | inr (e, r) ↦ absurd (ground arith)
        | inl ((last, n, ids), r) ↦
            escalate_breached_tasks-Steps digest now tenant db db' n ids (ground arith)
      ]

  Step-closed :
      {n : ℕ} {db db' : Db Hash} (tenant task : ℕ) (t : ApprovalTask)
      → Step digest n db db'
      → lookup_task tenant task db ≡ some t
      → is_open t.status ≡ false
      → lookup_task tenant task db' ≡ some t
  Step-closed tenant task t s found shut = elim (Bool-cases (touched digest s tenant task)) [
    | inl h ↦ absurd (ground (arith, (Step-touched digest tenant task s h).before t found))
    | inr h ↦ (Step-untouched digest tenant task s h).0 ∙ found
  ]

  Steps-closed :
      {n : ℕ} {db db' : Db Hash} (tenant task : ℕ) (t : ApprovalTask)
      → Steps digest n db db'
      → lookup_task tenant task db ≡ some t
      → is_open t.status ≡ false
      → lookup_task tenant task db' ≡ some t
  Steps-closed tenant task t here found shut = found
  Steps-closed tenant task t (next r s) found shut =
      Step-closed tenant task t s (Steps-closed tenant task t r found shut) shut

  -- A task that is approved, rejected, expired or cancelled is final: no call of the service that
  -- returns, by whatever tenant, changes any column of it. A creation is taken to draw an id that is not in use.
  pub closed_stays :
      (now : ℕ) (c : Command) (db db' : Db Hash) (tenant task : ℕ) (t : ApprovalTask)
      → IsFresh c db
      → perform now c db ≡ ok db'
      → lookup_task tenant task db ≡ some t
      → is_open t.status ≡ false
      → lookup_task tenant task db' ≡ some t
  closed_stays now c db db' tenant task t f h =
      Steps-closed tenant task t (perform-Steps now c db db' f h)

  Step-foreign :
      {n : ℕ} {db db' : Db Hash} (tenant task : ℕ)
      → Step digest n db db'
      → tenant ≢ n
      → (lookup_task tenant task db' ≡ lookup_task tenant task db)
        × (last_status tenant task db'.audit ≡ last_status tenant task db.audit)
  Step-foreign tenant task s ne = elim (Bool-cases (touched digest s tenant task)) [
    | inl h ↦ absurd (ne (Step-touched digest tenant task s h).own)
    | inr h ↦ Step-untouched digest tenant task s h
  ]

  Steps-foreign :
      {n : ℕ} {db db' : Db Hash} (tenant task : ℕ)
      → Steps digest n db db'
      → tenant ≢ n
      → (lookup_task tenant task db' ≡ lookup_task tenant task db)
        × (last_status tenant task db'.audit ≡ last_status tenant task db.audit)
  Steps-foreign tenant task here ne = (refl, refl)
  Steps-foreign tenant task (next r s) ne =
      let (a, b) = Step-foreign tenant task s ne in
      let (a', b') = Steps-foreign tenant task r ne in (a ∙ a', b ∙ b')

  -- A call for one tenant changes no task of another tenant, nor what the audit log last recorded
  -- of it. A creation is taken to draw an id that is not in use.
  pub tenant_isolation :
      (now : ℕ) (c : Command) (db db' : Db Hash) (tenant task : ℕ)
      → IsFresh c db
      → perform now c db ≡ ok db'
      → tenant ≢ tenant_of c
      → (lookup_task tenant task db' ≡ lookup_task tenant task db)
        × (last_status tenant task db'.audit ≡ last_status tenant task db.audit)
  tenant_isolation now c db db' tenant task f h =
      Steps-foreign tenant task (perform-Steps now c db db' f h)

  Step-Mirrors : {n : ℕ} {db db' : Db Hash} → Step digest n db db' → Mirrors db → Mirrors db'
  Step-Mirrors s mirrors tenant task t found = elim (Bool-cases (touched digest s tenant task)) [
    | inl h ↦ let w = Step-touched digest tenant task s h in ground (arith, w.found, w.logged)
    | inr h ↦
        let (a, b) = Step-untouched digest tenant task s h in
        b ∙ mirrors tenant task t (sym a ∙ found)
  ]

  Steps-Mirrors : {n : ℕ} {db db' : Db Hash} → Steps digest n db db' → Mirrors db → Mirrors db'
  Steps-Mirrors here m = m
  Steps-Mirrors (next r s) m = Step-Mirrors s (Steps-Mirrors r m)

  Mirrors-IsMirrored : (db : Db Hash) → Mirrors db → IsMirrored db
  Mirrors-IsMirrored db m tenant task = elim (Option-cases (lookup_task tenant task db)) [
    | inl none_found ↦ rw none_found tt
    | inr (t, found) ↦ rw (found, m tenant task t found) refl
  ]

  IsMirrored-Mirrors : (db : Db Hash) → IsMirrored db → Mirrors db
  IsMirrored-Mirrors db m tenant task t found =
      subst (λ o. Recorded o (last_status tenant task db.audit)) found (m tenant task)

  -- The audit log stays true: if the newest audit entry of each task records the task's status, so
  -- it is after every call. A creation is taken to draw an id that is not in use.
  pub perform-IsMirrored :
      (now : ℕ) (c : Command) (db db' : Db Hash)
      → IsFresh c db
      → perform now c db ≡ ok db'
      → IsMirrored db
      → IsMirrored db'
  perform-IsMirrored now c db db' f h m =
      Mirrors-IsMirrored db'
        (Steps-Mirrors (perform-Steps now c db db' f h) (IsMirrored-Mirrors db m))
