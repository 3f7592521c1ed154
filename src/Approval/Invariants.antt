-- ===== src/Approval/Invariants.antt =====
-- What every write of the approval service keeps: closed tasks, other tenants, and the agreement of
-- the audit log with the tasks.
use cerniq_app_v.Prelude.{
  ℕ, ◌≡◌, ◌∙◌, ap, List, ◌∷◌, Bool, true, false, ◌&&◌, Option, none, some, arith, ◌==◌,
  if◌then◌else◌, find_by,
}
use cerniq_app_v.Approval.Model.{ApprovalTask, ApprovalStatus, has_key, is_open}
use cerniq_app_v.Approval.Audit.{Event, Payload, Entry, is_about, log_action}
use cerniq_app_v.Approval.Service.{Db}
use cerniq_app_v.Approval.Operations.{write_task}
use cerniq_app_v.Approval.Writes.{lookup_task, lookup-write_self, lookup-write_other}
use cerniq_app_v.Approval.Steps.{Step, insert, change}

-- The key that an event is about.
abbrev is_key : ℕ → ℕ → Event → Bool
is_key tenant task e = tenant == e.tenant_id && task == e.approval_task_id

-- The status that the newest audit entry of a task records.
unfoldable pub last_status : {Hash : Type 0} → ℕ → ℕ → List (Entry Hash) → Option ApprovalStatus
last_status tenant task log = elim (find_by (is_about tenant task) log) [
  | none ↦ none
  | some e ↦ e.event.new_status
]

-- The newest audit entry of each task records the task's status.
abbrev pub Mirrors : {Hash : Type 0} → Db Hash → Type 0
Mirrors db =
    (tenant task : ℕ) (t : ApprovalTask)
    → lookup_task tenant task db ≡ some t
    → last_status tenant task db.audit ≡ some t.status

-- The status that is recorded of a row: no claim where there is no row.
abbrev pub Recorded : Option ApprovalTask → Option ApprovalStatus → Type 0
Recorded none status = Unit
Recorded (some t) status = status ≡ some t.status

abbrev pub IsMirrored : {Hash : Type 0} → Db Hash → Type 0
IsMirrored db =
    (tenant task : ℕ) → Recorded (lookup_task tenant task db) (last_status tenant task db.audit)

module _ {Hash : Type 0} (digest : Payload Hash → Hash) where
  -- Whether a write is about a task.
  unfoldable pub touched : {n : ℕ} {db db' : Db Hash} → Step digest n db db' → ℕ → ℕ → Bool
  touched (insert row event own free ht hi hs e) tenant task = is_key tenant task event
  touched (change now current set event own keep cur is hs e) tenant task = is_key tenant task event

  same_key :
      (tenant task : ℕ) (event : Event)
      → is_key tenant task event ≡ true
      → (tenant ≡ event.tenant_id) × (task ≡ event.approval_task_id)
  same_key tenant task event h = (ground arith, ground arith)

  last_status-log :
      (tenant task : ℕ) (event : Event) (log : List (Entry Hash))
      → last_status tenant task (log_action digest event log)
        ≡ (if is_key tenant task event then event.new_status else last_status tenant task log)
  unfolding last_status log_action
  last_status-log tenant task event log = ground arith

  insert-lookup :
      (tenant task : ℕ) (row : ApprovalTask) (event : Event) (tasks : List ApprovalTask)
      → row.tenant_id ≡ event.tenant_id
      → row.id ≡ event.approval_task_id
      → find_by (has_key tenant task) (row ∷ tasks)
        ≡ (if is_key tenant task event then some row else find_by (has_key tenant task) tasks)
  insert-lookup tenant task row event tasks ht hi = ground arith

  -- What a write is not about is found as before, in the tasks and in the log.
  pub Step-untouched :
      {n : ℕ} {db db' : Db Hash} (tenant task : ℕ) (s : Step digest n db db')
      → touched s tenant task ≡ false
      → (lookup_task tenant task db' ≡ lookup_task tenant task db)
        × (last_status tenant task db'.audit ≡ last_status tenant task db.audit)
  unfolding touched
  Step-untouched {n} {db} {db'} tenant task (insert row event own free ht hi hs e) h = (
    ap (lookup_task tenant task) e ∙ (insert-lookup tenant task row event db.tasks ht hi ∙ rw h),
    ap (λ d. last_status tenant task d.audit) e
        ∙ (last_status-log tenant task event db.audit ∙ rw h),
  )
  Step-untouched {n} {db} {db'} tenant task (change now current set event own keep cur is hs e) h =
      (
        ap (lookup_task tenant task) e
            ∙ lookup-write_other digest now tenant task current set event db keep h,
        ap (λ d. last_status tenant task d.audit) e
            ∙ (unfold write_task in last_status-log tenant task event db.audit ∙ rw h),
      )

  write-log :
      (now : ℕ) (tenant task : ℕ) (current : ApprovalTask) (set : ApprovalTask → ApprovalTask)
      (event : Event) (db : Db Hash)
      → is_key tenant task event ≡ true
      → last_status tenant task (write_task digest now current set event db).0.audit
        ≡ event.new_status
  unfolding write_task
  write-log now tenant task current set event db h =
      last_status-log tenant task event db.audit ∙ rw h

  -- What a write is about: free or open before it, and recorded in the log with its new status.
  pub record Touched (n tenant task : ℕ) (db db' : Db Hash) : Type 0 where
    pub own : tenant ≡ n
    pub after : ApprovalTask
    pub found : lookup_task tenant task db' ≡ some after
    pub logged : last_status tenant task db'.audit ≡ some after.status
    pub before : (t : ApprovalTask) → lookup_task tenant task db ≡ some t → is_open t.status ≡ true

  pub Step-touched :
      {n : ℕ} {db db' : Db Hash} (tenant task : ℕ) (s : Step digest n db db')
      → touched s tenant task ≡ true
      → Touched n tenant task db db'
  unfolding touched
  Step-touched {n} {db} {db'} tenant task (insert row event own free ht hi hs e) h =
      let (t, k) = same_key tenant task event h in
      record {
        own = t ∙ own;
        after = row;
        found =
            ap (lookup_task tenant task) e
            ∙ (insert-lookup tenant task row event db.tasks ht hi ∙ rw h);
        logged =
            ap (λ d. last_status tenant task d.audit) e
            ∙ (last_status-log tenant task event db.audit ∙ rw (h, hs));
        before = λ u hu. absurd (ground (arith, rw (← t, ← k) at free));
      }
  Step-touched {n} {db} {db'} tenant task (change now current set event own keep cur is hs e) h =
      let (t, k) = same_key tenant task event h in
      record {
        own = t ∙ own;
        after = set current;
        found =
            ap (lookup_task tenant task) e
            ∙ (ap (λ x. lookup_task x task (write_task digest now current set event db).0) t
                ∙ (ap
                      (λ x.
                        lookup_task event.tenant_id x
                          (write_task digest now current set event db).0)
                      k
                    ∙ lookup-write_self digest now current set event db keep cur));
        logged =
            ap (λ d. last_status tenant task d.audit) e
            ∙ (write-log now tenant task current set event db h ∙ hs);
        before = λ u hu. ground (arith, rw (← t, ← k) at cur);
      }
