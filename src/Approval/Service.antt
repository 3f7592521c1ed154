-- ===== src/Approval/Service.antt =====
-- The operations of `ApprovalService` that change state: create, assign, decide, escalate and the
-- escalation of breached tasks. An operation takes the time `now`, which stands for each
-- `new Date()` of the call, and returns the new database with its result, or the error it throws;
-- an error leaves the database as it was, since what is thrown inside a transaction rolls it back.
-- Columns that are only passed through (description, the three AI columns, metadata, the decision's
-- metadata, type, etapa, priority) are left out.
use Prim.Native.String.{String}
use cerniq_app_v.Prelude.{
  ◌≡◌, refl, ◌⊎◌, inl, inr, ℕ, ◌+◌, ◌*◌, min, List, [], ◌∷◌, map, Bool, true, false, ◌&&◌, ◌||◌,
  Option, none, some, ◌==◌, if◌then◌else◌, get_or, ltb,
}
use cerniq_app_v.Prelude.Text.{codes}
use cerniq_app_v.Prelude.Rows.{find_first}
use cerniq_app_v.Approval.Model.{
  ApprovalStatus, ApprovalPriority, ApprovalDecision, ApprovalTask, User, UserRole, Urgency,
  role_rank, same_role, approved, rejected, approve, merge, reject, skip, operator, manager, admin,
  owner,
}
use cerniq_app_v.Approval.Audit.{Entry}

pub data Error : Type 0 where
  task_not_found no_active_user forbidden : Error
  cannot_be_reassigned : ApprovalStatus → Error
  cannot_be_decided : ApprovalStatus → Error

pub data Result {ℓ} (A : Type ℓ) : Type ℓ where
  ok : A → Result A
  err : Error → Result A

infixl 5 ◌>>=◌
abbrev pub ◌>>=◌ {ℓ κ} : {A : Type ℓ} {B : Type κ} → Result A → (A → Result B) → Result B
ok a >>= f = f a
err e >>= f = err e

pub record Db (Hash : Type 0) : Type 0 where
  pub tasks : List ApprovalTask
  pub audit : List (Entry Hash)
  pub users : List User

pub record CreateInput : Type 0 where
  pub tenant_id : ℕ
  pub entity_type : String
  pub entity_id : ℕ
  pub approval_type : Option String
  pub title : String
  pub pipeline_stage : Option String
  pub priority : Option ApprovalPriority
  pub blocked_job_id : Option String
  pub blocked_queue_name : Option String
  pub created_by : Option ℕ

pub record AssignInput : Type 0 where
  pub tenant_id : ℕ
  pub task_id : ℕ
  pub assignee_user_id : ℕ
  pub actor_id : ℕ

pub record DecideInput : Type 0 where
  pub tenant_id : ℕ
  pub task_id : ℕ
  pub actor_id : ℕ
  pub actor_role : Option (List ℕ)
  pub decision : ApprovalDecision
  pub reason : Option String

pub record EscalateInput : Type 0 where
  pub tenant_id : ℕ
  pub task_id : ℕ
  pub actor_id : Option ℕ
  pub reason : String

-- `x ?? d`
abbrev pub or_else {ℓ} : {A : Type ℓ} → Option A → A → A
or_else none d = d
or_else (some a) d = a

-- `SLA_HOURS`
unfoldable pub sla_hours : ApprovalPriority → ℕ
sla_hours ApprovalPriority.critical = 1
sla_hours ApprovalPriority.high = 4
sla_hours ApprovalPriority.normal = 24
sla_hours ApprovalPriority.low = 72

unfoldable pub now_plus_hours : ℕ → ℕ → ℕ
now_plus_hours now hours = now + hours * 60 * 60 * 1000

-- `priority === "normal" ? "medium" : priority`
unfoldable pub urgency_of : ApprovalPriority → Urgency
urgency_of ApprovalPriority.critical = Urgency.critical
urgency_of ApprovalPriority.high = Urgency.high
urgency_of ApprovalPriority.normal = Urgency.medium
urgency_of ApprovalPriority.low = Urgency.low

-- The first active user of the tenant by descending role, then descending time of update.
unfoldable pub resolve_system_user : ℕ → List User → Result ℕ
unfolding find_first role_rank
resolve_system_user tenant users =
    let before = λ (a b : User).
      ltb (role_rank b.role) (role_rank a.role)
      || (same_role a.role b.role && ltb b.updated_at a.updated_at) in
    elim (find_first (λ u. u.tenant_id == tenant && u.is_active) before users) [
      | none ↦ err no_active_user
      | some u ↦ ok u.id
    ]

-- `createdBy ?? (await this.resolveSystemUser(input.tenantId, tx))`
unfoldable pub requester : Option ℕ → ℕ → List User → Result ℕ
unfolding resolve_system_user
requester (some u) tenant users = ok u
requester none tenant users = resolve_system_user tenant users

-- `DECIDE_BYPASS_ROLES`, compared with the role in lower case. `toLowerCase` is modelled on ASCII:
-- no other code unit becomes a lone letter of these words.
unfoldable pub to_lower : ℕ → ℕ
to_lower c = if ltb 64 c && ltb c 91 then c + 32 else c

unfoldable pub same_text : List ℕ → List ℕ → Bool
same_text [] [] = true
same_text (c ∷ s) (d ∷ t) = c == d && same_text s t
same_text _ _ = false

unfoldable pub has_elevated_role : Option (List ℕ) → Bool
unfolding to_lower same_text
has_elevated_role none = false
has_elevated_role (some role) =
    let lower = map to_lower role in
    same_text lower (codes "manager")
    || same_text lower (codes "admin")
    || same_text lower (codes "owner")
    || same_text lower (codes "superadmin")

abbrev pub is_id : ℕ → Option ℕ → Bool
is_id a none = false
is_id a (some b) = b == a

abbrev pub is_none {ℓ} : {A : Type ℓ} → Option A → Bool
is_none none = true
is_none (some _) = false

-- Who may decide: the assigned or the escalated-to user, an elevated role, anyone if unassigned.
unfoldable pub may_decide : ApprovalTask → DecideInput → Bool
may_decide t input =
    (is_id input.actor_id t.assigned_to || is_id input.actor_id t.escalated_to)
    || has_elevated_role input.actor_role
    || is_none t.assigned_to

unfoldable pub decided_status : ApprovalDecision → ApprovalStatus
decided_status approve = approved
decided_status merge = approved
decided_status reject = rejected
decided_status skip = rejected

-- `ESCALATION_ROLES[Math.min(task.escalationLevel + 1, ESCALATION_ROLES.length - 1)]`
unfoldable pub escalation_role : ℕ → UserRole
escalation_role level = get_or (operator ∷ manager ∷ admin ∷ owner ∷ []) (min (level + 1) 3) owner

-- The most recently updated active user of the tenant with the role.
unfoldable pub escalation_target : ℕ → UserRole → List User → Option User
unfolding find_first
escalation_target tenant role users =
    find_first (λ u. u.tenant_id == tenant && (same_role u.role role && u.is_active))
      (λ a b. ltb b.updated_at a.updated_at) users

pub Result-cases {ℓ} :
    {A : Type ℓ} (r : Result A) → ((a : A) × (r ≡ ok a)) ⊎ ((e : Error) × (r ≡ err e))
Result-cases (ok a) = inl (a, refl)
Result-cases (err e) = inr (e, refl)
