-- ===== src/Approval/Queries.antt =====
-- The methods of `ApprovalService` that read: `getPendingTasks` and `getStats`
-- (packages/db/src/services/approval-service.ts). The mean time to a decision, a float, is left out.
use cerniq_app_v.Prelude.{
  ℕ, List, [], ◌∷◌, Bool, true, false, ◌&&◌, ◌||◌, not, Option, none, some, ◌==◌, String, str_eq,
  filter_by, count_by, take, drop, ltb,
}
use cerniq_app_v.Approval.Model
use cerniq_app_v.Approval.Model.{ApprovalStatus, ApprovalPriority, ApprovalTask, is_open}
use cerniq_app_v.Approval.Service.{Db, or_else, is_id, is_none}
use cerniq_app_v.Approval.Escalation.{sort_by, is_overdue}

unfoldable pub status_rank : ApprovalStatus → ℕ
status_rank Model.pending = 0
status_rank Model.assigned = 1
status_rank Model.approved = 2
status_rank Model.rejected = 3
status_rank Model.escalated = 4
status_rank Model.expired = 5
status_rank Model.cancelled = 6

-- The order of the values of `approval_priority` in the database.
unfoldable pub priority_rank : ApprovalPriority → ℕ
priority_rank ApprovalPriority.critical = 0
priority_rank ApprovalPriority.high = 1
priority_rank ApprovalPriority.normal = 2
priority_rank ApprovalPriority.low = 3

-- `assignedTo` of the filters: absent, null, or a user.
pub data AssignedFilter : Type 0 where
  anyone nobody : AssignedFilter
  somebody : ℕ → AssignedFilter

pub data SortKey : Type 0 where
  due_at created_at priority_level : SortKey

pub data SortDir : Type 0 where
  asc desc : SortDir

pub record PendingTasksFilters : Type 0 where
  pub statuses : List ApprovalStatus
  pub assigned_to : AssignedFilter
  pub approval_type : Option String
  pub priority_level : Option ApprovalPriority
  pub pipeline_stage : Option String
  pub overdue : Bool
  pub sort_by : Option SortKey
  pub sort_dir : Option SortDir
  pub limit : Option ℕ
  pub offset : Option ℕ

-- `buildAssignedToFilter`
unfoldable pub assigned_to_filter : AssignedFilter → ApprovalTask → Bool
assigned_to_filter anyone t = true
assigned_to_filter nobody t = is_none t.assigned_to
assigned_to_filter (somebody u) t = is_id u t.assigned_to

unfoldable pub has_status : List ApprovalStatus → ApprovalStatus → Bool
unfolding status_rank
has_status [] s = false
has_status (x ∷ xs) s = status_rank x == status_rank s || has_status xs s

-- The given statuses, or the open ones if none is given.
unfoldable pub wanted_statuses : List ApprovalStatus → List ApprovalStatus
wanted_statuses [] = Model.pending ∷ Model.assigned ∷ Model.escalated ∷ []
wanted_statuses (s ∷ ss) = s ∷ ss

abbrev pub when_given {ℓ} : {A : Type ℓ} → Option A → (A → Bool) → Bool
when_given none test = true
when_given (some a) test = test a

-- An optional text that is given and not empty.
abbrev pub when_text : Option String → String → Bool
when_text none s = true
when_text (some t) s = str_eq t "" || str_eq t s

unfoldable pub matches_filters : ℕ → ℕ → PendingTasksFilters → ApprovalTask → Bool
unfolding assigned_to_filter has_status wanted_statuses priority_rank is_overdue
matches_filters now tenant f t =
    t.tenant_id == tenant
    && has_status (wanted_statuses f.statuses) t.status
    && assigned_to_filter f.assigned_to t
    && when_text f.approval_type t.approval_type
    && when_given f.priority_level (λ p. priority_rank p == priority_rank t.priority_level)
    && when_text f.pipeline_stage t.pipeline_stage
    && (not f.overdue || is_overdue now t)

-- A comparison by one column, `asc` with missing values last, `desc` with missing values first.
unfoldable pub before_option : SortDir → Option ℕ → Option ℕ → Bool
before_option asc none b = false
before_option asc (some a) none = true
before_option asc (some a) (some b) = ltb a b
before_option desc none none = false
before_option desc none (some b) = true
before_option desc (some a) none = false
before_option desc (some a) (some b) = ltb b a

-- First by one comparison, then by another where the first does not tell.
abbrev pub then_by :
    (ApprovalTask → ApprovalTask → Bool)
    → (ApprovalTask → ApprovalTask → Bool)
    → ApprovalTask
    → ApprovalTask
    → Bool
then_by p q a b = p a b || (not (p b a) && q a b)

-- `buildOrderByClause`
unfoldable pub order_by_clause : SortKey → SortDir → ApprovalTask → ApprovalTask → Bool
unfolding before_option priority_rank
order_by_clause created_at dir = λ a b. before_option dir (some a.created_at) (some b.created_at)
order_by_clause priority_level dir =
    then_by
      (λ a b.
        before_option dir (some (priority_rank a.priority_level))
          (some (priority_rank b.priority_level)))
      (λ a b. before_option asc a.due_at b.due_at)
order_by_clause due_at dir =
    then_by (λ a b. before_option dir a.due_at b.due_at)
      (λ a b. before_option dir (some a.created_at) (some b.created_at))

unfoldable pub get_pending_tasks :
    {Hash : Type 0} → ℕ → ℕ → PendingTasksFilters → Db Hash → List ApprovalTask
get_pending_tasks now tenant f db =
    let rows = filter_by (matches_filters now tenant f) db.tasks in
    let sorted =
      sort_by (order_by_clause (or_else f.sort_by due_at) (or_else f.sort_dir asc)) rows in
    take (or_else f.limit 200) (drop (or_else f.offset 0) sorted)

pub record Stats : Type 0 where
  pub pending : ℕ
  pub assigned : ℕ
  pub escalated : ℕ
  pub completed : ℕ
  pub overdue : ℕ

-- `baseCondition`: the tenant, and the stage if one is given.
abbrev pub in_scope : ℕ → Option String → ApprovalTask → Bool
in_scope tenant stage t = t.tenant_id == tenant && when_text stage t.pipeline_stage

unfoldable pub is_completed : ApprovalStatus → Bool
is_completed Model.approved = true
is_completed Model.rejected = true
is_completed Model.cancelled = true
is_completed Model.expired = true
is_completed _ = false

unfoldable pub get_stats : {Hash : Type 0} → ℕ → ℕ → Option String → Db Hash → Stats
unfolding status_rank is_completed is_open is_overdue
get_stats now tenant stage db =
    let rows = filter_by (in_scope tenant stage) db.tasks in
    record {
      pending = count_by (λ t. status_rank t.status == 0) rows;
      assigned = count_by (λ t. status_rank t.status == 1) rows;
      escalated = count_by (λ t. status_rank t.status == 4) rows;
      completed = count_by (λ t. is_completed t.status) rows;
      overdue = count_by (λ t. is_open t.status && is_overdue now t) rows;
    }
