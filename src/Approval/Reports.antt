-- ===== src/Approval/Reports.antt =====
-- What the queries of the approval service report.
use cerniq_app_v.Prelude.{
  ℕ, zero, suc, ◌+◌, ◌≤◌, ◌≡◌, refl, List, [], ◌∷◌, Bool, true, ◌&&◌, Option, arith, ◌==◌, String,
  filter_by, count_by, length, every, drop, every-take, every-weaken, every-filter_by,
}
use cerniq_app_v.Approval.Model.{ApprovalTask, is_open}
use cerniq_app_v.Approval.Service.{Db, or_else}
use cerniq_app_v.Approval.Escalation.{is_overdue, sort_by}
use cerniq_app_v.Approval.Queries.{
  get_stats, in_scope, is_completed, status_rank, PendingTasksFilters, get_pending_tasks,
  matches_filters, has_status, wanted_statuses, order_by_clause, due_at, asc,
}
use cerniq_app_v.Approval.Sweep.{every-sort_by, length-take-le}

-- The four counts of a list of tasks, and how many are open and past due.
counts :
    (now : ℕ) (rows : List ApprovalTask)
    → (count_by (λ t. status_rank t.status == 0) rows
          + count_by (λ t. status_rank t.status == 1) rows
          + count_by (λ t. status_rank t.status == 4) rows
          + count_by (λ t. is_completed t.status) rows
        ≡ length rows)
      × (count_by (λ t. is_open t.status && is_overdue now t) rows
          ≤ count_by (λ t. status_rank t.status == 0) rows
            + count_by (λ t. status_rank t.status == 1) rows
            + count_by (λ t. status_rank t.status == 4) rows)
unfolding status_rank is_completed is_open
counts now [] = (refl, omega arith)
counts now (t ∷ rows) = ground (arith, counts now rows)

-- Every task of the tenant, and of the stage if one is given, is counted as exactly one of pending,
-- assigned, escalated and completed; and the overdue ones are among the first three.
get_stats_partition :
    {Hash : Type 0} (now tenant : ℕ) (stage : Option String) (db : Db Hash)
    → let s = get_stats now tenant stage db in
      (s.pending + s.assigned + s.escalated + s.completed
        ≡ length (filter_by (in_scope tenant stage) db.tasks))
      × (s.overdue ≤ s.pending + s.assigned + s.escalated)
unfolding get_stats
get_stats_partition now tenant stage db = counts now (filter_by (in_scope tenant stage) db.tasks)

every-drop {ℓ} :
    {A : Type ℓ} (p : A → Bool) (n : ℕ) (xs : List A)
    → every p xs ≡ true
    → every p (drop n xs) ≡ true
every-drop p zero xs h = h
every-drop p (suc n) [] h = refl
every-drop p (suc n) (x ∷ xs) h = every-drop p n xs (ground arith)

matches-open :
    (now tenant : ℕ) (f : PendingTasksFilters) (t : ApprovalTask)
    → f.statuses ≡ []
    → matches_filters now tenant f t ≡ true
    → (t.tenant_id == tenant && is_open t.status) ≡ true
unfolding matches_filters has_status wanted_statuses status_rank is_open
matches-open now tenant f t none_given h = ground arith

-- Without a choice of statuses the list of pending tasks holds only open tasks of the tenant, and
-- no more of them than the limit, 200 if none is given.
pub get_pending_tasks_sound :
    {Hash : Type 0} (now tenant : ℕ) (f : PendingTasksFilters) (db : Db Hash)
    → f.statuses ≡ []
    → (every (λ t. t.tenant_id == tenant && is_open t.status) (get_pending_tasks now tenant f db)
        ≡ true)
      × (length (get_pending_tasks now tenant f db) ≤ or_else f.limit 200)
unfolding get_pending_tasks
get_pending_tasks_sound now tenant f db none_given =
    let rows = filter_by (matches_filters now tenant f) db.tasks in
    let before = order_by_clause (or_else f.sort_by due_at) (or_else f.sort_dir asc) in
    let wanted = λ (t : ApprovalTask). t.tenant_id == tenant && is_open t.status in
    let page = drop (or_else f.offset 0) (sort_by before rows) in
    (
      every-take wanted (or_else f.limit 200) page (
          every-drop wanted (or_else f.offset 0) (sort_by before rows) (
            every-sort_by wanted before rows (
              every-weaken (matches_filters now tenant f) wanted rows
                (λ t. matches-open now tenant f t none_given)
                (every-filter_by (matches_filters now tenant f) db.tasks)))),
      length-take-le (or_else f.limit 200) page,
    )
