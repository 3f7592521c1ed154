-- ===== src/Approval/Sweep.antt =====
-- The escalation of breached tasks: it never throws, and handles each task found once.
use cerniq_app_v.Prelude.{
  ℕ, zero, suc, ◌≤◌, ◌≡◌, refl, List, [], ◌∷◌, map, Bool, true, false, ◌&&◌, none, some, arith,
  Bool-cases, Option-cases, inl, inr, ◌==◌, find_by, filter_by, every, take, length, every-take,
  every-filter_by, every-weaken, not, ◌||◌,
}
use cerniq_app_v.Prelude.Rows.{find_by-true}
use cerniq_app_v.Approval.Model.{ApprovalTask, has_key, is_open}
use cerniq_app_v.Approval.Audit.{Payload}
use cerniq_app_v.Approval.Service.{Db, ok, escalation_role, escalation_target}
use cerniq_app_v.Approval.Operations.{find_task, write_task}
use cerniq_app_v.Approval.Escalation.{
  escalate, escalate_each, escalate_breached_tasks, breached_tasks, sweep_input, sort_by, insert_by,
  is_overdue, due_before, escalated_row, escalate_event,
}
use cerniq_app_v.Approval.Steps.{Step, Steps, here, next, escalate-Steps}
use cerniq_app_v.Approval.Invariants.{touched, Step-touched, Step-untouched}

pub length-take-le {ℓ} : {A : Type ℓ} (n : ℕ) (xs : List A) → length (take n xs) ≤ n
length-take-le zero xs = omega arith
length-take-le (suc n) [] = omega arith
length-take-le (suc n) (x ∷ xs) = omega (arith, length-take-le n xs)

every-insert_by {ℓ} :
    {A : Type ℓ} (p : A → Bool) (before : A → A → Bool) (x : A) (xs : List A)
    → p x ≡ true
    → every p xs ≡ true
    → every p (insert_by before x xs) ≡ true
unfolding insert_by
every-insert_by p before x [] hx h = ground arith
every-insert_by p before x (y ∷ ys) hx h = ground (arith, every-insert_by p before x ys hx)

pub every-sort_by {ℓ} :
    {A : Type ℓ} (p : A → Bool) (before : A → A → Bool) (xs : List A)
    → every p xs ≡ true
    → every p (sort_by before xs) ≡ true
unfolding sort_by
every-sort_by p before [] h = refl
every-sort_by p before (x ∷ xs) h =
    every-insert_by p before x (sort_by before xs) (ground arith)
      (every-sort_by p before xs (ground arith))

-- Whether a task with the id of `t` is found in the rows.
abbrev is_found : ℕ → List ApprovalTask → ApprovalTask → Bool
is_found tenant rows t = elim (find_by (has_key tenant t.id) rows) [ none ↦ false | some _ ↦ true ]

is_found-cons :
    (tenant : ℕ) (x : ApprovalTask) (rows : List ApprovalTask) (t : ApprovalTask)
    → (not (t.tenant_id == tenant) || is_found tenant rows t) ≡ true
    → (not (t.tenant_id == tenant) || is_found tenant (x ∷ rows) t) ≡ true
is_found-cons tenant x rows t h = ground arith

rows-found :
    (tenant : ℕ) (rows : List ApprovalTask)
    → every (λ t. not (t.tenant_id == tenant) || is_found tenant rows t) rows ≡ true
rows-found tenant [] = refl
rows-found tenant (x ∷ rows) = ground (
  arith,
  every-weaken (λ t. not (t.tenant_id == tenant) || is_found tenant rows t)
      (λ t. not (t.tenant_id == tenant) || is_found tenant (x ∷ rows) t) rows
      (is_found-cons tenant x rows) (rows-found tenant rows),
)

-- What a filter keeps satisfies what every row does.
every-filter_both {ℓ} :
    {A : Type ℓ} (p q r : A → Bool) (xs : List A)
    → ((a : A) → p a ≡ true → q a ≡ true → r a ≡ true)
    → every p xs ≡ true
    → every r (filter_by q xs) ≡ true
every-filter_both p q r [] both h = refl
every-filter_both p q r (x ∷ xs) both h = ground (arith, both x, every-filter_both p q r xs both)

module _ {Hash : Type 0} (digest : Payload Hash → Hash) (now : ℕ) where
  breached-found :
      (tenant : ℕ) (db : Db Hash)
      → every (is_found tenant db.tasks) (breached_tasks digest now tenant db) ≡ true
  unfolding breached_tasks
  breached-found tenant db =
      let test =
        λ (t : ApprovalTask). t.tenant_id == tenant && (is_open t.status && is_overdue now t) in
      every-take (is_found tenant db.tasks) 100 (sort_by due_before (filter_by test db.tasks)) (
        every-sort_by (is_found tenant db.tasks) due_before (filter_by test db.tasks) (
          every-filter_both (λ t. not (t.tenant_id == tenant) || is_found tenant db.tasks t) test
            (is_found tenant db.tasks) db.tasks (λ t h k. ground arith)
            (rows-found tenant db.tasks)))

  breached-bounded :
      (tenant : ℕ) (db : Db Hash) → length (breached_tasks digest now tenant db) ≤ 100
  unfolding breached_tasks
  breached-bounded tenant db = length-take-le 100 (
      sort_by due_before
        (filter_by (λ t. t.tenant_id == tenant && (is_open t.status && is_overdue now t)) db.tasks))

  breached-overdue :
      (tenant : ℕ) (db : Db Hash)
      → every (λ t. is_open t.status && is_overdue now t) (breached_tasks digest now tenant db)
        ≡ true
  unfolding breached_tasks
  breached-overdue tenant db =
      let test =
        λ (t : ApprovalTask). t.tenant_id == tenant && (is_open t.status && is_overdue now t) in
      let late = λ (t : ApprovalTask). is_open t.status && is_overdue now t in
      every-take late 100 (sort_by due_before (filter_by test db.tasks)) (
        every-sort_by late due_before (filter_by test db.tasks) (
          every-weaken test late (filter_by test db.tasks) (λ t h. ground arith)
            (every-filter_by test db.tasks)))

  Step-found :
      {n : ℕ} {db db' : Db Hash} (tenant : ℕ) (t : ApprovalTask)
      → Step digest n db db'
      → is_found tenant db.tasks t ≡ true
      → is_found tenant db'.tasks t ≡ true
  Step-found tenant t s h = elim (Bool-cases (touched digest s tenant t.id)) [
    | inl k ↦ ground (arith, (Step-touched digest tenant t.id s k).found)
    | inr k ↦ ground (arith, (Step-untouched digest tenant t.id s k).0)
  ]

  Steps-found :
      {n : ℕ} {db db' : Db Hash} (tenant : ℕ) (t : ApprovalTask)
      → Steps digest n db db'
      → is_found tenant db.tasks t ≡ true
      → is_found tenant db'.tasks t ≡ true
  Steps-found tenant t here h = h
  Steps-found tenant t (next r s) h = Step-found tenant t s (Steps-found tenant t r h)

  -- A task that is found is escalated without an error, and the row returned has its id.
  escalate-found :
      (tenant : ℕ) (t : ApprovalTask) (db : Db Hash)
      → is_found tenant db.tasks t ≡ true
      → (db' : Db Hash) × (u : ApprovalTask) × (escalate digest now (sweep_input tenant t) db
          ≡ ok (db', u))
        × (u.id ≡ t.id)
  unfolding escalate find_task write_task
  escalate-found tenant t db h = elim (Option-cases (find_by (has_key tenant t.id) db.tasks)) [
    | inl e ↦ absurd (ground arith)
    | inr (u, e) ↦
        let key = find_by-true (has_key tenant t.id) db.tasks u e in
        elim (Bool-cases (is_open u.status)) [
          | inl is ↦
              let target = escalation_target tenant (escalation_role u.escalation_level) db.users in
              let w =
                write_task digest now u (escalated_row now target u)
                  (escalate_event (sweep_input tenant t) target (escalation_role u.escalation_level)
                    u)
                  db in
              (w.0, w.1, ground arith, ground arith)
          | inr shut ↦ (db, u, ground arith, ground arith)
        ]
  ]

  escalate_each-cons :
      (tenant : ℕ) (t : ApprovalTask) (ts : List ApprovalTask) (db mid last : Db Hash)
      (u : ApprovalTask) (ids : List ℕ)
      → escalate digest now (sweep_input tenant t) db ≡ ok (mid, u)
      → escalate_each digest now tenant ts mid ≡ ok (last, ids)
      → u.id ≡ t.id
      → escalate_each digest now tenant (t ∷ ts) db ≡ ok (last, t.id ∷ ids)
  unfolding escalate_each
  escalate_each-cons tenant t ts db mid last u ids e e' same = rw (e, e', same)

  escalate_each-total :
      (tenant : ℕ) (ts : List ApprovalTask) (db : Db Hash)
      → every (is_found tenant db.tasks) ts ≡ true
      → (db' : Db Hash) × (escalate_each digest now tenant ts db ≡ ok (db', map (λ t. t.id) ts))
  escalate_each-total tenant [] db h = (db, unfold escalate_each in refl)
  escalate_each-total tenant (t ∷ ts) db h =
      let (mid, u, e, same) = escalate-found tenant t db (ground arith) in
      let rest =
        every-weaken (is_found tenant db.tasks) (is_found tenant mid.tasks) ts
          (λ a. Steps-found tenant a (escalate-Steps digest now (sweep_input tenant t) db mid u e))
          (ground arith) in
      let (last, e') = escalate_each-total tenant ts mid rest in
      (last, escalate_each-cons tenant t ts db mid last u (map (λ a. a.id) ts) e e' same)

  -- The sweep over breached tasks always returns: it scans at most a hundred open tasks that are
  -- past due, and reports the id of each of them as escalated, in the order scanned.
  pub escalate_breached_tasks_total :
      (tenant : ℕ) (db : Db Hash)
      → (db' : Db Hash) × (escalate_breached_tasks digest now tenant db
          ≡ ok (
            db',
            length (breached_tasks digest now tenant db),
            map (λ t. t.id) (breached_tasks digest now tenant db),
          ))
        × (length (breached_tasks digest now tenant db) ≤ 100)
        × (every (λ t. is_open t.status && is_overdue now t) (breached_tasks digest now tenant db)
            ≡ true)
  unfolding escalate_breached_tasks
  escalate_breached_tasks_total tenant db =
      let (db', e) =
        escalate_each-total tenant (breached_tasks digest now tenant db) db
          (breached-found tenant db) in
      (db', rw e, breached-bounded tenant db, breached-overdue tenant db)
