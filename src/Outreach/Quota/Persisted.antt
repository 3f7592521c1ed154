-- ===== src/Outreach/Quota/Persisted.antt =====
-- The processor of `quota:guardian:increment`
-- (workers/outreach/src/workers/quota-guardian.ts, createQuotaIncrementWorker): the usage that is
-- kept in `wa_quota_usage`, whose rows are unique by the phone and the day.
use cerniq_app_v.Prelude.{
  ℕ, ◌+◌, List, [], ◌∷◌, none, some, ◌==◌, if◌then◌else◌, find_by, ◌≡◌, arith,
}
use cerniq_app_v.Outreach.Quota.{QuotaKey, same_key, Counter, get_usage}

pub record QuotaIncrementJobData : Type 0 where
  pub key : QuotaKey
  pub cost : ℕ
  pub tenant_id : ℕ

pub record WaQuotaUsage : Type 0 where
  pub tenant_id : ℕ
  pub key : QuotaKey
  pub messages_sent : ℕ
  pub new_contacts : ℕ
  pub follow_ups : ℕ
  pub updated_at : ℕ

-- insert … on conflict (phone_id, usage_date) do update
unfoldable pub upsert_usage : ℕ → QuotaIncrementJobData → List WaQuotaUsage → List WaQuotaUsage
upsert_usage now job [] =
    record {
      tenant_id = job.tenant_id;
      key = job.key;
      messages_sent = job.cost;
      new_contacts = job.cost;
      follow_ups = if job.cost == 0 then 1 else 0;
      updated_at = now;
    }
    ∷ []
upsert_usage now job (row ∷ rows) =
    let rest = upsert_usage now job rows in
    if same_key row.key job.key
    then record row {
      messages_sent = row.messages_sent + job.cost;
      new_contacts = row.new_contacts + job.cost;
      follow_ups = row.follow_ups + (if job.cost == 0 then 1 else 0);
      updated_at = now;
    }
      ∷ rows
    else row ∷ rest

-- The processor: the table after it, and the total that Redis holds, which is the answer.
unfoldable pub process_increment :
    ℕ → QuotaIncrementJobData → List Counter → List WaQuotaUsage → List WaQuotaUsage × ℕ
unfolding upsert_usage
process_increment now job counters rows = (upsert_usage now job rows, get_usage job.key counters)

unfoldable pub run_increments :
    List (ℕ × QuotaIncrementJobData) → List Counter → List WaQuotaUsage → List WaQuotaUsage
unfolding process_increment
run_increments [] counters rows = rows
run_increments ((now, job) ∷ jobs) counters rows =
    run_increments jobs counters (process_increment now job counters rows).0

-- A column of the row of a key, nought where there is no row.
abbrev pub column : (WaQuotaUsage → ℕ) → QuotaKey → List WaQuotaUsage → ℕ
column f key rows = elim (find_by (λ r. same_key r.key key) rows) [ none ↦ 0 | some r ↦ f r ]

-- The sum over the jobs of a key.
abbrev pub total : (ℕ → ℕ) → QuotaKey → List (ℕ × QuotaIncrementJobData) → ℕ
total f key [] = 0
total f key ((now, job) ∷ jobs) =
    (if same_key job.key key then f job.cost else 0) + total f key jobs

abbrev pub is_follow_up : ℕ → ℕ
is_follow_up cost = if cost == 0 then 1 else 0

step-new_contacts :
    (now : ℕ) (job : QuotaIncrementJobData) (key : QuotaKey) (rows : List WaQuotaUsage)
    → column (λ r. r.new_contacts) key (upsert_usage now job rows)
      ≡ column (λ r. r.new_contacts) key rows + (if same_key job.key key then job.cost else 0)
unfolding upsert_usage
step-new_contacts now job key [] = ground arith
step-new_contacts now job key (row ∷ rows) = ground (arith, step-new_contacts now job key rows)

step-messages_sent :
    (now : ℕ) (job : QuotaIncrementJobData) (key : QuotaKey) (rows : List WaQuotaUsage)
    → column (λ r. r.messages_sent) key (upsert_usage now job rows)
      ≡ column (λ r. r.messages_sent) key rows + (if same_key job.key key then job.cost else 0)
unfolding upsert_usage
step-messages_sent now job key [] = ground arith
step-messages_sent now job key (row ∷ rows) = ground (arith, step-messages_sent now job key rows)

step-follow_ups :
    (now : ℕ) (job : QuotaIncrementJobData) (key : QuotaKey) (rows : List WaQuotaUsage)
    → column (λ r. r.follow_ups) key (upsert_usage now job rows)
      ≡ column (λ r. r.follow_ups) key rows
        + (if same_key job.key key then is_follow_up job.cost else 0)
unfolding upsert_usage
step-follow_ups now job key [] = ground arith
step-follow_ups now job key (row ∷ rows) = ground (arith, step-follow_ups now job key rows)

-- After any sequence of increments the row of a phone and a day has grown by the costs of its jobs,
-- in new_contacts as in messages_sent, and by the number of its jobs without a cost in follow_ups.
run_increments-totals :
    (jobs : List (ℕ × QuotaIncrementJobData)) (counters : List Counter) (key : QuotaKey)
    (rows : List WaQuotaUsage)
    → let after = run_increments jobs counters rows in
      (column (λ r. r.new_contacts) key after
        ≡ column (λ r. r.new_contacts) key rows + total (λ c. c) key jobs)
      × (column (λ r. r.messages_sent) key after
          ≡ column (λ r. r.messages_sent) key rows + total (λ c. c) key jobs)
      × (column (λ r. r.follow_ups) key after
          ≡ column (λ r. r.follow_ups) key rows + total is_follow_up key jobs)
unfolding run_increments process_increment
run_increments-totals [] counters key rows = (ground arith, ground arith, ground arith)
run_increments-totals ((now, job) ∷ jobs) counters key rows =
    let (news, sent, follows) =
      run_increments-totals jobs counters key (upsert_usage now job rows) in
    (
      ground (arith, step-new_contacts now job key rows),
      ground (arith, step-messages_sent now job key rows),
      ground (arith, step-follow_ups now job key rows),
    )
