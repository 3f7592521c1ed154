-- ===== src/Outreach/Quota/Usage.antt =====
-- The counters under any sequence of checks, of any phones and days.
use cerniq_app_v.Prelude.{
  ℕ, ◌+◌, ◌≤◌, ◌<◌, List, [], ◌∷◌, true, false, ◌&&◌, if◌then◌else◌, ◌≡◌, refl, ◌↔◌, ◌⊎◌, inl, inr,
  arith, Bool-cases,
}
use cerniq_app_v.Outreach.Quota.{
  QuotaKey, same_key, Counter, Redis, QuotaCheckJobData, QuotaCheckResult, daily_quota_limit,
  get_usage, get_status, incr_and_expire, is_offline, quota_check_lua, key_of, execute_quota_check,
}

-- When a check admits the message.
abbrev pub Admits : QuotaCheckJobData → Redis → Type 0
Admits job redis =
    (is_offline (get_status job.phone_id redis.statuses) ≡ false)
    × (9 ≤ job.current_hour)
    × (job.current_hour < 18)
    × ((job.is_new_contact ≡ false) ⊎ (get_usage (key_of job) redis.counters < daily_quota_limit))

-- A check admits exactly the messages from a phone that is not known to be offline, from 09:00 to
-- 17:59, that are follow-ups or find a usage below the limit.
pub execute_quota_check-allowed_iff :
    (job : QuotaCheckJobData) (redis : Redis)
    → ((execute_quota_check job redis).1.allowed ≡ true) ↔ Admits job redis
unfolding execute_quota_check quota_check_lua
execute_quota_check-allowed_iff job redis = (
  λ allowed. (
    ground arith,
    ground arith,
    ground arith,
    elim (Bool-cases job.is_new_contact) [ inl new ↦ inr (ground arith) | inr follow ↦ inl follow ],
  ),
  λ (online, from, to, room). elim room [ inl follow ↦ ground arith | inr low ↦ ground arith ],
)

-- The jobs and their results, in order.
unfoldable pub run_checks :
    List QuotaCheckJobData → Redis → Redis × List (QuotaCheckJobData × QuotaCheckResult)
unfolding execute_quota_check
run_checks [] redis = (redis, [])
run_checks (job ∷ jobs) redis =
    let (next, result) = execute_quota_check job redis in
    let (last, rest) = run_checks jobs next in (last, (job, result) ∷ rest)

-- The new contacts that were admitted for a phone on a day.
unfoldable pub admitted_contacts : QuotaKey → List (QuotaCheckJobData × QuotaCheckResult) → ℕ
admitted_contacts key [] = 0
admitted_contacts key ((job, result) ∷ rest) =
    (if job.is_new_contact && (result.allowed && same_key (key_of job) key) then 1 else 0)
    + admitted_contacts key rest

get_usage-incr :
    (k key : QuotaKey) (cost : ℕ) (cs : List Counter)
    → get_usage k (incr_and_expire key cost cs)
      ≡ get_usage k cs + (if same_key key k then cost else 0)
unfolding get_usage incr_and_expire
get_usage-incr k key cost [] = ground arith
get_usage-incr k key cost (c ∷ cs) = ground (arith, get_usage-incr k key cost cs)

step-usage :
    (k : QuotaKey) (job : QuotaCheckJobData) (redis : Redis)
    → get_usage k (execute_quota_check job redis).0.counters
      ≡ get_usage k redis.counters
        + (if job.is_new_contact
              && ((execute_quota_check job redis).1.allowed && same_key (key_of job) k)
            then 1
            else 0)
unfolding execute_quota_check quota_check_lua
step-usage k job redis = ground (arith, get_usage-incr k (key_of job) 1 redis.counters)

same_key-usage :
    (a b : QuotaKey) (cs : List Counter) → same_key a b ≡ true → get_usage a cs ≡ get_usage b cs
unfolding get_usage
same_key-usage a b [] same = refl
same_key-usage a b (c ∷ cs) same = ground (arith, same_key-usage a b cs)

-- An admitted new contact finds room.
admitted-room :
    (job : QuotaCheckJobData) (redis : Redis)
    → (execute_quota_check job redis).1.allowed ≡ true
    → job.is_new_contact ≡ true
    → get_usage (key_of job) redis.counters < daily_quota_limit
admitted-room job redis allowed new =
    elim ((execute_quota_check-allowed_iff job redis).0 allowed).3 [
      | inl follow ↦ absurd (ground arith)
      | inr room ↦ room
    ]

step-bound :
    (k : QuotaKey) (job : QuotaCheckJobData) (redis : Redis)
    → get_usage k redis.counters ≤ daily_quota_limit
    → get_usage k (execute_quota_check job redis).0.counters ≤ daily_quota_limit
step-bound k job redis le = elim (Bool-cases (execute_quota_check job redis).1.allowed) [
  | inl allowed ↦ ground (
    arith,
    step-usage k job redis,
    admitted-room job redis allowed,
    same_key-usage (key_of job) k redis.counters,
  )
  | inr refused ↦ ground (arith, step-usage k job redis)
]

-- If the counter of a phone on a day is within the limit of 200, then after any sequence of checks,
-- of any phones and days, it has grown by exactly the new contacts that were admitted for that phone
-- on that day, and it is within the limit still.
pub run_checks-usage :
    (jobs : List QuotaCheckJobData) (k : QuotaKey) (redis : Redis)
    → get_usage k redis.counters ≤ daily_quota_limit
    → let (after, results) = run_checks jobs redis in
      (get_usage k after.counters ≡ get_usage k redis.counters + admitted_contacts k results)
      × (get_usage k after.counters ≤ daily_quota_limit)
unfolding run_checks admitted_contacts
run_checks-usage [] k redis le = (ground arith, le)
run_checks-usage (job ∷ jobs) k redis le =
    let (eq, bound) =
      run_checks-usage jobs k (execute_quota_check job redis).0 (step-bound k job redis le) in
    (ground (arith, step-usage k job redis), bound)
