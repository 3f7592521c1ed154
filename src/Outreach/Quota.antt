-- ===== src/Outreach/Quota.antt =====
-- workers/outreach/src/utils/quota-lua.ts and workers/outreach/src/workers/quota-guardian.ts: the
-- Lua script that admits a message, its caller, and the persisted usage.
-- Redis holds the counters under `quota:wa:{phone}:{date}` and the status of each phone; a key is
-- the pair of the phone's id and the day, both numbers, as neither text holds a colon. The script
-- runs as one step, as Redis runs it. What a counter's `expires_in` does with time is not modelled.
pub mod Usage
pub mod Persisted
use cerniq_app_v.Prelude.{
  ℕ, ◌+◌, List, [], ◌∷◌, Bool, true, false, not, ◌&&◌, ◌||◌, Option, none, some, String, ◌==◌, ltb,
  leb, str_eq, if◌then◌else◌, find_by,
}
use cerniq_app_v.Prelude.Int.{ℤ, pos, sub_ℕ}
use cerniq_app_v.Prelude.Rows.{update_where}

-- `getQuotaKey`
pub record QuotaKey : Type 0 where
  pub phone_id : ℕ
  pub date_iso : ℕ

abbrev pub same_key : QuotaKey → QuotaKey → Bool
same_key a b = a.phone_id == b.phone_id && a.date_iso == b.date_iso

pub record Counter : Type 0 where
  pub key : QuotaKey
  pub usage : ℕ
  pub expires_in : Option ℕ

pub record PhoneStatus : Type 0 where
  pub phone_id : ℕ
  pub status : String

pub record Redis : Type 0 where
  pub counters : List Counter
  pub statuses : List PhoneStatus

abbrev pub daily_quota_limit : ℕ
daily_quota_limit = 200

abbrev pub quota_key_ttl_seconds : ℕ
quota_key_ttl_seconds = 172800

pub data QuotaCheckReason : Type 0 where
  quota_ok quota_exceeded outside_business_hours phone_offline phone_banned : QuotaCheckReason

pub record QuotaCheckJobData : Type 0 where
  pub phone_id : ℕ
  pub is_new_contact : Bool
  pub date_iso : ℕ
  pub current_hour : ℕ

-- The reply of the script; `cost_applied` is missing where the message is refused.
pub record Reply : Type 0 where
  pub allowed : Bool
  pub reason : QuotaCheckReason
  pub current_usage : ℕ
  pub remaining : ℤ
  pub cost_applied : Option ℕ

pub record QuotaCheckResult : Type 0 where
  pub allowed : Bool
  pub reason : QuotaCheckReason
  pub current_usage : ℕ
  pub remaining : ℤ
  pub cost_applied : ℕ

-- tonumber(redis.call("GET", quota_key) or "0")
unfoldable pub get_usage : QuotaKey → List Counter → ℕ
get_usage key counters = elim (find_by (λ c. same_key c.key key) counters) [
  | none ↦ 0
  | some c ↦ c.usage
]

-- redis.call("GET", status_key)
unfoldable pub get_status : ℕ → List PhoneStatus → Option String
get_status phone statuses = elim (find_by (λ s. s.phone_id == phone) statuses) [
  | none ↦ none
  | some s ↦ some s.status
]

-- redis.call("INCRBY", quota_key, cost), which creates a missing counter, then
-- redis.call("EXPIRE", quota_key, 172800)
unfoldable pub incr_and_expire : QuotaKey → ℕ → List Counter → List Counter
incr_and_expire key cost [] =
    record { key = key; usage = cost; expires_in = some quota_key_ttl_seconds } ∷ []
incr_and_expire key cost (c ∷ cs) =
    let rest = incr_and_expire key cost cs in
    if same_key c.key key
    then record c { usage = c.usage + cost; expires_in = some quota_key_ttl_seconds } ∷ cs
    else c ∷ rest

-- phone_status and phone_status ~= "ACTIVE"
abbrev pub is_offline : Option String → Bool
is_offline none = false
is_offline (some status) = not (str_eq status "ACTIVE")

abbrev pub reply_refused : QuotaCheckReason → ℕ → ℤ → Reply
reply_refused reason usage remaining = record {
  allowed = false;
  reason = reason;
  current_usage = usage;
  remaining = remaining;
  cost_applied = none;
}

abbrev pub reply_allowed : ℕ → ℕ → ℕ → Reply
reply_allowed limit usage cost = record {
  allowed = true;
  reason = quota_ok;
  current_usage = usage;
  remaining = sub_ℕ limit usage;
  cost_applied = some cost;
}

-- `QUOTA_CHECK_LUA`
unfoldable pub quota_check_lua : QuotaKey → ℕ → ℕ → ℕ → ℕ → Redis → Redis × Reply
unfolding get_usage get_status
quota_check_lua key phone limit cost current_hour redis =
    let current_usage = get_usage key redis.counters in
    if is_offline (get_status phone redis.statuses)
    then (redis, reply_refused phone_offline 0 (pos 0))
    else if ltb current_hour 9 || leb 18 current_hour
    then (redis, reply_refused outside_business_hours current_usage (sub_ℕ limit current_usage))
    else if cost == 0
    then (redis, reply_allowed limit current_usage 0)
    else if ltb limit (current_usage + cost)
    then (redis, reply_refused quota_exceeded current_usage (pos 0))
    else (
      record redis { counters = incr_and_expire key cost redis.counters },
      reply_allowed limit (current_usage + cost) cost,
    )

abbrev pub key_of : QuotaCheckJobData → QuotaKey
key_of data_of = record { phone_id = data_of.phone_id; date_iso = data_of.date_iso }

-- `executeQuotaCheck`
unfoldable pub execute_quota_check : QuotaCheckJobData → Redis → Redis × QuotaCheckResult
unfolding quota_check_lua
execute_quota_check data_of redis =
    let (after, reply) =
      quota_check_lua (key_of data_of) data_of.phone_id daily_quota_limit
        (if data_of.is_new_contact then 1 else 0) data_of.current_hour redis in
    (
      after,
      record {
        allowed = reply.allowed;
        reason = reply.reason;
        current_usage = reply.current_usage;
        remaining = reply.remaining;
        cost_applied = elim reply.cost_applied [ none ↦ 0 | some c ↦ c ];
      },
    )
