-- ===== src/Outreach/Resilience/Retry.antt =====
-- workers/outreach/src/workers/resilience.ts: the retry orchestrator.
-- A job's payload is left out: it is passed on as it came.
use cerniq_app_v.Prelude.{
  ◌⊎◌, inl, inr, ◌↔◌, Bool-cases, Option-cases, refl, ℕ, zero, suc, ◌+◌, ◌-◌, ◌*◌, ◌^◌, ◌≤◌, ◌<◌,
  Bool, true, false, ◌&&◌, ◌||◌, Option, none, some, String, ltb, leb, if◌then◌else◌, ◌≡◌, arith,
}

pub data ErrorType : Type 0 where
  network rate_limited client_error server_error : ErrorType

pub data Backoff : Type 0 where
  exponential : ℕ → Backoff
  fixed : ℕ → Backoff

pub record Policy : Type 0 where
  pub attempts : ℕ
  pub backoff : Option Backoff

-- `RETRY_POLICIES`
abbrev pub retry_policies : ErrorType → Policy
retry_policies network = record { attempts = 3; backoff = some (exponential 1000) }
retry_policies rate_limited = record { attempts = 5; backoff = some (fixed 60000) }
retry_policies client_error = record { attempts = 0; backoff = none }
retry_policies server_error = record { attempts = 3; backoff = some (exponential 2000) }

pub record RetryJobData : Type 0 where
  pub original_queue : String
  pub error_type : ErrorType
  pub status_code : Option ℕ
  pub attempts_made : ℕ

-- `computeRetryDelayMs`
abbrev pub compute_retry_delay_ms : Policy → ℕ → ℕ
compute_retry_delay_ms policy attempts_made = elim policy.backoff [
  | none ↦ 0
  | some (exponential delay) ↦ delay * 2 ^ attempts_made
  | some (fixed delay) ↦ delay
]

-- What the orchestrator queues: a job of the dead letter queue, or the retry.
pub data Requeued : Type 0 where
  failed exhausted : Requeued
  retry : (queue : String) → (delay attempts : ℕ) → (backoff : Option Backoff) → Requeued

-- statusCode && statusCode >= 400 && statusCode < 500
abbrev pub is_4xx : Option ℕ → Bool
is_4xx none = false
is_4xx (some code) = leb 400 code && ltb code 500

abbrev pub is_client_error : ErrorType → Bool
is_client_error network = false
is_client_error rate_limited = false
is_client_error client_error = true
is_client_error server_error = false

-- The processor of createRetryOrchestratorWorker.
unfoldable pub orchestrate_retry : RetryJobData → Requeued
orchestrate_retry job =
    let policy = retry_policies job.error_type in
    if is_client_error job.error_type || is_4xx job.status_code
    then failed
    else if leb policy.attempts job.attempts_made
    then exhausted
    else retry job.original_queue (compute_retry_delay_ms policy job.attempts_made)
        (policy.attempts - job.attempts_made) policy.backoff

client_error-eq : (e : ErrorType) → is_client_error e ≡ true → e ≡ client_error
client_error-eq network h = absurd (ground arith)
client_error-eq rate_limited h = absurd (ground arith)
client_error-eq client_error h = refl
client_error-eq server_error h = absurd (ground arith)

-- A job goes to the dead letter queue as failed exactly if its error is of the type CLIENT_ERROR or
-- carries a status from 400 to 499, whatever its type and its attempts: a rate limited job with its
-- status 429 is one of them.
pub orchestrate_retry-failed_iff :
    (job : RetryJobData)
    → (orchestrate_retry job ≡ failed) ↔ (
        (job.error_type ≡ client_error)
        ⊎ ((code : ℕ) × (job.status_code ≡ some code) × (400 ≤ code) × (code < 500)))
unfolding orchestrate_retry
orchestrate_retry-failed_iff job = (
  λ h. elim (Bool-cases (is_client_error job.error_type)) [
    | inl client ↦ inl (client_error-eq job.error_type client)
    | inr other ↦ elim (Option-cases job.status_code) [
      | inl no_status ↦ absurd (ground arith)
      | inr (code, is) ↦ inr (code, is, ground arith, ground arith)
    ]
  ],
  λ h. elim h [
    | inl client ↦ ground (arith, client)
    | inr (code, is, low, high) ↦ ground (arith, is)
  ],
)

delay-range :
    (e : ErrorType) (n : ℕ)
    → n < (retry_policies e).attempts
    → (1000 ≤ compute_retry_delay_ms (retry_policies e) n)
      × (compute_retry_delay_ms (retry_policies e) n ≤ 60000)
delay-range network zero h = (ground arith, ground arith)
delay-range network (suc zero) h = (ground arith, ground arith)
delay-range network (suc (suc zero)) h = (ground arith, ground arith)
delay-range network (suc (suc (suc n))) h = absurd (ground arith)
delay-range rate_limited n h = (ground arith, ground arith)
delay-range client_error n h = absurd (ground arith)
delay-range server_error zero h = (ground arith, ground arith)
delay-range server_error (suc zero) h = (ground arith, ground arith)
delay-range server_error (suc (suc zero)) h = (ground arith, ground arith)
delay-range server_error (suc (suc (suc n))) h = absurd (ground arith)

-- What a retry is made of.
retry-parts :
    (job : RetryJobData) (queue : String) (delay attempts : ℕ) (backoff : Option Backoff)
    → orchestrate_retry job ≡ retry queue delay attempts backoff
    → (queue ≡ job.original_queue)
      × (job.attempts_made < (retry_policies job.error_type).attempts)
      × (delay ≡ compute_retry_delay_ms (retry_policies job.error_type) job.attempts_made)
      × (attempts ≡ (retry_policies job.error_type).attempts - job.attempts_made)
unfolding orchestrate_retry
retry-parts job queue delay attempts backoff is =
    (ground arith, ground arith, ground arith, ground arith)

-- A job that is tried again is of a type whose policy has attempts left; the attempts made and
-- those granted add up to the policy's, at least one is granted, and the delay is at least a second
-- and at most a minute.
pub orchestrate_retry-retry :
    (job : RetryJobData) (queue : String) (delay attempts : ℕ) (backoff : Option Backoff)
    → orchestrate_retry job ≡ retry queue delay attempts backoff
    → (queue ≡ job.original_queue)
      × (0 < attempts)
      × (job.attempts_made + attempts ≡ (retry_policies job.error_type).attempts)
      × (1000 ≤ delay)
      × (delay ≤ 60000)
orchestrate_retry-retry job queue delay attempts backoff is =
    let (same, left, delays, grants) = retry-parts job queue delay attempts backoff is in
    let (least, most) = delay-range job.error_type job.attempts_made left in
    (same, ground arith, ground arith, ground arith, ground arith)
