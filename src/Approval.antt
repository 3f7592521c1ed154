-- ===== src/Approval.antt =====
-- packages/db/src/services/approval-service.ts: the human approval tasks and their audit log.
pub mod Model
pub mod Audit
pub mod Service
pub mod Operations
pub mod Escalation
pub mod Queries
pub mod Writes
pub mod Steps
pub mod Invariants
pub mod Guarantees
pub mod Chain
pub mod Decisions
pub mod Sweep
pub mod Reports
mod Tests
