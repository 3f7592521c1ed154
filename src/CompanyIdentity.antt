-- ===== src/CompanyIdentity.antt =====
-- packages/db/src/services/company-identity.ts: which company a raw contact or an official identifier
-- belongs to. Rows and actions in Model and Action, the functions in Keys, Merge, Detect and
-- Service, what they keep and promise in the others.
pub mod Model
pub mod Action
pub mod Keys
pub mod Merge
pub mod Detect
pub mod Service
pub mod Upsert
mod Frame
mod Held
mod Holder
mod Recorded
mod Entered
mod Resolved
mod Guarantees
mod Calls
mod Linked
mod Copies
mod Tests
pub mod Invariant
pub mod Unique
mod Rows
