-- ===== src/Outreach.antt =====
-- workers/outreach: the machine of a lead's journey, the guardian of the WhatsApp quota, and the
-- policies that decide when a message goes out.
pub mod LeadFsm
pub mod Quota
pub mod Resilience
pub mod Sequences
mod Clock
mod Tests
mod ClockTests
