-- ===== src/Enrichment/Ingest.antt =====
-- The insertion of imported rows (workers/enrichment/src/workers/ingest-utils.ts): a batch is
-- inserted at once and its rows are then resolved one by one; a batch that the database refuses for
-- one of its rows is split in halves.
pub mod Text
pub mod Row
pub mod Batch
pub mod Encoding
mod Accounts
pub mod Ends
