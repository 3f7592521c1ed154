-- ===== src/Enrichment.antt =====
-- workers/enrichment: the completion of a company's enrichment.
pub mod Completion
pub mod Ingest
pub mod Errors
mod Tests
mod IngestTests
mod ErrorTests
