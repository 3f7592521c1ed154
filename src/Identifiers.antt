-- ===== src/Identifiers.antt =====
-- Romanian company identifiers: the fiscal code (CUI) and the trade register number (Nr. Reg. Com.).
-- packages/shared-types/src/identifiers.ts and workers/enrichment/src/lib/cui-validation.ts.
pub mod Cui
pub mod CuiValidation
pub mod NrRegCom
mod Tests
