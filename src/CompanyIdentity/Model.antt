-- ===== src/CompanyIdentity/Model.antt =====
-- The rows of the identity service (packages/db/src/schemas/bronze.ts and silver.ts, the columns
-- that the service uses) and its results. The metadata columns, which only record what happened,
-- and the times are left out; `is_revoked` says that `revoked_at` is set. An id is a number.
use cerniq_app_v.Prelude.{ℕ, List, Bool, true, false, not, Option, none, some, String, ◌&&◌, str_eq}

pub data BronzeIdentityStatus : Type 0 where
  unresolved resolved duplicate_source identity_conflict insufficient_identifiers :
      BronzeIdentityStatus

pub data SilverIdentityStatus : Type 0 where
  resolved partial identity_conflict : SilverIdentityStatus

pub data IdentitySourceAuthority : Type 0 where
  import anaf onrc manual migration : IdentitySourceAuthority

pub data IdentityKeyType : Type 0 where
  cui nr_reg_com : IdentityKeyType

pub data ProcessingStatus : Type 0 where
  pending processing promoted rejected error : ProcessingStatus

pub record IdentityKey : Type 0 where
  pub id : ℕ
  pub tenant_id : ℕ
  pub company_id : ℕ
  pub key_type : IdentityKeyType
  pub key_value_canonical : String
  pub key_value_original : Option String
  pub source_authority : IdentitySourceAuthority
  pub is_authoritative : Bool
  pub source_bronze_id : Option ℕ
  pub is_revoked : Bool

pub record SilverCompany : Type 0 where
  pub id : ℕ
  pub tenant_id : ℕ
  pub cui : Option String
  pub nr_reg_com : Option String
  pub nr_reg_com_original : Option String
  pub denumire : Option String
  pub identity_status : SilverIdentityStatus
  pub source_bronze_id : Option ℕ
  pub is_promotion_blocked : Bool
  pub is_master_record : Bool

pub record BronzeContact : Type 0 where
  pub id : ℕ
  pub tenant_id : ℕ
  pub source_payload_hash : String
  pub extracted_name : Option String
  pub extracted_cui_raw : Option String
  pub extracted_cui : Option String
  pub extracted_nr_reg_com_raw : Option String
  pub extracted_nr_reg_com : Option String
  pub identity_status : BronzeIdentityStatus
  pub resolved_company_id : Option ℕ
  pub promoted_to_silver_id : Option ℕ
  pub duplicate_of_id : Option ℕ
  pub is_duplicate : Bool
  pub do_not_process : Bool
  pub processing_status : ProcessingStatus
  pub created_at : ℕ

-- `next_id` is the id that the database gives to the next row.
pub record Db : Type 0 where
  pub bronze : List BronzeContact
  pub keys : List IdentityKey
  pub companies : List SilverCompany
  pub next_id : ℕ

pub record Context : Type 0 where
  pub bronze_id : ℕ
  pub tenant_id : ℕ
  pub source_payload_hash : String
  pub extracted_name : Option String
  pub extracted_cui_raw : Option String
  pub extracted_cui : Option String
  pub extracted_nr_reg_com_raw : Option String
  pub extracted_nr_reg_com : Option String
  pub source_authority : IdentitySourceAuthority

-- `BronzeIdentityResolutionResult`, the columns that differ.
pub data Resolution : Type 0 where
  resolved :
      (company_id : ℕ)
      → (status : SilverIdentityStatus) → (created_company_id : Option ℕ) → Resolution
  duplicate_source : (company_id : Option ℕ) → (duplicate_of_id : ℕ) → Resolution
  insufficient_identifiers : Resolution
  identity_conflict : (conflict_company_ids : List ℕ) → Resolution

-- `CompanyIdentityUpsertResult`
pub data UpsertResult : Type 0 where
  linked : (company_id : ℕ) → (status : SilverIdentityStatus) → UpsertResult
  conflict : (company_id conflict_company_id : ℕ) → UpsertResult

-- What is thrown: the error of `insertIdentityKey` with its company, and those that end a call.
pub data Error : Type 0 where
  key_conflict : (company_id : ℕ) → Error
  bronze_not_found unique_violation not_serializable : Error

-- `if (value)`: neither null nor empty.
abbrev pub is_given : Option String → Bool
is_given none = false
is_given (some s) = not (str_eq s "")

-- `a ?? b`
abbrev pub or_else {ℓ} : {A : Type ℓ} → Option A → Option A → Option A
or_else none b = b
or_else (some a) b = some a

abbrev pub same_type : IdentityKeyType → IdentityKeyType → Bool
same_type cui cui = true
same_type nr_reg_com nr_reg_com = true
same_type cui nr_reg_com = false
same_type nr_reg_com cui = false

-- `=` on a column that may be null.
abbrev pub is_text : Option String → String → Bool
is_text none s = false
is_text (some t) s = str_eq t s

-- `deriveSilverIdentityStatus` with no forced status.
unfoldable pub derive_silver_identity_status : Option String → Option String → SilverIdentityStatus
derive_silver_identity_status c n = elim (is_given c && is_given n) [
  | true ↦ SilverIdentityStatus.resolved
  | false ↦ partial
]
