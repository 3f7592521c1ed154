-- ===== src/CompanyIdentity/Keys.antt =====
-- The registry of identity keys, and the writes on companies and contacts:
-- `findIdentityMatches`, `findLegacySilverCompanyMatches`, `insertIdentityKey`,
-- `updateCompanyIdentitySnapshot`, `createPlaceholderCompany` and `updateBronzeResolution`.
-- A query without an order returns the rows in the order of the table.
use cerniq_app_v.Prelude.{
  ℕ, List, [], ◌∷◌, ◌++◌, map, Bool, true, false, not, ◌&&◌, ◌||◌, Option, none, some, String, ◌==◌,
  str_eq, if◌then◌else◌, find_by, filter_by,
}
use cerniq_app_v.Prelude.Rows.{update_where}
use cerniq_app_v.CompanyIdentity.Model.{
  IdentityKey, SilverCompany, BronzeContact, Context, IdentityKeyType, IdentitySourceAuthority,
  SilverIdentityStatus, BronzeIdentityStatus, ProcessingStatus, cui, nr_reg_com, key_conflict,
  or_else, same_type, is_text, derive_silver_identity_status,
}
use cerniq_app_v.CompanyIdentity.Action.{
  Action, pure, throw, ◌>>=◌, ◌>>◌, put_keys, put_bronze, put_companies, fresh_id,
}

-- The key is in force for the value.
abbrev pub is_active : ℕ → IdentityKeyType → String → IdentityKey → Bool
is_active tenant type value k =
    k.tenant_id == tenant
    && (same_type k.key_type type && str_eq k.key_value_canonical value)
    && not k.is_revoked

-- The key is of the type and of the value, if one is given.
abbrev pub names : IdentityKeyType → Option String → IdentityKey → Bool
names type none k = false
names type (some value) k =
    not (str_eq value "") && (same_type k.key_type type && str_eq k.key_value_canonical value)

unfoldable pub find_identity_matches :
    ℕ → Option String → Option String → List IdentityKey → List IdentityKey
find_identity_matches tenant c n keys =
    filter_by
      (λ k. k.tenant_id == tenant && not k.is_revoked && (names cui c k || names nr_reg_com n k))
      keys

-- `Array.from(new Set(ids))`
unfoldable pub distinct : List ℕ → List ℕ
distinct [] = []
distinct (x ∷ xs) = x ∷ filter_by (λ y. not (y == x)) (distinct xs)

-- The company holds the value, if one is given.
abbrev pub holds : Option String → Option String → Bool
holds column none = false
holds column (some value) = not (str_eq value "") && is_text column value

unfoldable pub find_legacy_silver_company_matches :
    ℕ → Option String → Option String → List SilverCompany → List ℕ
unfolding distinct
find_legacy_silver_company_matches tenant c n companies = distinct (
    map (λ (s : SilverCompany). s.id)
      (filter_by (λ s. s.tenant_id == tenant && (holds s.cui c || holds s.nr_reg_com n)) companies))

abbrev pub find_company : ℕ → ℕ → List SilverCompany → Option SilverCompany
find_company tenant id companies = find_by (λ s. s.tenant_id == tenant && s.id == id) companies

-- The arguments of `insertIdentityKey`.
pub record KeyInput : Type 0 where
  pub tenant_id : ℕ
  pub company_id : ℕ
  pub key_type : IdentityKeyType
  pub key_value_canonical : String
  pub key_value_original : Option String
  pub source_authority : IdentitySourceAuthority
  pub is_authoritative : Bool
  pub source_bronze_id : Option ℕ

-- What is set on the key that is there already.
abbrev pub refreshed_key : KeyInput → IdentityKey → IdentityKey → IdentityKey
refreshed_key input existing k = record k {
  key_value_original = or_else input.key_value_original existing.key_value_original;
  is_authoritative = input.is_authoritative || existing.is_authoritative;
  source_authority =
      if input.is_authoritative then input.source_authority else existing.source_authority;
  source_bronze_id = or_else input.source_bronze_id existing.source_bronze_id;
}

abbrev pub new_key : KeyInput → ℕ → IdentityKey
new_key input id = record {
  id = id;
  tenant_id = input.tenant_id;
  company_id = input.company_id;
  key_type = input.key_type;
  key_value_canonical = input.key_value_canonical;
  key_value_original = input.key_value_original;
  source_authority = input.source_authority;
  is_authoritative = input.is_authoritative;
  source_bronze_id = input.source_bronze_id;
  is_revoked = false;
}

unfoldable pub insert_identity_key : KeyInput → Action (Unit {0})
unfolding update_where
insert_identity_key input db =
    if str_eq input.key_value_canonical ""
    then pure tt db
    else elim (find_by (is_active input.tenant_id input.key_type input.key_value_canonical)
        db.keys) [
          | some existing ↦
              if existing.company_id == input.company_id
              then put_keys (update_where (λ k. k.id == existing.id) (refreshed_key input existing))
                  db
              else throw (key_conflict existing.company_id) db
          | none ↦ (fresh_id >>= λ id. put_keys (λ keys. keys ++ (new_key input id ∷ []))) db
        ]

-- The arguments of `updateCompanyIdentitySnapshot`; none where the caller leaves one out.
pub record Snapshot : Type 0 where
  pub company_id : ℕ
  pub tenant_id : ℕ
  pub cui : Option String
  pub nr_reg_com : Option String
  pub nr_reg_com_original : Option String
  pub source_bronze_id : Option ℕ
  pub identity_status : SilverIdentityStatus

abbrev pub snapshot_of : Snapshot → SilverCompany → SilverCompany → SilverCompany
snapshot_of args company s = record s {
  cui = or_else args.cui company.cui;
  nr_reg_com = or_else args.nr_reg_com company.nr_reg_com;
  nr_reg_com_original = or_else args.nr_reg_com_original company.nr_reg_com_original;
  identity_status = args.identity_status;
  source_bronze_id = or_else args.source_bronze_id company.source_bronze_id;
}

unfoldable pub update_company_identity_snapshot : Snapshot → Action (Unit {0})
unfolding update_where
update_company_identity_snapshot args db =
    elim (find_company args.tenant_id args.company_id db.companies) [
      | none ↦ pure tt db
      | some company ↦
          put_companies (update_where (λ s. s.id == args.company_id) (snapshot_of args company)) db
    ]

abbrev pub placeholder : Context → ℕ → ℕ → SilverCompany
placeholder context tenant id = record {
  id = id;
  tenant_id = tenant;
  cui = context.extracted_cui;
  nr_reg_com = context.extracted_nr_reg_com;
  nr_reg_com_original = context.extracted_nr_reg_com_raw;
  denumire = context.extracted_name;
  identity_status =
      derive_silver_identity_status context.extracted_cui context.extracted_nr_reg_com;
  source_bronze_id = some context.bronze_id;
  is_promotion_blocked = true;
  is_master_record = true;
}

-- The id of the row inserted; an insert that returns gives its row.
unfoldable pub create_placeholder_company : ℕ → Context → Action ℕ
create_placeholder_company tenant context = do
  id ← fresh_id
  put_companies (λ companies. companies ++ (placeholder context tenant id ∷ []))
  pure id

-- The arguments of `updateBronzeResolution`, with its defaults.
pub record BronzeUpdate : Type 0 where
  pub bronze_id : ℕ
  pub identity_status : BronzeIdentityStatus
  pub resolved_company_id : Option ℕ
  pub duplicate_of_id : Option ℕ
  pub is_duplicate : Bool
  pub do_not_process : Bool
  pub processing_status : ProcessingStatus

abbrev pub resolution_of : BronzeUpdate → BronzeContact → BronzeContact
resolution_of args b = record b {
  identity_status = args.identity_status;
  resolved_company_id = args.resolved_company_id;
  duplicate_of_id = args.duplicate_of_id;
  is_duplicate = args.is_duplicate;
  do_not_process = args.do_not_process;
  processing_status = args.processing_status;
}

unfoldable pub update_bronze_resolution : BronzeUpdate → Action (Unit {0})
unfolding update_where
update_bronze_resolution args =
    put_bronze (update_where (λ b. b.id == args.bronze_id) (resolution_of args))
