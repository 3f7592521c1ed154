-- ===== src/CompanyIdentity/Merge.antt =====
-- `autoMergeSplitCompanies` and its three callers. The company that holds the fiscal code is kept.
use cerniq_app_v.Prelude.{
  ℕ, List, [], ◌∷◌, Bool, true, false, not, ◌&&◌, ◌||◌, Option, none, some, String, ◌==◌,
  if◌then◌else◌, find_by, filter_by, length,
}
use cerniq_app_v.Prelude.Rows.{update_where}
use cerniq_app_v.CompanyIdentity.Model.{
  IdentityKey, SilverCompany, IdentityKeyType, cui, nr_reg_com, is_given, or_else, same_type,
  is_text,
}
use cerniq_app_v.CompanyIdentity.Action.{
  Action, pure, ◌>>=◌, ◌>>◌, gets, put_keys, put_bronze, put_companies,
}
use cerniq_app_v.CompanyIdentity.Keys.{KeyInput, insert_identity_key, find_company}

-- A key of the secondary company, as it is entered for the primary.
abbrev pub moved_key : ℕ → ℕ → IdentityKey → KeyInput
moved_key tenant primary key = record {
  tenant_id = tenant;
  company_id = primary;
  key_type = key.key_type;
  key_value_canonical = key.key_value_canonical;
  key_value_original = key.key_value_original;
  source_authority = key.source_authority;
  is_authoritative = key.is_authoritative;
  source_bronze_id = key.source_bronze_id;
}

abbrev pub revoked : IdentityKey → IdentityKey
revoked k = record k { is_revoked = true }

-- The loop over the keys of the secondary company.
unfoldable pub transfer_keys : ℕ → ℕ → List IdentityKey → Action (Unit {0})
unfolding update_where insert_identity_key
transfer_keys tenant primary [] = pure tt
transfer_keys tenant primary (key ∷ keys) = do
  put_keys (update_where (λ k. k.id == key.id) revoked)
  insert_identity_key (moved_key tenant primary key)
  transfer_keys tenant primary keys

abbrev pub archived : SilverCompany → SilverCompany
archived s = record s { is_promotion_blocked = true; cui = none; nr_reg_com = none }

-- The fields of the secondary company that the primary lacks, from the rows read before.
abbrev pub merged : SilverCompany → SilverCompany → SilverCompany → SilverCompany
merged primary secondary s = record s {
  nr_reg_com = or_else (or_else primary.nr_reg_com secondary.nr_reg_com) s.nr_reg_com;
  nr_reg_com_original =
      or_else (or_else primary.nr_reg_com_original secondary.nr_reg_com_original)
        s.nr_reg_com_original;
  denumire = or_else (or_else primary.denumire secondary.denumire) s.denumire;
}

abbrev pub is_id : ℕ → Option ℕ → Bool
is_id a none = false
is_id a (some b) = b == a

unfoldable pub auto_merge_split_companies : ℕ → ℕ → ℕ → Action (Unit {0})
unfolding transfer_keys update_where
auto_merge_split_companies tenant primary_id secondary_id db =
    elim (find_company tenant primary_id db.companies) [
      | none ↦ pure tt db
      | some primary ↦ elim (find_company tenant secondary_id db.companies) [
        | none ↦ pure tt db
        | some secondary ↦
            (do
              transfer_keys tenant primary_id (
                  filter_by
                    (λ k. k.tenant_id == tenant && k.company_id == secondary_id && not k.is_revoked)
                    db.keys)
              put_companies (update_where (λ s. s.id == secondary_id) archived)
              put_companies (update_where (λ s. s.id == primary_id) (merged primary secondary))
              put_bronze (
                  update_where
                    (λ b. b.tenant_id == tenant && is_id secondary_id b.resolved_company_id)
                    (λ b. record b { resolved_company_id = some primary_id }))
              put_bronze (
                  update_where
                    (λ b. b.tenant_id == tenant && is_id secondary_id b.promoted_to_silver_id)
                    (λ b. record b { promoted_to_silver_id = some primary_id })))
              db
      ]
    ]

-- The merge of two companies that are not one, and the company kept.
unfoldable pub merge_distinct : ℕ → Option ℕ → Option ℕ → Action (Option ℕ)
unfolding auto_merge_split_companies
merge_distinct tenant none other = pure none
merge_distinct tenant (some c) none = pure none
merge_distinct tenant (some c) (some n) =
    if c == n then pure none else auto_merge_split_companies tenant c n >> pure (some c)

abbrev pub company_of : Option IdentityKey → Option ℕ
company_of none = none
company_of (some k) = some k.company_id

abbrev pub id_of : Option SilverCompany → Option ℕ
id_of none = none
id_of (some s) = some s.id

abbrev pub is_key_of : IdentityKeyType → Option String → IdentityKey → Bool
is_key_of type value k = same_type k.key_type type && is_text value k.key_value_canonical

unfoldable pub try_auto_merge_from_registry_matches :
    ℕ → List IdentityKey → Option String → Option String → Action (Option ℕ)
unfolding merge_distinct
try_auto_merge_from_registry_matches tenant matches c n =
    if is_given c && is_given n && length matches == 2
    then merge_distinct tenant (company_of (find_by (is_key_of cui c) matches))
        (company_of (find_by (is_key_of nr_reg_com n) matches))
    else pure none

abbrev pub is_listed : ℕ → List ℕ → Bool
is_listed a [] = false
is_listed a (x ∷ xs) = x == a || is_listed a xs

-- `===` of a column with the value looked for.
abbrev pub is_same : Option String → Option String → Bool
is_same column none = false
is_same column (some value) = is_text column value

unfoldable pub try_auto_merge_from_legacy_matches :
    ℕ → List ℕ → Option String → Option String → Action (Option ℕ)
unfolding merge_distinct
try_auto_merge_from_legacy_matches tenant ids c n =
    if is_given c && is_given n && length ids == 2
    then (gets (λ db. filter_by (λ s. s.tenant_id == tenant && is_listed s.id ids) db.companies)
        >>= λ companies.
            merge_distinct tenant (id_of (find_by (λ s. is_same s.cui c) companies))
              (id_of (find_by (λ s. is_same s.nr_reg_com n) companies)))
    else pure none
