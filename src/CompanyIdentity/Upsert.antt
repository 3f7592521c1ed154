-- ===== src/CompanyIdentity/Upsert.antt =====
-- The second entry of the service, `upsertCompanyIdentityKey`, whose arguments are those of
-- `insertIdentityKey`; and the calls of both entries.
use cerniq_app_v.Prelude.{
  ℕ, List, [], ◌∷◌, Bool, true, false, Option, none, some, String, ◌==◌, if◌then◌else◌, find_by,
}
use cerniq_app_v.CompanyIdentity.Model.{
  Db, SilverCompany, UpsertResult, linked, conflict, IdentityKeyType, IdentitySourceAuthority,
  SilverIdentityStatus, BronzeIdentityStatus, ProcessingStatus, cui, nr_reg_com, same_type,
  derive_silver_identity_status,
}
use cerniq_app_v.CompanyIdentity.Action.{
  Action, ok, pure, ◌>>=◌, ◌>>◌, gets, begin_tenant_transaction, max_attempts,
}
use cerniq_app_v.CompanyIdentity.Keys.{
  KeyInput, Snapshot, is_active, find_company, insert_identity_key,
  update_company_identity_snapshot, update_bronze_resolution,
}
use cerniq_app_v.CompanyIdentity.Service.{conflict_snapshot, resolve_bronze_contact_identity}

-- The contact that the key came from is rejected, if it is given.
unfoldable pub reject_source : Option ℕ → Action (Unit {0})
unfolding update_bronze_resolution
reject_source none = pure tt
reject_source (some bronze) = update_bronze_resolution (record {
  bronze_id = bronze;
  identity_status = BronzeIdentityStatus.identity_conflict;
  resolved_company_id = none;
  duplicate_of_id = none;
  is_duplicate = false;
  do_not_process = true;
  processing_status = ProcessingStatus.rejected;
})

abbrev pub if_type : IdentityKeyType → KeyInput → Option String → Option String → Option String
if_type type args value other = if same_type args.key_type type then value else other

abbrev pub cui_of : Option SilverCompany → Option String
cui_of none = none
cui_of (some s) = s.cui

abbrev pub nr_reg_com_of : Option SilverCompany → Option String
nr_reg_com_of none = none
nr_reg_com_of (some s) = s.nr_reg_com

-- The status of the company with the new key.
abbrev pub next_status : KeyInput → Option SilverCompany → SilverIdentityStatus
next_status args company =
    derive_silver_identity_status
      (if_type cui args (some args.key_value_canonical) (cui_of company))
      (if_type nr_reg_com args (some args.key_value_canonical) (nr_reg_com_of company))

abbrev pub linked_snapshot : KeyInput → SilverIdentityStatus → Snapshot
linked_snapshot args status = record {
  company_id = args.company_id;
  tenant_id = args.tenant_id;
  cui = if_type cui args (some args.key_value_canonical) none;
  nr_reg_com = if_type nr_reg_com args (some args.key_value_canonical) none;
  nr_reg_com_original = if_type nr_reg_com args args.key_value_original none;
  source_bronze_id = args.source_bronze_id;
  identity_status = status;
}

-- The key is held by another company: nothing is entered.
unfoldable pub refuse_key : KeyInput → ℕ → Action UpsertResult
unfolding update_company_identity_snapshot reject_source
refuse_key args other = do
  update_company_identity_snapshot (conflict_snapshot args.tenant_id args.company_id)
  reject_source args.source_bronze_id
  pure (conflict args.company_id other)

unfoldable pub link_key : KeyInput → Action UpsertResult
unfolding insert_identity_key update_company_identity_snapshot
link_key args = do
  insert_identity_key args
  company ← gets (λ db. find_company args.tenant_id args.company_id db.companies)
  update_company_identity_snapshot (linked_snapshot args (next_status args company))
  pure (linked args.company_id (next_status args company))

-- The body of the transaction.
unfoldable pub upsert_key : KeyInput → Action UpsertResult
unfolding refuse_key link_key
upsert_key args db =
    elim (find_by (is_active args.tenant_id args.key_type args.key_value_canonical) db.keys) [
      | some existing ↦
          if existing.company_id == args.company_id
          then link_key args db
          else refuse_key args existing.company_id db
      | none ↦ link_key args db
    ]

unfoldable pub upsert_company_identity_key : (ℕ → Bool) → KeyInput → Action UpsertResult
unfolding begin_tenant_transaction upsert_key
upsert_company_identity_key aborted args =
    begin_tenant_transaction aborted max_attempts (upsert_key args)

-- A call of either entry, with the attempts that the database refuses.
pub data Call : Type 0 where
  resolve : (ℕ → Bool) → (tenant bronze_id : ℕ) → IdentitySourceAuthority → Call
  upsert : (ℕ → Bool) → KeyInput → Call

-- What the call leaves in the database; its result is dropped.
unfoldable pub made : Call → Action (Unit {0})
unfolding resolve_bronze_contact_identity upsert_company_identity_key
made (resolve aborted tenant bronze_id authority) db =
    (ok tt, (resolve_bronze_contact_identity aborted tenant bronze_id authority db).1)
made (upsert aborted args) db = (ok tt, (upsert_company_identity_key aborted args db).1)

unfoldable pub run : List Call → Db → Db
unfolding made
run [] db = db
run (call ∷ calls) db = run calls (made call db).1
