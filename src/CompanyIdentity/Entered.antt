-- ===== src/CompanyIdentity/Entered.antt =====
-- A contact that is resolved has its identifiers entered for the company: `finalizeNormalResolution`.
use cerniq_app_v.Prelude.{
  ◌≡◌, refl, sym, subst, inl, inr, List, Bool-cases, Option-cases, ℕ, Bool, true, false, Option,
  none, some, String, str_eq,
}
use cerniq_app_v.CompanyIdentity.Model.{
  Db, BronzeContact, SilverCompany, Context, Resolution, IdentityKey, IdentityKeyType, cui,
  nr_reg_com,
}
use cerniq_app_v.CompanyIdentity.Action.{Action, ok, ◌>>◌, put_companies, put_bronze, is_unique}
use cerniq_app_v.CompanyIdentity.Keys.{
  Snapshot, find_company, update_company_identity_snapshot, update_bronze_resolution,
}
use cerniq_app_v.CompanyIdentity.Service.{
  context_key, upsert_context_key, upsert_context_identity_keys, record_resolution, is_anaf,
  is_onrc, resolved_snapshot,
}
use cerniq_app_v.CompanyIdentity.Frame.{
  Leaves, then-Leaves, pure-Leaves, Result-cases, err≢ok, bind_ok, bind_err,
}
use cerniq_app_v.CompanyIdentity.Holder.{is_held_by, insert-is_held, insert-keeps_held}

module _ {κ} {X : Type κ} (view : Db → X)
    (apart : (db : Db) (rows : List SilverCompany)
      → view (record db { companies = rows }) ≡ view db) where
  put_companies-Leaves :
      (f : List SilverCompany → List SilverCompany) → Leaves view (put_companies f)
  unfolding put_companies
  put_companies-Leaves f = record {
    same = λ db. elim (Bool-cases (is_unique (f db.companies))) [
      | inl e ↦ rw (put_companies, e) (apart db (f db.companies))
      | inr e ↦ rw (put_companies, e) refl
    ];
  }

  pub update_company_identity_snapshot-Leaves :
      (args : Snapshot) → Leaves view (update_company_identity_snapshot args)
  unfolding update_company_identity_snapshot
  update_company_identity_snapshot-Leaves args = record {
    same = λ db. elim (Option-cases (find_company args.tenant_id args.company_id db.companies)) [
      | inl n ↦ rw (update_company_identity_snapshot, n) refl
      | inr (company, n) ↦
          rw (update_company_identity_snapshot, n) ((put_companies-Leaves _).same db)
    ];
  }

abbrev pub keys_of : Db → List IdentityKey
keys_of db = db.keys

put_bronze-Leaves_keys :
    (f : List BronzeContact → List BronzeContact) → Leaves keys_of (put_bronze f)
put_bronze-Leaves_keys f = record { same = λ db. refl }

pub record_resolution-Leaves_keys :
    (tenant : ℕ) (context : Context) (company : ℕ) (created : Option ℕ)
    → Leaves keys_of (record_resolution tenant context company created)
unfolding record_resolution update_bronze_resolution
record_resolution-Leaves_keys tenant context company created =
    then-Leaves _ _
      (update_company_identity_snapshot-Leaves keys_of (λ db rows. refl)
        (resolved_snapshot tenant context company))
      (then-Leaves _ _ (put_bronze-Leaves_keys _) (pure-Leaves _))

-- The identifier of the contact, of one type or the other.
abbrev pub identifier : IdentityKeyType → Context → Option String
identifier cui context = context.extracted_cui
identifier nr_reg_com context = context.extracted_nr_reg_com

-- Each identifier of the contact that is given is held by the company.
abbrev pub AreHeld : Context → ℕ → Db → Type 0
AreHeld context company db =
    (type : IdentityKeyType) (value : String)
    → identifier type context ≡ some value
    → str_eq value "" ≡ false
    → is_held_by context.tenant_id type value company db.keys ≡ true

abbrev pub Entered : Context → Resolution → Db → Type 0
Entered context (Resolution.resolved company status created) db = AreHeld context company db
Entered context _ db = Unit {0}

upsert_context_key-is_held :
    (context : Context) (company : ℕ) (type : IdentityKeyType) (value : String)
    (o original : Option String) (b : Bool) (db : Db)
    → o ≡ some value
    → str_eq value "" ≡ false
    → (upsert_context_key context company type o original b db).0 ≡ ok tt
    → is_held_by context.tenant_id type value company
        (upsert_context_key context company type o original b db).1.keys
      ≡ true
unfolding upsert_context_key
upsert_context_key-is_held context company type value o original b db e given =
    rw (e, given) (insert-is_held (context_key context company type value original b) db given)

upsert_context_key-keeps_held :
    (tenant : ℕ) (t : IdentityKeyType) (v : String) (c : ℕ) (context : Context) (company : ℕ)
    (type : IdentityKeyType) (o original : Option String) (b : Bool) (db : Db)
    → is_held_by tenant t v c db.keys ≡ true
    → is_held_by tenant t v c (upsert_context_key context company type o original b db).1.keys
      ≡ true
unfolding upsert_context_key
upsert_context_key-keeps_held tenant t v c context company type none original b db h = h
upsert_context_key-keeps_held tenant t v c context company type (some s) original b db h =
    elim (Bool-cases (str_eq s "")) [
      | inl e ↦ rw e h
      | inr e ↦ rw e (insert-keeps_held tenant t v c _ db h)
    ]

abbrev enter_cui : Context → ℕ → Action (Unit {0})
enter_cui context company =
    upsert_context_key context company cui context.extracted_cui context.extracted_cui_raw
      (is_anaf context.source_authority)

abbrev enter_nr_reg_com : Context → ℕ → Action (Unit {0})
enter_nr_reg_com context company =
    upsert_context_key context company nr_reg_com context.extracted_nr_reg_com
      context.extracted_nr_reg_com_raw (is_onrc context.source_authority)

both_entered :
    (context : Context) (company : ℕ) (db : Db)
    → (enter_cui context company db).0 ≡ ok tt
    → (enter_nr_reg_com context company (enter_cui context company db).1).0 ≡ ok tt
    → AreHeld context company (enter_nr_reg_com context company (enter_cui context company db).1).1
both_entered context company db e h cui value i given =
    upsert_context_key-keeps_held context.tenant_id cui value company context company nr_reg_com _ _
      _ _ (upsert_context_key-is_held context company cui value _ _ _ db i given e)
both_entered context company db e h nr_reg_com value i given =
    upsert_context_key-is_held context company nr_reg_com value _ _ _ _ i given h

pub upsert_context_identity_keys-AreHeld :
    (context : Context) (company : ℕ) (db : Db)
    → (upsert_context_identity_keys context company db).0 ≡ ok tt
    → AreHeld context company (upsert_context_identity_keys context company db).1
unfolding upsert_context_identity_keys ◌>>◌
upsert_context_identity_keys-AreHeld context company db =
    elim (Result-cases (enter_cui context company db).0) [
      | inl (u, e) ↦
          subst (λ r. r.0 ≡ ok tt → AreHeld context company r.1)
            (sym
              (bind_ok (enter_cui context company) (λ _. enter_nr_reg_com context company) db tt e))
            (both_entered context company db e)
      | inr (x, e) ↦
          subst (λ r. r.0 ≡ ok tt → AreHeld context company r.1)
            (sym
              (bind_err (enter_cui context company) (λ _. enter_nr_reg_com context company) db x e))
            (λ h. absurd (err≢ok x tt h))
    ]
