-- ===== src/CompanyIdentity/Invariant/Resolve.antt =====
-- The invariant over the two entries of the service.
use cerniq_app_v.Prelude.{
  sym, subst, inl, inr, Bool-cases, Option-cases, ℕ, zero, suc, Bool, Option, none, some, String,
  ◌==◌, find_by,
}
use cerniq_app_v.CompanyIdentity.Model.{
  Db, BronzeContact, Context, IdentityKeyType, IdentitySourceAuthority, key_conflict,
  bronze_not_found, unique_violation, not_serializable,
}
use cerniq_app_v.CompanyIdentity.Action.{
  Action, Result, ok, err, attempt, begin_tenant_transaction, max_attempts,
}
use cerniq_app_v.CompanyIdentity.Keys.{
  KeyInput, is_active, find_company, update_company_identity_snapshot, create_placeholder_company,
  Snapshot,
}
use cerniq_app_v.CompanyIdentity.Detect.{
  Detected, halted, found, mark_duplicate_source_bronze, mark_insufficient_identity_bronze,
}
use cerniq_app_v.CompanyIdentity.Invariant.{Steps, Keeps, put_companies-Keeps, throw-Keeps, keeping}
use cerniq_app_v.CompanyIdentity.Invariant.Detect.{
  mark_identity_conflict_bronze-Keeps, detect_single_company_id-Keeps,
}
use cerniq_app_v.CompanyIdentity.Service.{
  upsert_context_key, upsert_context_identity_keys, handle_key_conflict, record_resolution,
  enter_and_record, after_keys, context_of, finalize_normal_resolution, ensure_resolved_company,
  finalize_detected, resolve_original, find_bronze, find_source_duplicate, resolve_bronze_contact,
  resolve_bronze_contact_identity,
}
use cerniq_app_v.CompanyIdentity.Upsert.{
  reject_source, refuse_key, link_key, upsert_key, upsert_company_identity_key, Call, made,
}
use cerniq_app_v.CompanyIdentity.Upsert.Call.{resolve, upsert}
use cerniq_app_v.CompanyIdentity.Frame.{Result-cases, attempt_ok, attempt_err}

module _ {R : Db → Db → Type 0} (s : Steps R) where
  update_company_identity_snapshot-Keeps :
      (args : Snapshot) → Keeps R (update_company_identity_snapshot args)
  unfolding update_company_identity_snapshot
  update_company_identity_snapshot-Keeps args = record {
    keeps = λ db. elim (Option-cases (find_company args.tenant_id args.company_id db.companies)) [
      | inl n ↦ rw (update_company_identity_snapshot, n) (s.stay db)
      | inr (company, n) ↦
          rw (update_company_identity_snapshot, n) ((put_companies-Keeps s _).keeps db)
    ];
  }

  upsert_context_key-Keeps :
      (context : Context) (company : ℕ) (t : IdentityKeyType) (v original : Option String)
      (b : Bool)
      → Keeps R (upsert_context_key context company t v original b)
  unfolding upsert_context_key
  upsert_context_key-Keeps context company t none original b = search keeping
  upsert_context_key-Keeps context company t (some v) original b = search keeping

  upsert_context_identity_keys-Keeps :
      (context : Context) (company : ℕ) → Keeps R (upsert_context_identity_keys context company)
  unfolding upsert_context_identity_keys
  upsert_context_identity_keys-Keeps context company = search (keeping, upsert_context_key-Keeps)

  handle_key_conflict-Keeps :
      (t : ℕ) (context : Context) (company other : ℕ)
      → Keeps R (handle_key_conflict t context company other)
  unfolding handle_key_conflict
  handle_key_conflict-Keeps t context company other =
      search (keeping, mark_identity_conflict_bronze-Keeps, update_company_identity_snapshot-Keeps)

  record_resolution-Keeps :
      (t : ℕ) (context : Context) (company : ℕ) (created : Option ℕ)
      → Keeps R (record_resolution t context company created)
  unfolding record_resolution
  record_resolution-Keeps t context company created =
      search (keeping, update_company_identity_snapshot-Keeps)

  after_keys-Keeps :
      (t : ℕ) (context : Context) (company : ℕ) (created : Option ℕ) (r : Result (Unit {0}))
      → Keeps R (after_keys t context company created r)
  unfolding after_keys
  after_keys-Keeps t context company created (ok a) =
      record_resolution-Keeps t context company created
  after_keys-Keeps t context company created (err (key_conflict other)) =
      handle_key_conflict-Keeps t context company other
  after_keys-Keeps t context company created (err bronze_not_found) = throw-Keeps s _
  after_keys-Keeps t context company created (err unique_violation) = throw-Keeps s _
  after_keys-Keeps t context company created (err not_serializable) = throw-Keeps s _

  enter_and_record-Keeps :
      (t : ℕ) (context : Context) (company : ℕ) (created : Option ℕ)
      → Keeps R (enter_and_record t context company created)
  unfolding enter_and_record
  enter_and_record-Keeps t context company created = record {
    keeps = λ db.
        let rest =
          after_keys-Keeps t context company created
            (upsert_context_identity_keys context company db).0 in
        s.compose _ _ _ ((upsert_context_identity_keys-Keeps context company).keeps db)
          (rest.keeps (upsert_context_identity_keys context company db).1);
  }

  ensure_resolved_company-Keeps :
      (t : ℕ) (context : Context) (existing : Option ℕ)
      → Keeps R (ensure_resolved_company t context existing)
  unfolding ensure_resolved_company create_placeholder_company
  ensure_resolved_company-Keeps t context none = search keeping
  ensure_resolved_company-Keeps t context (some company) = search keeping

  finalize_detected-Keeps :
      (t : ℕ) (context : Context) (detected : Detected)
      → Keeps R (finalize_detected t context detected)
  unfolding finalize_detected finalize_normal_resolution
  finalize_detected-Keeps t context (halted result) = search keeping
  finalize_detected-Keeps t context (found company) =
      search (keeping, ensure_resolved_company-Keeps, enter_and_record-Keeps)

  mark_duplicate_source_bronze-Keeps :
      (context : Context) (duplicate : BronzeContact)
      → Keeps R (mark_duplicate_source_bronze context duplicate)
  unfolding mark_duplicate_source_bronze
  mark_duplicate_source_bronze-Keeps context duplicate = search keeping

  resolve_original-Keeps :
      (t : ℕ) (context : Context) (bronze : BronzeContact)
      → Keeps R (resolve_original t context bronze)
  unfolding resolve_original mark_insufficient_identity_bronze
  resolve_original-Keeps t context bronze =
      search (keeping, detect_single_company_id-Keeps, finalize_detected-Keeps)

  resolve_bronze_contact-Keeps :
      (t bronze_id : ℕ) (authority : IdentitySourceAuthority)
      → Keeps R (resolve_bronze_contact t bronze_id authority)
  unfolding resolve_bronze_contact
  resolve_bronze_contact-Keeps t bronze_id authority = record {
    keeps = λ db. elim (Option-cases (find_bronze t bronze_id db.bronze)) [
      | inl n ↦ rw (resolve_bronze_contact, n) (s.stay db)
      | inr (bronze, n) ↦
          elim (Option-cases
            (find_source_duplicate t bronze.id bronze.source_payload_hash db.bronze)) [
              | inl l ↦
                  rw (resolve_bronze_contact, n, l)
                    ((resolve_original-Keeps t (context_of authority bronze) bronze).keeps db)
              | inr (duplicate, l) ↦
                  rw (resolve_bronze_contact, n, l)
                    ((mark_duplicate_source_bronze-Keeps (context_of authority bronze)
                        duplicate).keeps
                      db)
            ]
    ];
  }

  attempt-Keeps {ℓ} : {A : Type ℓ} (m : Action A) → Keeps R m → Keeps R (attempt m)
  attempt-Keeps m k = record {
    keeps = λ db. elim (Result-cases (m db).0) [
      | inl (a, e) ↦ subst (λ r. R db r.1) (sym (attempt_ok m db a e)) (k.keeps db)
      | inr (e, n) ↦ subst (λ r. R db r.1) (sym (attempt_err m db e n)) (s.stay db)
    ];
  }

  begin_tenant_transaction-Keeps {ℓ} :
      {A : Type ℓ} (aborted : ℕ → Bool) (left : ℕ) (m : Action A)
      → Keeps R m
      → Keeps R (begin_tenant_transaction aborted left m)
  unfolding begin_tenant_transaction
  begin_tenant_transaction-Keeps aborted zero m k = throw-Keeps s _
  begin_tenant_transaction-Keeps aborted (suc left) m k = record {
    keeps = λ db. elim (Bool-cases (aborted left)) [
      | inl e ↦
          rw (begin_tenant_transaction, e)
            ((begin_tenant_transaction-Keeps aborted left m k).keeps db)
      | inr e ↦ rw (begin_tenant_transaction, e) ((attempt-Keeps m k).keeps db)
    ];
  }

  reject_source-Keeps : (source : Option ℕ) → Keeps R (reject_source source)
  unfolding reject_source
  reject_source-Keeps none = search keeping
  reject_source-Keeps (some bronze) = search keeping

  refuse_key-Keeps : (args : KeyInput) (other : ℕ) → Keeps R (refuse_key args other)
  unfolding refuse_key
  refuse_key-Keeps args other =
      search (keeping, update_company_identity_snapshot-Keeps, reject_source-Keeps)

  link_key-Keeps : (args : KeyInput) → Keeps R (link_key args)
  unfolding link_key
  link_key-Keeps args = search (keeping, update_company_identity_snapshot-Keeps)

  upsert_key-Keeps : (args : KeyInput) → Keeps R (upsert_key args)
  unfolding upsert_key
  upsert_key-Keeps args = record {
    keeps = λ db.
        elim (Option-cases
          (find_by (is_active args.tenant_id args.key_type args.key_value_canonical) db.keys)) [
            | inl n ↦ rw (upsert_key, n) ((link_key-Keeps args).keeps db)
            | inr (existing, n) ↦ elim (Bool-cases (existing.company_id == args.company_id)) [
              | inl c ↦ rw (upsert_key, n, c) ((link_key-Keeps args).keeps db)
              | inr c ↦ rw (upsert_key, n, c) ((refuse_key-Keeps args existing.company_id).keeps db)
            ]
          ];
  }

  pub resolve_bronze_contact_identity-Keeps :
      (aborted : ℕ → Bool) (t bronze_id : ℕ) (authority : IdentitySourceAuthority)
      → Keeps R (resolve_bronze_contact_identity aborted t bronze_id authority)
  unfolding resolve_bronze_contact_identity
  resolve_bronze_contact_identity-Keeps aborted t bronze_id authority =
      begin_tenant_transaction-Keeps aborted max_attempts _
        (resolve_bronze_contact-Keeps t bronze_id authority)

  pub call-Keeps : (call : Call) → Keeps R (made call)
  unfolding made upsert_company_identity_key
  call-Keeps (resolve aborted t bronze_id authority) = record {
    keeps = λ db. (resolve_bronze_contact_identity-Keeps aborted t bronze_id authority).keeps db;
  }
  call-Keeps (upsert aborted args) = record {
    keeps = λ db.
        (begin_tenant_transaction-Keeps aborted max_attempts _ (upsert_key-Keeps args)).keeps db;
  }
