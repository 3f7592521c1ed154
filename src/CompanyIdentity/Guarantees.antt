-- ===== src/CompanyIdentity/Guarantees.antt =====
-- The forms of Resolved over the body of `resolveBronzeContactIdentity`.
use cerniq_app_v.Prelude.{
  ◌≡◌, refl, subst, inl, inr, List, [], ◌∷◌, Option-cases, ℕ, Option, none, some,
}
use cerniq_app_v.CompanyIdentity.Model.{
  Db, BronzeContact, Context, Resolution, IdentityKey, IdentitySourceAuthority,
}
use cerniq_app_v.CompanyIdentity.Action.{ok}
use cerniq_app_v.CompanyIdentity.Detect.{Detected, halted, found}
use cerniq_app_v.CompanyIdentity.Frame.{Ensures, bind-Ensures, pure-Ensures}
use cerniq_app_v.CompanyIdentity.Detect.{
  detect_by_columns, detect_by_registry, detect_single_company_id, mark_duplicate_source_bronze,
  mark_insufficient_identity_bronze, or_found,
}
use cerniq_app_v.CompanyIdentity.Service.{
  find_bronze, finalize_detected, finalize_normal_resolution, ensure_resolved_company,
  resolve_original, resolve_bronze_contact, find_source_duplicate, context_of,
}
use cerniq_app_v.CompanyIdentity.Frame.{ok_inj, bind_pure-Ensures, bind-Ensures_after, if-Ensures}
use cerniq_app_v.CompanyIdentity.Resolved.{
  Good, Settled, OrSettled, enter_and_record-Good, merged_or_conflict-Settled,
  try_auto_merge_nr_reg_com_conflict-Settled, refusal-Good,
}

module _ (tenant : ℕ) (context : Context) where
  detect_by_columns-Settled :
      (bronze : BronzeContact)
      → Ensures (Settled tenant context) (detect_by_columns tenant context bronze)
  unfolding detect_by_columns
  detect_by_columns-Settled bronze = bind-Ensures _ _ (λ ids.
      if-Ensures _ _ _ (bind-Ensures _ _ (merged_or_conflict-Settled tenant context ids))
        (pure-Ensures _ (λ db. tt)))

  detect_by_registry-Settled :
      (bronze : BronzeContact) (matches : List IdentityKey) (ids : List ℕ)
      → Ensures (Settled tenant context) (detect_by_registry tenant context bronze matches ids)
  unfolding detect_by_registry
  detect_by_registry-Settled bronze matches [] = detect_by_columns-Settled bronze
  detect_by_registry-Settled bronze matches (registry ∷ []) =
      bind_pure-Ensures _ (or_found registry)
        (try_auto_merge_nr_reg_com_conflict-Settled tenant context registry)
        (or_found-Settled registry)
    where
      or_found-Settled :
          (registry : ℕ) (o : Option Detected) (db : Db)
          → OrSettled tenant context o db
          → Settled tenant context (or_found registry o) db
      or_found-Settled registry none db h = tt
      or_found-Settled registry (some d) db h = h
  detect_by_registry-Settled bronze matches (a ∷ b ∷ ids) =
      bind-Ensures _ _ (merged_or_conflict-Settled tenant context (a ∷ b ∷ ids))

  finalize_detected-Good :
      (detected : Detected) (db : Db)
      → Settled tenant context detected db
      → (r : Resolution) → (finalize_detected tenant context detected db).0 ≡ ok r
      → Good tenant context r (finalize_detected tenant context detected db).1
  unfolding finalize_detected finalize_normal_resolution
  finalize_detected-Good (halted x) db h r e =
      subst (λ y. Good tenant context y db) (ok_inj x r e) h
  finalize_detected-Good (found company) db h r e =
      (bind-Ensures (ensure_resolved_company tenant context company) _
          (λ c. enter_and_record-Good tenant context c.0 c.1)).so
        db r e

  resolve_original-Good :
      (bronze : BronzeContact)
      → Ensures (Good tenant context) (resolve_original tenant context bronze)
  unfolding resolve_original detect_single_company_id mark_insufficient_identity_bronze
  resolve_original-Good bronze =
      if-Ensures _ _ _
        (bind-Ensures_after _ _
          (bind-Ensures _ _ (λ matches. detect_by_registry-Settled bronze matches _))
          finalize_detected-Good)
        (refusal-Good tenant context _ Resolution.insufficient_identifiers refl refl (λ db. tt))

  mark_duplicate_source_bronze-Good :
      (duplicate : BronzeContact)
      → Ensures (Good tenant context) (mark_duplicate_source_bronze context duplicate)
  unfolding mark_duplicate_source_bronze
  mark_duplicate_source_bronze-Good duplicate = refusal-Good tenant context _ _ refl refl (λ db. tt)

pub resolve_bronze_contact-Good :
    (tenant id : ℕ) (authority : IdentitySourceAuthority) (db : Db) (bronze : BronzeContact)
    → find_bronze tenant id db.bronze ≡ some bronze
    → (r : Resolution) → (resolve_bronze_contact tenant id authority db).0 ≡ ok r
    → Good tenant (context_of authority bronze) r (resolve_bronze_contact tenant id authority db).1
unfolding resolve_bronze_contact
resolve_bronze_contact-Good tenant id authority db bronze there =
    elim (Option-cases
      (find_source_duplicate tenant bronze.id bronze.source_payload_hash db.bronze)) [
        | inl l ↦
            rw (resolve_bronze_contact, there, l)
              ((resolve_original-Good tenant (context_of authority bronze) bronze).so db)
        | inr (duplicate, l) ↦
            rw (resolve_bronze_contact, there, l)
              ((mark_duplicate_source_bronze-Good tenant (context_of authority bronze) duplicate).so
                db)
      ]
