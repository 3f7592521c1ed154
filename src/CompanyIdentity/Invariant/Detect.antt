-- ===== src/CompanyIdentity/Invariant/Detect.antt =====
-- The invariant over the merge and the detection.
use cerniq_app_v.Prelude.{
  refl, inl, inr, Option-cases, ℕ, List, [], ◌∷◌, Option, none, some, String,
}
use cerniq_app_v.CompanyIdentity.Model.{Db, IdentityKey, BronzeContact, Context}
use cerniq_app_v.CompanyIdentity.Keys.{find_company}
use cerniq_app_v.CompanyIdentity.Merge.{
  auto_merge_split_companies, merge_distinct, try_auto_merge_from_registry_matches,
  try_auto_merge_from_legacy_matches,
}
use cerniq_app_v.CompanyIdentity.Detect.{
  mark_identity_conflict_bronze, merged_or_conflict, merge_with, try_auto_merge_nr_reg_com_conflict,
  detect_by_columns, detect_by_registry, detect_single_company_id,
}
use cerniq_app_v.CompanyIdentity.Invariant.{
  Steps, Keeps, then-Keeps, pure-Keeps, put_bronze-Keeps, if-Keeps, put_companies-Keeps,
  transfer_keys-Keeps, keeping,
}

module _ {R : Db → Db → Type 0} (s : Steps R) where
  auto_merge_split_companies-Keeps :
      (t primary_id secondary_id : ℕ)
      → Keeps R (auto_merge_split_companies t primary_id secondary_id)
  unfolding auto_merge_split_companies
  auto_merge_split_companies-Keeps t primary_id secondary_id = record {
    keeps = λ db. elim (Option-cases (find_company t primary_id db.companies)) [
      | inl n ↦ rw (auto_merge_split_companies, n) (s.stay db)
      | inr (primary, n) ↦ elim (Option-cases (find_company t secondary_id db.companies)) [
        | inl l ↦ rw (auto_merge_split_companies, n, l) (s.stay db)
        | inr (secondary, l) ↦
            rw (auto_merge_split_companies, n, l)
              ((then-Keeps s _ _ (transfer_keys-Keeps s t primary_id _) (
                  then-Keeps s _ _ (put_companies-Keeps s _) (
                    then-Keeps s _ _ (put_companies-Keeps s _) (
                      then-Keeps s _ _ (put_bronze-Keeps s _ _ (λ b. (refl, refl)))
                        (put_bronze-Keeps s _ _ (λ b. (refl, refl))))))).keeps
                db)
      ]
    ];
  }

  merge_distinct-Keeps : (t : ℕ) (c n : Option ℕ) → Keeps R (merge_distinct t c n)
  unfolding merge_distinct
  merge_distinct-Keeps t none n = pure-Keeps s none
  merge_distinct-Keeps t (some c) none = pure-Keeps s none
  merge_distinct-Keeps t (some c) (some n) =
      if-Keeps s _ _ _ (pure-Keeps s none)
        (then-Keeps s _ _ (auto_merge_split_companies-Keeps t c n) (pure-Keeps s (some c)))

  try_auto_merge_from_registry_matches-Keeps :
      (t : ℕ) (matches : List IdentityKey) (c n : Option String)
      → Keeps R (try_auto_merge_from_registry_matches t matches c n)
  unfolding try_auto_merge_from_registry_matches
  try_auto_merge_from_registry_matches-Keeps t matches c n = search (keeping, merge_distinct-Keeps)

  try_auto_merge_from_legacy_matches-Keeps :
      (t : ℕ) (ids : List ℕ) (c n : Option String)
      → Keeps R (try_auto_merge_from_legacy_matches t ids c n)
  unfolding try_auto_merge_from_legacy_matches
  try_auto_merge_from_legacy_matches-Keeps t ids c n = search (keeping, merge_distinct-Keeps)

  pub mark_identity_conflict_bronze-Keeps :
      (context : Context) (ids : List ℕ) → Keeps R (mark_identity_conflict_bronze context ids)
  unfolding mark_identity_conflict_bronze
  mark_identity_conflict_bronze-Keeps context ids = search keeping

  merged_or_conflict-Keeps :
      (context : Context) (ids : List ℕ) (merged : Option ℕ)
      → Keeps R (merged_or_conflict context ids merged)
  unfolding merged_or_conflict
  merged_or_conflict-Keeps context ids (some merged) = search keeping
  merged_or_conflict-Keeps context ids none = search (keeping, mark_identity_conflict_bronze-Keeps)

  merge_with-Keeps :
      (t registry : ℕ) (context : Context) (conflicting : Option ℕ)
      → Keeps R (merge_with t registry context conflicting)
  unfolding merge_with
  merge_with-Keeps t registry context none = search keeping
  merge_with-Keeps t registry context (some other) =
      search (keeping, try_auto_merge_from_legacy_matches-Keeps, merged_or_conflict-Keeps)

  try_auto_merge_nr_reg_com_conflict-Keeps :
      (t registry : ℕ) (context : Context)
      → Keeps R (try_auto_merge_nr_reg_com_conflict t registry context)
  unfolding try_auto_merge_nr_reg_com_conflict
  try_auto_merge_nr_reg_com_conflict-Keeps t registry context = search (keeping, merge_with-Keeps)

  detect_by_columns-Keeps :
      (t : ℕ) (context : Context) (bronze : BronzeContact)
      → Keeps R (detect_by_columns t context bronze)
  unfolding detect_by_columns
  detect_by_columns-Keeps t context bronze =
      search (keeping, try_auto_merge_from_legacy_matches-Keeps, merged_or_conflict-Keeps)

  detect_by_registry-Keeps :
      (t : ℕ) (context : Context) (bronze : BronzeContact) (matches : List IdentityKey)
      (ids : List ℕ)
      → Keeps R (detect_by_registry t context bronze matches ids)
  unfolding detect_by_registry
  detect_by_registry-Keeps t context bronze matches [] = detect_by_columns-Keeps t context bronze
  detect_by_registry-Keeps t context bronze matches (registry ∷ []) =
      search (keeping, try_auto_merge_nr_reg_com_conflict-Keeps)
  detect_by_registry-Keeps t context bronze matches (a ∷ b ∷ ids) =
      search (keeping, try_auto_merge_from_registry_matches-Keeps, merged_or_conflict-Keeps)

  pub detect_single_company_id-Keeps :
      (t : ℕ) (context : Context) (bronze : BronzeContact)
      → Keeps R (detect_single_company_id t context bronze)
  unfolding detect_single_company_id
  detect_single_company_id-Keeps t context bronze = search (keeping, detect_by_registry-Keeps)
