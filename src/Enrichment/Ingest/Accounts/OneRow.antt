-- ===== src/Enrichment/Ingest/Accounts/OneRow.antt =====
-- What the resolution of one inserted row counts and hands on.
use cerniq_app_v.Prelude.{◌≡◌, refl, ℕ, ◌+◌, List, Option, none, some, ◌⊎◌, inl, inr, Option-cases}
use cerniq_app_v.CompanyIdentity.Model.{Resolution, IdentitySourceAuthority}
use cerniq_app_v.CompanyIdentity.Action.{Result, ok, err}
use cerniq_app_v.CompanyIdentity.Service.{resolve_bronze_contact_identity}
use cerniq_app_v.Enrichment.Ingest.Text.{Message}
use cerniq_app_v.Enrichment.Ingest.Row.{
  Outside, State, BronzeContactInsert, RowResolution, RowOutcome, returned, broke, mark_failed,
  fail_row, handle_conflict, row_of, resolve_inserted_bronze_row,
}

abbrev pub size {ℓ} : {A : Type ℓ} → Option A → ℕ
size none = 0
size (some a) = 1

-- A row counts once, and its id is handed on if and only if it is resolved.
pub record IsOne (id : ℕ) (r : RowResolution) : Type 0 where
  pub once :
      r.duplicate_rows
        + r.resolved_rows
        + r.identity_conflict_rows
        + r.insufficient_identifier_rows
        + size r.row_error
      ≡ 1
  pub handed :
      (r.resolved_rows ≡ 1) × (r.processable_id ≡ some id)
      ⊎ (r.resolved_rows ≡ 0) × (r.processable_id ≡ none)

-- Unless an error is thrown.
unfoldable pub IsOneOrBroke : ℕ → RowOutcome → Type 0
IsOneOrBroke id o =
    ((r : RowResolution) × (o ≡ returned r) × IsOne id r) ⊎ ((m : Message) × (o ≡ broke m))

fail_row-IsOne :
    (outside : Outside) (id : ℕ) (row : BronzeContactInsert) (m : Message) (s : State)
    → IsOneOrBroke id (fail_row outside id row m s).0
unfolding IsOneOrBroke fail_row mark_failed
fail_row-IsOne outside id row m s = elim (Option-cases (outside.no_mark s.db id)) [
  | inl n ↦ rw (fail_row, n) (inl (_, refl, record { once = refl; handed = inr (refl, refl) }))
  | inr (x, n) ↦ rw (fail_row, n) (inr (x, refl))
]

handle_conflict-IsOne :
    (outside : Outside) (task : Option Message) (id : ℕ) (row : BronzeContactInsert) (ids : List ℕ)
    (s : State)
    → IsOneOrBroke id (handle_conflict outside task id row ids s).0
unfolding IsOneOrBroke handle_conflict
handle_conflict-IsOne outside none id row ids s =
    inl (_, refl, record { once = refl; handed = inr (refl, refl) })
handle_conflict-IsOne outside (some m) id row ids s = fail_row-IsOne outside id row m s

row_of-IsOne :
    (outside : Outside) (id : ℕ) (row : BronzeContactInsert) (r : Result Resolution) (s : State)
    → IsOneOrBroke id (row_of outside id row r s).0
unfolding IsOneOrBroke row_of
row_of-IsOne outside id row (ok (Resolution.resolved c st created)) s =
    inl (_, refl, record { once = refl; handed = inl (refl, refl) })
row_of-IsOne outside id row (ok (Resolution.duplicate_source c d)) s =
    inl (_, refl, record { once = refl; handed = inr (refl, refl) })
row_of-IsOne outside id row (ok Resolution.insufficient_identifiers) s =
    inl (_, refl, record { once = refl; handed = inr (refl, refl) })
row_of-IsOne outside id row (ok (Resolution.identity_conflict ids)) s =
    handle_conflict-IsOne outside _ id row ids s
row_of-IsOne outside id row (err e) s = fail_row-IsOne outside id row (outside.message_of e) s

pub resolve_inserted_bronze_row-IsOne :
    (outside : Outside) (id : ℕ) (row : BronzeContactInsert) (s : State)
    → IsOneOrBroke id (resolve_inserted_bronze_row outside id row s).0
unfolding resolve_inserted_bronze_row
resolve_inserted_bronze_row-IsOne outside id row s =
    let r =
      resolve_bronze_contact_identity (outside.aborted id) row.tenant_id id
        IdentitySourceAuthority.import s.db in
    row_of-IsOne outside id row r.0 (record s { db = r.1 })
