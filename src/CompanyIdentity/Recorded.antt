-- ===== src/CompanyIdentity/Recorded.antt =====
-- What a contact's row shows of the result of its resolution.
use cerniq_app_v.Prelude.{
  ◌≡◌, refl, ap, ◌∙◌, inl, inr, Bool-cases, ℕ, List, [], ◌∷◌, Bool, true, false, ◌&&◌, Option, none,
  some, ◌==◌, find_by, arith,
}
use cerniq_app_v.Prelude.Rows.{update_where}
use cerniq_app_v.CompanyIdentity.Model.{
  Db, BronzeContact, BronzeIdentityStatus, ProcessingStatus, Resolution,
}
use cerniq_app_v.CompanyIdentity.Keys.{BronzeUpdate, resolution_of, update_bronze_resolution}
use cerniq_app_v.CompanyIdentity.Service.{find_bronze}

-- The columns of a contact that a resolution sets.
pub record Outcome : Type 0 where
  pub identity_status : BronzeIdentityStatus
  pub resolved_company_id : Option ℕ
  pub duplicate_of_id : Option ℕ
  pub is_duplicate : Bool
  pub do_not_process : Bool
  pub processing_status : ProcessingStatus

abbrev pub outcome : BronzeContact → Outcome
outcome b = record {
  identity_status = b.identity_status;
  resolved_company_id = b.resolved_company_id;
  duplicate_of_id = b.duplicate_of_id;
  is_duplicate = b.is_duplicate;
  do_not_process = b.do_not_process;
  processing_status = b.processing_status;
}

abbrev pub refused : BronzeIdentityStatus → Outcome
refused status = record {
  identity_status = status;
  resolved_company_id = none;
  duplicate_of_id = none;
  is_duplicate = false;
  do_not_process = true;
  processing_status = ProcessingStatus.rejected;
}

-- What the row should show, result by result.
abbrev pub outcome_of : Resolution → Outcome
outcome_of (Resolution.resolved company status created) = record {
  identity_status = BronzeIdentityStatus.resolved;
  resolved_company_id = some company;
  duplicate_of_id = none;
  is_duplicate = false;
  do_not_process = false;
  processing_status = ProcessingStatus.pending;
}
outcome_of (Resolution.duplicate_source company duplicate) = record {
  identity_status = BronzeIdentityStatus.duplicate_source;
  resolved_company_id = company;
  duplicate_of_id = some duplicate;
  is_duplicate = true;
  do_not_process = true;
  processing_status = ProcessingStatus.rejected;
}
outcome_of Resolution.insufficient_identifiers =
    refused BronzeIdentityStatus.insufficient_identifiers
outcome_of (Resolution.identity_conflict companies) = refused BronzeIdentityStatus.identity_conflict

-- The row that is read is an updated one, if the update reaches all rows that the test lets pass.
find_by-updated :
    (p q : BronzeContact → Bool) (f : BronzeContact → BronzeContact) (xs : List BronzeContact)
    → ((b : BronzeContact) → q (f b) ≡ q b)
    → ((b : BronzeContact) → q b ≡ true → p b ≡ true)
    → (b : BronzeContact) → find_by q (update_where p f xs) ≡ some b
    → (a : BronzeContact) × (b ≡ f a)
unfolding update_where
find_by-updated p q f [] keep reach b h = absurd (ground arith)
find_by-updated p q f (x ∷ xs) keep reach b h = elim (Bool-cases (q x)) [
  | inl e ↦ (x, ground (arith, e, reach x, keep x))
  | inr e ↦ find_by-updated p q f xs keep reach b (ground (arith, e, keep x))
]

abbrev pub Recorded : ℕ → ℕ → Resolution → Db → Type 0
Recorded tenant id r db =
    (b : BronzeContact) → find_bronze tenant id db.bronze ≡ some b → outcome b ≡ outcome_of r

abbrev pub set_by : BronzeUpdate → Outcome
set_by args = record {
  identity_status = args.identity_status;
  resolved_company_id = args.resolved_company_id;
  duplicate_of_id = args.duplicate_of_id;
  is_duplicate = args.is_duplicate;
  do_not_process = args.do_not_process;
  processing_status = args.processing_status;
}

pub update_bronze_resolution-Recorded :
    (tenant : ℕ) (args : BronzeUpdate) (r : Resolution) (db : Db)
    → set_by args ≡ outcome_of r
    → Recorded tenant args.bronze_id r (update_bronze_resolution args db).1
unfolding update_bronze_resolution
update_bronze_resolution-Recorded tenant args r db e b h =
    let a =
      find_by-updated (λ b. b.id == args.bronze_id)
        (λ b. b.tenant_id == tenant && b.id == args.bronze_id) (resolution_of args) db.bronze
        (λ b. refl) (λ b q. ground arith) b h in
    ap outcome a.1 ∙ e
