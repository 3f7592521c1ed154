-- ===== src/CompanyIdentity/Calls.antt =====
-- What a call of the service that returns has done, and that one that throws has done nothing.
use cerniq_app_v.Prelude.{
  ◌≡◌, refl, sym, ap, subst, ◌∙◌, ◌⊎◌, inl, inr, Bool-cases, ==_iff, ℕ, zero, suc, List, [], ◌∷◌,
  every, Bool, true, false, ◌&&◌, Option, none, some, String, str_eq, ◌==◌, arith,
}
use cerniq_app_v.Prelude.Rows.{find_by-true}
use mathlib.Core.Option
use cerniq_app_v.CompanyIdentity.Model.{
  Db, BronzeContact, Resolution, SilverIdentityStatus, IdentityKeyType, IdentitySourceAuthority,
  Error, not_serializable,
}
use cerniq_app_v.CompanyIdentity.Action.{Action, ok, err, begin_tenant_transaction, max_attempts}
use cerniq_app_v.CompanyIdentity.Service.{
  find_bronze, resolve_bronze_contact, resolve_bronze_contact_identity, context_of,
}
use cerniq_app_v.CompanyIdentity.Frame.{Result-cases, attempt_ok, attempt_err, err≢ok}
use cerniq_app_v.CompanyIdentity.Invariant.Resolve.{resolve_bronze_contact_identity-Keeps}
use cerniq_app_v.CompanyIdentity.Rows.{is_some, there_steps}
use cerniq_app_v.CompanyIdentity.Recorded.{outcome, outcome_of}
use cerniq_app_v.CompanyIdentity.Entered.{identifier}
use cerniq_app_v.CompanyIdentity.Holder.{is_held_by}
use cerniq_app_v.CompanyIdentity.Resolved.{Good}
use cerniq_app_v.CompanyIdentity.Guarantees.{resolve_bronze_contact-Good}

-- The attempts, in the order in which they are made, by how many are left after each.
abbrev pub attempts : ℕ → List ℕ
attempts zero = []
attempts (suc left) = left ∷ attempts left

-- A transaction is tried again as long as the database refuses its attempts, up to the number given:
-- it throws that it cannot be serialized exactly if all of them are refused, and then nothing has
-- changed. Otherwise it is one run of the body: it returns with all writes of the body, or it throws
-- the body's error and the writes of that attempt are rolled back, as the database does it.
pub begin_tenant_transaction-retries {ℓ} :
    {A : Type ℓ} (aborted : ℕ → Bool) (left : ℕ) (m : Action A) (db : Db)
    → (every aborted (attempts left) ≡ true)
        × (begin_tenant_transaction aborted left m db ≡ (err not_serializable, db))
      ⊎ (every aborted (attempts left) ≡ false)
        × (((a : A) × ((m db).0 ≡ ok a)
              × (begin_tenant_transaction aborted left m db ≡ (ok a, (m db).1)))
            ⊎ ((e : Error) × ((m db).0 ≡ err e)
                × (begin_tenant_transaction aborted left m db ≡ (err e, db))))
unfolding begin_tenant_transaction
begin_tenant_transaction-retries aborted zero m db = inl (refl, refl)
begin_tenant_transaction-retries aborted (suc left) m db = elim (Bool-cases (aborted left)) [
  | inl e ↦ rw (begin_tenant_transaction, e) (begin_tenant_transaction-retries aborted left m db)
  | inr e ↦
      rw (begin_tenant_transaction, e)
        (inr (
          refl,
          elim (Result-cases (m db).0) [
            | inl (a, n) ↦ inl (a, n, attempt_ok m db a n)
            | inr (x, n) ↦ inr (x, n, attempt_err m db x n)
          ],
        ))
]

-- A transaction that returns is its body's run.
pub begin_ok {ℓ} :
    {A : Type ℓ} (aborted : ℕ → Bool) (left : ℕ) (m : Action A) (db : Db) (a : A)
    → (begin_tenant_transaction aborted left m db).0 ≡ ok a
    → ((m db).0 ≡ ok a) × ((begin_tenant_transaction aborted left m db).1 ≡ (m db).1)
begin_ok aborted left m db a h = elim (begin_tenant_transaction-retries aborted left m db) [
  | inl (_, e) ↦ absurd (err≢ok not_serializable a (sym (ap (λ r. r.0) e) ∙ h))
  | inr (_, one) ↦ elim one [
    | inl (b, n, e) ↦ (n ∙ (sym (ap (λ r. r.0) e) ∙ h), ap (λ r. r.1) e)
    | inr (x, n, e) ↦ absurd (err≢ok x a (sym (ap (λ r. r.0) e) ∙ h))
  ]
]

find_bronze-id :
    (tenant id : ℕ) (db : Db) (bronze : BronzeContact)
    → find_bronze tenant id db.bronze ≡ some bronze
    → bronze.id ≡ id
find_bronze-id tenant id db bronze h =
    let p = find_by-true (λ b. b.tenant_id == tenant && b.id == id) db.bronze bronze h in
    ground (arith, p, ==_iff bronze.id id)

-- The call's last state, with what Good says of it.
resolve-Good :
    (aborted : ℕ → Bool) (tenant id : ℕ) (authority : IdentitySourceAuthority) (db : Db)
    (bronze : BronzeContact) (r : Resolution)
    → find_bronze tenant id db.bronze ≡ some bronze
    → (resolve_bronze_contact_identity aborted tenant id authority db).0 ≡ ok r
    → Good tenant
        (context_of authority bronze)
        r
        (resolve_bronze_contact_identity aborted tenant id authority db).1
unfolding resolve_bronze_contact_identity
resolve-Good aborted tenant id authority db bronze r there h =
    let one = begin_ok aborted max_attempts (resolve_bronze_contact tenant id authority) db r h in
    subst (Good tenant (context_of authority bronze) r) (sym one.1)
      (resolve_bronze_contact-Good tenant id authority db bronze there r one.0)

map-is_some :
    (o : Option BronzeContact) (r : Resolution)
    → is_some o ≡ true
    → ((b : BronzeContact) → o ≡ some b → outcome b ≡ outcome_of r)
    → Option.map outcome o ≡ some (outcome_of r)
map-is_some none r h all = absurd (ground arith)
map-is_some (some b) r h all = ap some (all b refl)

-- Where the contact is there and the call returns, whatever the result, the row of the contact that
-- is read after it shows the result: the status, the company, the contact that it repeats, and
-- whether it is to be processed.
pub resolve-recorded :
    (aborted : ℕ → Bool) (tenant id : ℕ) (authority : IdentitySourceAuthority) (db : Db)
    (bronze : BronzeContact) (r : Resolution)
    → find_bronze tenant id db.bronze ≡ some bronze
    → (resolve_bronze_contact_identity aborted tenant id authority db).0 ≡ ok r
    → Option.map outcome (
        find_bronze tenant id
          (resolve_bronze_contact_identity aborted tenant id authority db).1.bronze)
      ≡ some (outcome_of r)
resolve-recorded aborted tenant id authority db bronze r there h =
    let good = resolve-Good aborted tenant id authority db bronze r there h in
    map-is_some _ r
      ((resolve_bronze_contact_identity-Keeps (there_steps tenant id) aborted tenant id
            authority).keeps
          db
        ∙ ap is_some there)
      (subst
        (λ i.
          (b : BronzeContact)
          → find_bronze tenant i
              (resolve_bronze_contact_identity aborted tenant id authority db).1.bronze
            ≡ some b
          → outcome b ≡ outcome_of r)
        (find_bronze-id tenant id db bronze there) good.0)

-- Where the call resolves the contact, the active key of each identifier that the contact gives, of
-- one type or the other, is the company's that is returned.
pub resolve-entered :
    (aborted : ℕ → Bool) (tenant id : ℕ) (authority : IdentitySourceAuthority) (db : Db)
    (bronze : BronzeContact) (company : ℕ) (status : SilverIdentityStatus) (created : Option ℕ)
    (type : IdentityKeyType) (value : String)
    → find_bronze tenant id db.bronze ≡ some bronze
    → (resolve_bronze_contact_identity aborted tenant id authority db).0
      ≡ ok (Resolution.resolved company status created)
    → identifier type (context_of authority bronze) ≡ some value
    → str_eq value "" ≡ false
    → is_held_by bronze.tenant_id type value company
        (resolve_bronze_contact_identity aborted tenant id authority db).1.keys
      ≡ true
resolve-entered aborted tenant id authority db bronze company status created type value there h =
    (resolve-Good aborted tenant id authority db bronze _ there h).1 type value
