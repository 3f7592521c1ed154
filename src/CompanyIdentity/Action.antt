-- ===== src/CompanyIdentity/Action.antt =====
-- A query or a write inside a transaction: it takes the database, and what was written before a
-- throw is still there for a `catch` in the same transaction.
use cerniq_app_v.Prelude.{
  ℕ, List, [], ◌∷◌, Bool, true, false, not, ◌&&◌, ◌||◌, Option, none, some, String, ◌==◌, str_eq,
  if◌then◌else◌, zero, suc, every,
}
use cerniq_app_v.CompanyIdentity.Model.{
  Db, Error, unique_violation, not_serializable, SilverCompany, IdentityKey, BronzeContact,
}

pub data Result {ℓ} (A : Type ℓ) : Type ℓ where
  ok : A → Result A
  err : Error → Result A

abbrev pub Action {ℓ} : Type ℓ → Type ℓ
Action A = Db → Result A × Db

abbrev pub pure {ℓ} : {A : Type ℓ} → A → Action A
pure a db = (ok a, db)

abbrev pub throw {ℓ} : {A : Type ℓ} → Error → Action A
throw e db = (err e, db)

infixl 5 ◌>>=◌ ◌>>◌
unfoldable pub ◌>>=◌ {ℓ κ} : {A : Type ℓ} {B : Type κ} → Action A → (A → Action B) → Action B
◌>>=◌ m f db = elim (m db).0 [ ok a ↦ f a (m db).1 | err e ↦ (err e, (m db).1) ]

unfoldable pub ◌>>◌ {ℓ} : {B : Type ℓ} → Action (Unit {0}) → Action B → Action B
unfolding ◌>>=◌
m >> k = m >>= λ _. k

-- A read.
abbrev pub gets {ℓ} : {A : Type ℓ} → (Db → A) → Action A
gets f db = (ok (f db), db)

abbrev pub put_keys : (List IdentityKey → List IdentityKey) → Action (Unit {0})
put_keys f db = (ok tt, record db { keys = f db.keys })

abbrev pub put_bronze : (List BronzeContact → List BronzeContact) → Action (Unit {0})
put_bronze f db = (ok tt, record db { bronze = f db.bronze })

-- Two rows that the index idx_silver_companies_cui_tenant or …_nrregcom_tenant keeps apart.
abbrev pub same_text : Option String → Option String → Bool
same_text none b = false
same_text (some s) none = false
same_text (some s) (some t) = str_eq s t

unfoldable pub clash : SilverCompany → SilverCompany → Bool
clash a b =
    a.tenant_id == b.tenant_id
    && a.is_master_record
    && b.is_master_record
    && (same_text a.cui b.cui || same_text a.nr_reg_com b.nr_reg_com)

unfoldable pub is_unique : List SilverCompany → Bool
unfolding clash
is_unique [] = true
is_unique (c ∷ cs) = every (λ d. not (clash c d)) cs && is_unique cs

-- A write of companies, which the unique indexes check.
unfoldable pub put_companies : (List SilverCompany → List SilverCompany) → Action (Unit {0})
unfolding is_unique
put_companies f db =
    if is_unique (f db.companies)
    then (ok tt, record db { companies = f db.companies })
    else (err unique_violation, db)

-- The id of the next row.
abbrev pub fresh_id : Action ℕ
fresh_id db = (ok db.next_id, record db { next_id = suc db.next_id })

-- One attempt. That PostgreSQL rolls a transaction back out of which an error is thrown is documented
-- behaviour of the database, and is taken over here.
unfoldable pub attempt {ℓ} : {A : Type ℓ} → Action A → Action A
attempt m db = elim (m db).0 [ ok a ↦ (ok a, (m db).1) | err e ↦ (err e, db) ]

-- `beginTenantTransaction`, with the attempts that are left. `aborted n` says that the database
-- refuses the attempt with n left for serialization or a deadlock, which is the only error that is
-- tried again.
unfoldable pub begin_tenant_transaction {ℓ} : {A : Type ℓ} → (ℕ → Bool) → ℕ → Action A → Action A
unfolding attempt
begin_tenant_transaction aborted zero m db = (err not_serializable, db)
begin_tenant_transaction aborted (suc left) m db =
    let again = begin_tenant_transaction aborted left m db in
    if aborted left then again else attempt m db

abbrev pub max_attempts : ℕ
max_attempts = 5
