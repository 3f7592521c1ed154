-- ===== src/CompanyIdentity/Invariant.antt =====
-- A relation between the databases before and after, which each write of the service keeps, holds
-- over both entries: the walk through the code is made here once, for every such relation.
mod Detect
pub mod Resolve
use cerniq_app_v.Prelude.{
  ◌≡◌, refl, ◌++◌, inl, inr, Bool-cases, Option-cases, ℕ, zero, suc, ◌≤◌, List, [], ◌∷◌, Bool, true,
  false, not, ◌&&◌, ◌||◌, Option, none, some, String, ◌==◌, str_eq, if◌then◌else◌, find_by, arith,
}
use cerniq_app_v.Prelude.Rows.{update_where}
use cerniq_app_v.CompanyIdentity.Model.{
  Db, IdentityKey, SilverCompany, BronzeContact, Context, Resolution, IdentityKeyType,
  IdentitySourceAuthority, UpsertResult, Error, key_conflict, is_given,
}
use cerniq_app_v.CompanyIdentity.Action.{
  Action, Result, ok, err, pure, throw, ◌>>=◌, ◌>>◌, gets, put_keys, put_bronze, put_companies,
  is_unique, fresh_id, attempt, begin_tenant_transaction, max_attempts,
}
use cerniq_app_v.CompanyIdentity.Keys.{
  KeyInput, is_active, new_key, refreshed_key, insert_identity_key, find_company,
  update_company_identity_snapshot, create_placeholder_company, update_bronze_resolution, Snapshot,
  BronzeUpdate,
}
use cerniq_app_v.CompanyIdentity.Merge.{
  transfer_keys, revoked, moved_key, auto_merge_split_companies, merge_distinct,
  try_auto_merge_from_registry_matches, try_auto_merge_from_legacy_matches,
}

-- The writes: of companies, of contacts that keep their ids, and of identity keys.
pub record Steps (R : Db → Db → Type 0) : Type 0 where
  pub stay : (db : Db) → R db db
  pub compose : (a b c : Db) → R a b → R b c → R a c
  pub number : (db : Db) → R db (record db { next_id = suc db.next_id })
  pub companies : (db : Db) (rows : List SilverCompany) → R db (record db { companies = rows })
  pub bronze :
      (db : Db) (p : BronzeContact → Bool) (f : BronzeContact → BronzeContact)
      → ((b : BronzeContact) → ((f b).id ≡ b.id) × ((f b).tenant_id ≡ b.tenant_id))
      → R db (record db { bronze = update_where p f db.bronze })
  pub insert :
      (db : Db) (input : KeyInput) (id : ℕ)
      → find_by (is_active input.tenant_id input.key_type input.key_value_canonical) db.keys ≡ none
      → R db (record db { keys = db.keys ++ (new_key input id ∷ []) })
  pub refresh :
      (db : Db) (p : IdentityKey → Bool) (input : KeyInput) (existing : IdentityKey)
      → R db (record db { keys = update_where p (refreshed_key input existing) db.keys })
  pub revoke :
      (db : Db) (p : IdentityKey → Bool)
      → R db (record db { keys = update_where p revoked db.keys })

pub record Keeps {ℓ} (R : Db → Db → Type 0) {A : Type ℓ} (m : Action A) : Type 0 where
  pub keeps : (db : Db) → R db (m db).1

module _ {R : Db → Db → Type 0} (s : Steps R) where
  pub bind-Keeps {ℓ κ} :
      {A : Type ℓ} {B : Type κ} (m : Action A) (f : A → Action B)
      → Keeps R m
      → ((a : A) → Keeps R (f a))
      → Keeps R (m >>= f)
  unfolding ◌>>=◌
  bind-Keeps {B = B} m f first next = record {
    keeps = λ db.
        elim (m db).0
          as (λ r.
            R db
              (elim r as (λ _. Result B × Db) [
                | ok a ↦ f a (m db).1
                | err e ↦ (err e, (m db).1)
              ]).1) [
                | ok a ↦ s.compose _ _ _ (first.keeps db) ((next a).keeps (m db).1)
                | err e ↦ first.keeps db
              ];
  }

  pub then-Keeps {ℓ} :
      {B : Type ℓ} (m : Action (Unit {0})) (k : Action B) → Keeps R m → Keeps R k → Keeps R (m >> k)
  unfolding ◌>>◌
  then-Keeps m k first next = bind-Keeps m (λ _. k) first (λ _. next)

  pub gets-Keeps {ℓ} : {A : Type ℓ} (f : Db → A) → Keeps R (gets f)
  gets-Keeps f = record { keeps = λ db. s.stay db }

  pub pure-Keeps {ℓ} : {A : Type ℓ} (a : A) → Keeps R (pure a)
  pure-Keeps a = record { keeps = λ db. s.stay db }

  pub throw-Keeps {ℓ} : {A : Type ℓ} (e : Error) → Keeps R (throw {A = A} e)
  throw-Keeps e = record { keeps = λ db. s.stay db }

  pub fresh_id-Keeps : Keeps R fresh_id
  fresh_id-Keeps = record { keeps = λ db. s.number db }

  -- Either branch of a test.
  pub if-Keeps {ℓ} :
      {A : Type ℓ} (b : Bool) (m k : Action A)
      → Keeps R m
      → Keeps R k
      → Keeps R (if b then m else k)
  if-Keeps true m k hm hk = hm
  if-Keeps false m k hm hk = hk

  pub put_companies-Keeps :
      (f : List SilverCompany → List SilverCompany) → Keeps R (put_companies f)
  unfolding put_companies
  put_companies-Keeps f = record {
    keeps = λ db. elim (Bool-cases (is_unique (f db.companies))) [
      | inl e ↦ rw (put_companies, e) (s.companies db (f db.companies))
      | inr e ↦ rw (put_companies, e) (s.stay db)
    ];
  }

  pub put_bronze-Keeps :
      (p : BronzeContact → Bool) (f : BronzeContact → BronzeContact)
      → ((b : BronzeContact) → ((f b).id ≡ b.id) × ((f b).tenant_id ≡ b.tenant_id))
      → Keeps R (put_bronze (update_where p f))
  put_bronze-Keeps p f keep = record { keeps = λ db. s.bronze db p f keep }

  pub update_bronze_resolution-Keeps :
      (args : BronzeUpdate) → Keeps R (update_bronze_resolution args)
  unfolding update_bronze_resolution
  update_bronze_resolution-Keeps args = put_bronze-Keeps _ _ (λ b. (refl, refl))

  insert_keeps : (input : KeyInput) (db : Db) → R db (insert_identity_key input db).1
  unfolding insert_identity_key ◌>>=◌
  insert_keeps input db = elim (Bool-cases (str_eq input.key_value_canonical "")) [
    | inl e ↦ rw e (s.stay db)
    | inr e ↦
        elim (Option-cases
          (find_by (is_active input.tenant_id input.key_type input.key_value_canonical) db.keys)) [
            | inl n ↦
                rw (e, n)
                  (s.compose _ _ _ (s.insert db input db.next_id n)
                    (s.number (record db { keys = db.keys ++ (new_key input db.next_id ∷ []) })))
            | inr (existing, n) ↦
                rw (e, n)
                  (elim (Bool-cases (existing.company_id == input.company_id)) [
                    | inl c ↦ rw c (s.refresh db (λ k. k.id == existing.id) input existing)
                    | inr c ↦ rw c (s.stay db)
                  ])
          ]
  ]

  pub insert_identity_key-Keeps : (input : KeyInput) → Keeps R (insert_identity_key input)
  insert_identity_key-Keeps input = record { keeps = insert_keeps input }

  pub transfer_keys-Keeps :
      (t primary : ℕ) (keys : List IdentityKey) → Keeps R (transfer_keys t primary keys)
  unfolding transfer_keys
  transfer_keys-Keeps t primary [] = pure-Keeps tt
  transfer_keys-Keeps t primary (key ∷ keys) =
      then-Keeps _ _ (record { keeps = λ db. s.revoke db (λ k. k.id == key.id) })
        (then-Keeps _ _ (insert_identity_key-Keeps (moved_key t primary key))
          (transfer_keys-Keeps t primary keys))

-- The rules for what an action is made of.
pub ruleset keeping = (
  bind-Keeps, then-Keeps, gets-Keeps, pure-Keeps, fresh_id-Keeps, put_companies-Keeps,
  update_bronze_resolution-Keeps, if-Keeps, insert_identity_key-Keeps, transfer_keys-Keeps,
)
