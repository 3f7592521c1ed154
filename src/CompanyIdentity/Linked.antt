-- ===== src/CompanyIdentity/Linked.antt =====
-- What `upsertCompanyIdentityKey` says of the holder of a value, and what it is.
use cerniq_app_v.Prelude.{
  ◌≡◌, ◌≢◌, refl, sym, ap, subst, ◌∙◌, inl, inr, Bool-cases, Option-cases, ==_iff, ==_self, ℕ, List,
  Bool, true, false, Option, none, some, str_eq, ◌==◌, find_by, arith,
}
use cerniq_app_v.CompanyIdentity.Model.{
  Db, IdentityKey, BronzeContact, UpsertResult, linked, conflict,
}
use cerniq_app_v.CompanyIdentity.Action.{
  Action, ok, pure, put_bronze, ◌>>=◌, ◌>>◌, gets, max_attempts,
}
use cerniq_app_v.CompanyIdentity.Keys.{
  KeyInput, is_active, insert_identity_key, update_bronze_resolution,
  update_company_identity_snapshot, find_company,
}
use cerniq_app_v.CompanyIdentity.Service.{conflict_snapshot}
use cerniq_app_v.CompanyIdentity.Upsert.{
  reject_source, refuse_key, link_key, upsert_key, upsert_company_identity_key, linked_snapshot,
  next_status,
}
use cerniq_app_v.CompanyIdentity.Frame.{
  Leaves, bind-Leaves, then-Leaves, pure-Leaves, gets-Leaves, Ensures, bind-Ensures,
  bind-Ensures_after, then-Ensures, pure-Ensures,
}
use cerniq_app_v.CompanyIdentity.Holder.{is_held_by, is_of, insert-is_held}
use cerniq_app_v.CompanyIdentity.Entered.{keys_of, update_company_identity_snapshot-Leaves}
use cerniq_app_v.CompanyIdentity.Calls.{begin_ok}

abbrev pub IsHolder : KeyInput → ℕ → List IdentityKey → Type 0
IsHolder args company keys =
    is_held_by args.tenant_id args.key_type args.key_value_canonical company keys ≡ true

-- The result against the keys before and after.
abbrev pub IsTrue : KeyInput → UpsertResult → List IdentityKey → List IdentityKey → Type 0
IsTrue args (linked company status) before after =
    (company ≡ args.company_id) × IsHolder args company after
IsTrue args (conflict company other) before after =
    (company ≡ args.company_id) × (other ≢ company) × (after ≡ before) × IsHolder args other after

leave_keys : (f : List BronzeContact → List BronzeContact) → Leaves keys_of (put_bronze f)
leave_keys f = record { same = λ db. refl }

reject_source-Leaves : (source : Option ℕ) → Leaves keys_of (reject_source source)
unfolding reject_source update_bronze_resolution
reject_source-Leaves none = pure-Leaves _
reject_source-Leaves (some bronze) = leave_keys _

refuse_key-Leaves : (args : KeyInput) (other : ℕ) → Leaves keys_of (refuse_key args other)
unfolding refuse_key
refuse_key-Leaves args other =
    then-Leaves _ _
      (update_company_identity_snapshot-Leaves keys_of (λ db rows. refl)
        (conflict_snapshot args.tenant_id args.company_id))
      (then-Leaves _ _ (reject_source-Leaves args.source_bronze_id) (pure-Leaves _))

refuse_key-Ensures :
    (args : KeyInput) (other : ℕ)
    → Ensures (λ r db. r ≡ conflict args.company_id other) (refuse_key args other)
unfolding refuse_key
refuse_key-Ensures args other = then-Ensures _ _ (then-Ensures _ _ (pure-Ensures _ (λ db. refl)))

-- After the key is entered.
abbrev record_link : KeyInput → Action UpsertResult
record_link args =
    gets (λ db. find_company args.tenant_id args.company_id db.companies) >>= λ company.
    update_company_identity_snapshot (linked_snapshot args (next_status args company))
    >> pure (linked args.company_id (next_status args company))

record_link-Leaves : (args : KeyInput) → Leaves keys_of (record_link args)
record_link-Leaves args = bind-Leaves _ _ (gets-Leaves _) (λ company.
    then-Leaves _ _
      (update_company_identity_snapshot-Leaves keys_of (λ db rows. refl)
        (linked_snapshot args (next_status args company)))
      (pure-Leaves _))

record_link-Ensures :
    (args : KeyInput)
    → Ensures (λ r db. (status : _) × (r ≡ linked args.company_id status)) (record_link args)
record_link-Ensures args =
    bind-Ensures _ _ (λ company. then-Ensures _ _ (pure-Ensures _ (λ db. (_, refl))))

link_key-Ensures :
    (args : KeyInput) (before : List IdentityKey)
    → str_eq args.key_value_canonical "" ≡ false
    → Ensures (λ r db. IsTrue args r before db.keys) (link_key args)
unfolding link_key ◌>>◌
link_key-Ensures args before given =
    bind-Ensures_after (insert_identity_key args) (λ _. record_link args)
      (record { so = λ db u h. insert-is_held args db given h })
      (λ u db held r h.
        let e = (record_link-Ensures args).so db r h in
        subst (λ x. IsTrue args x before (record_link args db).1.keys) (sym e.1)
          (
            refl,
            subst (IsHolder args args.company_id) (sym ((record_link-Leaves args).same db)) held,
          ))

upsert_key-IsTrue :
    (args : KeyInput) (db : Db) (r : UpsertResult)
    → str_eq args.key_value_canonical "" ≡ false
    → (upsert_key args db).0 ≡ ok r
    → IsTrue args r db.keys (upsert_key args db).1.keys
unfolding upsert_key
upsert_key-IsTrue args db r given =
    elim (Option-cases
      (find_by (is_active args.tenant_id args.key_type args.key_value_canonical) db.keys)) [
        | inl n ↦ rw (upsert_key, n) ((link_key-Ensures args db.keys given).so db r)
        | inr (existing, n) ↦ elim (Bool-cases (existing.company_id == args.company_id)) [
          | inl c ↦ rw (upsert_key, n, c) ((link_key-Ensures args db.keys given).so db r)
          | inr c ↦
              rw (upsert_key, n, c)
                (λ h.
                  let kept = (refuse_key-Leaves args existing.company_id).same db in
                  subst (λ x. IsTrue args x db.keys (refuse_key args existing.company_id db).1.keys)
                    (sym ((refuse_key-Ensures args existing.company_id).so db r h))
                    (
                      refl,
                      ground (arith, c, ==_iff existing.company_id args.company_id),
                      kept,
                      subst (IsHolder args existing.company_id) (sym kept)
                          (ap (is_of existing.company_id) n ∙ ==_self existing.company_id),
                    ))
        ]
      ]

-- Where a value is given and the call returns, it tells the truth of the registry: a company that it
-- calls linked is the one asked for and its key of the value is the active one; in a conflict the
-- keys are as they were, and the active one is that of the other company.
pub upsert-tells_truth :
    (aborted : ℕ → Bool) (args : KeyInput) (db : Db) (r : UpsertResult)
    → str_eq args.key_value_canonical "" ≡ false
    → (upsert_company_identity_key aborted args db).0 ≡ ok r
    → IsTrue args r db.keys (upsert_company_identity_key aborted args db).1.keys
unfolding upsert_company_identity_key
upsert-tells_truth aborted args db r given h =
    let one = begin_ok aborted max_attempts (upsert_key args) db r h in
    subst (λ d. IsTrue args r db.keys d.keys) (sym one.1) (upsert_key-IsTrue args db r given one.0)
