-- ===== src/CompanyIdentity/Resolved.antt =====
-- What a resolution ensures, by result: the contact's row shows it, and the identifiers of a
-- resolved contact are held by its company.
use cerniq_app_v.Prelude.{◌≡◌, refl, sym, subst, ◌∙◌, List, [], ◌∷◌, ℕ, true, Option, none, some}
use cerniq_app_v.CompanyIdentity.Model.{
  Db, BronzeContact, Context, Resolution, SilverIdentityStatus, key_conflict, bronze_not_found,
  unique_violation, not_serializable,
}
use cerniq_app_v.CompanyIdentity.Action.{Result, ok, err, pure, ◌>>=◌, ◌>>◌}
use cerniq_app_v.CompanyIdentity.Keys.{
  update_company_identity_snapshot, update_bronze_resolution, distinct,
}
use cerniq_app_v.CompanyIdentity.Detect.{Detected, halted, found, mark_identity_conflict_bronze}
use cerniq_app_v.CompanyIdentity.Service.{
  upsert_context_identity_keys, record_resolution, handle_key_conflict, after_keys,
  enter_and_record, conflict_snapshot,
}
use cerniq_app_v.CompanyIdentity.Frame.{
  Leaves, then-Leaves, pure-Leaves, Ensures, ensuring, err≢ok, then-Ensures, bind-Ensures,
  pure-Ensures,
}
use cerniq_app_v.CompanyIdentity.Holder.{is_held_by}
use cerniq_app_v.CompanyIdentity.Keys.{BronzeUpdate}
use cerniq_app_v.CompanyIdentity.Detect.{
  merged_or_conflict, merge_with, try_auto_merge_nr_reg_com_conflict,
}
use cerniq_app_v.CompanyIdentity.Service.{resolved_bronze, find_bronze}
use cerniq_app_v.CompanyIdentity.Recorded.{
  Recorded, outcome, outcome_of, set_by, update_bronze_resolution-Recorded,
}
use cerniq_app_v.CompanyIdentity.Entered.{
  AreHeld, Entered, update_company_identity_snapshot-Leaves, record_resolution-Leaves_keys,
  upsert_context_identity_keys-AreHeld,
}
use cerniq_app_v.CompanyIdentity.Frame.{ok_inj, bind_pure-Ensures, bind-Ensures_after}

abbrev bronze_of : Db → List BronzeContact
bronze_of db = db.bronze

module _ (tenant : ℕ) (context : Context) where
  abbrev pub Good : Resolution → Db → Type 0
  Good r db = Recorded tenant context.bronze_id r db × Entered context r db

  -- What ends with the write of the contact.
  update_then_pure-Ensures :
      (args : BronzeUpdate) (r : Resolution)
      → args.bronze_id ≡ context.bronze_id
      → set_by args ≡ outcome_of r
      → Ensures
          (λ x db. (x ≡ r) × Recorded tenant context.bronze_id x db)
          (update_bronze_resolution args >> pure r)
  unfolding ◌>>◌ ◌>>=◌ update_bronze_resolution
  update_then_pure-Ensures args r same e = record {
    so = λ db x h.
        let q : r ≡ x = ok_inj r x h in
        (
          sym q,
          subst (λ y. Recorded tenant context.bronze_id y (update_bronze_resolution args db).1) q
              (subst (λ id. Recorded tenant id r (update_bronze_resolution args db).1) same
                (update_bronze_resolution-Recorded tenant args r db e)),
        );
  }

  record_resolution-Ensures :
      (company : ℕ) (created : Option ℕ)
      → Ensures
          (λ r db.
            ((status : SilverIdentityStatus) × (r ≡ Resolution.resolved company status created))
            × Recorded tenant context.bronze_id r db)
          (record_resolution tenant context company created)
  unfolding record_resolution
  record_resolution-Ensures company created = then-Ensures _ _ (record {
    so = λ db r h.
        let x =
          (update_then_pure-Ensures (resolved_bronze context company) _ refl refl).so db r h in
        ((_, x.0), x.1);
  })

  -- A result with no company to hold anything.
  pub refusal-Good :
      (args : BronzeUpdate) (r : Resolution)
      → args.bronze_id ≡ context.bronze_id
      → set_by args ≡ outcome_of r
      → ((db : Db) → Entered context r db)
      → Ensures Good (update_bronze_resolution args >> pure r)
  unfolding ◌>>◌ ◌>>=◌ update_bronze_resolution
  refusal-Good args r same e free = record {
    so = λ db x h.
        let y = (update_then_pure-Ensures args r same e).so db x h in
        (
          y.1,
          subst (λ z. Entered context z (update_bronze_resolution args db).1) (sym y.0)
              (free (update_bronze_resolution args db).1),
        );
  }

  pub mark_conflict-Good : (ids : List ℕ) → Ensures Good (mark_identity_conflict_bronze context ids)
  unfolding mark_identity_conflict_bronze
  mark_conflict-Good ids = refusal-Good _ _ refl refl (λ db. tt)

  conflict_snapshot-Good :
      (company : ℕ) (ids : List ℕ) (r : Resolution) (db : Db)
      → (r ≡ Resolution.identity_conflict ids) × Recorded tenant context.bronze_id r db
      → (x : Resolution)
      → ((update_company_identity_snapshot (conflict_snapshot tenant company) >> pure r) db).0
        ≡ ok x
      → Good x
          ((update_company_identity_snapshot (conflict_snapshot tenant company) >> pure r) db).1
  conflict_snapshot-Good company ids r db (is_conflict, recorded) x h =
      let whole = update_company_identity_snapshot (conflict_snapshot tenant company) >> pure r in
      let returned : Ensures (λ y d. y ≡ r) whole = then-Ensures _ _ (pure-Ensures r (λ d. refl)) in
      let untouched : Leaves bronze_of whole =
        then-Leaves _ _
          (update_company_identity_snapshot-Leaves bronze_of (λ d rows. refl)
            (conflict_snapshot tenant company))
          (pure-Leaves r) in
      (
        (λ b found_b.
            subst (λ y. outcome b ≡ outcome_of y) (sym (returned.so db x h))
              (recorded b (
                subst (λ rows. find_bronze tenant context.bronze_id rows ≡ some b)
                  (untouched.same db) found_b))),
        subst (λ y. Entered context y (whole db).1) (sym (returned.so db x h ∙ is_conflict)) tt,
      )

  handle_key_conflict-Good :
      (company other : ℕ) → Ensures Good (handle_key_conflict tenant context company other)
  unfolding handle_key_conflict mark_identity_conflict_bronze
  handle_key_conflict-Good company other =
      bind-Ensures_after _ _ (update_then_pure-Ensures _ _ refl refl)
        (conflict_snapshot-Good company (distinct (company ∷ other ∷ [])))

  after_keys-Good :
      (company : ℕ) (created : Option ℕ) (r : Result (Unit {0})) (db : Db)
      → (r ≡ ok tt → AreHeld context company db)
      → (result : Resolution) → (after_keys tenant context company created r db).0 ≡ ok result
      → Good result (after_keys tenant context company created r db).1
  unfolding after_keys
  after_keys-Good company created (ok u) db held result h =
      let e = (record_resolution-Ensures company created).so db result h in
      (
        e.1,
        subst (λ r. Entered context r (record_resolution tenant context company created db).1)
            (sym e.0.1)
            (λ type value i given.
              subst (λ keys. is_held_by context.tenant_id type value company keys ≡ true)
                (sym ((record_resolution-Leaves_keys tenant context company created).same db))
                (held refl type value i given)),
      )
  after_keys-Good company created (err (key_conflict other)) db held result h =
      (handle_key_conflict-Good company other).so db result h
  after_keys-Good company created (err bronze_not_found) db held result h = absurd (err≢ok _ _ h)
  after_keys-Good company created (err unique_violation) db held result h = absurd (err≢ok _ _ h)
  after_keys-Good company created (err not_serializable) db held result h = absurd (err≢ok _ _ h)

  pub enter_and_record-Good :
      (company : ℕ) (created : Option ℕ)
      → Ensures Good (enter_and_record tenant context company created)
  unfolding enter_and_record
  enter_and_record-Good company created = record {
    so = λ db.
        after_keys-Good company created (upsert_context_identity_keys context company db).0
          (upsert_context_identity_keys context company db).1
          (upsert_context_identity_keys-AreHeld context company db);
  }

  -- A detection that ends the resolution has recorded its result.
  abbrev pub Settled : Detected → Db → Type 0
  Settled (halted r) db = Good r db
  Settled (found company) db = Unit {0}

  pub merged_or_conflict-Settled :
      (ids : List ℕ) (merged : Option ℕ) → Ensures Settled (merged_or_conflict context ids merged)
  unfolding merged_or_conflict
  merged_or_conflict-Settled ids (some merged) = pure-Ensures _ (λ db. tt)
  merged_or_conflict-Settled ids none =
      bind_pure-Ensures _ halted (mark_conflict-Good ids) (λ r db good. good)

  abbrev pub OrSettled : Option Detected → Db → Type 0
  OrSettled none db = Unit {0}
  OrSettled (some d) db = Settled d db

  pub merge_with-Settled :
      (registry : ℕ) (conflicting : Option ℕ)
      → Ensures OrSettled (merge_with tenant registry context conflicting)
  unfolding merge_with
  merge_with-Settled registry none = pure-Ensures _ (λ db. tt)
  merge_with-Settled registry (some other) = bind-Ensures _ _ (λ merged.
      bind_pure-Ensures _ some (merged_or_conflict-Settled _ merged) (λ d db settled. settled))

  pub try_auto_merge_nr_reg_com_conflict-Settled :
      (registry : ℕ)
      → Ensures OrSettled (try_auto_merge_nr_reg_com_conflict tenant registry context)
  unfolding try_auto_merge_nr_reg_com_conflict
  try_auto_merge_nr_reg_com_conflict-Settled registry =
      search (ensuring, merge_with-Settled, pure-Ensures)
