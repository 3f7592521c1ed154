-- ===== src/CompanyIdentity/Unique.antt =====
-- At most one key is in force for a tenant, a type and a value: what the index
-- idx_company_identity_keys_unique_active asks for, and the code's own reads and writes keep.
use cerniq_app_v.Prelude.{refl, ℕ, ◌≤◌, List, [], ◌∷◌, String, count_by, arith}
use cerniq_app_v.CompanyIdentity.Model.{Db, IdentityKeyType}
use cerniq_app_v.CompanyIdentity.Keys.{is_active, refreshed_key}
use cerniq_app_v.CompanyIdentity.Merge.{revoked}
use cerniq_app_v.CompanyIdentity.Upsert.{Call, run}
use cerniq_app_v.CompanyIdentity.Held.{
  active, active-append, count_by-update_where, count_by-update_where_le,
}
use cerniq_app_v.CompanyIdentity.Invariant.{Steps}
use cerniq_app_v.CompanyIdentity.Invariant.Resolve.{call-Keeps}

module _ (tenant : ℕ) (type : IdentityKeyType) (value : String) where
  abbrev pub StaysOne : Db → Db → Type 0
  StaysOne a b = active tenant type value a.keys ≤ 1 → active tenant type value b.keys ≤ 1

  pub one_steps : Steps StaysOne
  one_steps = record {
    stay = λ db h. h;
    compose = λ a b c first next h. next (first h);
    number = λ db h. h;
    companies = λ db rows h. h;
    bronze = λ db p f keep h. h;
    insert = λ db input id free h. active-append tenant type value input id db.keys free h;
    refresh = λ db p input existing h. omega (
      arith,
      count_by-update_where p (is_active tenant type value) (refreshed_key input existing) db.keys
          (λ k. refl),
    );
    revoke = λ db p h. omega (
      arith,
      count_by-update_where_le p (is_active tenant type value) revoked db.keys
          (λ k q. ground arith),
    );
  }

-- Where one active key at most holds a value of a type in a tenant, this is so after any calls of
-- the two entries, whatever they return or throw and whichever attempts the database refuses.
pub run-one_holder :
    (tenant : ℕ) (type : IdentityKeyType) (value : String) (calls : List Call) (db : Db)
    → count_by (is_active tenant type value) db.keys ≤ 1
    → count_by (is_active tenant type value) (run calls db).keys ≤ 1
unfolding run
run-one_holder tenant type value [] db h = h
run-one_holder tenant type value (call ∷ calls) db h =
    run-one_holder tenant type value calls _
      ((call-Keeps (one_steps tenant type value) call).keeps db h)
