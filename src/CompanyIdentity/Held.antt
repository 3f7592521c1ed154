-- ===== src/CompanyIdentity/Held.antt =====
-- How many keys are in force for a value, over the writes of a table.
use cerniq_app_v.Prelude.{
  ◌≡◌, refl, inl, inr, Bool-cases, subst, ℕ, ◌+◌, ◌≤◌, List, [], ◌∷◌, ◌++◌, Bool, true, none,
  String, ==_iff, eq_iff, find_by, count_by, arith,
}
use cerniq_app_v.Prelude.Rows.{update_where}
use cerniq_app_v.CompanyIdentity.Model.{IdentityKey, IdentityKeyType, cui, nr_reg_com, same_type}
use cerniq_app_v.CompanyIdentity.Keys.{is_active, KeyInput, new_key}

module _ {ℓ} {A : Type ℓ} where
  -- A change that keeps a test keeps the count.
  pub count_by-update_where :
      (p q : A → Bool) (f : A → A) (xs : List A)
      → ((a : A) → q (f a) ≡ q a)
      → count_by q (update_where p f xs) ≡ count_by q xs
  unfolding update_where
  count_by-update_where p q f [] keep = refl
  count_by-update_where p q f (x ∷ xs) keep =
      ground (arith, keep x, count_by-update_where p q f xs keep)

  -- A change that makes no row pass makes the count no larger.
  pub count_by-update_where_le :
      (p q : A → Bool) (f : A → A) (xs : List A)
      → ((a : A) → q (f a) ≡ true → q a ≡ true)
      → count_by q (update_where p f xs) ≤ count_by q xs
  unfolding update_where
  count_by-update_where_le p q f [] keep = omega arith
  count_by-update_where_le p q f (x ∷ xs) keep =
      ground (arith, keep x, count_by-update_where_le p q f xs keep)

  pub count_by-append :
      (q : A → Bool) (xs ys : List A) → count_by q (xs ++ ys) ≡ count_by q xs + count_by q ys
  count_by-append q [] ys = omega arith
  count_by-append q (x ∷ xs) ys = ground (arith, count_by-append q xs ys)

  pub count_by-find_by : (q : A → Bool) (xs : List A) → find_by q xs ≡ none → count_by q xs ≡ 0
  count_by-find_by q [] h = refl
  count_by-find_by q (x ∷ xs) h = ground (arith, count_by-find_by q xs)

pub same_type→eq : (a b : IdentityKeyType) → same_type a b ≡ true → a ≡ b
same_type→eq cui cui h = refl
same_type→eq nr_reg_com nr_reg_com h = refl
same_type→eq cui nr_reg_com h = absurd (ground arith)
same_type→eq nr_reg_com cui h = absurd (ground arith)

pub same_type_self : (a : IdentityKeyType) → same_type a a ≡ true
same_type_self cui = refl
same_type_self nr_reg_com = refl

-- A key in force for a value is of its tenant, type and text.
pub is_active-parts :
    (tenant : ℕ) (type : IdentityKeyType) (value : String) (k : IdentityKey)
    → is_active tenant type value k ≡ true
    → (k.tenant_id ≡ tenant) × (k.key_type ≡ type) × (k.key_value_canonical ≡ value)
is_active-parts tenant type value k h = (
  ground (arith, ==_iff k.tenant_id tenant),
  same_type→eq k.key_type type (ground arith),
  ground (arith, eq_iff k.key_value_canonical value),
)

module _ (tenant : ℕ) (type : IdentityKeyType) (value : String) where
  abbrev pub active : List IdentityKey → ℕ
  active keys = count_by (is_active tenant type value) keys

  -- A key entered where none was in force leaves one at most.
  pub active-append :
      (input : KeyInput) (id : ℕ) (keys : List IdentityKey)
      → find_by (is_active input.tenant_id input.key_type input.key_value_canonical) keys ≡ none
      → active keys ≤ 1
      → active (keys ++ (new_key input id ∷ [])) ≤ 1
  active-append input id keys free h =
      elim (Bool-cases (is_active tenant type value (new_key input id))) [
        | inl e ↦
            let parts = is_active-parts tenant type value (new_key input id) e in
            let z : active keys ≡ 0 =
              subst (λ t. count_by (is_active t type value) keys ≡ 0) parts.0
                (subst (λ t. count_by (is_active input.tenant_id t value) keys ≡ 0) parts.1
                  (subst (λ t. count_by (is_active input.tenant_id input.key_type t) keys ≡ 0)
                    parts.2 (count_by-find_by _ keys free))) in
            rw count_by-append (ground (arith, e, z))
        | inr e ↦ rw count_by-append (ground (arith, e))
      ]
