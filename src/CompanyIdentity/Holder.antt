-- ===== src/CompanyIdentity/Holder.antt =====
-- Which company holds a value: what `insertIdentityKey` makes of it.
use cerniq_app_v.Prelude.{
  ◌≡◌, refl, ap, subst, ◌∙◌, inl, inr, Bool-cases, Option-cases, ==_self, eq_iff, ℕ, List, [], ◌∷◌,
  ◌++◌, Bool, true, false, Option, none, some, String, ◌==◌, str_eq, find_by, arith,
}
use cerniq_app_v.Prelude.Rows.{update_where}
use cerniq_app_v.CompanyIdentity.Model.{Db, IdentityKey, IdentityKeyType}
use cerniq_app_v.CompanyIdentity.Action.{ok, ◌>>=◌}
use cerniq_app_v.CompanyIdentity.Keys.{
  KeyInput, is_active, refreshed_key, new_key, insert_identity_key,
}
use cerniq_app_v.CompanyIdentity.Frame.{err≢ok}
use cerniq_app_v.CompanyIdentity.Held.{same_type_self}

abbrev pub is_of : ℕ → Option IdentityKey → Bool
is_of company none = false
is_of company (some k) = k.company_id == company

-- The active key of the value is the company's.
abbrev pub is_held_by : ℕ → IdentityKeyType → String → ℕ → List IdentityKey → Bool
is_held_by tenant type value company keys =
    is_of company (find_by (is_active tenant type value) keys)

pub find_by-append_none :
    (p : IdentityKey → Bool) (xs ys : List IdentityKey)
    → find_by p xs ≡ none
    → find_by p (xs ++ ys) ≡ find_by p ys
find_by-append_none p [] ys h = refl
find_by-append_none p (x ∷ xs) ys h = ground (arith, find_by-append_none p xs ys)

pub find_by-append_some :
    (p : IdentityKey → Bool) (xs ys : List IdentityKey) (k : IdentityKey)
    → find_by p xs ≡ some k
    → find_by p (xs ++ ys) ≡ some k
find_by-append_some p [] ys k h = absurd (ground arith)
find_by-append_some p (x ∷ xs) ys k h = ground (arith, find_by-append_some p xs ys k)

-- A change that keeps the test and the company keeps the holder.
is_of-update_where :
    (c : ℕ) (p q : IdentityKey → Bool) (f : IdentityKey → IdentityKey) (xs : List IdentityKey)
    → ((k : IdentityKey) → q (f k) ≡ q k)
    → ((k : IdentityKey) → (f k).company_id ≡ k.company_id)
    → is_of c (find_by q (update_where p f xs)) ≡ is_of c (find_by q xs)
unfolding update_where
is_of-update_where c p q f [] keep same = refl
is_of-update_where c p q f (x ∷ xs) keep same =
    ground (arith, keep x, same x, is_of-update_where c p q f xs keep same)

is_of-append :
    (c : ℕ) (p : IdentityKey → Bool) (xs ys : List IdentityKey)
    → is_of c (find_by p xs) ≡ true
    → is_of c (find_by p (xs ++ ys)) ≡ true
is_of-append c p xs ys h = elim (Option-cases (find_by p xs)) [
  | inl n ↦ absurd (ground (arith, n, h))
  | inr (k, n) ↦ rw (find_by-append_some p xs ys k n) (subst (λ o. is_of c o ≡ true) n h)
]

-- The key that was entered is active.
new_key-is_active :
    (input : KeyInput) (id : ℕ)
    → is_active input.tenant_id input.key_type input.key_value_canonical (new_key input id) ≡ true
new_key-is_active input id = ground (
  arith,
  ==_self input.tenant_id,
  same_type_self input.key_type,
  eq_iff input.key_value_canonical input.key_value_canonical,
)

-- A value entered with no error is held by the company that it was entered for.
pub insert-is_held :
    (input : KeyInput) (db : Db)
    → str_eq input.key_value_canonical "" ≡ false
    → (insert_identity_key input db).0 ≡ ok tt
    → is_held_by input.tenant_id input.key_type input.key_value_canonical input.company_id
        (insert_identity_key input db).1.keys
      ≡ true
unfolding insert_identity_key ◌>>=◌
insert-is_held input db given =
    let p = is_active input.tenant_id input.key_type input.key_value_canonical in
    rw given (elim (Option-cases (find_by p db.keys)) [
      | inl n ↦ rw n (λ h.
          rw (find_by-append_none p db.keys (new_key input db.next_id ∷ []) n)
            (rw (new_key-is_active input db.next_id) (==_self input.company_id)))
      | inr (existing, n) ↦ rw n (elim (Bool-cases (existing.company_id == input.company_id)) [
        | inl c ↦ rw c (λ h.
            is_of-update_where input.company_id (λ k. k.id == existing.id) p
              (refreshed_key input existing) db.keys (λ k. refl) (λ k. refl)
            ∙ (ap (is_of input.company_id) n ∙ c))
        | inr c ↦ rw c (λ h. absurd (err≢ok _ _ h))
      ])
    ])

-- No holder changes.
pub insert-keeps_held :
    (tenant : ℕ) (type : IdentityKeyType) (value : String) (company : ℕ) (input : KeyInput)
    (db : Db)
    → is_held_by tenant type value company db.keys ≡ true
    → is_held_by tenant type value company (insert_identity_key input db).1.keys ≡ true
unfolding insert_identity_key ◌>>=◌
insert-keeps_held tenant type value company input db held =
    let q = is_active tenant type value in
    elim (Bool-cases (str_eq input.key_value_canonical "")) [
      | inl e ↦ rw e held
      | inr e ↦
          elim (Option-cases (
            find_by (is_active input.tenant_id input.key_type input.key_value_canonical) db.keys)) [
              | inl n ↦
                  rw (e, n) (is_of-append company q db.keys (new_key input db.next_id ∷ []) held)
              | inr (existing, n) ↦
                  rw (e, n)
                    (elim (Bool-cases (existing.company_id == input.company_id)) [
                      | inl c ↦ rw c (
                          is_of-update_where company (λ k. k.id == existing.id) q
                            (refreshed_key input existing) db.keys (λ k. refl) (λ k. refl)
                          ∙ held)
                      | inr c ↦ rw c held
                    ])
            ]
    ]
