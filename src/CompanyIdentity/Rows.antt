-- ===== src/CompanyIdentity/Rows.antt =====
-- No contact is lost or renamed by a call: it is found before iff it is found after.
use cerniq_app_v.Prelude.{
  ◌≡◌, refl, ◌∙◌, ℕ, List, [], ◌∷◌, Bool, true, false, ◌&&◌, Option, none, some, ◌==◌, find_by,
  arith,
}
use cerniq_app_v.Prelude.Rows.{update_where}
use cerniq_app_v.CompanyIdentity.Model.{Db, BronzeContact}
use cerniq_app_v.CompanyIdentity.Service.{find_bronze}
use cerniq_app_v.CompanyIdentity.Invariant.{Steps}

abbrev pub is_some {ℓ} : {A : Type ℓ} → Option A → Bool
is_some none = false
is_some (some a) = true

is_some-update_where :
    (p q : BronzeContact → Bool) (f : BronzeContact → BronzeContact) (xs : List BronzeContact)
    → ((b : BronzeContact) → q (f b) ≡ q b)
    → is_some (find_by q (update_where p f xs)) ≡ is_some (find_by q xs)
unfolding update_where
is_some-update_where p q f [] keep = refl
is_some-update_where p q f (x ∷ xs) keep =
    ground (arith, keep x, is_some-update_where p q f xs keep)

module _ (tenant id : ℕ) where
  abbrev pub StaysThere : Db → Db → Type 0
  StaysThere a b =
      is_some (find_bronze tenant id b.bronze) ≡ is_some (find_bronze tenant id a.bronze)

  pub there_steps : Steps StaysThere
  there_steps = record {
    stay = λ db. refl;
    compose = λ a b c first next. next ∙ first;
    number = λ db. refl;
    companies = λ db rows. refl;
    bronze = λ db p f keep.
        is_some-update_where p (λ b. b.tenant_id == tenant && b.id == id) f db.bronze
          (λ b. ground (arith, (keep b).0, (keep b).1));
    insert = λ db input id free. refl;
    refresh = λ db p input existing. refl;
    revoke = λ db p. refl;
  }
