-- ===== src/CompanyIdentity/Frame.antt =====
-- Two forms of statement about an action, with the rules that follow its parts: what it leaves
-- alone, and what is so when it returns.
use cerniq_app_v.Prelude.{
  ◌≡◌, refl, sym, subst, ◌∙◌, ◌⊎◌, ◌≢◌, ℕ, zero, suc, inl, inr, Bool-cases, Bool, true, false,
  if◌then◌else◌, arith,
}
use cerniq_app_v.CompanyIdentity.Model.{Db, Error}
use cerniq_app_v.CompanyIdentity.Action.{
  Action, Result, ok, err, pure, throw, ◌>>=◌, ◌>>◌, gets, attempt, begin_tenant_transaction,
}

-- The part `view` of the database is as before, whatever the action returns.
pub record Leaves {ℓ κ} {X : Type κ} (view : Db → X) {A : Type ℓ} (m : Action A) : Type κ where
  pub same : (db : Db) → view (m db).1 ≡ view db

-- When the action returns, its result and the database satisfy `post`.
pub record Ensures {ℓ κ} {A : Type ℓ} (post : A → Db → Type κ) (m : Action A) : Type (ℓ ⊔ κ) where
  pub so : (db : Db) (a : A) → (m db).0 ≡ ok a → post a (m db).1

module _ {κ} {X : Type κ} {view : Db → X} where
  pub bind-Leaves {ℓ ι} :
      {A : Type ℓ} {B : Type ι} (m : Action A) (f : A → Action B)
      → Leaves view m
      → ((a : A) → Leaves view (f a))
      → Leaves view (m >>= f)
  unfolding ◌>>=◌
  bind-Leaves {B = B} m f first next = record {
    same = λ db.
        elim (m db).0
          as (λ r.
            view
              (elim r as (λ _. Result B × Db) [ ok a ↦ f a (m db).1 | err e ↦ (err e, (m db).1) ]).1
            ≡ view db) [ ok a ↦ (next a).same (m db).1 ∙ first.same db | err e ↦ first.same db ];
  }

  pub then-Leaves {ℓ} :
      {B : Type ℓ} (m : Action (Unit {0})) (k : Action B)
      → Leaves view m
      → Leaves view k
      → Leaves view (m >> k)
  unfolding ◌>>◌
  then-Leaves m k first next = bind-Leaves m (λ _. k) first (λ _. next)

  pub pure-Leaves {ℓ} : {A : Type ℓ} (a : A) → Leaves view (pure a)
  pure-Leaves a = record { same = λ db. refl }

  pub gets-Leaves {ℓ} : {A : Type ℓ} (f : Db → A) → Leaves view (gets f)
  gets-Leaves f = record { same = λ db. refl }

  pub if-Leaves {ℓ} :
      {A : Type ℓ} (b : Bool) (m k : Action A)
      → Leaves view m
      → Leaves view k
      → Leaves view (if b then m else k)
  if-Leaves true m k hm hk = hm
  if-Leaves false m k hm hk = hk

pub ruleset leaving = (bind-Leaves, then-Leaves, pure-Leaves, gets-Leaves, if-Leaves)

pub Result-cases {ℓ} :
    {A : Type ℓ} (r : Result A) → ((a : A) × (r ≡ ok a)) ⊎ ((e : Error) × (r ≡ err e))
Result-cases (ok a) = inl (a, refl)
Result-cases (err e) = inr (e, refl)

pub attempt_ok {ℓ} :
    {A : Type ℓ} (m : Action A) (db : Db) (a : A)
    → (m db).0 ≡ ok a
    → attempt m db ≡ (ok a, (m db).1)
unfolding attempt
attempt_ok m db a h = rw (attempt, h) refl

pub attempt_err {ℓ} :
    {A : Type ℓ} (m : Action A) (db : Db) (e : Error)
    → (m db).0 ≡ err e
    → attempt m db ≡ (err e, db)
unfolding attempt
attempt_err m db e h = rw (attempt, h) refl

pub err≢ok {ℓ} : {A : Type ℓ} (e : Error) (a : A) → err e ≢ ok a
err≢ok e a h = ground arith

pub ok_inj {ℓ} : {A : Type ℓ} (a b : A) → ok a ≡ ok b → a ≡ b
ok_inj a b h = ground arith

-- The second of two actions, after the first returned or threw.
pub bind_ok {ℓ κ} :
    {A : Type ℓ} {B : Type κ} (m : Action A) (f : A → Action B) (db : Db) (a : A)
    → (m db).0 ≡ ok a
    → (m >>= f) db ≡ f a (m db).1
unfolding ◌>>=◌
bind_ok m f db a h = rw (◌>>=◌, h) refl

pub bind_err {ℓ κ} :
    {A : Type ℓ} {B : Type κ} (m : Action A) (f : A → Action B) (db : Db) (e : Error)
    → (m db).0 ≡ err e
    → (m >>= f) db ≡ (err e, (m db).1)
unfolding ◌>>=◌
bind_err m f db e h = rw (◌>>=◌, h) refl

module _ {ℓ κ} {B : Type ℓ} {post : B → Db → Type κ} where
  -- What the first action ensures, the second may use.
  pub bind-Ensures_after {ι μ} :
      {A : Type ι} {mid : A → Db → Type μ} (m : Action A) (f : A → Action B)
      → Ensures mid m
      → ((a : A) (db : Db) → mid a db → (b : B) → (f a db).0 ≡ ok b → post b (f a db).1)
      → Ensures post (m >>= f)
  bind-Ensures_after m f first next = record {
    so = λ db b. elim (Result-cases (m db).0) [
      | inl (a, e) ↦
          subst (λ r. r.0 ≡ ok b → post b r.1) (sym (bind_ok m f db a e))
            (next a (m db).1 (first.so db a e) b)
      | inr (x, e) ↦
          subst (λ r. r.0 ≡ ok b → post b r.1) (sym (bind_err m f db x e))
            (λ h. absurd (err≢ok x b h))
    ];
  }

  pub bind-Ensures {ι} :
      {A : Type ι} (m : Action A) (f : A → Action B)
      → ((a : A) → Ensures post (f a))
      → Ensures post (m >>= f)
  bind-Ensures m f next =
      bind-Ensures_after {mid = λ a db. Unit {0}} m f (record { so = λ db a h. tt {0} })
        (λ a db u b h. (next a).so db b h)

  pub then-Ensures : (m : Action (Unit {0})) (k : Action B) → Ensures post k → Ensures post (m >> k)
  unfolding ◌>>◌
  then-Ensures m k next = bind-Ensures m (λ _. k) (λ _. next)

  pub pure-Ensures : (b : B) → ((db : Db) → post b db) → Ensures post (pure b)
  pure-Ensures b p = record { so = λ db a h. subst (λ c. post c db) (ok_inj b a h) (p db) }

  pub bind_pure-Ensures {ι μ} :
      {A : Type ι} {mid : A → Db → Type μ} (m : Action A) (g : A → B)
      → Ensures mid m
      → ((a : A) (db : Db) → mid a db → post (g a) db)
      → Ensures post (m >>= λ a. pure (g a))
  bind_pure-Ensures m g first next =
      bind-Ensures_after m (λ a. pure (g a)) first
        (λ a db p b h. subst (λ x. post x db) (ok_inj (g a) b h) (next a db p))

  pub throw-Ensures : (e : Error) → Ensures post (throw e)
  throw-Ensures e = record { so = λ db b h. absurd (err≢ok e b h) }

  pub if-Ensures :
      (b : Bool) (m k : Action B)
      → Ensures post m
      → Ensures post k
      → Ensures post (if b then m else k)
  if-Ensures true m k hm hk = hm
  if-Ensures false m k hm hk = hk

  pub attempt-Ensures : (m : Action B) → Ensures post m → Ensures post (attempt m)
  attempt-Ensures m k = record {
    so = λ db b. elim (Result-cases (m db).0) [
      | inl (a, e) ↦
          subst (λ r. r.0 ≡ ok b → post b r.1) (sym (attempt_ok m db a e)) (λ h. k.so db b (e ∙ h))
      | inr (e, n) ↦
          subst (λ r. r.0 ≡ ok b → post b r.1) (sym (attempt_err m db e n))
            (λ h. absurd (err≢ok e b h))
    ];
  }

  pub begin_tenant_transaction-Ensures :
      (aborted : ℕ → Bool) (left : ℕ) (m : Action B)
      → Ensures post m
      → Ensures post (begin_tenant_transaction aborted left m)
  unfolding begin_tenant_transaction
  begin_tenant_transaction-Ensures aborted zero m k = throw-Ensures _
  begin_tenant_transaction-Ensures aborted (suc left) m k = record {
    so = λ db b. elim (Bool-cases (aborted left)) [
      | inl e ↦
          rw (begin_tenant_transaction, e)
            ((begin_tenant_transaction-Ensures aborted left m k).so db b)
      | inr e ↦ rw (begin_tenant_transaction, e) ((attempt-Ensures m k).so db b)
    ];
  }

pub ruleset ensuring = (bind-Ensures, then-Ensures, throw-Ensures, if-Ensures, pure-Ensures)
