-- ===== src/Prelude/Rows.antt =====
-- Tables as lists of rows: `findFirst` with a `where` is `find_by`, `update … set … where` is
-- `update_where`. The lemmas say what a reader sees after an update.
use mathlib.Core.Path.{◌≡◌, refl}
use mathlib.Core.List.{List, [], ◌∷◌}
use mathlib.Core.Bool.{Bool, true, false}
use mathlib.Core.Option
use mathlib.Core.Option.{Option, none, some}
use native.Mathlib.Omega.{arith}
use cerniq_app_v.Prelude.Tests.{if◌then◌else◌}
use cerniq_app_v.Prelude.Lists.{find_by, length}

module _ {ℓ} {A : Type ℓ} where
  unfoldable pub update_where : (A → Bool) → (A → A) → List A → List A
  update_where p f [] = []
  update_where p f (x ∷ xs) = (if p x then f x else x) ∷ update_where p f xs

  -- An update by a change that keeps the row's key: the row that is read is the changed one.
  pub find_by-update_where :
      (p : A → Bool) (f : A → A) (xs : List A)
      → ((a : A) → p (f a) ≡ p a)
      → find_by p (update_where p f xs) ≡ Option.map f (find_by p xs)
  unfolding update_where
  find_by-update_where p f [] keep = refl
  find_by-update_where p f (x ∷ xs) keep = ground (arith, keep x, find_by-update_where p f xs keep)

  -- A row that the update does not select is read as before.
  pub find_by-update_other :
      (p q : A → Bool) (f : A → A) (xs : List A)
      → ((a : A) → q (f a) ≡ q a)
      → ((a : A) → p a ≡ true → q a ≡ false)
      → find_by q (update_where p f xs) ≡ find_by q xs
  unfolding update_where
  find_by-update_other p q f [] keep apart = refl
  find_by-update_other p q f (x ∷ xs) keep apart =
      ground (arith, keep x, apart x, find_by-update_other p q f xs keep apart)

  pub length-update_where :
      (p : A → Bool) (f : A → A) (xs : List A) → length (update_where p f xs) ≡ length xs
  unfolding update_where
  length-update_where p f [] = refl
  length-update_where p f (x ∷ xs) = ground (arith, length-update_where p f xs)

  -- What is found passes the test.
  pub find_by-true : (p : A → Bool) (xs : List A) (a : A) → find_by p xs ≡ some a → p a ≡ true
  find_by-true p [] a h = ground arith
  find_by-true p (x ∷ xs) a h = ground (arith, find_by-true p xs a)

-- `findFirst` with an order: the first row that passes, unless a later one is strictly before it.
unfoldable pub find_first {ℓ} : {A : Type ℓ} → (A → Bool) → (A → A → Bool) → List A → Option A
find_first p before [] = none
find_first p before (x ∷ xs) =
    let rest = find_first p before xs in
    if p x
    then (elim rest [ none ↦ some x | some y ↦ if before y x then some y else some x ])
    else rest
