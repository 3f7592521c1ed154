-- ===== src/CompanyIdentity/Copies/Oldest.antt =====
-- The oldest row among those that pass a test, for `findFirst` with an order by `createdAt`.
use mathlib.Core.Option.{some-injective}
use cerniq_app_v.Prelude.{
  ◌≡◌, ◌≢◌, refl, ltb, sym, ap, subst, ◌∙◌, inl, inr, Bool-cases, Option-cases, eq_iff, ℕ, List, [],
  ◌∷◌, Bool, true, false, not, ◌&&◌, none, some, str_eq, ◌==◌, find_by, arith, String, every, leb,
  ◌||◌, ◌++◌,
}
use cerniq_app_v.Prelude.Rows.{find_first}
use cerniq_app_v.CompanyIdentity.Model.{BronzeContact}

pub none≢some : (z : BronzeContact) → none ≢ some z
none≢some z h = ground arith

-- If a row passes, one is found, in whatever order.
pub find_first-some :
    (p q : BronzeContact → Bool) (before : BronzeContact → BronzeContact → Bool)
    (xs : List BronzeContact) (y : BronzeContact)
    → find_by q xs ≡ some y
    → p y ≡ true
    → (z : BronzeContact) × (find_first p before xs ≡ some z)
unfolding find_first
find_first-some p q before [] y h passes = absurd (ground arith)
find_first-some p q before (x ∷ xs) y h passes = elim (Option-cases (find_first p before xs)) [
  | inl n ↦ elim (Bool-cases (p x)) [
    | inl e ↦ (x, rw (find_first, n, e) refl)
    | inr e ↦ elim (Bool-cases (q x)) [
      | inl f ↦ absurd (ground (arith, e, f))
      | inr f ↦
          absurd
            (none≢some _ (sym n ∙ (find_first-some p q before xs y (ground (arith, f)) passes).1))
    ]
  ]
  | inr (z, n) ↦ elim (Bool-cases (p x)) [
    | inl e ↦ elim (Bool-cases (before z x)) [
      | inl b ↦ (z, rw (find_first, n, e, b) refl)
      | inr b ↦ (x, rw (find_first, n, e, b) refl)
    ]
    | inr e ↦ (z, rw (find_first, n, e) refl)
  ]
]

abbrev pub IsAmong : BronzeContact → List BronzeContact → Type 0
IsAmong z xs =
    (before : List BronzeContact) × (after : List BronzeContact) × (xs ≡ before ++ z ∷ after)

-- The test of `findSourceDuplicate`.
abbrev pub is_copy : ℕ → ℕ → String → BronzeContact → Bool
is_copy tenant id hash r =
    r.tenant_id == tenant && str_eq r.source_payload_hash hash && not (r.id == id)

abbrev pub older : BronzeContact → BronzeContact → Bool
older r t = ltb r.created_at t.created_at

-- A row among the contacts that is one of the tenant's, is not the contact itself, has its payload,
-- and is not younger than any other such row.
abbrev pub IsOldest : ℕ → ℕ → String → List BronzeContact → BronzeContact → Type 0
IsOldest tenant id hash bronze z =
    IsAmong z bronze
    × (z.tenant_id ≡ tenant)
    × (z.id ≢ id)
    × (z.source_payload_hash ≡ hash)
    × (every (λ r. not (is_copy tenant id hash r) || leb z.created_at r.created_at) bronze ≡ true)

none_passes :
    (p : BronzeContact → Bool) (xs : List BronzeContact) (x : BronzeContact)
    → find_first p older xs ≡ none
    → every (λ r. not (p r) || not (older r x)) xs ≡ true
unfolding find_first
none_passes p [] x h = refl
none_passes p (y ∷ xs) x h = elim (Bool-cases (p y)) [
  | inl e ↦ elim (Option-cases (find_first p older xs)) [
    | inl n ↦ absurd (ground (arith, e, n))
    | inr (w, n) ↦ absurd (ground (arith, e, n))
  ]
  | inr e ↦ ground (arith, e, none_passes p xs x)
]

none_older :
    (p : BronzeContact → Bool) (xs : List BronzeContact) (x y : BronzeContact)
    → older y x ≡ false
    → every (λ r. not (p r) || not (older r y)) xs ≡ true
    → every (λ r. not (p r) || not (older r x)) xs ≡ true
none_older p [] x y o h = refl
none_older p (r ∷ xs) x y o h = ground (arith, none_older p xs x y)

not_younger :
    (p : BronzeContact → Bool) (xs : List BronzeContact) (z : BronzeContact)
    → every (λ r. not (p r) || not (older r z)) xs ≡ true
    → every (λ r. not (p r) || leb z.created_at r.created_at) xs ≡ true
not_younger p [] z h = refl
not_younger p (r ∷ xs) z h = ground (arith, not_younger p xs z)

-- What is found passes, stands among the rows, and none that passes is older.
find_first-oldest :
    (p : BronzeContact → Bool) (xs : List BronzeContact) (z : BronzeContact)
    → find_first p older xs ≡ some z
    → (p z ≡ true) × IsAmong z xs × (every (λ r. not (p r) || not (older r z)) xs ≡ true)
unfolding find_first
find_first-oldest p [] z h = absurd (ground arith)
find_first-oldest p (x ∷ xs) z h = elim (Bool-cases (p x)) [
  | inr e ↦
      let (passes, (before, after, is), first) = find_first-oldest p xs z (ground (arith, e)) in
      (passes, (x ∷ before, after, ap (λ r. x ∷ r) is), ground (arith, e, first))
  | inl e ↦ elim (Option-cases (find_first p older xs)) [
    | inl n ↦
        let same : x ≡ z = some-injective x z (ground (arith, e, n)) in
        subst
          (λ w.
            (p w ≡ true)
            × IsAmong w (x ∷ xs)
            × (every (λ r. not (p r) || not (older r w)) (x ∷ xs) ≡ true))
          same (e, ([], xs, refl), ground (arith, none_passes p xs x n))
    | inr (y, n) ↦
        let (passes, (before, after, is), first) = find_first-oldest p xs y n in
        elim (Bool-cases (older y x)) [
          | inl o ↦
              let same : y ≡ z = some-injective y z (ground (arith, e, n, o)) in
              subst
                (λ w.
                  (p w ≡ true)
                  × IsAmong w (x ∷ xs)
                  × (every (λ r. not (p r) || not (older r w)) (x ∷ xs) ≡ true))
                same (passes, (x ∷ before, after, ap (λ r. x ∷ r) is), ground (arith, o, first))
          | inr o ↦
              let same : x ≡ z = some-injective x z (ground (arith, e, n, o)) in
              subst
                (λ w.
                  (p w ≡ true)
                  × IsAmong w (x ∷ xs)
                  × (every (λ r. not (p r) || not (older r w)) (x ∷ xs) ≡ true))
                same (e, ([], xs, refl), ground (arith, none_older p xs x y o first))
        ]
  ]
]

pub is_oldest :
    (tenant id : ℕ) (hash : String) (bronze : List BronzeContact) (z : BronzeContact)
    → find_first (is_copy tenant id hash) older bronze ≡ some z
    → IsOldest tenant id hash bronze z
is_oldest tenant id hash bronze z h =
    let (passes, among, first) = find_first-oldest (is_copy tenant id hash) bronze z h in
    (
      among,
      ground (arith, passes),
      λ same. absurd (ground (arith, passes, same)),
      ground (arith, passes, eq_iff z.source_payload_hash hash),
      not_younger (is_copy tenant id hash) bronze z first,
    )
