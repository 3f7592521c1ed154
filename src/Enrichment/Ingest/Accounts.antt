-- ===== src/Enrichment/Ingest/Accounts.antt =====
-- Each row of a batch is counted once, and the resolved rows are handed on.
pub mod OneRow
use cerniq_app_v.Prelude.{
  ◌≡◌, refl, ap, sym, subst, ◌∙◌, ℕ, suc, ◌+◌, List, [], ◌∷◌, ◌++◌, map, Option, none, some, length,
  length-append, length-map, arith, ◌⊎◌, inl, inr, Option-cases,
}
use mathlib.Core.List.{append_assoc, append-nil}
use cerniq_app_v.CompanyIdentity.Model.{Resolution, IdentitySourceAuthority}
use cerniq_app_v.CompanyIdentity.Action.{Result, ok, err}
use cerniq_app_v.CompanyIdentity.Service.{resolve_bronze_contact_identity}
use cerniq_app_v.Enrichment.Ingest.Text.{Message}
use cerniq_app_v.Enrichment.Ingest.Row.{
  Outside, State, BronzeContactInsert, BronzeInsertResult, RowResolution, RowOutcome, returned,
  broke, mark_failed, fail_row, handle_conflict, row_of, resolve_inserted_bronze_row, numbered,
  insert_contacts,
}
use cerniq_app_v.Enrichment.Ingest.Batch.{
  Tally, Looped, tallied, broke_off, inserted, threw, add_row, no_rows, push_some, resolve_rows,
  batch_result, try_batch, merge_bronze_insert_results,
}
use cerniq_app_v.Enrichment.Ingest.Accounts.OneRow.{
  size, IsOne, IsOneOrBroke, resolve_inserted_bronze_row-IsOne,
}

-- Some of the ids of a list, in its order, each at its own place.
pub data Among : List ℕ → List ℕ → Type 0 where
  none_left : Among [] []
  left_out : {id : ℕ} {ids all : List ℕ} → Among ids all → Among ids (id ∷ all)
  kept : {id : ℕ} {ids all : List ℕ} → Among ids all → Among (id ∷ ids) (id ∷ all)

Among-append : {a b c d : List ℕ} → Among a b → Among c d → Among (a ++ c) (b ++ d)
Among-append none_left q = q
Among-append (left_out p) q = left_out (Among-append p q)
Among-append (kept p) q = kept (Among-append p q)

abbrev total : Tally → ℕ
total t =
    t.duplicate_rows
    + t.resolved_rows
    + t.identity_conflict_rows
    + t.insufficient_identifier_rows
    + length t.row_errors

length-push_some {ℓ} :
    {A : Type ℓ} (xs : List A) (o : Option A) → length (push_some xs o) ≡ length xs + size o
length-push_some xs none = omega arith
length-push_some xs (some a) = omega (arith, length-append xs (a ∷ []))

abbrev ids_of : List (ℕ × BronzeContactInsert) → List ℕ
ids_of rows = map (λ r. r.0) rows

-- The loop adds the rows to a tally, with the ids that it hands on.
record IsAdded (rows : List (ℕ × BronzeContactInsert)) (t u : Tally) : Type 0 where
  all_once : total u ≡ total t + length rows
  new_ids : List ℕ
  pushed : u.processable_ids ≡ t.processable_ids ++ new_ids
  among : Among new_ids (ids_of rows)
  as_many : t.resolved_rows + length new_ids ≡ u.resolved_rows

IsAddedOrBroke : List (ℕ × BronzeContactInsert) → Tally → Looped → Type 0
IsAddedOrBroke rows t l =
    ((u : Tally) × (l ≡ tallied u) × IsAdded rows t u) ⊎ ((m : Message) × (l ≡ broke_off m))

IsAdded-next :
    (id : ℕ) (row : BronzeContactInsert) (rows : List (ℕ × BronzeContactInsert)) (t u : Tally)
    (r : RowResolution)
    → IsOne id r
    → IsAdded rows (add_row t r) u
    → IsAdded ((id, row) ∷ rows) t u
IsAdded-next id row rows t u r one rest =
    let errors = length-push_some t.row_errors r.row_error in
    elim one.handed [
      | inl (resolved, is) ↦ record {
        all_once = omega (arith, rest.all_once, errors, one.once);
        new_ids = id ∷ rest.new_ids;
        pushed =
            rest.pushed
            ∙ (ap (λ o. push_some t.processable_ids o ++ rest.new_ids) is
                ∙ append_assoc t.processable_ids (id ∷ []) rest.new_ids);
        among = kept rest.among;
        as_many = omega (arith, rest.as_many, resolved);
      }
      | inr (resolved, is) ↦ record {
        all_once = omega (arith, rest.all_once, errors, one.once);
        new_ids = rest.new_ids;
        pushed = rest.pushed ∙ ap (λ o. push_some t.processable_ids o ++ rest.new_ids) is;
        among = left_out rest.among;
        as_many = omega (arith, rest.as_many, resolved);
      }
    ]

resolve_rows-IsAdded :
    (outside : Outside) (rows : List (ℕ × BronzeContactInsert)) (t : Tally) (s : State)
    → IsAddedOrBroke rows t (resolve_rows outside rows t s).0
unfolding IsAddedOrBroke IsOneOrBroke resolve_rows
resolve_rows-IsAdded outside [] t s = inl (
  t,
  refl,
  record {
    all_once = omega arith;
    new_ids = [];
    pushed = sym (append-nil t.processable_ids);
    among = none_left;
    as_many = omega arith;
  },
)
resolve_rows-IsAdded outside ((id, row) ∷ rows) t s =
    let one = resolve_inserted_bronze_row outside id row s in
    elim (resolve_inserted_bronze_row-IsOne outside id row s) [
      | inr (m, e) ↦ rw (resolve_rows, e) (inr (m, refl))
      | inl (r, e, is) ↦
          rw (resolve_rows, e)
            (elim (resolve_rows-IsAdded outside rows (add_row t r) one.1) [
              | inr (m, n) ↦ inr (m, n)
              | inl (u, n, added) ↦ inl (u, n, IsAdded-next id row rows t u r is added)
            ])
    ]

-- The counts of a result, for so many rows.
pub record Accounts (n : ℕ) (r : BronzeInsertResult) : Type 0 where
  pub all_read : r.rows_read ≡ n
  pub each_once : r.rows_inserted + r.duplicate_rows + r.error_rows ≡ n
  pub inserted_once :
      r.resolved_rows + r.identity_conflict_rows + r.insufficient_identifier_rows ≡ r.rows_inserted
  pub handed_on : Among r.processable_ids r.inserted_ids
  pub handed_all : length r.processable_ids ≡ r.resolved_rows
  pub errors_listed : length r.row_errors ≡ r.error_rows

length-numbered :
    (id : ℕ) (rows : List BronzeContactInsert) → length (numbered id rows) ≡ length rows
unfolding numbered
length-numbered id [] = refl
length-numbered id (row ∷ rows) = ap suc (length-numbered (suc id) rows)

batch_result-Accounts :
    (payload : List BronzeContactInsert) (id : ℕ) (u : Tally)
    → IsAdded (numbered id payload) no_rows u
    → Accounts (length payload) (batch_result payload (ids_of (numbered id payload)) u)
batch_result-Accounts payload id u added =
    let n = length-numbered id payload in
    let m = length-map (λ (r : ℕ × BronzeContactInsert). r.0) (numbered id payload) in
    record {
      all_read = refl;
      each_once = omega (arith, added.all_once, n, m);
      inserted_once = omega (arith, added.all_once, n, m);
      handed_on =
          subst (λ ids. Among ids (ids_of (numbered id payload))) (sym added.pushed) added.among;
      handed_all = ap length added.pushed ∙ omega (arith, added.as_many);
      errors_listed = refl;
    }

-- The body of the `try` accounts for its rows, or it throws.
pub try_batch-Accounts :
    (outside : Outside) (payload : List BronzeContactInsert) (s : State)
    → ((r : BronzeInsertResult) × ((try_batch outside payload s).0 ≡ inserted r)
        × Accounts (length payload) r)
      ⊎ ((m : Message) × ((try_batch outside payload s).0 ≡ threw m))
unfolding try_batch IsAddedOrBroke
try_batch-Accounts outside payload s = elim (Option-cases (outside.refuses s.db payload)) [
  | inr (m, n) ↦ inr (m, rw (try_batch, n) refl)
  | inl n ↦
      elim (resolve_rows-IsAdded outside (numbered s.db.next_id payload) no_rows
        (record s { db = insert_contacts outside.now payload s.db })) [
          | inr (m, e) ↦ inr (m, rw (try_batch, n, e) refl)
          | inl (u, e, added) ↦ inl (
            batch_result payload (ids_of (numbered s.db.next_id payload)) u,
            rw (try_batch, n, e) refl,
            batch_result-Accounts payload s.db.next_id u added,
          )
        ]
]

pub merge-Accounts :
    (m n : ℕ) (left right : BronzeInsertResult)
    → Accounts m left
    → Accounts n right
    → Accounts (m + n) (merge_bronze_insert_results left right)
unfolding merge_bronze_insert_results
merge-Accounts m n left right l r = record {
  all_read = omega (arith, l.all_read, r.all_read);
  each_once = omega (arith, l.each_once, r.each_once);
  inserted_once = omega (arith, l.inserted_once, r.inserted_once);
  handed_on = Among-append l.handed_on r.handed_on;
  handed_all =
      omega (
        arith,
        l.handed_all,
        r.handed_all,
        length-append left.processable_ids right.processable_ids,
      );
  errors_listed =
      omega
        (arith, l.errors_listed, r.errors_listed, length-append left.row_errors right.row_errors);
}
