-- ===== src/Enrichment/Ingest/Ends.antt =====
-- The splits of a batch come to an end, and no row is lost by them.
use cerniq_app_v.Prelude.{
  ◌≡◌, refl, subst, ◌⊎◌, inl, inr, Bool-cases, ℕ, zero, suc, ◌+◌, ◌-◌, ◌≤◌, List, [], ◌∷◌, false,
  length, length-take_le, take, drop, arith,
}
use cerniq_app_v.Enrichment.Ingest.Text.{Message, should_split_insert_batch}
use cerniq_app_v.Enrichment.Ingest.Row.{
  Outside, State, BronzeContactInsert, BronzeInsertResult, Inserted, done, failed, thrown,
}
use cerniq_app_v.Enrichment.Ingest.Batch.{
  merge_bronze_insert_results, single_row_insert_failure, empty_bronze_insert_result, try_batch,
  and_then, mid_of, insert_safely, insert_bronze_payload_safely,
}
use cerniq_app_v.Enrichment.Ingest.Accounts.{
  Accounts, none_left, try_batch-Accounts, merge-Accounts,
}

-- The insertion accounts for the rows, or the database's error is thrown on, which splits no batch.
abbrev pub Settled : ℕ → Inserted → Type 0
Settled n r =
    ((result : BronzeInsertResult) × (r ≡ done result) × Accounts n result)
    ⊎ ((m : Message) × (r ≡ failed (thrown m)) × (should_split_insert_batch m ≡ false))

and_then-Settled :
    (m n : ℕ) (left : Inserted × State) (right : State → Inserted × State)
    → Settled m left.0
    → ((s : State) → Settled n (right s).0)
    → Settled (m + n) (and_then left right).0
unfolding and_then
and_then-Settled m n (l, s) right (inr (x, e, q)) h = rw e (inr (x, refl, q))
and_then-Settled m n (l, s) right (inl (x, e, q)) h = rw e (elim (h s) [
  | inl (y, f, p) ↦
      rw (and_then, f) (inl (merge_bronze_insert_results x y, refl, merge-Accounts m n x y q p))
  | inr (y, f, p) ↦ rw (and_then, f) (inr (y, refl, p))
])

length-drop {ℓ} : {A : Type ℓ} (n : ℕ) (xs : List A) → length (drop n xs) ≡ length xs - n
length-drop zero xs = omega arith
length-drop (suc n) [] = omega arith
length-drop (suc n) (x ∷ xs) = omega (arith, length-drop n xs)

-- Each half of a batch of two rows or more is smaller.
halves :
    (payload : List BronzeContactInsert)
    → 2 ≤ length payload
    → (length (take (mid_of payload) payload) + 1 ≤ length payload)
      × (length (drop (mid_of payload) payload) + 1 ≤ length payload)
      × (length (take (mid_of payload) payload) + length (drop (mid_of payload) payload)
          ≡ length payload)
halves payload h =
    let t = length-take_le (mid_of payload) payload (omega (arith, h)) in
    let d = length-drop (mid_of payload) payload in
    (omega (arith, t, h), omega (arith, d, h), omega (arith, t, d, h))

no_rows-Accounts : Accounts 0 empty_bronze_insert_result
no_rows-Accounts = record {
  all_read = refl;
  each_once = refl;
  inserted_once = refl;
  handed_on = none_left;
  handed_all = refl;
  errors_listed = refl;
}

one_error-Accounts :
    (row : BronzeContactInsert) (m : Message) → Accounts 1 (single_row_insert_failure row m)
unfolding single_row_insert_failure
one_error-Accounts row m = record {
  all_read = refl;
  each_once = refl;
  inserted_once = refl;
  handed_on = none_left;
  handed_all = refl;
  errors_listed = refl;
}

insert_safely-Settled :
    (fuel : ℕ) (outside : Outside) (payload : List BronzeContactInsert) (s : State)
    → length payload ≤ fuel
    → Settled (length payload) (insert_safely fuel outside payload s).0
unfolding insert_safely
insert_safely-Settled fuel outside [] s h = inl (_, refl, no_rows-Accounts)
insert_safely-Settled zero outside (row ∷ rows) s h = absurd (omega (arith, h))
insert_safely-Settled (suc fuel) outside (row ∷ []) s h =
    elim (try_batch-Accounts outside (row ∷ []) s) [
      | inl (r, n, counts) ↦ rw (insert_safely, n) (inl (r, refl, counts))
      | inr (message, n) ↦ elim (Bool-cases (should_split_insert_batch message)) [
        | inr e ↦ rw (insert_safely, n, e) (inr (message, refl, e))
        | inl e ↦ rw (insert_safely, n, e) (inl (_, refl, one_error-Accounts row message))
      ]
    ]
insert_safely-Settled (suc fuel) outside (row ∷ next ∷ rest) s h =
    let payload = row ∷ next ∷ rest in
    let left = (try_batch outside payload s).1 in
    elim (try_batch-Accounts outside payload s) [
      | inl (r, n, counts) ↦ rw (insert_safely, n) (inl (r, refl, counts))
      | inr (message, n) ↦ elim (Bool-cases (should_split_insert_batch message)) [
        | inr e ↦ rw (insert_safely, n, e) (inr (message, refl, e))
        | inl e ↦
            rw (insert_safely, n, e)
              (let smaller = halves payload (omega arith) in
                subst
                  (λ k.
                    Settled k
                      (and_then (insert_safely fuel outside (take (mid_of payload) payload) left)
                        (insert_safely fuel outside (drop (mid_of payload) payload))).0)
                  smaller.2
                  (and_then-Settled _ _ _ _
                    (insert_safely-Settled fuel outside (take (mid_of payload) payload) left
                      (omega (arith, smaller.0, h)))
                    (λ s'.
                      insert_safely-Settled fuel outside (drop (mid_of payload) payload) s'
                        (omega (arith, smaller.1, h)))))
      ]
    ]

-- An insertion ends, and then its result either accounts for the rows of its payload, or it throws an
-- error of the database that does not split a batch. In the result each row is counted once, as
-- inserted, as a duplicate or as an error, and each inserted one once by its resolution; the ids that
-- are handed on are some of the result's inserted ids, in their order and each at its own place, and
-- as many as there are resolved rows.
pub insert_bronze_payload_safely-Settled :
    (outside : Outside) (payload : List BronzeContactInsert) (s : State)
    → Settled (length payload) (insert_bronze_payload_safely outside payload s).0
unfolding insert_bronze_payload_safely
insert_bronze_payload_safely-Settled outside payload s =
    insert_safely-Settled (length payload) outside payload s (omega arith)
