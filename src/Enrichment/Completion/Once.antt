-- ===== src/Enrichment/Completion/Once.antt =====
-- The next stage of a company is started once.
use cerniq_app_v.Prelude.{
  ℕ, ◌+◌, List, [], ◌∷◌, Bool, true, false, String, includes, every, if◌then◌else◌, ◌≡◌, inl, inr,
  arith, Bool-cases, eq_iff,
}
use cerniq_app_v.Enrichment.Completion.{
  required_enrichment_sources, Store, sources_of, is_all_complete, updated_company,
  mark_enrichment_source_complete,
}

-- Calls, one after the other, with their times.
unfoldable pub run_marks : List (ℕ × String) → Store → Store
run_marks [] store = store
run_marks ((now, source) ∷ marks) store =
    run_marks marks (mark_enrichment_source_complete now source store).0

-- The next stage was started once if every required source is complete, and else not at all.
abbrev pub IsStartedOnce : Store → Type 0
IsStartedOnce store =
    store.post_enrichment_jobs ≡ (if is_all_complete (sources_of store.company) then 1 else 0)

every-includes :
    (source : String) (wanted sources : List String)
    → every (λ item. includes item sources) wanted ≡ true
    → includes source wanted ≡ true
    → includes source sources ≡ true
every-includes source [] sources all is = absurd (ground arith)
every-includes source (w ∷ wanted) sources all is =
    ground (arith, eq_iff w source, every-includes source wanted sources)

complete-includes :
    (source : String) (sources : List String)
    → includes source required_enrichment_sources ≡ true
    → includes source sources ≡ false
    → is_all_complete sources ≡ false
unfolding is_all_complete
complete-includes source sources required missing = elim (Bool-cases (is_all_complete sources)) [
  | inl all ↦
      let there = every-includes source required_enrichment_sources sources all required in
      absurd (ground arith)
  | inr open_still ↦ open_still
]

counted :
    (jobs : ℕ) (before after : Bool)
    → before ≡ false
    → jobs ≡ (if before then 1 else 0)
    → (if after then jobs + 1 else jobs) ≡ (if after then 1 else 0)
counted jobs before after was is = ground arith

step-IsStartedOnce :
    (now : ℕ) (source : String) (store : Store)
    → includes source required_enrichment_sources ≡ true
    → IsStartedOnce store
    → IsStartedOnce (mark_enrichment_source_complete now source store).0
unfolding mark_enrichment_source_complete
step-IsStartedOnce now source store required once =
    elim (Bool-cases (includes source (sources_of store.company))) [
      | inl there ↦ rw there once
      | inr missing ↦ rw missing (
          counted store.post_enrichment_jobs (is_all_complete (sources_of store.company))
            (is_all_complete (sources_of (updated_company now source store.company)))
            (complete-includes source (sources_of store.company) required missing) once)
    ]

every-parts :
    {A : Type 0} (p : A → Bool) (a : A) (rest : List A)
    → every p (a ∷ rest) ≡ true
    → (p a ≡ true) × (every p rest ≡ true)
every-parts p a rest h = (ground arith, ground arith)

-- Whatever required sources are marked as complete, in whatever order and how often: if the next
-- stage of the company was started once where all sources are complete and else not at all, it is
-- so after the calls.
pub run_marks-IsStartedOnce :
    (marks : List (ℕ × String)) (store : Store)
    → every (λ m. includes m.1 required_enrichment_sources) marks ≡ true
    → IsStartedOnce store
    → IsStartedOnce (run_marks marks store)
unfolding run_marks
run_marks-IsStartedOnce [] store required once = once
run_marks-IsStartedOnce ((now, source) ∷ marks) store required once =
    let (first, rest) =
      every-parts (λ m. includes m.1 required_enrichment_sources) (now, source) marks required in
    run_marks-IsStartedOnce marks (mark_enrichment_source_complete now source store).0 rest
      (step-IsStartedOnce now source store first once)
