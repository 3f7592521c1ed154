-- ===== src/Enrichment/Tests.antt =====
-- The completion of sources at a concrete input.
use cerniq_app_v.Prelude.{ℕ, List, [], ◌∷◌, none, some, String, refl}
use cerniq_app_v.Enrichment.Completion.{Store, is_all_complete}
use cerniq_app_v.Enrichment.Completion.Once.{run_marks, IsStartedOnce, run_marks-IsStartedOnce}

abbrev fresh : Store
fresh = record {
  company = some (record { enrichment_sources_completed = none; last_enriched_at = none });
  post_enrichment_jobs = 0;
}

abbrev marks : List (ℕ × String)
marks = (1, "anaf_tva") ∷ (2, "anaf_tva") ∷ (3, "onrc_data") ∷ []

fresh-IsStartedOnce : IsStartedOnce fresh
unfolding is_all_complete
fresh-IsStartedOnce = refl

run_marks-IsStartedOnce_example : IsStartedOnce (run_marks marks fresh)
run_marks-IsStartedOnce_example = run_marks-IsStartedOnce marks fresh refl fresh-IsStartedOnce
