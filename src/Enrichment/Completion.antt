-- ===== src/Enrichment/Completion.antt =====
-- workers/enrichment/src/lib/enrichment-completion.ts: the sources of a company that are complete.
-- The store is the row that tenant and id select, if there is one, with the jobs `post-enrichment`
-- that were queued for it. Calls run one after the other.
pub mod Once
use cerniq_app_v.Prelude.{
  ℕ, ◌+◌, List, [], ◌∷◌, ◌++◌, Bool, true, false, Option, none, some, String, includes, every,
  if◌then◌else◌,
}

-- `REQUIRED_ENRICHMENT_SOURCES`
abbrev pub required_enrichment_sources : List String
required_enrichment_sources =
    "anaf_fiscal" ∷ "anaf_tva" ∷ "anaf_efactura" ∷ "anaf_datorii" ∷ "anaf_caen" ∷ "termene_balance"
    ∷ "termene_risk" ∷ "termene_dosare" ∷ "termene_actionari" ∷ "onrc_data" ∷ "onrc_administratori"
    ∷ "onrc_sedii" ∷ []

pub record SilverCompany : Type 0 where
  -- none for null
  pub enrichment_sources_completed : Option (List String)
  pub last_enriched_at : Option ℕ

pub record Store : Type 0 where
  pub company : Option SilverCompany
  pub post_enrichment_jobs : ℕ

pub record Completion : Type 0 where
  pub all_complete : Bool
  pub completed_sources : List String

-- The sources of a row, [] where there is no row or no list.
abbrev pub sources_of : Option SilverCompany → List String
sources_of none = []
sources_of (some c) = elim c.enrichment_sources_completed [ none ↦ [] | some s ↦ s ]

unfoldable pub is_all_complete : List String → Bool
is_all_complete sources = every (λ item. includes item sources) required_enrichment_sources

-- The update of the row: the source is added unless it is there.
abbrev pub updated_company : ℕ → String → Option SilverCompany → Option SilverCompany
updated_company now source none = none
updated_company now source (some c) = some (record c {
  enrichment_sources_completed = some (
      if includes source (sources_of (some c))
      then sources_of (some c)
      else sources_of (some c) ++ (source ∷ []));
  last_enriched_at = some now;
})

-- `markEnrichmentSourceComplete`
unfoldable pub mark_enrichment_source_complete : ℕ → String → Store → Store × Completion
unfolding is_all_complete
mark_enrichment_source_complete now source store =
    let existing_sources = sources_of store.company in
    let updated = updated_company now source store.company in
    let completed_sources = sources_of updated in
    if includes source existing_sources
    then (
      store,
      record {
        all_complete = is_all_complete existing_sources;
        completed_sources = existing_sources;
      },
    )
    else (
      record {
        company = updated;
        post_enrichment_jobs =
            if is_all_complete completed_sources
            then store.post_enrichment_jobs + 1
            else store.post_enrichment_jobs;
      },
      record {
        all_complete = is_all_complete completed_sources;
        completed_sources = completed_sources;
      },
    )
