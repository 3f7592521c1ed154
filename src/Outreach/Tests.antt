-- ===== src/Outreach/Tests.antt =====
-- Runs of the outreach workers at concrete inputs.
use cerniq_app_v.Prelude.{ℕ, ◌≡◌, ◌↔◌, includes, refl, List, [], ◌∷◌, true, none, some, String}
use cerniq_app_v.Outreach.LeadFsm
use cerniq_app_v.Outreach.LeadFsm.{
  validate_transition, LeadJourney, StateTransitionJobData, StateTransitionResult, webhook_reply,
  process_transition, inherited_names,
}
use cerniq_app_v.Outreach.LeadFsm.Graph.{IsEdge, validate_transition_iff}
use cerniq_app_v.Outreach.LeadFsm.Worker.{Outcome, process_transition_correct}
use cerniq_app_v.Outreach.LeadFsm.Runs.{AllIn, Reaches, run_jobs, run_jobs-Reaches}

abbrev contacted : LeadJourney
contacted = record {
  id = 3;
  tenant_id = 1;
  current_state = "CONTACTED_WA";
  previous_state = some "COLD";
  state_changed_at = some 10;
  state_change_reason = none;
  converted_at = none;
  updated_at = 10;
}

abbrev won : LeadJourney
won = record contacted { id = 4; current_state = "CONVERTED"; converted_at = some 10 }

abbrev store : LeadFsm.Store
store = record { journeys = contacted ∷ won ∷ []; sequence_stops = [] }

abbrev reply : StateTransitionJobData
reply = record {
  tenant_id = 1;
  lead_id = 30;
  journey_id = 3;
  new_state = "WARM_REPLY";
  reason = none;
  trigger = webhook_reply;
}

abbrev reopen : StateTransitionJobData
reopen = record reply { journey_id = 4 }

validate_transition_iff_example :
    ((validate_transition "PAUSED" "COLD" ≡ some true) ↔ IsEdge "PAUSED" "COLD")
    × ((validate_transition "PAUSED" "COLD" ≡ none) ↔ (includes "PAUSED" inherited_names ≡ true))
validate_transition_iff_example = validate_transition_iff "PAUSED" "COLD"

process_transition_correct_example :
    (after : LeadFsm.Store) × (result : StateTransitionResult) × (process_transition 20 reply store
      ≡ some (after, result))
    × (result.previous_state ≡ "CONTACTED_WA")
    × (result.new_state ≡ reply.new_state)
    × Outcome 20 reply store after result contacted
process_transition_correct_example = process_transition_correct 20 reply store contacted refl refl

abbrev jobs : List (ℕ × StateTransitionJobData)
jobs = (20, reply) ∷ (21, reopen) ∷ []

run_jobs-Reaches_example :
    (to : String) × AllIn 3 to (run_jobs jobs store) × Reaches "CONTACTED_WA" to
run_jobs-Reaches_example = run_jobs-Reaches jobs 3 "CONTACTED_WA" store refl
