-- ===== src/Outreach/LeadFsm.antt =====
-- workers/outreach/src/workers/lead-fsm.ts: the state machine of a lead's journey.
-- A state is a text, as in the source, where a job may carry any text as its new state. An id is a
-- number. `VALID_TRANSITIONS[s]` gives for the names that every object inherits a value that is no
-- array, whose `includes` throws.
pub mod Graph
pub mod Worker
pub mod Runs
use cerniq_app_v.Prelude.{
  ℕ, List, [], ◌∷◌, ◌++◌, Bool, true, false, ◌&&◌, Option, none, some, String, ◌==◌, str_eq,
  includes, if◌then◌else◌, find_by,
}
use cerniq_app_v.Prelude.Rows.{update_where}

-- `VALID_TRANSITIONS`
abbrev pub valid_transitions : List (String × List String)
valid_transitions =
    ("COLD", "CONTACTED_WA" ∷ "CONTACTED_EMAIL" ∷ "DEAD" ∷ [])
    ∷ ("CONTACTED_WA", "WARM_REPLY" ∷ "CONTACTED_EMAIL" ∷ "DEAD" ∷ [])
    ∷ ("CONTACTED_EMAIL", "WARM_REPLY" ∷ "CONTACTED_WA" ∷ "DEAD" ∷ [])
    ∷ ("WARM_REPLY", "NEGOTIATION" ∷ "DEAD" ∷ "PAUSED" ∷ [])
    ∷ ("NEGOTIATION", "CONVERTED" ∷ "DEAD" ∷ "PAUSED" ∷ "WARM_REPLY" ∷ [])
    ∷ ("CONVERTED", [])
    ∷ ("DEAD", "COLD" ∷ [])
    ∷ ("PAUSED", "COLD" ∷ "WARM_REPLY" ∷ "NEGOTIATION" ∷ [])
    ∷ []

-- `VALID_TRANSITIONS[state]`, undefined for a text that is no key.
unfoldable pub next_states : String → List (String × List String) → Option (List String)
next_states s [] = none
next_states s ((key, states) ∷ table) =
    let rest = next_states s table in if str_eq key s then some states else rest

-- The properties of `Object.prototype`, which the table inherits.
abbrev pub inherited_names : List String
inherited_names =
    "constructor" ∷ "hasOwnProperty" ∷ "isPrototypeOf" ∷ "propertyIsEnumerable" ∷ "toLocaleString"
    ∷ "toString" ∷ "valueOf" ∷ "__proto__" ∷ "__defineGetter__" ∷ "__defineSetter__"
    ∷ "__lookupGetter__" ∷ "__lookupSetter__" ∷ []

-- `validateTransition`, none where it throws.
unfoldable pub validate_transition : String → String → Option Bool
unfolding next_states
validate_transition from to = elim (next_states from valid_transitions) [
  | none ↦ if includes from inherited_names then none else some false
  | some valid_next ↦ some (includes to valid_next)
]

pub data TransitionTrigger : Type 0 where
  manual webhook_reply sequence_complete timeout ai_sentiment system : TransitionTrigger

pub record StateTransitionJobData : Type 0 where
  pub tenant_id : ℕ
  pub lead_id : ℕ
  pub journey_id : ℕ
  pub new_state : String
  pub reason : Option String
  pub trigger : TransitionTrigger

pub record StateTransitionResult : Type 0 where
  pub success : Bool
  pub previous_state : String
  pub new_state : String
  pub side_effects : List String
  pub has_error : Bool

pub record LeadJourney : Type 0 where
  pub id : ℕ
  pub tenant_id : ℕ
  pub current_state : String
  pub previous_state : Option String
  pub state_changed_at : Option ℕ
  pub state_change_reason : Option String
  pub converted_at : Option ℕ
  pub updated_at : ℕ

-- The journeys, and the jobs put on the queue that stops sequences: the journey of each.
pub record Store : Type 0 where
  pub journeys : List LeadJourney
  pub sequence_stops : List ℕ

-- The name of a trigger in "Triggered by …".
abbrev pub trigger_text : TransitionTrigger → String
trigger_text manual = "Triggered by MANUAL"
trigger_text webhook_reply = "Triggered by WEBHOOK_REPLY"
trigger_text sequence_complete = "Triggered by SEQUENCE_COMPLETE"
trigger_text timeout = "Triggered by TIMEOUT"
trigger_text ai_sentiment = "Triggered by AI_SENTIMENT"
trigger_text system = "Triggered by SYSTEM"

abbrev pub reason_of : StateTransitionJobData → String
reason_of job = elim job.reason [ none ↦ trigger_text job.trigger | some r ↦ r ]

-- What the transition sets on the row.
unfoldable pub moved : ℕ → StateTransitionJobData → String → LeadJourney → LeadJourney
moved now job current j = record j {
  current_state = job.new_state;
  previous_state = some current;
  state_changed_at = some now;
  state_change_reason = some (reason_of job);
  converted_at = if str_eq job.new_state "CONVERTED" then some now else j.converted_at;
  updated_at = now;
}

unfoldable pub side_effects_of : String → List String
side_effects_of s =
    (if str_eq s "WARM_REPLY" then "STOPPED_SEQUENCE" ∷ [] else [])
    ++ ((if str_eq s "CONVERTED" then "CONVERSION_NOTIFICATION" ∷ [] else [])
        ++ (if str_eq s "DEAD" then "LOGGED_DEAD" ∷ [] else []))

-- The store after the update of an admitted job, and the job queued by it.
unfoldable pub transitioned : ℕ → StateTransitionJobData → LeadJourney → Store → Store
unfolding update_where
transitioned now job journey store = record store {
  journeys =
      update_where (λ j. j.id == job.journey_id) (moved now job journey.current_state)
        store.journeys;
  sequence_stops =
      if str_eq job.new_state "WARM_REPLY"
      then job.journey_id ∷ store.sequence_stops
      else store.sequence_stops;
}

abbrev pub accepted : StateTransitionJobData → LeadJourney → StateTransitionResult
accepted job journey = record {
  success = true;
  previous_state = journey.current_state;
  new_state = job.new_state;
  side_effects = side_effects_of job.new_state;
  has_error = false;
}

abbrev pub refused : StateTransitionJobData → LeadJourney → StateTransitionResult
refused job journey = record {
  success = false;
  previous_state = journey.current_state;
  new_state = job.new_state;
  side_effects = [];
  has_error = true;
}

-- The processor of `lead:state:transition`: none if it throws, as it does if the journey is not
-- found.
unfoldable pub process_transition :
    ℕ → StateTransitionJobData → Store → Option (Store × StateTransitionResult)
unfolding validate_transition
process_transition now job store =
    elim (find_by (λ j. j.id == job.journey_id && j.tenant_id == job.tenant_id) store.journeys) [
      | none ↦ none
      | some journey ↦ elim (validate_transition journey.current_state job.new_state) [
        | none ↦ none
        | some valid ↦
            if valid
            then some (transitioned now job journey store, accepted job journey)
            else some (store, refused job journey)
      ]
    ]

pub record StateValidateResult : Type 0 where
  pub valid : Bool
  pub from_state : String
  pub to_state : String
  pub valid_transitions : List String
  pub has_error : Bool

-- The processor of `lead:state:validate`, none if it throws.
unfoldable pub process_validate : String → String → Option StateValidateResult
unfolding validate_transition next_states
process_validate from to = elim (validate_transition from to) [
  | none ↦ none
  | some valid ↦ some (record {
    valid = valid;
    from_state = from;
    to_state = to;
    valid_transitions = elim (next_states from valid_transitions) [ none ↦ [] | some s ↦ s ];
    has_error = if valid then false else true;
  })
]
