-- ===== src/Outreach/LeadFsm/Worker.antt =====
-- What the processor of `lead:state:transition` does to the store, one job and any run of jobs.
use cerniq_app_v.Prelude.{
  ℕ, List, [], ◌∷◌, Bool, true, false, ◌&&◌, Option, none, some, String, ◌==◌, str_eq, includes,
  if◌then◌else◌, find_by, ◌≡◌, refl, ◌⊎◌, inl, inr, Option-cases, arith,
}
use cerniq_app_v.Prelude.Rows.{update_where}
use cerniq_app_v.Outreach.LeadFsm.{
  validate_transition, inherited_names, LeadJourney, StateTransitionJobData, StateTransitionResult,
  Store, moved, transitioned, accepted, refused, process_transition, side_effects_of, reason_of,
  trigger_text,
}
use cerniq_app_v.Outreach.LeadFsm.Graph.{
  State, cold, contacted_wa, contacted_email, warm_reply, negotiation, converted, dead, paused,
  text, ◌⟶◌, IsEdge, answered, validate_transition_iff,
}

-- The test of `where: and(eq(id, journeyId), eq(tenantId, tenantId))`.
abbrev pub is_journey : StateTransitionJobData → LeadJourney → Bool
is_journey job j = j.id == job.journey_id && j.tenant_id == job.tenant_id

abbrev pub has_id : ℕ → LeadJourney → Bool
has_id k j = j.id == k

-- What a state that is entered does: the result's side effects, the stops queued, the conversion.
abbrev pub effects : State → List String
effects warm_reply = "STOPPED_SEQUENCE" ∷ []
effects converted = "CONVERSION_NOTIFICATION" ∷ []
effects dead = "LOGGED_DEAD" ∷ []
effects _ = []

abbrev pub stops_after : State → ℕ → List ℕ → List ℕ
stops_after warm_reply journey_id stops = journey_id ∷ stops
stops_after _ journey_id stops = stops

abbrev pub converted_after : State → ℕ → Option ℕ → Option ℕ
converted_after converted now old = some now
converted_after _ now old = old

-- The job's reason, or else its trigger.
abbrev pub IsReason : StateTransitionJobData → Option String → Type 0
IsReason job r =
    ((given : String) × (job.reason ≡ some given) × (r ≡ some given))
    ⊎ (job.reason ≡ none) × (r ≡ some (trigger_text job.trigger))

-- The row read back after a move to a state.
abbrev pub Moved : ℕ → StateTransitionJobData → State → LeadJourney → LeadJourney → Type 0
Moved now job t before row =
    (row.id ≡ before.id)
    × (row.tenant_id ≡ before.tenant_id)
    × (row.current_state ≡ text t)
    × (row.previous_state ≡ some before.current_state)
    × (row.state_changed_at ≡ some now)
    × IsReason job row.state_change_reason
    × (row.converted_at ≡ converted_after t now before.converted_at)
    × (row.updated_at ≡ now)

-- What a job that does not throw does, for the journey it reads.
abbrev pub Outcome :
    ℕ → StateTransitionJobData → Store → Store → StateTransitionResult → LeadJourney → Type 0
Outcome now job store after result j =
    ((s : State) × (t : State) × (j.current_state ≡ text s)
      × (job.new_state ≡ text t)
      × (s ⟶ t)
      × (result.success ≡ true)
      × (result.side_effects ≡ effects t)
      × (after.sequence_stops ≡ stops_after t job.journey_id store.sequence_stops)
      × ((row : LeadJourney) × (find_by (is_journey job) after.journeys ≡ some row)
          × Moved now job t j row))
    ⊎ (result.success ≡ false)
      × (result.side_effects ≡ [])
      × (¬ IsEdge j.current_state job.new_state)
      × (after ≡ store)

no-IsEdge : (from to : String) → validate_transition from to ≡ some false → ¬ IsEdge from to
no-IsEdge from to invalid edge =
    let valid = (validate_transition_iff from to).0.1 edge in absurd (ground arith)

-- The code's tests of the new state's text, for each state.
effects_of : (t : State) → side_effects_of (text t) ≡ effects t
unfolding side_effects_of
effects_of cold = refl
effects_of contacted_wa = refl
effects_of contacted_email = refl
effects_of warm_reply = refl
effects_of negotiation = refl
effects_of converted = refl
effects_of dead = refl
effects_of paused = refl

stops_of :
    (t : State) (journey_id : ℕ) (stops : List ℕ)
    → (if str_eq (text t) "WARM_REPLY" then journey_id ∷ stops else stops)
      ≡ stops_after t journey_id stops
stops_of cold journey_id stops = refl
stops_of contacted_wa journey_id stops = refl
stops_of contacted_email journey_id stops = refl
stops_of warm_reply journey_id stops = refl
stops_of negotiation journey_id stops = refl
stops_of converted journey_id stops = refl
stops_of dead journey_id stops = refl
stops_of paused journey_id stops = refl

converted_of :
    (t : State) (now : ℕ) (old : Option ℕ)
    → (if str_eq (text t) "CONVERTED" then some now else old) ≡ converted_after t now old
converted_of cold now old = refl
converted_of contacted_wa now old = refl
converted_of contacted_email now old = refl
converted_of warm_reply now old = refl
converted_of negotiation now old = refl
converted_of converted now old = refl
converted_of dead now old = refl
converted_of paused now old = refl

is_reason : (job : StateTransitionJobData) → IsReason job (some (reason_of job))
is_reason job = elim (Option-cases job.reason) [
  | inl e ↦ inr (e, rw e refl)
  | inr (given, e) ↦ inl (given, e, rw e refl)
]

is_moved :
    (now : ℕ) (job : StateTransitionJobData) (t : State) (j : LeadJourney)
    → job.new_state ≡ text t
    → Moved now job t j (moved now job j.current_state j)
unfolding moved
is_moved now job t j is =
    (refl, refl, is, refl, refl, is_reason job, rw is (converted_of t now j.converted_at), refl)

stops-transitioned :
    (now : ℕ) (job : StateTransitionJobData) (t : State) (j : LeadJourney) (store : Store)
    → job.new_state ≡ text t
    → (transitioned now job j store).sequence_stops
      ≡ stops_after t job.journey_id store.sequence_stops
unfolding transitioned
stops-transitioned now job t j store is = rw is (stops_of t job.journey_id store.sequence_stops)

update_where-read :
    (now : ℕ) (job : StateTransitionJobData) (current : String) (js : List LeadJourney)
    (j : LeadJourney)
    → find_by (is_journey job) js ≡ some j
    → find_by (is_journey job) (update_where (has_id job.journey_id) (moved now job current) js)
      ≡ some (moved now job current j)
unfolding moved update_where
update_where-read now job current [] j found = absurd (ground arith)
update_where-read now job current (i ∷ js) j found =
    ground (arith, update_where-read now job current js j)

-- An update selected by the id is read back by the id and the tenant.
reads-transitioned :
    (now : ℕ) (job : StateTransitionJobData) (store : Store) (j : LeadJourney)
    → find_by (is_journey job) store.journeys ≡ some j
    → find_by (is_journey job) (transitioned now job j store).journeys
      ≡ some (moved now job j.current_state j)
unfolding transitioned
reads-transitioned now job store j found =
    update_where-read now job j.current_state store.journeys j found

-- A job throws for a journey that is not found, and for one whose state has an inherited name.
pub throws_missing :
    (now : ℕ) (job : StateTransitionJobData) (store : Store)
    → find_by (is_journey job) store.journeys ≡ none
    → process_transition now job store ≡ none
unfolding process_transition
throws_missing now job store missing = rw (process_transition, missing) refl

pub throws_inherited :
    (now : ℕ) (job : StateTransitionJobData) (store : Store) (j : LeadJourney)
    → find_by (is_journey job) store.journeys ≡ some j
    → validate_transition j.current_state job.new_state ≡ none
    → process_transition now job store ≡ none
unfolding process_transition
throws_inherited now job store j found throws = rw (process_transition, found, throws) refl

pub performs :
    (now : ℕ) (job : StateTransitionJobData) (store : Store) (j : LeadJourney) (valid : Bool)
    → find_by (is_journey job) store.journeys ≡ some j
    → validate_transition j.current_state job.new_state ≡ some valid
    → process_transition now job store
      ≡ some
          (if valid then (transitioned now job j store, accepted job j) else (store, refused job j))
unfolding process_transition
performs now job store j true found is = rw (process_transition, found, is) refl
performs now job store j false found is = rw (process_transition, found, is) refl

-- A job for a journey that is found, in a state that is no inherited name, ends with a result. On
-- success the states' texts name an edge of the diagram; the journey is then read with its new
-- state, the one it left, the time, the job's reason or else its trigger, and a new time of conversion
-- exactly if it is CONVERTED; the stop of its sequences is queued exactly on WARM_REPLY; and the
-- side effects are those of the state. Otherwise the move is no edge and nothing has changed.
pub process_transition_correct :
    (now : ℕ) (job : StateTransitionJobData) (store : Store) (j : LeadJourney)
    → find_by (is_journey job) store.journeys ≡ some j
    → includes j.current_state inherited_names ≡ false
    → (after : Store) × (result : StateTransitionResult) × (process_transition now job store
        ≡ some (after, result))
      × (result.previous_state ≡ j.current_state)
      × (result.new_state ≡ job.new_state)
      × Outcome now job store after result j
process_transition_correct now job store j found own =
    elim (answered j.current_state job.new_state own) [
      | inl valid ↦
          let (s, t, is, to_is, edge) =
            (validate_transition_iff j.current_state job.new_state).0.0 valid in
          (
            transitioned now job j store,
            accepted job j,
            performs now job store j true found valid,
            refl,
            refl,
            inl (
              s,
              t,
              is,
              to_is,
              edge,
              refl,
              rw to_is (effects_of t),
              stops-transitioned now job t j store to_is,
              (
                moved now job j.current_state j,
                reads-transitioned now job store j found,
                is_moved now job t j to_is,
              ),
            ),
          )
      | inr invalid ↦ (
        store,
        refused job j,
        performs now job store j false found invalid,
        refl,
        refl,
        inr (refl, refl, no-IsEdge j.current_state job.new_state invalid, refl),
      )
    ]
