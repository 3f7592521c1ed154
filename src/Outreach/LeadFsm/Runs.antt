-- ===== src/Outreach/LeadFsm/Runs.antt =====
-- Any run of transition jobs, those that throw included: a journey only moves along the diagram.
use cerniq_app_v.Prelude.{
  ℕ, List, [], ◌∷◌, Bool, Option, true, false, none, some, String, ◌==◌, str_eq, if◌then◌else◌,
  find_by, every, ◌≡◌, refl, ◌⊎◌, inl, inr, Bool-cases, Option-cases, arith, eq_iff, sym, ◌∙◌, ◌≢◌,
  subst, ap,
}
use cerniq_app_v.Prelude.Rows.{update_where}
use cerniq_app_v.Outreach.LeadFsm.{
  validate_transition, LeadJourney, StateTransitionJobData, StateTransitionResult, Store, moved,
  transitioned, process_transition,
}
use cerniq_app_v.Outreach.LeadFsm.Graph.{State, text, ◌⟶◌, IsEdge, ⟶-valid, validate_transition_iff}
use cerniq_app_v.Outreach.LeadFsm.Worker.{
  is_journey, has_id, performs, throws_missing, throws_inherited,
}

-- The store after a job; a job that throws leaves it as it is.
abbrev pub perform_job : ℕ → StateTransitionJobData → Store → Store
perform_job now job store = elim (process_transition now job store) [
  | none ↦ store
  | some done ↦ done.0
]

-- Jobs with the times at which they are processed.
unfoldable pub run_jobs : List (ℕ × StateTransitionJobData) → Store → Store
run_jobs [] store = store
run_jobs ((now, job) ∷ jobs) store = run_jobs jobs (perform_job now job store)

-- The states that are reached from a state along the diagram.
pub data Reaches : String → String → Type 0 where
  stay : {from : String} → Reaches from from
  then_edge : {from mid to : String} → IsEdge from mid → Reaches mid to → Reaches from to

-- Every journey of the store with the id is in the state.
abbrev pub AllIn : ℕ → String → Store → Type 0
AllIn k state store =
    every (λ j. if j.id == k then str_eq j.current_state state else true) store.journeys ≡ true

found-state :
    (k : ℕ) (state : String) (js : List LeadJourney) (job : StateTransitionJobData)
    (j : LeadJourney)
    → every (λ i. if i.id == k then str_eq i.current_state state else true) js ≡ true
    → find_by (is_journey job) js ≡ some j
    → job.journey_id ≡ k
    → j.current_state ≡ state
found-state k state [] job j all found same = absurd (ground arith)
found-state k state (i ∷ js) job j all found same =
    ground (arith, eq_iff i.current_state state, found-state k state js job j)

moved-AllIn :
    (k now : ℕ) (state current : String) (job : StateTransitionJobData) (js : List LeadJourney)
    → every (λ i. if i.id == k then str_eq i.current_state state else true) js ≡ true
    → (job.journey_id ≡ k → job.new_state ≡ state)
    → every
        (λ i. if i.id == k then str_eq i.current_state state else true)
        (update_where (has_id job.journey_id) (moved now job current) js)
      ≡ true
unfolding update_where moved
moved-AllIn k now state current job [] all new = refl
moved-AllIn k now state current job (i ∷ js) all new =
    ground (arith, eq_iff job.new_state state, moved-AllIn k now state current job js)

-- The rows with the job's id are all moved.
moved-all :
    (k now : ℕ) (current : String) (job : StateTransitionJobData) (js : List LeadJourney)
    → job.journey_id ≡ k
    → every
        (λ i. if i.id == k then str_eq i.current_state job.new_state else true)
        (update_where (has_id job.journey_id) (moved now job current) js)
      ≡ true
unfolding update_where moved
moved-all k now current job [] same = refl
moved-all k now current job (i ∷ js) same =
    ground (arith, eq_iff job.new_state job.new_state, moved-all k now current job js)

verdict-cases : (o : Option Bool) → (o ≡ some true) ⊎ ((o ≡ some false) ⊎ (o ≡ none))
verdict-cases none = inr (inr refl)
verdict-cases (some true) = inl refl
verdict-cases (some false) = inr (inl refl)

is_valid-cases : (o : Option Bool) → (o ≡ some true) ⊎ (o ≢ some true)
is_valid-cases none = inr (λ h. ground arith)
is_valid-cases (some true) = inl refl
is_valid-cases (some false) = inr (λ h. ground arith)

abbrev after_job : Store → Option (Store × StateTransitionResult) → Store
after_job store done = elim done [ none ↦ store | some r ↦ r.0 ]

performed :
    (now : ℕ) (job : StateTransitionJobData) (store : Store) (j : LeadJourney)
    → find_by (is_journey job) store.journeys ≡ some j
    → validate_transition j.current_state job.new_state ≡ some true
    → (perform_job now job store).journeys
      ≡ update_where (has_id job.journey_id) (moved now job j.current_state) store.journeys
unfolding transitioned
performed now job store j found valid =
    ap (λ done. (after_job store done).journeys) (performs now job store j true found valid)

not_performed :
    (now : ℕ) (job : StateTransitionJobData) (store : Store) (j : LeadJourney)
    → find_by (is_journey job) store.journeys ≡ some j
    → validate_transition j.current_state job.new_state ≢ some true
    → perform_job now job store ≡ store
not_performed now job store j found invalid =
    elim (verdict-cases (validate_transition j.current_state job.new_state)) [
      | inl valid ↦ absurd (invalid valid)
      | inr (inl refused) ↦ ap (after_job store) (performs now job store j false found refused)
      | inr (inr throws) ↦ ap (after_job store) (throws_inherited now job store j found throws)
    ]

-- The new state of an admitted job for this journey, else the state as it is.
step_target :
    (k now : ℕ) (from : String) (job : StateTransitionJobData) (store : Store)
    → AllIn k from store
    → (to : String) × AllIn k to (perform_job now job store) × ((from ≡ to) ⊎ IsEdge from to)
step_target k now from job store all =
    elim (Option-cases (find_by (is_journey job) store.journeys)) [
      | inl e ↦ (
        from,
        subst (AllIn k from) (sym (ap (after_job store) (throws_missing now job store e))) all,
        inl refl,
      )
      | inr (j, e) ↦ elim (is_valid-cases (validate_transition j.current_state job.new_state)) [
        | inl valid ↦ elim (Bool-cases (job.journey_id == k)) [
          | inl same ↦
              let is_from = found-state k from store.journeys job j all e (ground arith) in
              (
                job.new_state,
                rw (performed now job store j e valid)
                    (moved-all k now j.current_state job store.journeys (ground arith)),
                inr (
                    subst (λ s. IsEdge s job.new_state) is_from
                      ((validate_transition_iff j.current_state job.new_state).0.0 valid)),
              )
          | inr other ↦ (
            from,
            rw (performed now job store j e valid)
                (moved-AllIn k now from j.current_state job store.journeys all (ground arith)),
            inl refl,
          )
        ]
        | inr invalid ↦ (from, rw (not_performed now job store j e invalid) all, inl refl)
      ]
    ]

after_step :
    {from mid to : String} → ((from ≡ mid) ⊎ IsEdge from mid) → Reaches mid to → Reaches from to
after_step {to = to} (inl same) path = subst (λ s. Reaches s to) (sym same) path
after_step (inr edge) path = then_edge edge path

converted-refused : (to : String) → validate_transition "CONVERTED" to ≡ some false
unfolding validate_transition
converted-refused to = refl

converted-edge : (s t : State) → s ⟶ t → text s ≢ "CONVERTED"
converted-edge s t edge same =
    let valid = subst (λ from. validate_transition from (text t) ≡ some true) same (⟶-valid edge) in
    absurd (ground (arith, converted-refused (text t)))

from_converted : {from to : String} → Reaches from to → from ≡ "CONVERTED" → to ≡ "CONVERTED"
from_converted stay same = same
from_converted (then_edge (s, t, is, to_is, edge) path) same =
    absurd (converted-edge s t edge (sym is ∙ same))

-- Whatever jobs are processed, in whatever order, for whatever journeys and tenants and with
-- whatever texts as new states: a journey that is in a state before them is after them in a state
-- that is reached from it along the edges of the diagram.
pub run_jobs-Reaches :
    (jobs : List (ℕ × StateTransitionJobData)) (k : ℕ) (from : String) (store : Store)
    → AllIn k from store
    → (to : String) × AllIn k to (run_jobs jobs store) × Reaches from to
unfolding run_jobs
run_jobs-Reaches [] k from store all = (from, all, stay)
run_jobs-Reaches ((now, job) ∷ jobs) k from store all =
    let (mid, all_mid, step) = step_target k now from job store all in
    let (to, all_to, rest) = run_jobs-Reaches jobs k mid (perform_job now job store) all_mid in
    (to, all_to, after_step step rest)

-- A journey that is CONVERTED stays CONVERTED, whatever jobs are processed.
converted_final :
    (jobs : List (ℕ × StateTransitionJobData)) (k : ℕ) (store : Store)
    → AllIn k "CONVERTED" store
    → AllIn k "CONVERTED" (run_jobs jobs store)
converted_final jobs k store all =
    let (to, all_to, path) = run_jobs-Reaches jobs k "CONVERTED" store all in
    subst (λ s. AllIn k s (run_jobs jobs store)) (from_converted path refl) all_to
