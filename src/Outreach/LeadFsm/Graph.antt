-- ===== src/Outreach/LeadFsm/Graph.antt =====
-- The diagram of the table VALID_TRANSITIONS as a relation. The text of ADR-0062 has fewer moves: none
-- to or from PAUSED, none from COLD or back from DEAD, none between the CONTACTED states, and none
-- from NEGOTIATION back to WARM_REPLY. The theorems are about the table.
use cerniq_app_v.Prelude.{
  ◌≡◌, refl, ◌≢◌, ◌↔◌, ◌⊎◌, inl, inr, map, Bool-cases, Option-cases, List, [], ◌∷◌, true, false,
  none, some, if◌then◌else◌, String, str_eq, includes, arith, eq_iff,
}
use cerniq_app_v.Outreach.LeadFsm.{
  valid_transitions, inherited_names, next_states, validate_transition,
}

pub data State : Type 0 where
  cold contacted_wa contacted_email warm_reply negotiation converted dead paused : State

abbrev pub text : State → String
text cold = "COLD"
text contacted_wa = "CONTACTED_WA"
text contacted_email = "CONTACTED_EMAIL"
text warm_reply = "WARM_REPLY"
text negotiation = "NEGOTIATION"
text converted = "CONVERTED"
text dead = "DEAD"
text paused = "PAUSED"

infix 40 ◌⟶◌
pub data ◌⟶◌ : State → State → Type 0 where
  open_wa : cold ⟶ contacted_wa
  open_email : cold ⟶ contacted_email
  give_up_cold : cold ⟶ dead
  reply_wa : contacted_wa ⟶ warm_reply
  to_email : contacted_wa ⟶ contacted_email
  give_up_wa : contacted_wa ⟶ dead
  reply_email : contacted_email ⟶ warm_reply
  to_wa : contacted_email ⟶ contacted_wa
  give_up_email : contacted_email ⟶ dead
  negotiate : warm_reply ⟶ negotiation
  lose_warm : warm_reply ⟶ dead
  pause_warm : warm_reply ⟶ paused
  convert : negotiation ⟶ converted
  lose : negotiation ⟶ dead
  pause : negotiation ⟶ paused
  step_back : negotiation ⟶ warm_reply
  resurrect : dead ⟶ cold
  resume_cold : paused ⟶ cold
  resume_warm : paused ⟶ warm_reply
  resume_negotiation : paused ⟶ negotiation

-- An edge of the diagram is admitted.
pub ⟶-valid : {s t : State} → s ⟶ t → validate_transition (text s) (text t) ≡ some true
unfolding validate_transition
⟶-valid open_wa = refl
⟶-valid open_email = refl
⟶-valid give_up_cold = refl
⟶-valid reply_wa = refl
⟶-valid to_email = refl
⟶-valid give_up_wa = refl
⟶-valid reply_email = refl
⟶-valid to_wa = refl
⟶-valid give_up_email = refl
⟶-valid negotiate = refl
⟶-valid lose_warm = refl
⟶-valid pause_warm = refl
⟶-valid convert = refl
⟶-valid lose = refl
⟶-valid pause = refl
⟶-valid step_back = refl
⟶-valid resurrect = refl
⟶-valid resume_cold = refl
⟶-valid resume_warm = refl
⟶-valid resume_negotiation = refl

-- What a transition that the table admits looks like.
abbrev pub IsEdge : String → String → Type 0
IsEdge from to = (s : State) × (t : State) × (from ≡ text s) × (to ≡ text t) × (s ⟶ t)

-- The edges that leave a state, in the order of the table.
abbrev edges : (s : State) → List ((t : State) × (s ⟶ t))
edges cold = (contacted_wa, open_wa) ∷ (contacted_email, open_email) ∷ (dead, give_up_cold) ∷ []
edges contacted_wa = (warm_reply, reply_wa) ∷ (contacted_email, to_email) ∷ (dead, give_up_wa) ∷ []
edges contacted_email =
    (warm_reply, reply_email) ∷ (contacted_wa, to_wa) ∷ (dead, give_up_email) ∷ []
edges warm_reply = (negotiation, negotiate) ∷ (dead, lose_warm) ∷ (paused, pause_warm) ∷ []
edges negotiation =
    (converted, convert) ∷ (dead, lose) ∷ (paused, pause) ∷ (warm_reply, step_back) ∷ []
edges converted = []
edges dead = (cold, resurrect) ∷ []
edges paused =
    (cold, resume_cold) ∷ (warm_reply, resume_warm) ∷ (negotiation, resume_negotiation) ∷ []

abbrev targets : State → List String
targets s = map (λ e. text e.0) (edges s)

includes-cons :
    (s t : String) (ts : List String)
    → includes s (t ∷ ts) ≡ true
    → (s ≡ t) ⊎ (includes s ts ≡ true)
includes-cons s t ts h = ground (arith, eq_iff t s)

not-includes-nil : (s : String) → includes s [] ≢ true
not-includes-nil s h = cc

-- A text among the targets is the target of one of the edges.
find_edge :
    (s : State) (to : String) (es : List ((t : State) × (s ⟶ t)))
    → includes to (map (λ e. text e.0) es) ≡ true
    → (t : State) × (to ≡ text t) × (s ⟶ t)
find_edge s to [] h = absurd (not-includes-nil to h)
find_edge s to ((t, edge) ∷ es) h = elim (includes-cons to (text t) (map (λ e. text e.0) es) h) [
  | inl e ↦ (t, e, edge)
  | inr later ↦ find_edge s to es later
]

-- The states are the keys of the table.
all_states : List State
all_states =
    cold ∷ contacted_wa ∷ contacted_email ∷ warm_reply ∷ negotiation ∷ converted ∷ dead ∷ paused
    ∷ []

next_states-entry :
    (from : String) (states : List State) (ns : List String)
    → next_states from (map (λ s. (text s, targets s)) states) ≡ some ns
    → (s : State) × (from ≡ text s) × (ns ≡ targets s)
unfolding next_states
next_states-entry from [] ns h = absurd (ground arith)
next_states-entry from (s ∷ states) ns h = elim (Bool-cases (str_eq (text s) from)) [
  | inl e ↦ (s, ground (arith, eq_iff (text s) from), ground arith)
  | inr e ↦ next_states-entry from states ns (ground arith)
]

-- The table, by its states.
table-eq : valid_transitions ≡ map (λ s. (text s, targets s)) all_states
unfolding all_states
table-eq = refl

known : (s : State) → includes (text s) inherited_names ≡ false
known cold = refl
known contacted_wa = refl
known contacted_email = refl
known warm_reply = refl
known negotiation = refl
known converted = refl
known dead = refl
known paused = refl

refused-not :
    (from : String) → (if includes from inherited_names then none else some false) ≢ some true
refused-not from h = ground arith

valid-IsEdge : (from to : String) → validate_transition from to ≡ some true → IsEdge from to
unfolding validate_transition
valid-IsEdge from to h = elim (Option-cases (next_states from valid_transitions)) [
  | inl e ↦ absurd (refused-not from (rw (validate_transition, e) at h))
  | inr (ns, e) ↦
      let (s, is, same) = next_states-entry from all_states ns (rw (← table-eq) e) in
      let (t, to_is, edge) = find_edge s to (edges s) (ground arith) in (s, t, is, to_is, edge)
]

-- Where `validateTransition` answers, the source is the name of a state or no inherited name.
answers :
    (from to : String) → includes from inherited_names ≡ true → validate_transition from to ≡ none
unfolding validate_transition
answers from to h = elim (Option-cases (next_states from valid_transitions)) [
  | inl e ↦ rw (validate_transition, e, h) refl
  | inr (ns, e) ↦
      let (s, is, same) = next_states-entry from all_states ns (rw (← table-eq) e) in
      absurd (ground (arith, known s))
]

-- A source that is no inherited name gets an answer.
pub answered :
    (from to : String)
    → includes from inherited_names ≡ false
    → (validate_transition from to ≡ some true) ⊎ (validate_transition from to ≡ some false)
unfolding validate_transition
answered from to h = elim (Option-cases (next_states from valid_transitions)) [
  | inl e ↦ inr (rw (validate_transition, e, h) refl)
  | inr (ns, e) ↦ elim (Bool-cases (includes to ns)) [
    | inl among ↦ inl (rw (validate_transition, e, among) refl)
    | inr missing ↦ inr (rw (validate_transition, e, missing) refl)
  ]
]

-- `validateTransition` admits exactly the pairs of texts that name an edge of the diagram of its
-- table, and it throws exactly for a source that is the name of a property that every object
-- inherits; every other text, as a source or as a target, is refused.
pub validate_transition_iff :
    (from to : String)
    → ((validate_transition from to ≡ some true) ↔ IsEdge from to)
      × ((validate_transition from to ≡ none) ↔ (includes from inherited_names ≡ true))
validate_transition_iff from to = (
  (valid-IsEdge from to, λ (s, t, is, to_is, edge). rw (is, to_is) (⟶-valid edge)),
  (
    λ h. elim (Bool-cases (includes from inherited_names)) [
      | inl e ↦ e
      | inr e ↦ elim (answered from to e) [
        | inl is ↦ absurd (ground (arith, is, h))
        | inr is ↦ absurd (ground (arith, is, h))
      ]
    ],
    answers from to,
  ),
)
