-- ===== src/Approval/Chain.antt =====
-- The hash chain of the audit log: each entry of a task holds the hash of the entry before it.
use cerniq_app_v.Prelude.{
  ℕ, ◌≡◌, refl, ◌∙◌, ap, sym, List, [], ◌∷◌, map, true, false, none, some, arith, filter_by,
  Bool-cases, inl, inr,
}
use cerniq_app_v.Approval.Audit.{Event, Payload, Entry, is_about, last_hash, log_action}
use cerniq_app_v.Approval.Service.{Db, ok}
use cerniq_app_v.Approval.Operations.{write_task}
use cerniq_app_v.Approval.Steps.{Step, Steps, insert, change, here, next}
use cerniq_app_v.Approval.Guarantees.{Command, IsFresh, perform, perform-Steps}

-- The events of one task, newest first.
unfoldable pub history : {Hash : Type 0} → ℕ → ℕ → List (Entry Hash) → List Event
history tenant task log = map (λ e. e.event) (filter_by (is_about tenant task) log)

module _ {Hash : Type 0} (digest : Payload Hash → Hash) where
  -- Every entry holds the hash of the entry of the same task before it, and its own hash.
  abbrev pub IsChained : List (Entry Hash) → Type 0
  IsChained [] = Unit
  IsChained (e ∷ log) =
      (e.previous_hash ≡ last_hash e.event.tenant_id e.event.approval_task_id log)
      × (e.event_hash ≡ digest (record { event = e.event; previous_hash = e.previous_hash }))
      × IsChained log

  log_action-IsChained :
      (event : Event) (log : List (Entry Hash))
      → IsChained log
      → IsChained (log_action digest event log)
  unfolding log_action
  log_action-IsChained event log c = (refl, refl, c)

  Step-IsChained :
      {n : ℕ} {db db' : Db Hash} → Step digest n db db' → IsChained db.audit → IsChained db'.audit
  unfolding write_task
  Step-IsChained {n} {db} (insert row event own free ht hi hs e) c =
      rw e (log_action-IsChained event db.audit c)
  Step-IsChained {n} {db} (change now current set event own keep cur is hs e) c =
      rw e (log_action-IsChained event db.audit c)

  Steps-IsChained :
      {n : ℕ} {db db' : Db Hash} → Steps digest n db db' → IsChained db.audit → IsChained db'.audit
  Steps-IsChained here c = c
  Steps-IsChained (next r s) c = Step-IsChained s (Steps-IsChained r c)

  -- Every call that returns keeps the chain: if every audit entry holds the hash of the entry before
  -- it of the same task, and its own hash, so it is afterwards. A creation is taken to draw an id that is not in use.
  pub perform-IsChained :
      (now : ℕ) (c : Command) (db db' : Db Hash)
      → IsFresh digest c db
      → perform digest now c db ≡ ok db'
      → IsChained db.audit
      → IsChained db'.audit
  perform-IsChained now c db db' f h = Steps-IsChained (perform-Steps digest now c db db' f h)

  module _ (tenant task : ℕ) where
    last_hash-nil : last_hash {Hash = Hash} tenant task [] ≡ none
    unfolding last_hash
    last_hash-nil = refl

    last_hash-about :
        (e : Entry Hash) (log : List (Entry Hash))
        → is_about tenant task e ≡ true
        → last_hash tenant task (e ∷ log) ≡ some e.event_hash
    unfolding last_hash
    last_hash-about e log h = ground arith

    last_hash-other :
        (e : Entry Hash) (log : List (Entry Hash))
        → is_about tenant task e ≡ false
        → last_hash tenant task (e ∷ log) ≡ last_hash tenant task log
    unfolding last_hash
    last_hash-other e log h = ground arith

    history-about :
        (e : Entry Hash) (log : List (Entry Hash))
        → is_about tenant task e ≡ true
        → history tenant task (e ∷ log) ≡ e.event ∷ history tenant task log
    unfolding history
    history-about e log h = ground arith

    history-other :
        (e : Entry Hash) (log : List (Entry Hash))
        → is_about tenant task e ≡ false
        → history tenant task (e ∷ log) ≡ history tenant task log
    unfolding history
    history-other e log h = ground arith

    previous-eq :
        (e : Entry Hash) (log : List (Entry Hash))
        → IsChained (e ∷ log)
        → is_about tenant task e ≡ true
        → e.previous_hash ≡ last_hash tenant task log
    previous-eq e log c h =
        let t : e.event.tenant_id ≡ tenant = ground arith in
        let k : e.event.approval_task_id ≡ task = ground arith in
        c.0
        ∙ (ap (λ x. last_hash x e.event.approval_task_id log) t
            ∙ ap (λ x. last_hash tenant x log) k)

    module _ (injective : (p q : Payload Hash) → digest p ≡ digest q → p ≡ q) where
      -- Two entries with one hash hold the same event and the same previous hash.
      entry-eq :
          (e e' : Entry Hash) (log log' : List (Entry Hash))
          → IsChained (e ∷ log)
          → IsChained (e' ∷ log')
          → e.event_hash ≡ e'.event_hash
          → (e.event ≡ e'.event) × (e.previous_hash ≡ e'.previous_hash)
      entry-eq e e' log log' c c' h =
          let same =
            injective (record { event = e.event; previous_hash = e.previous_hash })
              (record { event = e'.event; previous_hash = e'.previous_hash })
              (sym c.1 ∙ (h ∙ c'.1)) in
          (ap (λ p. p.event) same, ap (λ p. p.previous_hash) same)

      -- The newest hash of a task determines the task's whole history: if SHA-256 gives no two
      -- payloads one hash, two chained logs with the same newest hash of a task hold the same
      -- events of it, in the same order.
      pub history_determined :
          (log log' : List (Entry Hash))
          → IsChained log
          → IsChained log'
          → last_hash tenant task log ≡ last_hash tenant task log'
          → history tenant task log ≡ history tenant task log'
      history_determined [] [] c c' h = refl
      history_determined [] (e ∷ log) c c' h = elim (Bool-cases (is_about tenant task e)) [
        | inl about ↦ absurd (ground (arith, last_hash-nil, last_hash-about e log about))
        | inr other ↦
            history_determined [] log c c'.2 (h ∙ last_hash-other e log other)
            ∙ sym (history-other e log other)
      ]
      history_determined (e ∷ log) [] c c' h = elim (Bool-cases (is_about tenant task e)) [
        | inl about ↦ absurd (ground (arith, last_hash-nil, last_hash-about e log about))
        | inr other ↦
            history-other e log other
            ∙ history_determined log [] c.2 c' (sym (last_hash-other e log other) ∙ h)
      ]
      history_determined (e ∷ log) (e' ∷ log') c c' h =
          let skip = λ (other : is_about tenant task e ≡ false).
            history-other e log other
            ∙ history_determined log (e' ∷ log') c.2 c' (sym (last_hash-other e log other) ∙ h) in
          let skip' = λ (other : is_about tenant task e' ≡ false).
            history_determined (e ∷ log) log' c c'.2 (h ∙ last_hash-other e' log' other)
            ∙ sym (history-other e' log' other) in
          elim (Bool-cases (is_about tenant task e)) [
            | inr other ↦ skip other
            | inl about ↦ elim (Bool-cases (is_about tenant task e')) [
              | inr other ↦ skip' other
              | inl about' ↦
                  let hashes : e.event_hash ≡ e'.event_hash =
                    ground (arith, last_hash-about e log about, last_hash-about e' log' about') in
                  let (events, previous) = entry-eq e e' log log' c c' hashes in
                  let rest = history_determined log log' c.2 c'.2 (
                    sym (previous-eq e log c about) ∙ (previous ∙ previous-eq e' log' c' about')) in
                  ground
                    (arith, history-about e log about, history-about e' log' about', events, rest)
            ]
          ]
