-- ===== src/Rollups/Events.antt =====
-- hub/src/session-rollup-jobs.ts: the row of a job under any interleaving of the statements that
-- its deliveries, its pollers and its creator run.
use agent_sessions_backup.Prelude.{
  ℕ, ◌+◌, ◌≤◌, ◌≡◌, refl, ap, ◌∙◌, ◌⊎◌, inl, inr, Bool, true, false, none, some, List, [], ◌∷◌,
  arith, leb, if◌then◌else◌, Bool-cases,
}
use agent_sessions_backup.Rollups.{
  broken, finished, dispatch_deadline_ms, Job, Status, queued, running, complete, partial, failed,
  Outcome, JobError, new_job, reject, fail_expired_job, claim, save, outcome_status,
  attempt_lease_ms, has_token, at_most,
}

-- One statement on the row of the job.
pub data Event (R E : Type 0) : Type 0 where
  rejected : E → ℕ → Event R E
  expired : ℕ → Event R E
  claimed : ℕ → ℕ → Event R E
  saved : ℕ → Outcome R E → ℕ → Event R E

abbrev pub is_terminal : Status → Bool
is_terminal queued = false
is_terminal running = false
is_terminal _ = true

begun : Status → ℕ
begun queued = 0
begun _ = 1

begun-le : (s : Status) → begun s ≤ 1
unfolding begun
begun-le queued = omega arith
begun-le s = omega arith

module _ {R E : Type 0} where
  abbrev pub apply : Event R E → Job R E → Job R E
  apply (rejected detail now) job = (reject detail now job).0
  apply (expired now) job = fail_expired_job now job
  apply (claimed token now) job = (claim token now job).0
  apply (saved token outcome now) job = (save token outcome now job).0

  abbrev pub apply_all : List (Event R E) → Job R E → Job R E
  apply_all [] job = job
  apply_all (e ∷ es) job = apply_all es (apply e job)

  -- The claims among the statements that succeed: the attempts that start a pass.
  starts : Event R E → Job R E → ℕ
  starts (claimed token now) job = if (claim token now job).1 then 1 else 0
  starts (rejected detail now) job = 0
  starts (expired now) job = 0
  starts (saved token outcome now) job = 0

  unfoldable pub count_starts : List (Event R E) → Job R E → ℕ
  unfolding starts
  count_starts [] job = 0
  count_starts (e ∷ es) job = starts e job + count_starts es (apply e job)

  -- What holds of a row in each state.
  abbrev pub StateOf : Status → Job R E → Type 0
  StateOf queued job =
      (job.started_at ≡ none)
      × (job.finished_at ≡ none)
      × (job.attempt_token ≡ none)
      × (job.lease_until ≡ none)
      × (job.result_json ≡ none)
      × (job.error ≡ none)
  StateOf running job =
      ((started : ℕ) × (token : ℕ) × (job.started_at ≡ some started)
        × (job.attempt_token ≡ some token)
        × (job.lease_until ≡ some (started + attempt_lease_ms)))
      × (job.finished_at ≡ none)
      × (job.result_json ≡ none)
      × (job.error ≡ none)
  StateOf failed job =
      ((at : ℕ) × (job.finished_at ≡ some at))
      × ((e : JobError E) × (job.error ≡ some e))
      × (job.result_json ≡ none)
      × (job.attempt_token ≡ none)
      × (job.lease_until ≡ none)
  StateOf _ job =
      ((at : ℕ) × (job.finished_at ≡ some at))
      × ((result : R) × (job.result_json ≡ some result))
      × (job.error ≡ none)
      × (job.attempt_token ≡ none)
      × (job.lease_until ≡ none)

  abbrev pub IsJob : Job R E → Type 0
  IsJob job = StateOf job.status job

  reject-IsJob :
      (s : Status) (detail : E) (now : ℕ) (job : Job R E)
      → job.status ≡ s
      → StateOf s job
      → IsJob (reject detail now job).0
  unfolding reject
  reject-IsJob queued detail now job e h = rw e ((now, refl), (_, refl), h.4, h.2, h.3)
  reject-IsJob s detail now job e h = rw e h

  expire-IsJob :
      (s : Status) (now : ℕ) (job : Job R E)
      → job.status ≡ s
      → StateOf s job
      → IsJob (fail_expired_job now job)
  unfolding fail_expired_job
  expire-IsJob queued now job e h =
      elim (Bool-cases (leb (job.created_at + dispatch_deadline_ms) now)) [
        | inl t ↦ rw (e, t) ((now, refl), (_, refl), h.4, refl, refl)
        | inr t ↦ rw (e, t) h
      ]
  expire-IsJob running now job e h = elim (Bool-cases (at_most job.lease_until now)) [
    | inl t ↦ rw (e, t) ((now, refl), (_, refl), h.2, refl, refl)
    | inr t ↦ rw (e, t) h
  ]
  expire-IsJob s now job e h = rw e h

  claim-IsJob :
      (s : Status) (token now : ℕ) (job : Job R E)
      → job.status ≡ s
      → StateOf s job
      → IsJob (claim token now job).0
  unfolding claim
  claim-IsJob queued token now job e h = rw e ((now, token, refl, refl, refl), h.1, h.4, h.5)
  claim-IsJob s token now job e h = rw e h

  save-IsJob :
      (s : Status) (token : ℕ) (outcome : Outcome R E) (now : ℕ) (job : Job R E)
      → job.status ≡ s
      → StateOf s job
      → IsJob (save token outcome now job).0
  unfolding save
  save-IsJob running token (finished true result ms) now job e h =
      elim (Bool-cases (has_token token job.attempt_token)) [
        | inl t ↦ rw (e, t) ((now, refl), (result, refl), refl, refl, refl)
        | inr t ↦ rw (e, t) h
      ]
  save-IsJob running token (finished false result ms) now job e h =
      elim (Bool-cases (has_token token job.attempt_token)) [
        | inl t ↦ rw (e, t) ((now, refl), (result, refl), refl, refl, refl)
        | inr t ↦ rw (e, t) h
      ]
  save-IsJob running token (broken why ms) now job e h =
      elim (Bool-cases (has_token token job.attempt_token)) [
        | inl t ↦ rw (e, t) ((now, refl), (_, refl), refl, refl, refl)
        | inr t ↦ rw (e, t) h
      ]
  save-IsJob s token outcome now job e h = rw e h

  apply-IsJob : (e : Event R E) (job : Job R E) → IsJob job → IsJob (apply e job)
  apply-IsJob (rejected detail now) job h = reject-IsJob job.status detail now job refl h
  apply-IsJob (expired now) job h = expire-IsJob job.status now job refl h
  apply-IsJob (claimed token now) job h = claim-IsJob job.status token now job refl h
  apply-IsJob (saved token outcome now) job h = save-IsJob job.status token outcome now job refl h

  apply_all-IsJob : (es : List (Event R E)) (job : Job R E) → IsJob job → IsJob (apply_all es job)
  apply_all-IsJob [] job h = h
  apply_all-IsJob (e ∷ es) job h = apply_all-IsJob es (apply e job) (apply-IsJob e job h)

  -- From its creation on, under any sequence of statements, a job is queued with no attempt, or
  -- running with one token and its lease, or terminal with its finish time, neither token nor
  -- lease, and either a result or an error.
  pub new_job-IsJob : (created : ℕ) (es : List (Event R E)) → IsJob (apply_all es (new_job created))
  new_job-IsJob created es =
      apply_all-IsJob es (new_job created) (refl, refl, refl, refl, refl, refl)

  -- What a statement does to a row in a terminal state.
  terminal_step :
      (s : Status) (e : Event R E) (job : Job R E)
      → job.status ≡ s
      → is_terminal s ≡ true
      → (apply e job ≡ job) × (starts e job ≡ 0)
  unfolding reject fail_expired_job claim save starts
  terminal_step queued e job h t = cc
  terminal_step running e job h t = cc
  terminal_step s (rejected detail now) job h t = rw h (refl, refl)
  terminal_step s (expired now) job h t = rw h (refl, refl)
  terminal_step s (claimed token now) job h t = rw h (refl, refl)
  terminal_step s (saved token outcome now) job h t = rw h (refl, refl)

  -- A job in a terminal state is never changed again, and no pass starts for it.
  pub terminal_stays :
      (es : List (Event R E)) (job : Job R E)
      → is_terminal job.status ≡ true
      → (apply_all es job ≡ job) × (count_starts es job ≡ 0)
  unfolding count_starts
  terminal_stays [] job t = (refl, refl)
  terminal_stays (e ∷ es) job t =
      let step = terminal_step job.status e job refl t in
      let rest = terminal_stays es job t in
      (
        ap (apply_all es) step.0 ∙ rest.0,
        omega (arith, step.1, ap (count_starts es) step.0, rest.1),
      )

  terminal_begun :
      (s : Status) (e : Event R E) (job : Job R E)
      → job.status ≡ s
      → is_terminal s ≡ true
      → starts e job + begun s ≤ begun (apply e job).status
  terminal_begun s e job h t =
      let step = terminal_step s e job h t in
      let same : begun (apply e job).status ≡ begun s =
        ap (λ j. begun j.status) step.0 ∙ ap begun h in
      omega (arith, step.1, same)

  save-true :
      (s : Status) (token : ℕ) (outcome : Outcome R E) (now : ℕ) (job : Job R E)
      → job.status ≡ s
      → (((save token outcome now job).1 ≡ true)
          × (s ≡ running)
          × (has_token token job.attempt_token ≡ true)
          × ((save token outcome now job).0.status ≡ outcome_status outcome))
        ⊎ (((save token outcome now job).1 ≡ false) × ((save token outcome now job).0 ≡ job))
  unfolding save
  save-true running token outcome now job e =
      elim (Bool-cases (has_token token job.attempt_token)) [
        | inl t ↦ rw (e, t) (inl (refl, refl, refl, refl))
        | inr t ↦ rw (e, t) (inr (refl, refl))
      ]
  save-true s token outcome now job e = rw e (inr (refl, refl))

  begun_outcome : (outcome : Outcome R E) → begun (outcome_status outcome) ≡ 1
  unfolding begun
  begun_outcome (finished true result ms) = refl
  begun_outcome (finished false result ms) = refl
  begun_outcome (broken why ms) = refl

  starts_step :
      (s : Status) (e : Event R E) (job : Job R E)
      → job.status ≡ s
      → starts e job + begun s ≤ begun (apply e job).status
  unfolding reject fail_expired_job claim save starts begun
  starts_step queued (rejected detail now) job h = omega arith
  starts_step queued (expired now) job h = omega arith
  starts_step queued (claimed token now) job h = rw h (omega arith)
  starts_step queued (saved token outcome now) job h = omega arith
  starts_step running (rejected detail now) job h = rw h (omega arith)
  starts_step running (expired now) job h = elim (Bool-cases (at_most job.lease_until now)) [
    | inl t ↦ rw (h, t) (omega arith)
    | inr t ↦ rw (h, t) (omega arith)
  ]
  starts_step running (claimed token now) job h = rw h (omega arith)
  starts_step running (saved token outcome now) job h =
      elim (save-true running token outcome now job h) [
        | inl (_, _, _, ended) ↦ omega (arith, ap begun ended, begun_outcome outcome)
        | inr (_, same) ↦ omega (arith, ap (λ j. begun j.status) same, ap begun h)
      ]
  starts_step complete e job h = terminal_begun complete e job h refl
  starts_step partial e job h = terminal_begun partial e job h refl
  starts_step failed e job h = terminal_begun failed e job h refl

  starts_all : (es : List (Event R E)) (job : Job R E) → count_starts es job + begun job.status ≤ 1
  unfolding count_starts begun
  starts_all [] job = omega (arith, begun-le job.status)
  starts_all (e ∷ es) job =
      omega (arith, starts_step job.status e job refl, starts_all es (apply e job))

  -- Under any sequence of statements at most one attempt starts a pass for a job.
  pub count_starts-le :
      (created : ℕ) (es : List (Event R E)) → count_starts es (new_job created) ≤ 1
  count_starts-le created es = omega (arith, starts_all es (new_job created))

  -- An outcome is stored exactly for the attempt whose token a running job holds, and gives the job
  -- its final state; for any other attempt the row stays as it is.
  pub save-owner :
      (token : ℕ) (outcome : Outcome R E) (now : ℕ) (job : Job R E)
      → (((save token outcome now job).1 ≡ true)
          × (job.status ≡ running)
          × (has_token token job.attempt_token ≡ true)
          × ((save token outcome now job).0.status ≡ outcome_status outcome))
        ⊎ (((save token outcome now job).1 ≡ false) × ((save token outcome now job).0 ≡ job))
  save-owner token outcome now job = save-true job.status token outcome now job refl
