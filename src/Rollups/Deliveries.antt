-- ===== src/Rollups/Deliveries.antt =====
-- hub/src/session-rollup-jobs.ts: what a delivery of the queue message replies.
use agent_sessions_backup.Prelude.{
  Call, done, lost_before, lost_after, call, ℕ, ◌+◌, ◌*◌, ◌/◌, ◌≤◌, ◌<◌, ◌≡◌, refl, sym, ap, ◌∙◌,
  subst, ◌≢◌, ◌⊎◌, inl, inr, Bool, true, false, Option, none, some, arith, leb, Bool-cases,
}
use agent_sessions_backup.Rollups.{
  has_token, dispatch_deadline_ms, unclaimed, broken, finished, Job, Status, queued, running,
  complete, partial, failed, Outcome, Delivery, Reply, ack, retry, claim, save, fail_expired_job,
  consume_session_rollup, retry_delay, outcome_status, attempt_lease_ms, at_most, on_row, finish,
  claimed_or_not, after_expire,
}
use agent_sessions_backup.Rollups.Events.{is_terminal, IsJob, StateOf, save-owner}

refused_ack : {k : ℕ} {r : Reply} → r ≡ retry k → r ≡ ack → ⊥
refused_ack e h = (let clash = sym e ∙ h in cc)

-- The delay covers the rest of the lease.
retry_delay-le : (lease now : ℕ) → lease ≤ now + retry_delay (some lease) now * 1000
unfolding retry_delay
retry_delay-le lease now = omega arith

has_own_token : (token : ℕ) → has_token token (some token) ≡ true
has_own_token token = ground arith

module _ {R E : Type 0} where
  -- No row, or one in a terminal state.
  abbrev pub IsOver : Option (Job R E) → Type 0
  IsOver none = Unit
  IsOver (some job) = is_terminal job.status ≡ true

  -- No row, or one that is not queued.
  abbrev NotQueued : Option (Job R E) → Type 0
  NotQueued none = Unit
  NotQueued (some job) = job.status ≢ queued

  outcome_terminal : (outcome : Outcome R E) → is_terminal (outcome_status outcome) ≡ true
  outcome_terminal (finished true result ms) = refl
  outcome_terminal (finished false result ms) = refl
  outcome_terminal (broken why ms) = refl

  finish-ack :
      (d : Delivery R E) (c : Call) (row : Option (Job R E))
      → d.save_call ≡ c
      → (finish d row).1 ≡ ack
      → IsOver (finish d row).0
  unfolding finish call
  finish-ack d done none e h = rw e tt
  finish-ack d done (some job) e h = elim (save-owner d.token d.outcome d.save_time job) [
    | inl (t, _, _, ended) ↦ rw e (ap is_terminal ended ∙ outcome_terminal d.outcome)
    | inr (t, _) ↦
        let refused : (finish d (some job)).1 ≡ retry (attempt_lease_ms / 1000) =
          rw (e, t, finish) refl in
        let clash = sym refused ∙ h in absurd cc
  ]
  finish-ack d lost_before row e h =
      let refused : (finish d row).1 ≡ retry (attempt_lease_ms / 1000) = rw (e, finish) refl in
      let clash = sym refused ∙ h in absurd cc
  finish-ack d lost_after row e h =
      let refused : (finish d row).1 ≡ retry (attempt_lease_ms / 1000) = rw (e, finish) refl in
      let clash = sym refused ∙ h in absurd cc

  unclaimed-ack :
      (s : Status) (job : Job R E) (now : ℕ)
      → job.status ≡ s
      → s ≢ queued
      → unclaimed (some job) now ≡ ack
      → is_terminal s ≡ true
  unfolding unclaimed
  unclaimed-ack queued job now e q h = absurd (q refl)
  unclaimed-ack running job now e q h =
      let refused : unclaimed (some job) now ≡ retry (retry_delay job.lease_until now) =
        rw (e, unclaimed) refl in
      absurd (refused_ack refused h)
  unclaimed-ack s job now e q h = refl

  claimed_or_not-ack :
      (d : Delivery R E) (others : Option (Job R E) → Option (Job R E)) (claimed : Option Bool)
      (c : Call) (row : Option (Job R E))
      → d.select_call ≡ c
      → (claimed ≡ some false → NotQueued row)
      → (claimed_or_not d others claimed row).1 ≡ ack
      → IsOver (claimed_or_not d others claimed row).0
  unfolding claimed_or_not call
  claimed_or_not-ack d others none c row e q h = cc
  claimed_or_not-ack d others (some true) c row e q h = finish-ack d d.save_call (others row) refl h
  claimed_or_not-ack d others (some false) done none e q h = rw (e, claimed_or_not) tt
  claimed_or_not-ack d others (some false) done (some job) e q h =
      let reply : (claimed_or_not d others (some false) (some job)).1
          ≡ unclaimed (some job) d.reply_time =
        rw (e, claimed_or_not) refl in
      let over = unclaimed-ack job.status job d.reply_time refl (q refl) (sym reply ∙ h) in
      rw (e, claimed_or_not) over
  claimed_or_not-ack d others (some false) lost_before row e q h = absurd (
      refused_ack
        (let r : (claimed_or_not d others (some false) row).1 ≡ retry (attempt_lease_ms / 1000) =
            rw (e, claimed_or_not) refl in
          r)
        h)
  claimed_or_not-ack d others (some false) lost_after row e q h = absurd (
      refused_ack
        (let r : (claimed_or_not d others (some false) row).1 ≡ retry (attempt_lease_ms / 1000) =
            rw (e, claimed_or_not) refl in
          r)
        h)

  claim-false :
      (s : Status) (token now : ℕ) (job : Job R E)
      → job.status ≡ s
      → (claim token now job).1 ≡ false
      → ((claim token now job).0 ≡ job) × (s ≢ queued)
  unfolding claim
  claim-false queued token now job e h =
      let t : (claim token now job).1 ≡ true = rw e refl in absurd (let x = sym t ∙ h in cc)
  claim-false running token now job e h = (rw e refl, λ x. cc)
  claim-false complete token now job e h = (rw e refl, λ x. cc)
  claim-false partial token now job e h = (rw e refl, λ x. cc)
  claim-false failed token now job e h = (rw e refl, λ x. cc)

  claim-NotQueued :
      (d : Delivery R E) (c : Call) (row : Option (Job R E))
      → (call c (on_row (claim d.token d.claim_time)) row).1 ≡ some false
      → NotQueued (call c (on_row (claim d.token d.claim_time)) row).0
  unfolding call
  claim-NotQueued d done none h = tt
  claim-NotQueued d done (some job) h =
      let kept = claim-false job.status d.token d.claim_time job refl (cc) in rw (kept.0) kept.1
  claim-NotQueued d lost_before row h = absurd cc
  claim-NotQueued d lost_after row h = absurd cc

  after_expire-ack :
      (d : Delivery R E) (others : Option (Job R E) → Option (Job R E))
      (expired : Option (Unit {0})) (row : Option (Job R E))
      → (after_expire d others expired row).1 ≡ ack
      → IsOver (after_expire d others expired row).0
  unfolding after_expire
  after_expire-ack d others none row h = cc
  after_expire-ack d others (some u) row h =
      claimed_or_not-ack d others _ d.select_call _ refl (claim-NotQueued d d.claim_call row) h

  -- A message is acknowledged only for a job that is over, whatever other deliveries do to the row
  -- while the pass runs and whichever D1 call fails, before or after it took effect: every other
  -- delivery asks for a redelivery.
  pub consume_session_rollup-ack :
      (d : Delivery R E) (others : Option (Job R E) → Option (Job R E)) (row : Option (Job R E))
      → (consume_session_rollup d others row).1 ≡ ack
      → IsOver (consume_session_rollup d others row).0
  unfolding consume_session_rollup
  consume_session_rollup-ack d others row h = after_expire-ack d others _ _ h

  -- A row that is checked for expiry is over, or as it was: queued, or running with a lease.
  expire-cases :
      (s : Status) (now : ℕ) (job : Job R E)
      → job.status ≡ s
      → (is_terminal (fail_expired_job now job).status ≡ true)
        ⊎ ((fail_expired_job now job ≡ job) × (s ≡ queued))
        ⊎ ((fail_expired_job now job ≡ job) × (s ≡ running) × (at_most job.lease_until now ≡ false))
  unfolding fail_expired_job
  expire-cases queued now job e =
      elim (Bool-cases (leb (job.created_at + dispatch_deadline_ms) now)) [
        | inl t ↦ rw (e, t) (inl refl)
        | inr t ↦ rw (e, t) (inr (inl (refl, refl)))
      ]
  expire-cases running now job e = elim (Bool-cases (at_most job.lease_until now)) [
    | inl t ↦ rw (e, t) (inl refl)
    | inr t ↦ rw (e, t) (inr (inr (refl, refl, refl)))
  ]
  expire-cases complete now job e = rw e (inl refl)
  expire-cases partial now job e = rw e (inl refl)
  expire-cases failed now job e = rw e (inl refl)

  pub record AllDone (d : Delivery R E) : Type 0 where
    pub expire_done : d.expire_call ≡ done
    pub claim_done : d.claim_call ≡ done
    pub select_done : d.select_call ≡ done
    pub save_done : d.save_call ≡ done

  abbrev pub alone : Option (Job R E) → Option (Job R E)
  alone row = row

  terminal_reply :
      (s : Status) (d : Delivery R E) (job : Job R E)
      → job.status ≡ s
      → is_terminal s ≡ true
      → AllDone d
      → after_expire d alone (some tt) (some job) ≡ (some job, ack)
  unfolding after_expire claimed_or_not call claim unclaimed
  terminal_reply queued d job e t a = cc
  terminal_reply running d job e t a = cc
  terminal_reply s d job e t a = rw (e, a.claim_done, a.select_done) refl

  running_reply :
      (d : Delivery R E) (job : Job R E)
      → job.status ≡ running
      → AllDone d
      → after_expire d alone (some tt) (some job)
        ≡ (some job, retry (retry_delay job.lease_until d.reply_time))
  unfolding after_expire claimed_or_not call claim unclaimed
  running_reply d job e a = rw (e, a.claim_done, a.select_done) refl

  queued_reply :
      (d : Delivery R E) (job : Job R E)
      → job.status ≡ queued
      → AllDone d
      → ((after_expire d alone (some tt) (some job)).1 ≡ ack)
        × ((j : Job R E) × ((after_expire d alone (some tt) (some job)).0 ≡ some j)
            × (j.status ≡ outcome_status d.outcome))
  unfolding after_expire claimed_or_not call claim finish save
  queued_reply d job e a =
      rw (e, a.claim_done, a.save_done, has_own_token d.token) (refl, (_, refl, refl))

  after_expiry :
      (d : Delivery R E) (job : Job R E)
      → d.expire_call ≡ done
      → consume_session_rollup d alone (some job)
        ≡ after_expire d alone (some tt) (some (fail_expired_job d.expire_time job))
  unfolding consume_session_rollup call
  after_expiry d job e = rw e refl

  -- How a delivery of a job with a row ends when no D1 call fails and no other delivery runs: it is
  -- acknowledged and the job is over, or a running attempt's lease has not passed and the message
  -- comes back no earlier than the lease ends.
  abbrev pub Settles : Delivery R E → Job R E → Option (Job R E) × Reply → Type 0
  Settles d job r =
      ((r.1 ≡ ack) × IsOver r.0)
      ⊎ ((lease : ℕ) × (delay : ℕ) × (r ≡ (some job, retry delay))
          × (job.status ≡ running)
          × (job.lease_until ≡ some lease)
          × (d.expire_time < lease)
          × (lease ≤ d.reply_time + delay * 1000))

  lease_of :
      (job : Job R E)
      → job.status ≡ running
      → IsJob job
      → (lease : ℕ) × (job.lease_until ≡ some lease)
  lease_of job e h = (let held = subst (λ s. StateOf s job) e h in (_, held.0.4))

  -- A delivery whose D1 calls succeed, with no other delivery running, is acknowledged with the job
  -- over, or it leaves a job whose attempt still holds its lease and asks to be delivered again no
  -- earlier than the lease ends.
  pub consume_session_rollup-Settles :
      (d : Delivery R E) (job : Job R E)
      → IsJob job
      → AllDone d
      → Settles d job (consume_session_rollup d alone (some job))
  consume_session_rollup-Settles d job h a =
      let start = after_expiry d job a.expire_done in
      elim (expire-cases job.status d.expire_time job refl) [
        | inl over ↦
            let reply =
              start ∙ terminal_reply _ d (fail_expired_job d.expire_time job) refl over a in
            rw reply (inl (refl, over))
        | inr (inl (same, q)) ↦
            let at_job = start ∙ ap (λ j. after_expire d alone (some tt) (some j)) same in
            let (acked, (j, row, ended)) = queued_reply d job q a in
            inl (
              ap (λ r. r.1) at_job ∙ acked,
              subst IsOver (sym (ap (λ r. r.0) at_job ∙ row))
                  (ap is_terminal ended ∙ outcome_terminal d.outcome),
            )
        | inr (inr (same, running_now, fresh)) ↦
            let at_job = start ∙ ap (λ j. after_expire d alone (some tt) (some j)) same in
            let (lease, held) = lease_of job running_now h in
            let replied : consume_session_rollup d alone (some job)
                ≡ (some job, retry (retry_delay (some lease) d.reply_time)) =
              at_job
              ∙ (running_reply d job running_now a
                  ∙ ap (λ l. (some job, retry (retry_delay l d.reply_time))) held) in
            let open_lease : leb lease d.expire_time ≡ false = sym (rw held refl) ∙ fresh in
            inr (
              lease,
              retry_delay (some lease) d.reply_time,
              replied,
              running_now,
              held,
              ground arith,
              retry_delay-le lease d.reply_time,
            )
      ]
