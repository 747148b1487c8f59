-- ===== src/Rollups.antt =====
-- hub/src/session-rollup-jobs.ts, with the outcome of a pass from hub/src/cron/session-rollup.ts:
-- the row of `session_rollup_jobs` that one job has, and the deliveries of its queue message. One
-- D1 statement is one atomic change of the row. A time is a number of milliseconds: the ISO texts
-- of the table order as their times do. `Date.now()` and `crypto.randomUUID()` are arguments, the
-- result of `runSessionRollup` too. The ids of the job, `requested_by` and the logs are left out.
pub mod Deliveries
pub mod Events
pub mod Tests
use mathlib.Core.Option
use agent_sessions_backup.Prelude.{
  Call, done, lost_before, lost_after, call, ℕ, zero, suc, ◌+◌, ◌-◌, ◌*◌, ◌/◌, ◌%◌, ◌^◌, ◌≤◌, ◌<◌,
  min, max, ◌≡◌, refl, sym, ap, ◌∙◌, subst, ◌≡⟨◌⟩◌, ◌∎, ◌≢◌, ◌↔◌, ◌⊎◌, inl, inr, Bool, true, false,
  not, ◌&&◌, ◌||◌, Option, none, some, List, [], ◌∷◌, ◌++◌, map, append-nil, append_assoc, arith,
  dec_lt, ℕ_discrete, ltb, leb, ◌==◌, if◌then◌else◌, ltb→lt, lt→ltb, leb→le, ==_iff, tests,
  Bool-cases, Option-cases, length, take, drop, replicate, concat, get_elem?, All, length-append,
  take-append-drop, length-take, length-drop, take-append, drop-append, concat-append, All-append,
  All-map, ℤ, pos, negsuc, Result, ok, err, ◌>>=◌, Result-cases,
}

abbrev pub attempt_lease_ms : ℕ
attempt_lease_ms = 20 * 60 * 1000

abbrev pub dispatch_deadline_ms : ℕ
dispatch_deadline_ms = 24 * 60 * 60 * 1000

pub data Status : Type 0 where
  queued : Status
  running : Status
  complete : Status
  partial : Status
  failed : Status

-- The texts that the error column holds.
pub data JobError (E : Type 0) : Type 0 where
  queue_acceptance_failed : E → JobError E
  not_started : JobError E
  interrupted : JobError E
  pass_failed : E → JobError E

-- `SessionRollupResult` is `R`, the text of an error `E`, an attempt token a number.
module _ (R E : Type 0) where
  pub record Job : Type 0 where
    pub status : Status
    pub created_at : ℕ
    pub started_at : Option ℕ
    pub finished_at : Option ℕ
    pub lease_until : Option ℕ
    pub attempt_token : Option ℕ
    pub result_json : Option R
    pub error : Option (JobError E)
    pub ms : Option ℤ

  -- `RollupOutcome`.
  pub data Outcome : Type 0 where
    finished : Bool → R → ℤ → Outcome
    broken : E → ℤ → Outcome

-- a - b, as an integer.
abbrev pub sub_ℕ : ℕ → ℕ → ℤ
sub_ℕ a b = if leb b a then pos (a - b) else negsuc (b - a - 1)

abbrev pub has_token : ℕ → Option ℕ → Bool
has_token token none = false
has_token token (some held) = held == token

abbrev pub at_most : Option ℕ → ℕ → Bool
at_most none now = false
at_most (some time) now = leb time now

pub data Reply : Type 0 where
  ack : Reply
  retry : ℕ → Reply

-- `CAST(strftime('%s', started_at) AS INTEGER) * 1000` is the start in whole seconds.
elapsed : Option ℕ → ℕ → ℤ
elapsed none now = pos 0
elapsed (some started) now = pos (now - started / 1000 * 1000)

-- `Math.max(1, Math.ceil((lease_until - Date.now()) / 1000))`; NULL counts as 0.
unfoldable pub retry_delay : Option ℕ → ℕ → ℕ
retry_delay none now = 1
retry_delay (some lease) now = max 1 ((lease - now + 999) / 1000)

reply_for : Status → Option ℕ → ℕ → Reply
unfolding retry_delay
reply_for running lease now = retry (retry_delay lease now)
reply_for _ lease now = ack

after_save : Option Bool → Reply
after_save (some true) = ack
after_save (some false) = retry (attempt_lease_ms / 1000)
after_save none = retry (attempt_lease_ms / 1000)

module _ {R E : Type 0} where
  -- `runSessionRollupPass` up to the call of `persist`. `failures` is `result.failed`.
  unfoldable pub outcome_of_pass : (R → ℕ) → Result E R → ℕ → ℕ → Outcome R E
  outcome_of_pass failures (ok result) started ended =
      finished (not (ltb 0 (failures result))) result (sub_ℕ ended started)
  outcome_of_pass failures (err e) started ended = broken e (sub_ℕ ended started)

  abbrev pub outcome_status : Outcome R E → Status
  outcome_status (finished true result ms) = complete
  outcome_status (finished false result ms) = partial
  outcome_status (broken e ms) = failed

  abbrev pub outcome_result : Outcome R E → Option R
  outcome_result (finished all result ms) = some result
  outcome_result (broken e ms) = none

  abbrev pub outcome_error : Outcome R E → Option (JobError E)
  outcome_error (finished all result ms) = none
  outcome_error (broken e ms) = some (pass_failed e)

  abbrev pub outcome_ms : Outcome R E → ℤ
  outcome_ms (finished all result ms) = ms
  outcome_ms (broken e ms) = ms

  -- The row that `INSERT` writes.
  abbrev pub new_job : ℕ → Job R E
  new_job created = record {
    status = queued;
    created_at = created;
    started_at = none;
    finished_at = none;
    lease_until = none;
    attempt_token = none;
    result_json = none;
    error = none;
    ms = none;
  }

  reject_at : Status → E → ℕ → Job R E → Job R E × Bool
  reject_at queued detail now job = (
    record job {
      status = failed;
      error = some (queue_acceptance_failed detail);
      finished_at = some now;
      ms = some (pos 0);
    },
    true,
  )
  reject_at _ detail now job = (job, false)

  -- The update when the queue does not take the message, and whether it changed the row.
  unfoldable pub reject : E → ℕ → Job R E → Job R E × Bool
  unfolding reject_at
  reject detail now job = reject_at job.status detail now job

  fail_with : JobError E → ℕ → Job R E → Job R E
  unfolding elapsed
  fail_with e now job = record job {
    status = failed;
    error = some e;
    finished_at = some now;
    ms = some (elapsed job.started_at now);
    lease_until = none;
    attempt_token = none;
  }

  expire_at : Status → ℕ → Job R E → Job R E
  unfolding fail_with
  expire_at queued now job =
      if leb (job.created_at + dispatch_deadline_ms) now then fail_with not_started now job else job
  expire_at running now job =
      if at_most job.lease_until now then fail_with interrupted now job else job
  expire_at _ now job = job

  -- `failExpiredJob` on the row.
  unfoldable pub fail_expired_job : ℕ → Job R E → Job R E
  unfolding expire_at
  fail_expired_job now job = expire_at job.status now job

  claim_at : Status → ℕ → ℕ → Job R E → Job R E × Bool
  claim_at queued token now job = (
    record job {
      status = running;
      started_at = some now;
      attempt_token = some token;
      lease_until = some (now + attempt_lease_ms);
    },
    true,
  )
  claim_at _ token now job = (job, false)

  -- The update that starts an attempt, and whether it changed the row.
  unfoldable pub claim : ℕ → ℕ → Job R E → Job R E × Bool
  unfolding claim_at
  claim token now job = claim_at job.status token now job

  save_at : Status → ℕ → Outcome R E → ℕ → Job R E → Job R E × Bool
  save_at running token outcome now job =
      if has_token token job.attempt_token
      then (
        record job {
          status = outcome_status outcome;
          result_json = outcome_result outcome;
          error = outcome_error outcome;
          ms = some (outcome_ms outcome);
          finished_at = some now;
          attempt_token = none;
          lease_until = none;
        },
        true,
      )
      else (job, false)
  save_at _ token outcome now job = (job, false)

  -- The update that stores an attempt's outcome, and whether it changed the row.
  unfoldable pub save : ℕ → Outcome R E → ℕ → Job R E → Job R E × Bool
  unfolding save_at
  save token outcome now job = save_at job.status token outcome now job

  -- A statement on the table, where the job may have no row.
  abbrev pub on_row : (Job R E → Job R E × Bool) → Option (Job R E) → Option (Job R E) × Bool
  on_row run none = (none, false)
  on_row run (some job) = (some (run job).0, (run job).1)

  abbrev pub expire_row : ℕ → Option (Job R E) → Option (Job R E) × Unit {0}
  expire_row now none = (none, tt)
  expire_row now (some job) = (some (fail_expired_job now job), tt)

  -- The reply where the claim changed nothing.
  unfoldable pub unclaimed : Option (Job R E) → ℕ → Reply
  unfolding reply_for
  unclaimed none now = ack
  unclaimed (some job) now = reply_for job.status job.lease_until now

-- What a delivery meets: the times of its clock readings, its token, what the pass comes to, and how
-- each D1 call ends.
pub record Delivery (R E : Type 0) : Type 0 where
  pub expire_time : ℕ
  pub claim_time : ℕ
  pub reply_time : ℕ
  pub save_time : ℕ
  pub token : ℕ
  pub outcome : Outcome R E
  pub expire_call : Call
  pub claim_call : Call
  pub select_call : Call
  pub save_call : Call

module _ {R E : Type 0} where
  -- The attempt that owns the job: what the other deliveries do to the row meanwhile is `others`.
  pub finish : Delivery R E → Option (Job R E) → Option (Job R E) × Reply
  unfolding after_save
  finish d row =
      let (saved_row, saved) = call d.save_call (on_row (save d.token d.outcome d.save_time)) row in
      (saved_row, after_save saved)

  -- After the claim; `others` is what happens to the row while the pass runs.
  pub claimed_or_not :
      Delivery R E
      → (Option (Job R E) → Option (Job R E))
      → Option Bool
      → Option (Job R E)
      → Option (Job R E) × Reply
  unfolding finish
  claimed_or_not d others none row = (row, retry (attempt_lease_ms / 1000))
  claimed_or_not d others (some true) row = finish d (others row)
  claimed_or_not d others (some false) row = elim (call d.select_call (λ r. (r, r)) row).1 [
    | none ↦ (row, retry (attempt_lease_ms / 1000))
    | some current ↦ (row, unclaimed current d.reply_time)
  ]

  pub after_expire :
      Delivery R E
      → (Option (Job R E) → Option (Job R E))
      → Option (Unit {0})
      → Option (Job R E)
      → Option (Job R E) × Reply
  unfolding claimed_or_not
  after_expire d others none row = (row, retry (attempt_lease_ms / 1000))
  after_expire d others (some _) row =
      let (claimed_row, claimed) = call d.claim_call (on_row (claim d.token d.claim_time)) row in
      claimed_or_not d others claimed claimed_row

  -- `consumeSessionRollup`: any error asks for a redelivery after the lease.
  unfoldable pub consume_session_rollup :
      Delivery R E
      → (Option (Job R E) → Option (Job R E))
      → Option (Job R E)
      → Option (Job R E) × Reply
  unfolding after_expire
  consume_session_rollup d others row =
      let (expired_row, expired) = call d.expire_call (expire_row d.expire_time) row in
      after_expire d others expired expired_row

  -- The reply shows neither the lease nor the token.
  abbrev pub shown : Job R E → Job R E
  shown job = record job { lease_until = none; attempt_token = none }

  -- `getSessionRollupJob`: the row afterwards and the job shown, `none` for a 404.
  unfoldable pub get_session_rollup_job : ℕ → Option (Job R E) → Option (Job R E) × Option (Job R E)
  get_session_rollup_job now row =
      let (expired, _) = expire_row now row in (expired, Option.map shown expired)

  -- `enqueueSessionRollup`: whether the queue took the message, and the HTTP status.
  unfoldable pub enqueue_session_rollup : ℕ → Result E (Unit {0}) → ℕ → Option (Job R E) × ℕ
  enqueue_session_rollup created (ok sent) now = (some (new_job created), 202)
  enqueue_session_rollup created (err e) now = (some (reject e now (new_job created)).0, 503)
