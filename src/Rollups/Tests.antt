-- ===== src/Rollups/Tests.antt =====
-- The theorems on rollup jobs at concrete inputs, and runs of the definitions.
use agent_sessions_backup.Rollups.Events.{
  saved, expired, terminal_stays, count_starts-le, new_job-IsJob, claimed, apply_all, count_starts,
  Event, IsJob,
}
use agent_sessions_backup.Rollups.Deliveries.{
  consume_session_rollup-Settles, alone, consume_session_rollup-ack, Settles, IsOver,
}
use agent_sessions_backup.Prelude.{
  done, call, lost_after, ℕ, ◌≤◌, ◌≡◌, refl, true, some, List, [], ◌∷◌, pos,
}
use agent_sessions_backup.Rollups.{
  Job, new_job, Delivery, ack, retry, claim, save, consume_session_rollup, unclaimed, running,
  complete, finished, broken, fail_expired_job,
}

abbrev fresh_job : Job ℕ ℕ
fresh_job = new_job 1000

abbrev delivery : Delivery ℕ ℕ
delivery = record {
  expire_time = 2000;
  claim_time = 2001;
  reply_time = 2002;
  save_time = 9000;
  token = 77;
  outcome = finished true 5 (pos 6999);
  expire_call = done;
  claim_call = done;
  select_call = done;
  save_call = done;
}

-- The redelivery of a message whose job is running.
abbrev running_job : Job ℕ ℕ
running_job = record fresh_job {
  status = running;
  started_at = some 1500;
  attempt_token = some 7;
  lease_until = some 1201500;
}

delivered : (consume_session_rollup delivery (λ row. row) (some fresh_job)).1 ≡ ack
unfolding consume_session_rollup call claim fail_expired_job save unclaimed
delivered = refl

-- The answer to the last statement is lost: the outcome is stored, and the message comes back.
delivered_twice :
    (consume_session_rollup
      (record delivery { save_call = lost_after })
      (λ row. row)
      (some fresh_job)).1
    ≡ retry 1200
unfolding consume_session_rollup call claim fail_expired_job save unclaimed
delivered_twice = refl

still_running : (consume_session_rollup delivery (λ row. row) (some running_job)).1 ≡ retry 1200
unfolding consume_session_rollup call claim fail_expired_job save unclaimed
still_running = refl

consume_session_rollup-ack_example :
    IsOver (consume_session_rollup delivery (λ row. row) (some fresh_job)).0
consume_session_rollup-ack_example =
    consume_session_rollup-ack delivery (λ row. row) (some fresh_job) delivered

running_job-IsJob : IsJob running_job
running_job-IsJob = ((1500, 7, refl, refl, refl), refl, refl, refl)

consume_session_rollup-Settles_example :
    Settles delivery running_job (consume_session_rollup delivery alone (some running_job))
consume_session_rollup-Settles_example =
    consume_session_rollup-Settles delivery running_job running_job-IsJob
      (record { expire_done = refl; claim_done = refl; select_done = refl; save_done = refl })

abbrev events : List (Event ℕ ℕ)
events = claimed 7 1500 ∷ claimed 8 1600 ∷ expired 1300000 ∷ saved 7 (broken 3 (pos 5)) 1300001 ∷ []

new_job-IsJob_example : IsJob (apply_all events (new_job 1000))
new_job-IsJob_example = new_job-IsJob 1000 events

count_starts-le_example : count_starts events fresh_job ≤ 1
count_starts-le_example = count_starts-le 1000 events

one_start : count_starts events fresh_job ≡ 1
unfolding count_starts claim save fail_expired_job
one_start = refl

terminal_stays_example :
    (apply_all events (record fresh_job { status = complete })
      ≡ record fresh_job { status = complete })
    × (count_starts events (record fresh_job { status = complete }) ≡ 0)
terminal_stays_example = terminal_stays events (record fresh_job { status = complete }) refl
