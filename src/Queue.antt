-- ===== src/Queue.antt =====
-- hub/src/queue.ts: the requeue of a stored file for parsing, on the columns of its `files` row that
-- `markPendingAndEnqueue` reads or writes. One D1 batch is one transition. A time is a number of
-- milliseconds: `reserved_at` is an ISO text whose order is that of the times. A content hash and an
-- owner are numbers. The R2 key, which only travels with the message, and the logs are left out.
pub mod Hashes
pub mod Requeue
pub mod Tests
use agent_sessions_backup.Prelude.{
  ℕ, zero, suc, ◌+◌, ◌-◌, ◌*◌, ◌/◌, ◌%◌, ◌^◌, ◌≤◌, ◌<◌, min, max, ◌≡◌, refl, sym, ap, ◌∙◌, subst,
  ◌≡⟨◌⟩◌, ◌∎, ◌≢◌, ◌↔◌, ◌⊎◌, inl, inr, Bool, true, false, not, ◌&&◌, ◌||◌, Option, none, some, List,
  [], ◌∷◌, ◌++◌, map, append-nil, append_assoc, arith, dec_lt, ℕ_discrete, ltb, leb, ◌==◌,
  if◌then◌else◌, ltb→lt, lt→ltb, leb→le, ==_iff, tests, Bool-cases, Option-cases, length, take,
  drop, replicate, concat, get_elem?, All, length-append, take-append-drop, length-take,
  length-drop, take-append, drop-append, concat-append, All-append, All-map, ℤ, pos, negsuc, Result,
  ok, err, ◌>>=◌, Result-cases,
}

pub data ParseState : Type 0 where
  pending : ParseState
  error : ParseState
  reserved : ParseState
  parsed : ParseState
  skipped : ParseState
  superseded : ParseState

-- `ParseMessage['reason']`.
pub data Reason : Type 0 where
  upload : Reason
  reindex : Reason
  recover : Reason

pub record FileRow : Type 0 where
  pub parse_state : ParseState
  pub content_hash : ℕ
  pub reserved_at : Option ℕ
  pub reserved_by : Option ℕ
  pub reserved_reason : Option Reason
  pub reservation_generation : ℕ

-- `reservation` is the owner and the generation, where the message has them.
pub record ParseMessage : Type 0 where
  pub reason : Reason
  pub message_hash : ℕ
  pub reservation : Option (ℕ × ℕ)

abbrev pub stale_reservation_ms : ℕ
stale_reservation_ms = 60 * 60 * 1000

abbrev pub is_reserved : ParseState → Bool
is_reserved reserved = true
is_reserved _ = false

-- `at > cutoff`, with the cutoff at `now - STALE_RESERVATION_MS`.
abbrev pub is_recent : Option ℕ → ℕ → Bool
is_recent none now = false
is_recent (some at) now = ltb now (at + stale_reservation_ms)

unfoldable pub is_fresh_reservation : ℕ → FileRow → Bool
is_fresh_reservation now row = is_reserved row.parse_state && is_recent row.reserved_at now

-- The reason that a row keeps when it turns to pending.
abbrev pub carried_reason : ParseState → Option Reason → Option Reason
carried_reason reserved reason = reason
carried_reason pending reason = reason
carried_reason _ reason = none

abbrev pub next_generation : ParseState → ℕ → ℕ
next_generation reserved generation = generation + 1
next_generation _ generation = generation

unfoldable pub to_pending : Bool → FileRow → FileRow
to_pending force row = record row {
  parse_state = pending;
  reserved_at = none;
  reserved_by = none;
  reserved_reason = if force then none else carried_reason row.parse_state row.reserved_reason;
  reservation_generation = next_generation row.parse_state row.reservation_generation;
}

-- The guarded update: the row, and whether it was updated.
unfoldable pub transition : Bool → ℕ → FileRow → FileRow × Bool
transition force now row =
    if not force && (is_reserved row.parse_state && is_recent row.reserved_at now)
    then (row, false)
    else (to_pending force row, true)

-- `recover` and `upload` are carried, any other stored reason is not.
abbrev pub carries : Option Reason → Bool
carries (some recover) = true
carries (some upload) = true
carries _ = false

unfoldable pub effective_reason : Option Reason → Reason → Reason
effective_reason (some recover) reason = recover
effective_reason (some upload) reason = upload
effective_reason _ reason = reason

abbrev pub is_pending : ParseState → Bool
is_pending pending = true
is_pending _ = false

unfoldable pub same_reason : Option Reason → Option Reason → Bool
same_reason (some upload) (some upload) = true
same_reason (some reindex) (some reindex) = true
same_reason (some recover) (some recover) = true
same_reason _ _ = false

-- The update after the message was sent.
unfoldable pub clear_reason : ℕ → Option Reason → FileRow → FileRow
unfolding same_reason
clear_reason hash stored row =
    if carries stored
      && (is_pending row.parse_state
          && (row.content_hash == hash && same_reason row.reserved_reason stored))
    then record row { reserved_reason = none }
    else row

-- What the caller meets: the boolean that is returned, or the error of a send that failed.
pub data Answer : Type 0 where
  answered : Bool → Answer
  send_failed : Answer

pub record Requeued : Type 0 where
  pub row : FileRow
  pub sent : Option ParseMessage
  pub answer : Answer

-- The arguments of a call: the hash of the file that it requeues, its reason and `force`, the clock,
-- whether the queue takes a message, and what others do to the row after the message was sent.
pub record Request : Type 0 where
  pub hash : ℕ
  pub reason : Reason
  pub force : Bool
  pub time : ℕ
  pub check_time : ℕ
  pub queue_accepts : Bool
  pub others : FileRow → FileRow

-- The message for the owner of a fresh upload reservation.
pub refreshed : Request → FileRow → Option ℕ → Requeued
refreshed q row none = record { row = row; sent = none; answer = answered false }
refreshed q row (some owner) =
    if is_fresh_reservation q.check_time row
    then (if q.queue_accepts
        then record {
          row = row;
          sent = some (record {
            reason = upload;
            message_hash = q.hash;
            reservation = some (owner, row.reservation_generation);
          });
          answer = answered true;
        }
        else record { row = row; sent = none; answer = send_failed })
    else record { row = row; sent = none; answer = answered false }

pub gated : Request → FileRow → Option Reason → Requeued
unfolding refreshed is_fresh_reservation
gated q row (some upload) = refreshed q row row.reserved_by
gated q row _ = record { row = row; sent = none; answer = answered false }

pub enqueue : Request → FileRow → Requeued
enqueue q row =
    if q.queue_accepts
    then record {
      row = clear_reason q.hash row.reserved_reason (q.others row);
      sent = some (record {
        reason = effective_reason row.reserved_reason q.reason;
        message_hash = q.hash;
        reservation = none;
      });
      answer = answered true;
    }
    else record { row = row; sent = none; answer = send_failed }

unfoldable pub mark_pending_and_enqueue : Request → FileRow → Requeued
unfolding enqueue gated
mark_pending_and_enqueue q row =
    let (next, updated) = transition q.force q.time row in
    if updated then enqueue q next else gated q next next.reserved_reason
