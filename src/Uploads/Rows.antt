-- ===== src/Uploads/Rows.antt =====
-- hub/src/api/upload.ts: the statements on the `files` row and on the sessions that it owns.
use agent_sessions_backup.Uploads.State.{◌>>=◌, ◌>>◌}
use agent_sessions_backup.Queue.{
  Answer, answered, send_failed, FileRow, ParseMessage, ParseState, pending, parsed, skipped,
  superseded, Request, Requeued, upload, is_fresh_reservation, mark_pending_and_enqueue,
}
use agent_sessions_backup.Detect.{
  Detection, Harness, claude_code, codex, chatgpt_web, claude_web, claude_cowork, prompt_log, omp,
  unknown, Kind, export_archive, other,
}
use agent_sessions_backup.Uploads.State.{
  pure, ◌>>◌, modify, Outside, Action, SessionRow, update_row, FilesRow,
}
use agent_sessions_backup.Prelude.{
  ℕ, Bool, true, false, not, ◌&&◌, ◌||◌, Option, none, some, List, [], ◌∷◌, ◌++◌, map, ◌==◌,
  if◌then◌else◌, text_eq,
}

abbrev harness_code : Harness → ℕ
harness_code claude_code = 0
harness_code codex = 1
harness_code chatgpt_web = 2
harness_code claude_web = 3
harness_code claude_cowork = 4
harness_code prompt_log = 5
harness_code omp = 6
harness_code unknown = 7

abbrev same_harness : Harness → Option Harness → Bool
same_harness harness none = false
same_harness harness (some stored) = harness_code harness == harness_code stored

abbrev pub same_text : Option (List ℕ) → Option (List ℕ) → Bool
same_text none none = true
same_text (some text) (some stored) = text_eq text stored
same_text _ _ = false

abbrev pub is_other : Kind → Bool
is_other other = true
is_other _ = false

abbrev pub is_export_archive : Kind → Bool
is_export_archive export_archive = true
is_export_archive _ = false

-- `TERMINAL_PARSE_STATES.has(state)`.
abbrev pub is_terminal_state : ParseState → Bool
is_terminal_state parsed = true
is_terminal_state skipped = true
is_terminal_state superseded = true
is_terminal_state _ = false

abbrev is_skipped : ParseState → Bool
is_skipped skipped = true
is_skipped _ = false

abbrev pub cleared : ParseState → FileRow → FileRow
cleared state queue = record queue {
  parse_state = state;
  reserved_at = none;
  reserved_by = none;
  reserved_reason = none;
}

abbrev pub holds : ℕ → ℕ → FilesRow → Bool
holds id hash row = (row.id == id) && (row.queue.content_hash == hash)

unfoldable pub mark_known_other_skipped : Outside → ℕ → ℕ → Action Bool
unfolding update_row is_fresh_reservation
mark_known_other_skipped out id hash =
    update_row (λ row. holds id hash row && not (is_fresh_reservation out.time row.queue))
      (λ row. record row { queue = cleared skipped row.queue; parse_error = false })
    >>= λ updated. pure (elim updated [ none ↦ false | some row ↦ true ])

-- Whether the stored identity of a file is not the one that `detect` finds now.
unfoldable pub is_stale : Detection → FilesRow → Bool
is_stale detection row =
    not
      (same_harness detection.harness row.harness && same_text detection.session_id row.session_id)
    || (is_skipped row.queue.parse_state
        && not (harness_code detection.harness == harness_code unknown))

unfoldable pub restamp_if_stale : Detection → FilesRow → Action Bool
unfolding update_row is_stale
restamp_if_stale detection existing =
    if is_stale detection existing
    then update_row (λ row. row.id == existing.id)
        (λ row. record row { harness = some detection.harness; session_id = detection.session_id })
      >> pure true
    else pure false

unfoldable pub owned : ℕ → Option (List ℕ) → SessionRow → Bool
owned id none session = session.canonical_file_id == id
owned id (some session_id) session =
    text_eq session.session_id session_id && (session.canonical_file_id == id)

abbrev pub flipped : ℕ → Option (List ℕ) → SessionRow → SessionRow
flipped id session_id session =
    if owned id session_id session then record session { is_parsing = true } else session

abbrev pub row_holds : ℕ → ℕ → Option FilesRow → Bool
row_holds id hash none = false
row_holds id hash (some row) = holds id hash row

unfoldable pub flip_owned_sessions_to_parsing : ℕ → Option (List ℕ) → ℕ → Action (Unit {0})
unfolding owned
flip_owned_sessions_to_parsing id session_id hash = modify λ hub.
    if row_holds id hash hub.row
    then record hub { sessions = map (flipped id session_id) hub.sessions }
    else hub

-- What an upload sets: the size and the time of the object, and its hash.
pub record Landed : Type 0 where
  pub size : ℕ
  pub mtime : Option ℕ
  pub hash : ℕ

abbrev pub target_state : Kind → ParseState
target_state kind = if is_other kind then skipped else pending

abbrev inserted : ℕ → Detection → Landed → FilesRow
inserted id detection landed = record {
  id = id;
  queue = record {
    parse_state = target_state detection.kind;
    content_hash = landed.hash;
    reserved_at = none;
    reserved_by = none;
    reserved_reason = none;
    reservation_generation = 0;
  };
  size = landed.size;
  mtime = landed.mtime;
  harness = some detection.harness;
  session_id = detection.session_id;
  parse_error = false;
}

-- The row keeps a fresh reservation; with other bytes its reason becomes `upload`.
abbrev conflicted_queue : Bool → ParseState → ℕ → FileRow → FileRow
conflicted_queue fresh state hash queue =
    if fresh
    then record queue {
      content_hash = hash;
      reserved_reason = if queue.content_hash == hash then queue.reserved_reason else some upload;
    }
    else record (cleared state queue) { content_hash = hash }

unfoldable pub conflicted : ℕ → Detection → Landed → FilesRow → FilesRow
unfolding is_fresh_reservation
conflicted time detection landed row =
    let fresh : Bool = is_fresh_reservation time row.queue in
    record row {
      queue = conflicted_queue fresh (target_state detection.kind) landed.hash row.queue;
      size = landed.size;
      mtime = landed.mtime;
      harness = some detection.harness;
      session_id = detection.session_id;
      parse_error =
          if fresh && (row.queue.content_hash == landed.hash) then row.parse_error else false;
    }

unfoldable pub upserted : Outside → Detection → Landed → Option FilesRow → FilesRow
unfolding conflicted
upserted out detection landed none = inserted out.new_id detection landed
upserted out detection landed (some row) = conflicted out.time detection landed row

-- `INSERT INTO files … ON CONFLICT … DO UPDATE`; the machine must have a row.
unfoldable pub upsert : Outside → Detection → Landed → Action FilesRow
unfolding upserted
upsert out detection landed hub = elim hub.machine [
  | none ↦ (hub, none)
  | some machine ↦ (
    record hub { row = some (upserted out detection landed hub.row) },
    some (upserted out detection landed hub.row),
  )
]

abbrev pub requeue_request : Outside → ℕ → Request
requeue_request out hash = record {
  hash = hash;
  reason = upload;
  force = false;
  time = out.time;
  check_time = out.check_time;
  queue_accepts = out.queue_accepts;
  others = λ row. row;
}

abbrev sent_after : List ParseMessage → Option ParseMessage → List ParseMessage
sent_after sent none = sent
sent_after sent (some message) = sent ++ message ∷ []

abbrev answer_of : Answer → Option Bool
answer_of (answered requeued) = some requeued
answer_of send_failed = none

-- `markPendingAndEnqueue(existing, 'upload', env)`.
unfoldable pub requeue : Outside → ℕ → Action Bool
unfolding mark_pending_and_enqueue
requeue out hash hub = elim hub.row [
  | none ↦ (hub, some false)
  | some row ↦
      let result : Requeued = mark_pending_and_enqueue (requeue_request out hash) row.queue in
      (
        record hub {
          row = some (record row { queue = result.row });
          sent = sent_after hub.sent result.sent;
        },
        answer_of result.answer,
      )
]
