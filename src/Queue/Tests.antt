-- ===== src/Queue/Tests.antt =====
-- The theorems on the requeue at concrete inputs.
use agent_sessions_backup.Queue.Requeue.{
  mark_pending_and_enqueue-open, mark_pending_and_enqueue-LeavesAlone, is_open, LeavesAlone,
}
use agent_sessions_backup.Prelude.{◌≡◌, refl, true, false, some}
use agent_sessions_backup.Queue.{
  FileRow, reserved, upload, reindex, Request, is_fresh_reservation, mark_pending_and_enqueue,
}

-- Owner 4 has reserved the file at 1000 for an upload.
abbrev reserved_row : FileRow
reserved_row = record {
  parse_state = reserved;
  content_hash = 9;
  reserved_at = some 1000;
  reserved_by = some 4;
  reserved_reason = some upload;
  reservation_generation = 2;
}

abbrev request : Request
request = record {
  hash = 9;
  reason = reindex;
  force = false;
  time = 2000;
  check_time = 2001;
  queue_accepts = true;
  others = λ row. row;
}

row_is_fresh : is_fresh_reservation 2000 reserved_row ≡ true
unfolding is_fresh_reservation
row_is_fresh = refl

mark_pending_and_enqueue-LeavesAlone_example :
    LeavesAlone reserved_row (mark_pending_and_enqueue request reserved_row)
mark_pending_and_enqueue-LeavesAlone_example =
    mark_pending_and_enqueue-LeavesAlone request reserved_row refl row_is_fresh

mark_pending_and_enqueue-open_example :
    is_open (mark_pending_and_enqueue request reserved_row).row.parse_state ≡ true
mark_pending_and_enqueue-open_example =
    mark_pending_and_enqueue-open request reserved_row (λ row. refl)
