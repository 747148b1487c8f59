-- ===== src/Uploads/Tests.antt =====
-- hub/src/api/upload.ts and hub/src/api/multipart.ts: concrete uploads.
mod Losses
use agent_sessions_backup.Uploads.Check.Chunks.{chunks-binds, binds}
use agent_sessions_backup.Uploads.Check.Replies.{check_files-missing}
use agent_sessions_backup.Uploads.Keeping.Answers.{finalize-IsRecorded, put_changed-IsRecorded}
use agent_sessions_backup.Uploads.Check.Missing.{absent_paths}
use agent_sessions_backup.Uploads.Check.{
  missing_paths, resync_present, verified_row, present_or_missing, at_path, check_item, check_chunk,
  chunks_from, head_fails, heads_fail, checked_chunk, check_chunks, file_check_chunk_size,
  check_files, World, chunks, CheckItem,
}
use agent_sessions_backup.Uploads.Multipart.Parts.{checked_part-IsFit, IsFit}
use agent_sessions_backup.Uploads.Multipart.Tokens.{
  parse_upload_token-upload_token, upload_token, parse_upload_token,
}
use agent_sessions_backup.Uploads.Keeping.Agreement.{converge_multipart_row-agrees, Agree}
use agent_sessions_backup.Uploads.Keeping.Recorded.{IsRecorded}
use agent_sessions_backup.Uploads.Rows.{
  is_stale, restamp_if_stale, Landed, flip_owned_sessions_to_parsing, conflicted, upserted, upsert,
}
use agent_sessions_backup.Uploads.Finish.{
  converge_multipart_row, refresh_owner, finish_upload, flip_by_kind, stamp_last_upload,
  converge_r2_with_row, converge_body, record_row, record_uploaded_object,
}
use agent_sessions_backup.Uploads.Objects.{
  object_sha256, put_canonical, put_previous, copy_aside, has_hash, preserve_displaced_object,
  body_extends_stored,
}
use agent_sessions_backup.Uploads.Recovery.Completes.{complete_multipart-Recoverable}
use agent_sessions_backup.Uploads.Recovery.Invariants.{put_file-IsSound}
use agent_sessions_backup.Uploads.Recovery.Puts.{put_file-Recoverable}
use agent_sessions_backup.Uploads.Complete.{
  delete_staging, finalized, finalize, complete_multipart, CompleteRequest,
}
use agent_sessions_backup.Uploads.Multipart.{
  part_refused, checked_body, part_number_refused, checked_part, PartRequest, PartsRequest,
}
use agent_sessions_backup.Uploads.Recovery.{Recoverable, IsSound}
use agent_sessions_backup.Uploads.Put.{
  requeue_if, skip_if_other, resync, same_as, refused, recorded_put, store_canonical,
  store_if_preserved, preserve_first, put_changed, put_file, PutRequest, hash_prefix,
}
use agent_sessions_backup.Uploads.State.{
  on_bucket, modify, pure, caught, send, Hub, Bucket, StoredObject, FilesRow, Outside, ◌>>=◌, ◌>>◌,
  machine_identity, stored,
}
use agent_sessions_backup.Detect.{Detection, Kind, session, claude_code}
use agent_sessions_backup.Queue.{
  same_reason, FileRow, upload, is_fresh_reservation, pending, parsed, reserved, reindex,
}
use agent_sessions_backup.Prelude.{
  ℕ, zero, suc, ◌+◌, ◌-◌, ◌*◌, ◌/◌, ◌%◌, ◌^◌, ◌≤◌, ◌<◌, min, max, ◌≡◌, refl, sym, ap, ◌∙◌, subst,
  ◌≡⟨◌⟩◌, ◌∎, ◌≢◌, ◌↔◌, ◌⊎◌, inl, inr, Bool, true, false, not, ◌&&◌, ◌||◌, Option, none, some, List,
  [], ◌∷◌, ◌++◌, map, append-nil, append_assoc, arith, dec_lt, ℕ_discrete, ltb, leb, ◌==◌,
  if◌then◌else◌, ltb→lt, lt→ltb, leb→le, ==_iff, tests, Bool-cases, Option-cases, length, take,
  drop, replicate, concat, get_elem?, All, length-append, take-append-drop, length-take,
  length-drop, take-append, drop-append, concat-append, All-append, All-map, ℤ, pos, negsuc, Result,
  ok, err, Result-cases, Call, done, lost_before, lost_after, call, call-kept, text_eq, starts_with,
  find, lower,
}

-- In the place of SHA-256.
abbrev pub digest : List ℕ → ℕ
digest [] = 1
digest (c ∷ bytes) = c + 3 * digest bytes

abbrev pub outside : Outside
outside = record {
  is_preview = false;
  time = 9000;
  check_time = 9001;
  new_id = 2;
  body_is_read = true;
  queue_accepts = true;
  preserve_reads = true;
  preserve_put = done;
  canonical_put = done;
  head_reads = true;
  restore_put = done;
  complete_call = done;
  staged_reads = true;
  prefix_reads = true;
  staging_deletes = true;
}

abbrev pub detection : Detection
detection = record {
  harness = claude_code;
  session_id = some (b'a' ∷ []);
  parent_session_id = none;
  kind = session;
}

abbrev pub parsed_row : FilesRow
parsed_row = record {
  id = 1;
  queue = record {
    parse_state = parsed;
    content_hash = 32;
    reserved_at = none;
    reserved_by = none;
    reserved_reason = none;
    reservation_generation = 0;
  };
  size = 2;
  mtime = none;
  harness = some claude_code;
  session_id = some (b'a' ∷ []);
  parse_error = false;
}

abbrev old_object : StoredObject
old_object = record { bytes = 5 ∷ 6 ∷ []; checksum = some 32; mtime = none }

abbrev old_bucket : Bucket
old_bucket = record { canonical = some old_object; previous = λ key. none; staging = λ key. none }

abbrev pub hub : Hub
hub = record {
  machine = some none;
  bucket = old_bucket;
  row = some parsed_row;
  sessions = [];
  sent = [];
}

-- `sha256:` and 64 digits, of which the last two are given.
abbrev header : ℕ → ℕ → List ℕ
header high low = hash_prefix ++ replicate 62 b'0' ++ high ∷ low ∷ []

-- Other bytes, whose digest is 12.
abbrev rewrite : PutRequest
rewrite = record {
  identity = machine_identity 1 false;
  machine_id = 1;
  content_hash = header b'0' b'c';
  mtime = none;
  content_length = some (some 1);
  x_file_size = none;
  body = some (9 ∷ []);
}

-- The stored bytes and one more; the digest is 113.
abbrev growth : PutRequest
growth = record rewrite {
  content_hash = header b'7' b'1';
  content_length = some (some 3);
  body = some (5 ∷ 6 ∷ 7 ∷ []);
}

old_bucket-IsSound : IsSound digest old_bucket
old_bucket-IsSound = record {
  canonical_sound = λ o h c s. let e : digest (5 ∷ 6 ∷ []) ≡ 32 = refl in cc;
  previous_sound = λ h o e. absurd cc;
}

put_file-Recoverable_example :
    Recoverable digest 32 (put_file digest outside detection rewrite hub).0.bucket
put_file-Recoverable_example =
    put_file-Recoverable digest outside detection rewrite hub parsed_row refl old_bucket-IsSound
      (old_object, refl, refl, refl)

put_file-IsSound_example : IsSound digest (put_file digest outside detection rewrite hub).0.bucket
put_file-IsSound_example = put_file-IsSound digest outside detection rewrite hub old_bucket-IsSound

abbrev parts_request : PartsRequest
parts_request = record {
  identity = machine_identity 1 false;
  machine_id = 1;
  upload_id = b'n' ∷ b'.' ∷ b'u' ∷ [];
  content_hash = header b'0' b'c';
  mtime = none;
  x_file_size = some (some 1);
}

abbrev complete_request : CompleteRequest
complete_request = record { headers = parts_request; parts = (1, b'e' ∷ []) ∷ [] }

complete_multipart-Recoverable_example :
    Recoverable digest 32
      (complete_multipart digest
        (λ token parts. some (9 ∷ []))
        outside
        detection
        complete_request
        hub).0.bucket
complete_multipart-Recoverable_example =
    complete_multipart-Recoverable digest (λ token parts. some (9 ∷ [])) outside detection
      complete_request hub parsed_row refl old_bucket-IsSound (old_object, refl, refl, refl)

rewrite_stored :
    (put_changed digest outside detection (some parsed_row) 12 none (9 ∷ []) hub).1
    ≡ some (stored 1)
unfolding put_changed preserve_first body_extends_stored preserve_displaced_object has_hash
    copy_aside put_previous store_if_preserved store_canonical put_canonical recorded_put
    record_uploaded_object upsert upserted conflicted is_fresh_reservation record_row converge_body
    converge_r2_with_row object_sha256 stamp_last_upload flip_by_kind flip_owned_sessions_to_parsing
    finish_upload refresh_owner send same_reason text_eq ◌>>=◌ caught pure modify on_bucket call
rewrite_stored = refl

put_changed-IsRecorded_example :
    IsRecorded 12
      (9 ∷ [])
      (put_changed digest outside detection (some parsed_row) 12 none (9 ∷ []) hub).0.row
      (put_changed digest outside detection (some parsed_row) 12 none (9 ∷ []) hub).0.bucket
put_changed-IsRecorded_example =
    put_changed-IsRecorded digest outside detection (some parsed_row) 12 none (9 ∷ []) 1 hub
      rewrite_stored

abbrev landed : Landed
landed = record { size = 1; mtime = none; hash = 12 }

finalize_stored :
    (finalize digest outside detection (b'n' ∷ []) landed (9 ∷ []) hub).1 ≡ some (stored 1)
unfolding finalize finalized delete_staging has_hash put_canonical record_uploaded_object upsert
    upserted conflicted is_fresh_reservation record_row converge_body converge_multipart_row
    object_sha256 stamp_last_upload flip_by_kind flip_owned_sessions_to_parsing finish_upload
    refresh_owner send same_reason text_eq ◌>>=◌ caught pure modify on_bucket call
finalize_stored = refl

finalize-IsRecorded_example :
    IsRecorded 12
      (9 ∷ [])
      (finalize digest outside detection (b'n' ∷ []) landed (9 ∷ []) hub).0.row
      (finalize digest outside detection (b'n' ∷ []) landed (9 ∷ []) hub).0.bucket
finalize-IsRecorded_example =
    finalize-IsRecorded digest outside detection (b'n' ∷ []) 12 none (9 ∷ []) 1 hub finalize_stored

-- R2 holds the bytes of another upload than the one that has the row.
abbrev crossed_hub : Hub
crossed_hub = record hub {
  bucket = record old_bucket {
    canonical = some (record { bytes = 9 ∷ []; checksum = some 12; mtime = none });
  };
}

converge_multipart_row-agrees_example :
    Agree
      (converge_multipart_row outside 1 32 false crossed_hub).0.row
      (converge_multipart_row outside 1 32 false crossed_hub).0.bucket
converge_multipart_row-agrees_example =
    converge_multipart_row-agrees outside false parsed_row crossed_hub refl refl

abbrev reserved_queue : FileRow
reserved_queue = record {
  parse_state = reserved;
  content_hash = 32;
  reserved_at = some 8000;
  reserved_by = some 4;
  reserved_reason = some reindex;
  reservation_generation = 2;
}

abbrev reserved_row : FilesRow
reserved_row = record parsed_row { queue = reserved_queue }

parse_upload_token-upload_token_example :
    parse_upload_token (upload_token (b'n' ∷ []) (b'.' ∷ b'u' ∷ []))
    ≡ some (record { nonce = b'n' ∷ []; r2_upload_id = b'.' ∷ b'u' ∷ [] })
parse_upload_token-upload_token_example =
    parse_upload_token-upload_token (b'n' ∷ []) (b'.' ∷ b'u' ∷ []) (refl, tt) (omega arith)
      (omega arith)

abbrev part_request : PartRequest
part_request = record {
  identity = machine_identity 1 false;
  machine_id = 1;
  upload_id = b'n' ∷ b'.' ∷ b'u' ∷ [];
  part_number = some 3;
  part_size = some 6000000;
  is_last = true;
  body = some (9 ∷ []);
}

part_is_checked :
    checked_part part_request
    ≡ ok (record { nonce = b'n' ∷ []; r2_upload_id = b'u' ∷ [] }, 3, 9 ∷ [])
unfolding checked_part refused parse_upload_token find starts_with part_number_refused checked_body
    part_refused
part_is_checked = refl

checked_part-IsFit_example : IsFit part_request 3 (9 ∷ [])
checked_part-IsFit_example =
    checked_part-IsFit part_request (record { nonce = b'n' ∷ []; r2_upload_id = b'u' ∷ [] }) 3
      (9 ∷ []) part_is_checked

abbrev items : List CheckItem
items =
    record { path = 0; hash = 32; outside = outside }
    ∷ record { path = 1; hash = 12; outside = outside }
    ∷ []

chunks-binds_example :
    (concat (chunks file_check_chunk_size items) ≡ items)
    × All (λ chunk. binds chunk ≤ 100) (chunks file_check_chunk_size items)
chunks-binds_example = chunks-binds items

abbrev world : World
world path = hub

check_is_answered :
    (check_files (λ path. detection) (machine_identity 1 false) items world).1
    ≡ some (missing_paths (1 ∷ []))
unfolding check_files check_chunks checked_chunk heads_fail head_fails same_as chunks chunks_from
    check_chunk check_item at_path present_or_missing verified_row has_hash object_sha256
    resync_present restamp_if_stale is_stale resync skip_if_other requeue_if text_eq ◌>>=◌ pure
check_is_answered = refl

check_files-missing_example : (1 ∷ []) ≡ absent_paths world items
check_files-missing_example =
    check_files-missing (λ path. detection) 1 false items world (1 ∷ []) check_is_answered
