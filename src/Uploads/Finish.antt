-- ===== src/Uploads/Finish.antt =====
-- hub/src/api/upload.ts: what follows once the bytes of a file are in R2, for either way of storing.
use agent_sessions_backup.Uploads.Rows.{
  is_other, row_holds, is_export_archive, Landed, cleared, holds, upsert,
  flip_owned_sessions_to_parsing,
}
use agent_sessions_backup.Uploads.Objects.{object_sha256, has_hash, put_canonical}
use agent_sessions_backup.Uploads.State.{
  stored, UploadReply, modify, pure, on_bucket, Action, update_row, send, StoredObject, Outside,
  FilesRow, ◌>>=◌, ◌>>◌,
}
use agent_sessions_backup.Queue.{
  FileRow, pending, skipped, is_fresh_reservation, ParseMessage, is_reserved, same_reason, upload,
}
use agent_sessions_backup.Detect.{Kind, Detection}
use agent_sessions_backup.Prelude.{
  ℕ, Bool, true, false, not, ◌&&◌, ◌||◌, Option, none, some, List, ◌∷◌, ◌==◌, if◌then◌else◌, length,
}

abbrev pub upload_message : ℕ → Option (ℕ × ℕ) → ParseMessage
upload_message hash reservation = record {
  reason = upload;
  message_hash = hash;
  reservation = reservation;
}

-- The time of the row, if the row holds the hash.
abbrev pub mtime_of : ℕ → ℕ → Option FilesRow → Option (Option ℕ)
mtime_of id hash none = none
mtime_of id hash (some row) = if holds id hash row then some row.mtime else none

unfoldable pub restore : (List ℕ → ℕ) → Outside → ℕ → Option ℕ → List ℕ → Action Bool
unfolding put_canonical
restore sha256 out hash mtime body =
    on_bucket (put_canonical sha256 out.restore_put body hash mtime) >> pure true

unfoldable pub converge_r2_with_row : (List ℕ → ℕ) → Outside → ℕ → ℕ → List ℕ → Action Bool
unfolding restore has_hash object_sha256
converge_r2_with_row sha256 out id hash body hub = elim (mtime_of id hash hub.row) [
  | none ↦ (hub, some false)
  | some mtime ↦
      if not out.head_reads
      then (hub, none)
      else (if has_hash (object_sha256 hub.bucket.canonical) hash
          then (hub, some false)
          else restore sha256 out hash mtime body hub)
]

unfoldable pub converge_body : (List ℕ → ℕ) → Outside → ℕ → ℕ → Option (List ℕ) → Action (Unit {0})
unfolding converge_r2_with_row
converge_body sha256 out id hash none = pure tt
converge_body sha256 out id hash (some body) =
    converge_r2_with_row sha256 out id hash body >> pure tt

unfoldable pub stamp_last_upload : Outside → Action (Unit {0})
stamp_last_upload out = modify λ hub. record hub {
  machine = elim hub.machine [ none ↦ none | some last ↦ some (some out.time) ];
}

unfoldable pub flip_by_kind : ℕ → ℕ → Option (List ℕ) → Kind → Action (Unit {0})
unfolding flip_owned_sessions_to_parsing
flip_by_kind id hash (some (c ∷ session_id)) kind =
    flip_owned_sessions_to_parsing id (some (c ∷ session_id)) hash
flip_by_kind id hash session_id kind =
    if is_export_archive kind then flip_owned_sessions_to_parsing id none hash else pure tt

-- The object that R2 has of the path, where its checksum is not the hash of the row.
abbrev pub other_object : ℕ → Option StoredObject → Option (StoredObject × ℕ)
other_object hash none = none
other_object hash (some object) = elim object.checksum [
  | none ↦ none
  | some observed ↦ if observed == hash then none else some (object, observed)
]

abbrev realigned_queue : Bool → Bool → ℕ → FileRow → FileRow
realigned_queue fresh known_other observed queue =
    if fresh
    then record queue { content_hash = observed; reserved_reason = some upload }
    else record (cleared (if known_other then skipped else pending) queue) {
      content_hash = observed;
    }

unfoldable pub realigned : ℕ → Bool → StoredObject → ℕ → FilesRow → FilesRow
unfolding is_fresh_reservation
realigned time known_other object observed row = record row {
  queue = realigned_queue (is_fresh_reservation time row.queue) known_other observed row.queue;
  size = length object.bytes;
  mtime = object.mtime;
  parse_error = false;
}

-- The owner of a row that is still reserved.
abbrev pub owner_of : FileRow → Option ℕ
owner_of queue = if is_reserved queue.parse_state then queue.reserved_by else none

unfoldable pub send_realigned : Outside → Bool → ℕ → FilesRow → Action Bool
unfolding send flip_owned_sessions_to_parsing
send_realigned out known_other observed row =
    (if known_other then pure tt else flip_owned_sessions_to_parsing row.id none observed)
    >> elim (owner_of row.queue) [
      | some owner ↦
          send out.queue_accepts
            (upload_message observed (some (owner, row.queue.reservation_generation)))
      | none ↦
          if known_other then pure tt else send out.queue_accepts (upload_message observed none)
    ]
    >> pure true

unfoldable pub send_if_updated : Outside → Bool → ℕ → Option FilesRow → Action Bool
unfolding send_realigned
send_if_updated out known_other observed none = pure false
send_if_updated out known_other observed (some row) = send_realigned out known_other observed row

unfoldable pub realign : Outside → ℕ → ℕ → Bool → StoredObject → ℕ → Action Bool
unfolding update_row realigned send_if_updated
realign out id hash known_other object observed =
    update_row (holds id hash) (realigned out.time known_other object observed)
    >>= send_if_updated out known_other observed

unfoldable pub converge_multipart_row : Outside → ℕ → ℕ → Bool → Action Bool
unfolding realign
converge_multipart_row out id hash known_other hub =
    if not (row_holds id hash hub.row)
    then (hub, some false)
    else (if not out.head_reads
        then (hub, none)
        else elim (other_object hash hub.bucket.canonical) [
          | none ↦ (hub, some false)
          | some (object, observed) ↦ realign out id hash known_other object observed hub
        ])

unfoldable pub refresh_owner : Outside → ℕ → FileRow → Action (Unit {0})
unfolding send
refresh_owner out hash queue = elim queue.reserved_by [
  | none ↦ pure tt
  | some owner ↦
      send out.queue_accepts (upload_message hash (some (owner, queue.reservation_generation)))
]

unfoldable pub finish_upload : Outside → Bool → ℕ → FilesRow → Bool → Action UploadReply
unfolding refresh_owner send same_reason
finish_upload out known_other hash row was_realigned =
    let preserved : Bool = is_reserved row.queue.parse_state in
    let reserved_upload : Bool = preserved && same_reason row.queue.reserved_reason (some upload) in
    (if not was_realigned && reserved_upload then refresh_owner out hash row.queue else pure tt)
    >> (if known_other || (was_realigned || preserved)
        then pure tt
        else send out.queue_accepts (upload_message hash none))
    >> pure (stored row.id)

abbrev pub may_flip : FileRow → Bool
may_flip queue =
    not (is_reserved queue.parse_state) || same_reason queue.reserved_reason (some upload)

-- What follows the upsert, with the row that it returned.
unfoldable pub record_row :
    (List ℕ → ℕ)
    → Outside
    → Detection
    → Landed
    → Option (List ℕ)
    → Bool
    → FilesRow
    → Action UploadReply
unfolding converge_body stamp_last_upload flip_by_kind converge_multipart_row finish_upload
record_row sha256 out detection landed body observe row =
    converge_body sha256 out row.id landed.hash body
    >> stamp_last_upload out
    >> (if may_flip row.queue
        then flip_by_kind row.id landed.hash detection.session_id detection.kind
        else pure tt)
    >> (if observe
        then converge_multipart_row out row.id landed.hash (is_other detection.kind)
        else pure false)
    >>= finish_upload out (is_other detection.kind) landed.hash row

unfoldable pub record_uploaded_object :
    (List ℕ → ℕ) → Outside → Detection → Landed → Option (List ℕ) → Bool → Action UploadReply
unfolding upsert record_row
record_uploaded_object sha256 out detection landed body observe =
    upsert out detection landed >>= record_row sha256 out detection landed body observe
