-- ===== src/Uploads/State.antt =====
-- hub/src/api/upload.ts: what the upload routes keep of one path, and the actions on it.
use agent_sessions_backup.Prelude.{
  ℕ, Bool, Option, none, some, List, [], ◌∷◌, ◌++◌, if◌then◌else◌, Call,
}
use agent_sessions_backup.Queue.{FileRow, ParseMessage}
use agent_sessions_backup.Detect.{Harness}

-- `checksum` is `checksums.sha256`, which R2 has of an object that was put with a hash.
pub record StoredObject : Type 0 where
  pub bytes : List ℕ
  pub checksum : Option ℕ
  pub mtime : Option ℕ

-- The objects under `raw/…`, under `raw-prev/…/{hash}` and, by the nonce of the upload, under
-- `mpu-staging/…`.
pub record Bucket : Type 0 where
  pub canonical : Option StoredObject
  pub previous : ℕ → Option StoredObject
  pub staging : List ℕ → Option StoredObject

pub record FilesRow : Type 0 where
  pub id : ℕ
  pub queue : FileRow
  pub size : ℕ
  pub mtime : Option ℕ
  pub harness : Option Harness
  pub session_id : Option (List ℕ)
  pub parse_error : Bool

pub record SessionRow : Type 0 where
  pub session_id : List ℕ
  pub canonical_file_id : ℕ
  pub is_parsing : Bool

-- `machine` is the row of the machine, with `last_upload_at`.
pub record Hub : Type 0 where
  pub machine : Option (Option ℕ)
  pub bucket : Bucket
  pub row : Option FilesRow
  pub sessions : List SessionRow
  pub sent : List ParseMessage

-- The clock of the request and of the check that follows an update, what R2 and the queue do at each
-- call, and the id that a new row gets.
pub record Outside : Type 0 where
  pub is_preview : Bool
  pub time : ℕ
  pub check_time : ℕ
  pub new_id : ℕ
  pub body_is_read : Bool
  pub queue_accepts : Bool
  pub preserve_reads : Bool
  pub preserve_put : Call
  pub canonical_put : Call
  pub head_reads : Bool
  pub restore_put : Call
  pub complete_call : Call
  pub staged_reads : Bool
  pub prefix_reads : Bool
  pub staging_deletes : Bool

-- An identity's fields beyond these two have no part here.
pub data Identity : Type 0 where
  machine_identity : ℕ → Bool → Identity
  other_identity : Identity

-- The answers of the routes; an error that no route catches is no answer.
pub data UploadReply : Type 0 where
  unauthorized machine_mismatch missing_or_bad_content_hash : UploadReply
  missing_content_length missing_body body_read_failure : UploadReply
  checksum_or_write_failure preserve_failed : UploadReply
  missing_x_file_size bad_x_file_size bad_upload_id no_parts : UploadReply
  complete_failed staging_missing_after_complete checksum_mismatch : UploadReply
  file_too_large create_multipart_failed : UploadReply
  bad_part_number bad_or_small_part_size bad_last_part : UploadReply
  non_uniform_part upload_part_failed : UploadReply
  unchanged unchanged_skipped : ℕ → UploadReply
  unchanged_requeued : ℕ → Bool → UploadReply
  stored : ℕ → UploadReply
  created : List ℕ → UploadReply
  part_stored : ℕ → UploadReply
  aborted gone : UploadReply

-- A step that changes the state and returns, or throws: what was written stays written.
abbrev pub Action : Type 0 → Type 0
Action A = Hub → Hub × Option A

module _ {A : Type 0} where
  unfoldable pub pure : A → Action A
  pure a hub = (hub, some a)

  unfoldable pub throw : Action A
  throw hub = (hub, none)

  unfoldable pub gets : (Hub → A) → Action A
  gets f hub = (hub, some (f hub))

  -- `try { … } catch { … }`.
  unfoldable pub caught : Action A → Action (Option A)
  caught run hub = ((run hub).0, some (run hub).1)

infixl 5 ◌>>=◌ ◌>>◌
unfoldable pub ◌>>=◌ : {A B : Type 0} → Action A → (A → Action B) → Action B
◌>>=◌ m f hub = elim (m hub).1 [ none ↦ ((m hub).0, none) | some a ↦ f a (m hub).0 ]

abbrev pub ◌>>◌ : {A B : Type 0} → Action A → Action B → Action B
m >> k = m >>= λ _. k

unfoldable pub modify : (Hub → Hub) → Action (Unit {0})
modify f hub = (f hub, some tt)

-- A call of R2 on the objects of the path.
unfoldable pub on_bucket : {A : Type 0} → (Bucket → Bucket × Option A) → Action A
on_bucket f hub = (record hub { bucket = (f hub.bucket).0 }, (f hub.bucket).1)

abbrev updated_row : (FilesRow → Bool) → (FilesRow → FilesRow) → Option FilesRow → Option FilesRow
updated_row test change none = none
updated_row test change (some row) = if test row then some (change row) else none

-- `UPDATE files … WHERE … RETURNING …`.
unfoldable pub update_row : (FilesRow → Bool) → (FilesRow → FilesRow) → Action (Option FilesRow)
update_row test change hub =
    let updated : Option FilesRow = updated_row test change hub.row in
    (elim updated [ none ↦ hub | some row ↦ record hub { row = some row } ], some updated)

-- The queue takes the message, or throws.
unfoldable pub send : Bool → ParseMessage → Action (Unit {0})
send accepts message hub =
    if accepts then (record hub { sent = hub.sent ++ message ∷ [] }, some tt) else (hub, none)
