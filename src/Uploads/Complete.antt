-- ===== src/Uploads/Complete.antt =====
-- hub/src/api/multipart.ts: the end of an upload in parts, and its abandonment. What R2 assembles of
-- the parts, or that it refuses them, is a parameter.
use agent_sessions_backup.Uploads.Rows.{Landed}
use agent_sessions_backup.Uploads.Finish.{record_uploaded_object}
use agent_sessions_backup.Uploads.Objects.{put_canonical}
use agent_sessions_backup.Uploads.Put.{refused, preserve_first}
use agent_sessions_backup.Uploads.Multipart.Tokens.{parse_upload_token, UploadToken}
use agent_sessions_backup.Uploads.Multipart.{parse_object_headers, PartsRequest}
use agent_sessions_backup.Uploads.State.{
  staging_missing_after_complete, aborted, no_parts, complete_failed, preserve_failed,
  checksum_mismatch, gone, bad_upload_id, gets, on_bucket, caught, throw, UploadReply, pure, Action,
  FilesRow, Outside, Bucket, StoredObject, ◌>>=◌, ◌>>◌,
}
use agent_sessions_backup.Detect.{Detection}
use agent_sessions_backup.Prelude.{
  ℕ, Bool, true, false, not, ◌&&◌, Option, none, some, List, ltb, leb, ◌==◌, if◌then◌else◌, length,
  Result, ok, err, Call, call, text_eq,
}

-- A part is its number and its etag.
pub record CompleteRequest : Type 0 where
  pub headers : PartsRequest
  pub parts : List (ℕ × List ℕ)

abbrev pub Assembly : Type 0
Assembly = UploadToken → List (ℕ × List ℕ) → Option (List ℕ)

abbrev pub stage : List ℕ → Option StoredObject → Bucket → Bucket × Unit {0}
stage nonce object b =
    (record b { staging = λ key. if text_eq key nonce then object else b.staging key }, tt)

unfoldable pub complete_staging :
    Call → List ℕ → Option (List ℕ) → Bucket → Bucket × Option (Unit {0})
complete_staging outage nonce none b = (b, none)
complete_staging outage nonce (some bytes) b =
    call outage (stage nonce (some (record { bytes = bytes; checksum = none; mtime = none }))) b

-- `delete(…).catch(() => {})`.
unfoldable pub delete_staging : Outside → List ℕ → Bucket → Bucket × Option (Unit {0})
delete_staging out nonce b =
    if out.staging_deletes then ((stage nonce none b).0, some tt) else (b, some tt)

abbrev pub has_returned : {A : Type 0} → Option A → Bool
has_returned none = false
has_returned (some a) = true

-- Whether the read of the staged prefix is asked for, and fails.
unfoldable pub prefix_fails : Outside → List ℕ → FilesRow → Bool
prefix_fails out bytes row = not out.prefix_reads && (leb row.size (length bytes) && ltb 0 row.size)

-- `false` where the copy aside has failed; an error of the prefix read is not caught.
unfoldable pub preserve_for : (List ℕ → ℕ) → Outside → ℕ → List ℕ → Option FilesRow → Action Bool
unfolding prefix_fails preserve_first
preserve_for sha256 out hash bytes none = pure true
preserve_for sha256 out hash bytes (some row) =
    if row.queue.content_hash == hash
    then pure true
    else (if prefix_fails out bytes row
        then throw
        else caught (preserve_first sha256 out bytes (some row)) >>= λ preserved.
            pure (has_returned preserved))

unfoldable pub finalized :
    (List ℕ → ℕ) → Outside → Detection → Landed → Option (Unit {0}) → Action UploadReply
unfolding record_uploaded_object
finalized sha256 out detection landed none = pure checksum_mismatch
finalized sha256 out detection landed (some put) =
    record_uploaded_object sha256 out detection landed none true

unfoldable pub finalize :
    (List ℕ → ℕ) → Outside → Detection → List ℕ → Landed → List ℕ → Action UploadReply
unfolding put_canonical delete_staging finalized
finalize sha256 out detection nonce landed bytes =
    caught (on_bucket (put_canonical sha256 out.canonical_put bytes landed.hash landed.mtime))
    >>= λ put. (on_bucket (delete_staging out nonce) >> finalized sha256 out detection landed put)

unfoldable pub finish_preserved :
    (List ℕ → ℕ) → Outside → Detection → List ℕ → ℕ → Option ℕ → List ℕ → Bool → Action UploadReply
unfolding delete_staging finalize
finish_preserved sha256 out detection nonce hash mtime bytes false =
    on_bucket (delete_staging out nonce) >> pure preserve_failed
finish_preserved sha256 out detection nonce hash mtime bytes true =
    finalize sha256 out detection nonce (record { size = length bytes; mtime = mtime; hash = hash })
      bytes

-- The object that R2 has assembled, if it is there.
unfoldable pub finish_staged :
    (List ℕ → ℕ)
    → Outside
    → Detection
    → List ℕ
    → ℕ
    → Option ℕ
    → Option FilesRow
    → Option (List ℕ)
    → Action UploadReply
unfolding preserve_for finish_preserved
finish_staged sha256 out detection nonce hash mtime existing none =
    pure staging_missing_after_complete
finish_staged sha256 out detection nonce hash mtime existing (some bytes) =
    preserve_for sha256 out hash bytes existing
    >>= finish_preserved sha256 out detection nonce hash mtime bytes

abbrev pub bytes_of : Option StoredObject → Option (List ℕ)
bytes_of none = none
bytes_of (some object) = some object.bytes

-- `RAW.get(stagKey)`: the bytes, nothing, or an error.
unfoldable pub staged_bytes : Outside → List ℕ → Action (Option (List ℕ))
staged_bytes out nonce hub =
    (hub, if out.staged_reads then some (bytes_of (hub.bucket.staging nonce)) else none)

unfoldable pub finish_completed :
    (List ℕ → ℕ)
    → Outside
    → Detection
    → List ℕ
    → ℕ
    → Option ℕ
    → Option FilesRow
    → Option (Unit {0})
    → Action UploadReply
unfolding staged_bytes finish_staged
finish_completed sha256 out detection nonce hash mtime existing none = pure complete_failed
finish_completed sha256 out detection nonce hash mtime existing (some completed) =
    staged_bytes out nonce >>= finish_staged sha256 out detection nonce hash mtime existing

unfoldable pub complete_upload :
    (List ℕ → ℕ)
    → Assembly
    → Outside
    → Detection
    → UploadToken
    → ℕ
    → Option ℕ
    → List (ℕ × List ℕ)
    → Action UploadReply
unfolding complete_staging finish_completed
complete_upload sha256 assemble out detection token hash mtime parts = do
  existing ← gets (λ hub. hub.row)
  completed ←
      caught (on_bucket (complete_staging out.complete_call token.nonce (assemble token parts)))
  finish_completed sha256 out detection token.nonce hash mtime existing completed

unfoldable pub checked_complete : CompleteRequest → Result UploadReply (UploadToken × ℕ)
unfolding parse_upload_token parse_object_headers
checked_complete q = elim (parse_upload_token q.headers.upload_id) [
  | none ↦ err bad_upload_id
  | some token ↦ elim (parse_object_headers q.headers) [
    | err reply ↦ err reply
    | ok (hash, size) ↦ if length q.parts == 0 then err no_parts else ok (token, hash)
  ]
]

unfoldable pub complete_checked :
    (List ℕ → ℕ)
    → Assembly
    → Outside
    → Detection
    → CompleteRequest
    → Result UploadReply (UploadToken × ℕ)
    → Action UploadReply
unfolding complete_upload
complete_checked sha256 assemble out detection q (err reply) = pure reply
complete_checked sha256 assemble out detection q (ok (token, hash)) =
    complete_upload sha256 assemble out detection token hash q.headers.mtime q.parts

unfoldable pub complete_multipart :
    (List ℕ → ℕ) → Assembly → Outside → Detection → CompleteRequest → Action UploadReply
unfolding refused checked_complete complete_checked
complete_multipart sha256 assemble out detection q =
    elim (refused q.headers.identity q.headers.machine_id) [
      | some reply ↦ pure reply
      | none ↦ complete_checked sha256 assemble out detection q (checked_complete q)
    ]

-- `aborts` is whether R2 knows the upload.
unfoldable pub abort_multipart : (UploadToken → Bool) → Outside → PartsRequest → Action UploadReply
unfolding refused parse_upload_token delete_staging
abort_multipart aborts out q = elim (refused q.identity q.machine_id) [
  | some reply ↦ pure reply
  | none ↦ elim (parse_upload_token q.upload_id) [
    | none ↦ pure gone
    | some token ↦
        on_bucket (delete_staging out token.nonce) >> pure (if aborts token then aborted else gone)
  ]
]
