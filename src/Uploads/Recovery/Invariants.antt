-- ===== src/Uploads/Recovery/Invariants.antt =====
-- hub/src/api/upload.ts and hub/src/api/multipart.ts: the objects stay sound through every request.
use agent_sessions_backup.Uploads.Recovery.Sound.{preserve_displaced_object-IsSound, put-KeptByPuts}
use agent_sessions_backup.Uploads.Keeping.Puts.{
  store_if_preserved-Keeps, preserve_first-Keeps, put_same_hash-Keeps,
}
use agent_sessions_backup.Uploads.Recovery.{IsSound}
use agent_sessions_backup.Uploads.Keeping.{
  caught-Keeps, throw-Keeps, if-Keeps, bind-Keeps, pure-Keeps, Keeps,
}
use agent_sessions_backup.Uploads.Put.{
  checked_request, refused, same_as, PutRequest, put_changed, put_file,
  ensure_preview_upload_machine, put_checked, put_body,
}
use agent_sessions_backup.Uploads.State.{
  pure, other_identity, machine_identity, Hub, Identity, Bucket, UploadReply, modify, Outside,
}
use agent_sessions_backup.Detect.{Detection}
use agent_sessions_backup.Prelude.{
  ℕ, inl, inr, not, ◌&&◌, Option, List, Option-cases, Result, ok, err,
}

put_body-IsSound :
    (sha256 : List ℕ → ℕ) (out : Outside) (d : Detection) (hash : ℕ) (mtime : Option ℕ)
    (body : List ℕ)
    → Keeps (IsSound sha256) (put_body sha256 out d hash mtime body)
unfolding put_body put_changed
put_body-IsSound sha256 out d hash mtime body = record {
  kept = λ hub sound. elim (Option-cases (same_as hash hub.row)) [
    | inr (row, e) ↦
        rw (put_body, e)
          ((put_same_hash-Keeps sha256 out d row hash body
              (put-KeptByPuts sha256 row.queue.content_hash body)).kept
            hub sound)
    | inl e ↦
        rw (put_body, e)
          ((if-Keeps (not out.body_is_read) throw-Keeps (
              bind-Keeps
                (caught-Keeps (
                  preserve_first-Keeps sha256 out body hub.row
                    (preserve_displaced_object-IsSound sha256)))
                (λ p.
                  store_if_preserved-Keeps sha256 out d hash mtime body p
                    (put-KeptByPuts sha256 hash body)))).kept
            hub sound)
  ];
}

put_checked-IsSound :
    (sha256 : List ℕ → ℕ) (out : Outside) (d : Detection) (mtime : Option ℕ)
    (checked : Result UploadReply (ℕ × List ℕ))
    → Keeps (IsSound sha256) (put_checked sha256 out d mtime checked)
unfolding put_checked
put_checked-IsSound sha256 out d mtime (err reply) = pure-Keeps reply
put_checked-IsSound sha256 out d mtime (ok (hash, body)) =
    put_body-IsSound sha256 out d hash mtime body

ensure-Keeps :
    {P : Bucket → Type 0} (out : Outside) (identity : Identity)
    → Keeps P (ensure_preview_upload_machine out identity)
unfolding ensure_preview_upload_machine modify
ensure-Keeps out other_identity = pure-Keeps tt
ensure-Keeps out (machine_identity own is_admin) =
    if-Keeps (out.is_preview && is_admin) (record { kept = λ hub p. p }) (pure-Keeps tt)

-- If every object that R2 has with a checksum has that hash, and every preserved object the hash that
-- it is kept under, then so it is after any PUT, with any outcome of each call.
pub put_file-IsSound :
    (sha256 : List ℕ → ℕ) (out : Outside) (d : Detection) (q : PutRequest) (hub : Hub)
    → IsSound sha256 hub.bucket
    → IsSound sha256 (put_file sha256 out d q hub).0.bucket
unfolding put_file pure
put_file-IsSound sha256 out d q hub sound = elim (Option-cases (refused q.identity q.machine_id)) [
  | inr (reply, e) ↦ rw (put_file, e) sound
  | inl e ↦
      rw (put_file, e)
        ((bind-Keeps (ensure-Keeps out q.identity)
            (λ u. put_checked-IsSound sha256 out d q.mtime (checked_request q))).kept
          hub sound)
]
