-- ===== src/Uploads/Tests/Losses.antt =====
-- hub/src/api/upload.ts: runs in which a stored object is neither in its place nor preserved.
use agent_sessions_backup.Queue.{is_fresh_reservation, same_reason}
use agent_sessions_backup.Uploads.Rows.{
  flip_owned_sessions_to_parsing, conflicted, upserted, upsert,
}
use agent_sessions_backup.Uploads.Finish.{
  refresh_owner, finish_upload, flip_by_kind, stamp_last_upload, converge_r2_with_row,
  converge_body, record_row, record_uploaded_object,
}
use agent_sessions_backup.Uploads.Complete.{bytes_of}
use agent_sessions_backup.Uploads.Objects.{
  object_sha256, put_canonical, put_previous, copy_aside, has_hash, preserve_displaced_object,
  body_extends_stored,
}
use agent_sessions_backup.Uploads.Put.{
  recorded_put, store_canonical, store_if_preserved, preserve_first, put_changed,
}
use agent_sessions_backup.Uploads.State.{
  on_bucket, modify, pure, caught, send, UploadReply, StoredObject, Hub, ◌>>=◌, stored,
}
use agent_sessions_backup.Uploads.Tests.{digest, outside, detection, parsed_row, hub}
use agent_sessions_backup.Prelude.{
  ℕ, ◌≡◌, refl, Option, none, some, List, [], ◌∷◌, lost_after, call, text_eq,
}

-- The bytes of the canonical object, and whether those with digest 32 are preserved.
abbrev kept_bytes : Hub → Option (List ℕ) × Option StoredObject
kept_bytes after = (bytes_of after.bucket.canonical, after.bucket.previous 32)

-- R2 has stored the grown file, but its answer is lost: the row still has the old hash.
abbrev after_growth : Hub
after_growth =
    (put_changed digest (record outside { canonical_put = lost_after }) detection (some parsed_row)
      113 none (5 ∷ 6 ∷ 7 ∷ []) hub).0

growth_kept : kept_bytes after_growth ≡ (some (5 ∷ 6 ∷ 7 ∷ []), none)
unfolding put_changed preserve_first body_extends_stored preserve_displaced_object has_hash
    copy_aside put_previous store_if_preserved store_canonical put_canonical recorded_put
    record_uploaded_object upsert upserted conflicted is_fresh_reservation record_row converge_body
    converge_r2_with_row object_sha256 stamp_last_upload flip_by_kind flip_owned_sessions_to_parsing
    finish_upload refresh_owner send same_reason text_eq ◌>>=◌ caught pure modify on_bucket call
growth_kept = refl

-- A rewrite then finds an object without the hash of the row and preserves nothing: the bytes of the
-- first upload are lost, with those of the second.
rewrite_loses :
    kept_bytes
      (put_changed digest outside detection after_growth.row 12 none (9 ∷ []) after_growth).0
    ≡ (some (9 ∷ []), none)
unfolding put_changed preserve_first body_extends_stored preserve_displaced_object has_hash
    copy_aside put_previous store_if_preserved store_canonical put_canonical recorded_put
    record_uploaded_object upsert upserted conflicted is_fresh_reservation record_row converge_body
    converge_r2_with_row object_sha256 stamp_last_upload flip_by_kind flip_owned_sessions_to_parsing
    finish_upload refresh_owner send same_reason text_eq ◌>>=◌ caught pure modify on_bucket call
rewrite_loses = refl

-- One request has read the row and preserved the stored object; another then stores the bytes [8]
-- whole and is answered; the first goes on.
abbrev after_guard : Hub
after_guard = (preserve_first digest outside (9 ∷ []) (some parsed_row) hub).0

abbrev between : Hub × Option UploadReply
between = put_changed digest outside detection (some parsed_row) 11 none (8 ∷ []) after_guard

overtaken_is_stored : between.1 ≡ some (stored 1)
unfolding put_changed preserve_first body_extends_stored preserve_displaced_object has_hash
    copy_aside put_previous store_if_preserved store_canonical put_canonical recorded_put
    record_uploaded_object upsert upserted conflicted is_fresh_reservation record_row converge_body
    converge_r2_with_row object_sha256 stamp_last_upload flip_by_kind flip_owned_sessions_to_parsing
    finish_upload refresh_owner send same_reason text_eq ◌>>=◌ caught pure modify on_bucket call
overtaken_is_stored = refl

abbrev overtaken : Hub
overtaken = (store_if_preserved digest outside detection 12 none (9 ∷ []) (some tt) between.0).0

overtaken_loses :
    (bytes_of overtaken.bucket.canonical ≡ some (9 ∷ [])) × (overtaken.bucket.previous 11 ≡ none)
unfolding put_changed preserve_first body_extends_stored preserve_displaced_object has_hash
    copy_aside put_previous store_if_preserved store_canonical put_canonical recorded_put
    record_uploaded_object upsert upserted conflicted is_fresh_reservation record_row converge_body
    converge_r2_with_row object_sha256 stamp_last_upload flip_by_kind flip_owned_sessions_to_parsing
    finish_upload refresh_owner send same_reason text_eq ◌>>=◌ caught pure modify on_bucket call
overtaken_loses = (refl, refl)
