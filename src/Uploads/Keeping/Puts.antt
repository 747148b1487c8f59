-- ===== src/Uploads/Keeping/Puts.antt =====
-- hub/src/api/upload.ts: what the PUT of a file keeps, on each of its ways.
use agent_sessions_backup.Uploads.Keeping.Stored.{record_uploaded_object-Keeps}
use agent_sessions_backup.Uploads.Objects.{body_extends_stored, preserve_displaced_object}
use agent_sessions_backup.Uploads.Keeping.{
  on_bucket-Keeps, converge_r2_with_row-Keeps, mark_known_other_skipped-Keeps, caught-Keeps,
  restamp_if_stale-Keeps, requeue-Keeps, is_other, bind-Keeps, pure-Keeps, if-Keeps, Keeps,
  KeptByPuts,
}
use agent_sessions_backup.Uploads.Rows.{Landed}
use agent_sessions_backup.Uploads.Put.{
  store_if_preserved, store_canonical, recorded_put, preserve_first, put_same_hash, resync_restored,
  resync, requeue_if, skip_if_other,
}
use agent_sessions_backup.Uploads.State.{
  FilesRow, Outside, Bucket, unchanged, unchanged_skipped, unchanged_requeued, body_read_failure,
  checksum_or_write_failure, preserve_failed,
}
use agent_sessions_backup.Detect.{Detection}
use agent_sessions_backup.Prelude.{
  ℕ, ◌≡◌, subst, Bool, true, false, not, Option, none, some, List, Call,
}

same_body : {x y : List ℕ} → some x ≡ some y → x ≡ y
same_body e = cc

module _ {P : Bucket → Type 0} where
  skip_if_other-Keeps :
      (out : Outside) (d : Detection) (row : FilesRow) (hash : ℕ)
      → Keeps P (skip_if_other out d row hash)
  unfolding skip_if_other
  skip_if_other-Keeps out d row hash =
      if-Keeps (is_other d.kind) (mark_known_other_skipped-Keeps out row.id hash) (pure-Keeps false)

  requeue_if-Keeps : (t : Bool) (out : Outside) (row : FilesRow) → Keeps P (requeue_if t out row)
  unfolding requeue_if
  requeue_if-Keeps false out row = pure-Keeps (unchanged row.id)
  requeue_if-Keeps true out row =
      bind-Keeps (requeue-Keeps out row.queue.content_hash)
        (λ requeued. pure-Keeps (unchanged_requeued row.id requeued))

  pub resync-Keeps :
      (out : Outside) (d : Detection) (row : FilesRow) (hash : ℕ) (restamped restored : Bool)
      → Keeps P (resync out d row hash restamped restored)
  unfolding resync
  resync-Keeps out d row hash restamped restored =
      bind-Keeps (skip_if_other-Keeps out d row hash) λ was_skipped.
        if-Keeps was_skipped (pure-Keeps (unchanged_skipped row.id)) (requeue_if-Keeps _ out row)

  resync_restored-Keeps :
      (out : Outside) (d : Detection) (row : FilesRow) (hash : ℕ) (restamped : Bool)
      (restored : Option Bool)
      → Keeps P (resync_restored out d row hash restamped restored)
  unfolding resync_restored
  resync_restored-Keeps out d row hash restamped none = pure-Keeps checksum_or_write_failure
  resync_restored-Keeps out d row hash restamped (some restored) =
      resync-Keeps out d row hash restamped restored

  pub put_same_hash-Keeps :
      (sha256 : List ℕ → ℕ) (out : Outside) (d : Detection) (row : FilesRow) (hash : ℕ)
      (body : List ℕ)
      → KeptByPuts P sha256 row.queue.content_hash body
      → Keeps P (put_same_hash sha256 out d row hash body)
  unfolding put_same_hash
  put_same_hash-Keeps sha256 out d row hash body k =
      bind-Keeps (restamp_if_stale-Keeps d row) λ restamped.
        if-Keeps (not out.body_is_read) (pure-Keeps body_read_failure) (
          bind-Keeps
            (caught-Keeps
              (converge_r2_with_row-Keeps sha256 row.queue.content_hash body out row.id k))
            (resync_restored-Keeps out d row hash restamped))

  pub preserve_first-Keeps :
      (sha256 : List ℕ → ℕ) (out : Outside) (body : List ℕ) (existing : Option FilesRow)
      → ((reads : Bool) (outage : Call) (h : ℕ) (b : Bucket)
          → P b
          → P (preserve_displaced_object reads outage h b).0)
      → Keeps P (preserve_first sha256 out body existing)
  unfolding preserve_first
  preserve_first-Keeps sha256 out body none k = pure-Keeps tt
  preserve_first-Keeps sha256 out body (some row) k =
      if-Keeps (body_extends_stored sha256 body row.size row.queue.content_hash) (pure-Keeps tt) (
        bind-Keeps
          (on_bucket-Keeps _ (k out.preserve_reads out.preserve_put row.queue.content_hash))
          (λ u. pure-Keeps tt))

  recorded_put-Keeps :
      (sha256 : List ℕ → ℕ) (out : Outside) (d : Detection) (landed : Landed) (body : List ℕ)
      (put : Option (Unit {0}))
      → KeptByPuts P sha256 landed.hash body
      → Keeps P (recorded_put sha256 out d landed body put)
  unfolding recorded_put
  recorded_put-Keeps sha256 out d landed body none k = pure-Keeps checksum_or_write_failure
  recorded_put-Keeps sha256 out d landed body (some put) k =
      record_uploaded_object-Keeps sha256 out d landed (some body) false
        (λ bytes e. subst (KeptByPuts P sha256 landed.hash) (same_body e) k)

  pub store_canonical-Keeps :
      (sha256 : List ℕ → ℕ) (out : Outside) (d : Detection) (hash : ℕ) (mtime : Option ℕ)
      (body : List ℕ)
      → KeptByPuts P sha256 hash body
      → Keeps P (store_canonical sha256 out d hash mtime body)
  unfolding store_canonical
  store_canonical-Keeps sha256 out d hash mtime body k =
      bind-Keeps (caught-Keeps (on_bucket-Keeps _ (k out.canonical_put mtime)))
        (λ put. recorded_put-Keeps sha256 out d _ body put k)

  pub store_if_preserved-Keeps :
      (sha256 : List ℕ → ℕ) (out : Outside) (d : Detection) (hash : ℕ) (mtime : Option ℕ)
      (body : List ℕ) (preserved : Option (Unit {0}))
      → KeptByPuts P sha256 hash body
      → Keeps P (store_if_preserved sha256 out d hash mtime body preserved)
  unfolding store_if_preserved
  store_if_preserved-Keeps sha256 out d hash mtime body none k = pure-Keeps preserve_failed
  store_if_preserved-Keeps sha256 out d hash mtime body (some preserved) k =
      store_canonical-Keeps sha256 out d hash mtime body k
