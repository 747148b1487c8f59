-- ===== src/Uploads/Check/Fixed.antt =====
-- hub/src/api/upload.ts: a resync changes neither the hash of a row nor an object.
use agent_sessions_backup.Queue.Hashes.{mark_pending_and_enqueue-hash}
use agent_sessions_backup.Uploads.Keeping.{bind-Keeps, pure-Keeps, if-Keeps, Frames}
use agent_sessions_backup.Uploads.Check.{resync_present}
use agent_sessions_backup.Uploads.Put.{resync, requeue_if, skip_if_other}
use agent_sessions_backup.Uploads.Rows.{
  requeue_request, is_other, is_stale, mark_known_other_skipped, requeue, restamp_if_stale,
}
use agent_sessions_backup.Uploads.State.{
  unchanged_requeued, unchanged_skipped, unchanged, Outside, update_row, Bucket, FilesRow,
}
use agent_sessions_backup.Detect.{Detection}
use agent_sessions_backup.Prelude.{
  ℕ, ◌≡◌, refl, inl, inr, Bool, true, false, Option, none, some, Bool-cases, Option-cases,
}

abbrev pub hash_of : Option FilesRow → Option ℕ
hash_of none = none
hash_of (some row) = some row.queue.content_hash

-- The row has the hash, and the objects are these.
abbrev pub IsFixed : Option ℕ → Bucket → Option FilesRow → Bucket → Type 0
IsFixed c b0 row b = (hash_of row ≡ c) × (b ≡ b0)

module _ (c : Option ℕ) (b0 : Bucket) where
  update_row-IsFixed :
      (test : FilesRow → Bool) (change : FilesRow → FilesRow)
      → ((r : FilesRow) → (change r).queue.content_hash ≡ r.queue.content_hash)
      → Frames (IsFixed c b0) (update_row test change)
  unfolding update_row
  update_row-IsFixed test change k = record {
    kept = λ hub p.
        let (h, b) = p in
        elim (Option-cases hub.row) [
          | inl e ↦ rw (update_row, e) (cc, b)
          | inr (row, e) ↦ elim (Bool-cases (test row)) [
            | inl t ↦ rw (update_row, e, t) (let s = k row in cc, b)
            | inr t ↦ rw (update_row, e, t) (cc, b)
          ]
        ];
  }

  restamp_if_stale-IsFixed :
      (d : Detection) (row : FilesRow) → Frames (IsFixed c b0) (restamp_if_stale d row)
  unfolding restamp_if_stale
  restamp_if_stale-IsFixed d row =
      if-Keeps (is_stale d row)
        (bind-Keeps (update_row-IsFixed _ _ (λ r. refl)) (λ updated. pure-Keeps true))
        (pure-Keeps false)

  requeue-IsFixed : (out : Outside) (hash : ℕ) → Frames (IsFixed c b0) (requeue out hash)
  unfolding requeue
  requeue-IsFixed out hash = record {
    kept = λ hub p.
        let (h, b) = p in
        elim (Option-cases hub.row) [
          | inl e ↦ rw (requeue, e) (cc, b)
          | inr (row, e) ↦
              let s =
                mark_pending_and_enqueue-hash (requeue_request out hash) row.queue (λ r. refl) in
              rw (requeue, e) (cc, b)
        ];
  }

  skip_if_other-IsFixed :
      (out : Outside) (d : Detection) (row : FilesRow) (hash : ℕ)
      → Frames (IsFixed c b0) (skip_if_other out d row hash)
  unfolding skip_if_other mark_known_other_skipped
  skip_if_other-IsFixed out d row hash =
      if-Keeps (is_other d.kind)
        (bind-Keeps (update_row-IsFixed _ _ (λ r. refl)) (λ updated. pure-Keeps _))
        (pure-Keeps false)

  requeue_if-IsFixed :
      (t : Bool) (out : Outside) (row : FilesRow) → Frames (IsFixed c b0) (requeue_if t out row)
  unfolding requeue_if
  requeue_if-IsFixed false out row = pure-Keeps (unchanged row.id)
  requeue_if-IsFixed true out row =
      bind-Keeps (requeue-IsFixed out row.queue.content_hash)
        (λ requeued. pure-Keeps (unchanged_requeued row.id requeued))

  pub resync_present-IsFixed :
      (out : Outside) (d : Detection) (row : FilesRow)
      → Frames (IsFixed c b0) (resync_present out d row)
  unfolding resync_present resync
  resync_present-IsFixed out d row = bind-Keeps (restamp_if_stale-IsFixed d row) λ restamped.
      bind-Keeps
        (bind-Keeps (skip_if_other-IsFixed out d row row.queue.content_hash) λ was_skipped.
          if-Keeps was_skipped (pure-Keeps (unchanged_skipped row.id))
            (requeue_if-IsFixed _ out row))
        (λ u. pure-Keeps tt)
