-- ===== src/Uploads/Recovery/Completes.antt =====
-- hub/src/api/multipart.ts: what an upload in parts does to the stored bytes that its row describes.
use agent_sessions_backup.Uploads.Put.{refused}
use agent_sessions_backup.Uploads.Multipart.Tokens.{UploadToken}
use agent_sessions_backup.Uploads.Keeping.Stored.{record_uploaded_object-Keeps}
use agent_sessions_backup.Uploads.Recovery.Puts.{
  preserve_first-IsGuarded, IsPreserved-KeptByPuts, Recoverable-KeptBySame, Describes-IsStored,
  Recoverable-KeptByPuts,
}
use agent_sessions_backup.Uploads.Keeping.{
  on_bucket-Keeps, caught-Keeps, bind-Keeps, pure-Keeps, Keeps,
}
use agent_sessions_backup.Uploads.Rows.{Landed}
use agent_sessions_backup.Uploads.Recovery.Guards.{IsStored-Recoverable, IsGuarded}
use agent_sessions_backup.Uploads.Recovery.{
  Describes, IsSound, FilesRow, Recoverable, KeptByPuts, IsPreserved,
}
use agent_sessions_backup.Uploads.Complete.{
  checked_complete, prefix_fails, CompleteRequest, Assembly, staged_bytes, complete_multipart,
  complete_checked, complete_upload, finish_completed, finish_staged, finish_preserved,
  has_returned, finalize, finalized, preserve_for, delete_staging, complete_staging,
}
use agent_sessions_backup.Uploads.State.{
  on_bucket, gets, UploadReply, Hub, throw, caught, pure, Outside, StoredObject, Bucket, ◌>>=◌,
  preserve_failed, checksum_mismatch,
}
use agent_sessions_backup.Detect.{Detection}
use agent_sessions_backup.Prelude.{
  ℕ, ◌≡◌, sym, subst, ◌⊎◌, inl, inr, Bool, true, false, Option, none, some, List, arith, ◌==◌,
  Bool-cases, Option-cases, Result, ok, err, Call, call-kept,
}

-- A predicate that does not read the staging objects.
abbrev pub IgnoresStaging : (Bucket → Type 0) → Type 0
IgnoresStaging P =
    (staging : List ℕ → Option StoredObject) (b : Bucket) → P b → P (record b { staging = staging })

complete_staging-kept :
    {P : Bucket → Type 0} (outage : Call) (nonce : List ℕ) (assembled : Option (List ℕ))
    → IgnoresStaging P
    → (b : Bucket) → P b
    → P (complete_staging outage nonce assembled b).0
unfolding complete_staging
complete_staging-kept outage nonce none i b p = p
complete_staging-kept {P = P} outage nonce (some bytes) i b p = call-kept P outage _ b p (i _ b p)

delete_staging-kept :
    {P : Bucket → Type 0} (out : Outside) (nonce : List ℕ)
    → IgnoresStaging P
    → (b : Bucket) → P b
    → P (delete_staging out nonce b).0
unfolding delete_staging
delete_staging-kept out nonce i b p = elim (Bool-cases out.staging_deletes) [
  | inl t ↦ rw (delete_staging, t) (i _ b p)
  | inr t ↦ rw (delete_staging, t) p
]

module _ {P : Bucket → Type 0} where
  finalized-Keeps :
      (sha256 : List ℕ → ℕ) (out : Outside) (d : Detection) (landed : Landed)
      (put : Option (Unit {0}))
      → Keeps P (finalized sha256 out d landed put)
  unfolding finalized
  finalized-Keeps sha256 out d landed none = pure-Keeps checksum_mismatch
  finalized-Keeps sha256 out d landed (some put) =
      record_uploaded_object-Keeps sha256 out d landed none true (λ bytes e. absurd cc)

  pub finalize-Keeps :
      (sha256 : List ℕ → ℕ) (out : Outside) (d : Detection) (nonce : List ℕ) (landed : Landed)
      (bytes : List ℕ)
      → IgnoresStaging P
      → KeptByPuts P sha256 landed.hash bytes
      → Keeps P (finalize sha256 out d nonce landed bytes)
  unfolding finalize
  finalize-Keeps sha256 out d nonce landed bytes i k =
      bind-Keeps (caught-Keeps (on_bucket-Keeps _ (k out.canonical_put landed.mtime))) λ put.
        bind-Keeps (on_bucket-Keeps _ (delete_staging-kept out nonce i))
          (λ u. finalized-Keeps sha256 out d landed put)

-- After the guard: where the upload goes on, the bytes with the hash are preserved, or the put keeps
-- them recoverable.
abbrev IsCleared : (List ℕ → ℕ) → ℕ → ℕ → List ℕ → Option Bool → Bucket → Type 0
IsCleared sha256 h hash bytes (some true) b =
    IsPreserved sha256 h b
    ⊎ (KeptByPuts (Recoverable sha256 h) sha256 hash bytes × Recoverable sha256 h b)
IsCleared sha256 h hash bytes _ b = Recoverable sha256 h b

guarded_returned :
    (sha256 : List ℕ → ℕ) (h hash : ℕ) (bytes : List ℕ) (preserved : Option (Unit {0})) (b : Bucket)
    → IsGuarded sha256 h bytes preserved b
    → IsCleared sha256 h hash bytes (some (has_returned preserved)) b
guarded_returned sha256 h hash bytes none b g = g
guarded_returned sha256 h hash bytes (some u) b (inl p) = inl p
guarded_returned sha256 h hash bytes (some u) b (inr (prefix, here)) =
    inr (Recoverable-KeptByPuts sha256 h hash bytes prefix, here)

preserve_for-IsCleared :
    (sha256 : List ℕ → ℕ) (out : Outside) (hash : ℕ) (bytes : List ℕ) (row : FilesRow) (hub : Hub)
    → IsSound sha256 hub.bucket
    → Describes row hub.bucket
    → IsCleared sha256 row.queue.content_hash hash bytes
        (preserve_for sha256 out hash bytes (some row) hub).1
        (preserve_for sha256 out hash bytes (some row) hub).0.bucket
unfolding preserve_for ◌>>=◌ pure caught throw
preserve_for-IsCleared sha256 out hash bytes row hub sound is =
    let here : Recoverable sha256 row.queue.content_hash hub.bucket =
      IsStored-Recoverable sha256 row.queue.content_hash hub.bucket
        (Describes-IsStored sha256 row hub.bucket sound is) in
    elim (Bool-cases (row.queue.content_hash == hash)) [
      | inl t ↦
          let same : row.queue.content_hash ≡ hash = ground arith in
          rw (preserve_for, t)
            (inr (
              subst (λ k. KeptByPuts (Recoverable sha256 row.queue.content_hash) sha256 k bytes)
                  same (Recoverable-KeptBySame sha256 row.queue.content_hash bytes),
              here,
            ))
      | inr t ↦ elim (Bool-cases (prefix_fails out bytes row)) [
        | inl f ↦ rw (preserve_for, t, f) here
        | inr f ↦
            rw (preserve_for, t, f)
              (guarded_returned sha256 row.queue.content_hash hash bytes _ _
                (preserve_first-IsGuarded sha256 out bytes row hub sound is))
      ]
    ]

finish_preserved-Recoverable :
    (sha256 : List ℕ → ℕ) (out : Outside) (d : Detection) (nonce : List ℕ) (h hash : ℕ)
    (mtime : Option ℕ) (bytes : List ℕ) (r : Option Bool) (hub : Hub)
    → IsCleared sha256 h hash bytes r hub.bucket
    → Recoverable sha256 h
        (elim r as (λ o. Hub × Option UploadReply) [
          | none ↦ (hub, none)
          | some a ↦ finish_preserved sha256 out d nonce hash mtime bytes a hub
        ]).0.bucket
unfolding finish_preserved
finish_preserved-Recoverable sha256 out d nonce h hash mtime bytes none hub here = here
finish_preserved-Recoverable sha256 out d nonce h hash mtime bytes (some false) hub here =
    (bind-Keeps {Q = λ row b. Recoverable sha256 h b}
        (on_bucket-Keeps _ (delete_staging-kept out nonce (λ s b p. p)))
        (λ u. pure-Keeps preserve_failed)).kept
      hub here
finish_preserved-Recoverable sha256 out d nonce h hash mtime bytes (some true) hub (inl p) = inl (
    (finalize-Keeps sha256 out d nonce _ bytes (λ s b q. q)
        (IsPreserved-KeptByPuts sha256 h hash bytes)).kept
      hub p)
finish_preserved-Recoverable sha256 out d nonce h hash mtime bytes (some true) hub (inr (k, here)) =
    (finalize-Keeps {P = Recoverable sha256 h} sha256 out d nonce _ bytes (λ s b q. q) k).kept hub
      here

finish_staged-Recoverable :
    (sha256 : List ℕ → ℕ) (out : Outside) (d : Detection) (nonce : List ℕ) (hash : ℕ)
    (mtime : Option ℕ) (row : FilesRow) (staged : Option (List ℕ)) (hub : Hub)
    → IsSound sha256 hub.bucket
    → Describes row hub.bucket
    → Recoverable sha256 row.queue.content_hash
        (finish_staged sha256 out d nonce hash mtime (some row) staged hub).0.bucket
unfolding finish_staged pure ◌>>=◌
finish_staged-Recoverable sha256 out d nonce hash mtime row none hub sound is =
    IsStored-Recoverable sha256 row.queue.content_hash hub.bucket
      (Describes-IsStored sha256 row hub.bucket sound is)
finish_staged-Recoverable sha256 out d nonce hash mtime row (some bytes) hub sound is =
    finish_preserved-Recoverable sha256 out d nonce row.queue.content_hash hash mtime bytes _ _
      (preserve_for-IsCleared sha256 out hash bytes row hub sound is)

finish_completed-Recoverable :
    (sha256 : List ℕ → ℕ) (out : Outside) (d : Detection) (nonce : List ℕ) (hash : ℕ)
    (mtime : Option ℕ) (row : FilesRow) (completed : Option (Unit {0})) (hub : Hub)
    → IsSound sha256 hub.bucket
    → Describes row hub.bucket
    → Recoverable sha256 row.queue.content_hash
        (finish_completed sha256 out d nonce hash mtime (some row) completed hub).0.bucket
unfolding finish_completed pure ◌>>=◌ staged_bytes
finish_completed-Recoverable sha256 out d nonce hash mtime row none hub sound is =
    IsStored-Recoverable sha256 row.queue.content_hash hub.bucket
      (Describes-IsStored sha256 row hub.bucket sound is)
finish_completed-Recoverable sha256 out d nonce hash mtime row (some u) hub sound is =
    elim (Bool-cases out.staged_reads) [
      | inl t ↦
          rw (finish_completed, ◌>>=◌, staged_bytes, t)
            (finish_staged-Recoverable sha256 out d nonce hash mtime row _ hub sound is)
      | inr t ↦
          rw (finish_completed, ◌>>=◌, staged_bytes, t)
            (IsStored-Recoverable sha256 row.queue.content_hash hub.bucket
              (Describes-IsStored sha256 row hub.bucket sound is))
    ]

finish_existing-Recoverable :
    (sha256 : List ℕ → ℕ) (out : Outside) (d : Detection) (nonce : List ℕ) (hash : ℕ)
    (mtime : Option ℕ) (row : FilesRow) (existing : Option FilesRow) (completed : Option (Unit {0}))
    (hub : Hub)
    → existing ≡ some row
    → IsSound sha256 hub.bucket
    → Describes row hub.bucket
    → Recoverable sha256 row.queue.content_hash
        (finish_completed sha256 out d nonce hash mtime existing completed hub).0.bucket
finish_existing-Recoverable sha256 out d nonce hash mtime row existing completed hub r sound is =
    subst
      (λ x.
        Recoverable sha256 row.queue.content_hash
          (finish_completed sha256 out d nonce hash mtime x completed hub).0.bucket)
      (sym r)
      (finish_completed-Recoverable sha256 out d nonce hash mtime row completed hub sound is)

-- The row describes the sound objects, whatever is in staging.
abbrev IsReady : (List ℕ → ℕ) → FilesRow → Bucket → Type 0
IsReady sha256 row b = IsSound sha256 b × Describes row b

IsReady-IgnoresStaging :
    (sha256 : List ℕ → ℕ) (row : FilesRow) → IgnoresStaging (IsReady sha256 row)
IsReady-IgnoresStaging sha256 row staging b (sound, is) =
    (record { canonical_sound = sound.canonical_sound; previous_sound = sound.previous_sound }, is)

complete_upload-Recoverable :
    (sha256 : List ℕ → ℕ) (assemble : Assembly) (out : Outside) (d : Detection)
    (token : UploadToken) (hash : ℕ) (mtime : Option ℕ) (parts : List (ℕ × List ℕ)) (hub : Hub)
    (row : FilesRow)
    → hub.row ≡ some row
    → IsSound sha256 hub.bucket
    → Describes row hub.bucket
    → Recoverable sha256 row.queue.content_hash
        (complete_upload sha256 assemble out d token hash mtime parts hub).0.bucket
unfolding complete_upload ◌>>=◌ gets caught on_bucket
complete_upload-Recoverable sha256 assemble out d token hash mtime parts hub row r sound is =
    let (sound', is') =
      complete_staging-kept {P = IsReady sha256 row} out.complete_call token.nonce
        (assemble token parts) (IsReady-IgnoresStaging sha256 row) hub.bucket (sound, is) in
    finish_existing-Recoverable sha256 out d token.nonce hash mtime row hub.row _ _ r sound' is'

complete_checked-Recoverable :
    (sha256 : List ℕ → ℕ) (assemble : Assembly) (out : Outside) (d : Detection)
    (q : CompleteRequest) (checked : Result UploadReply (UploadToken × ℕ)) (hub : Hub)
    (row : FilesRow)
    → hub.row ≡ some row
    → IsSound sha256 hub.bucket
    → Describes row hub.bucket
    → Recoverable sha256 row.queue.content_hash
        (complete_checked sha256 assemble out d q checked hub).0.bucket
unfolding complete_checked pure
complete_checked-Recoverable sha256 assemble out d q (err reply) hub row r sound is =
    IsStored-Recoverable sha256 row.queue.content_hash hub.bucket
      (Describes-IsStored sha256 row hub.bucket sound is)
complete_checked-Recoverable sha256 assemble out d q (ok (token, hash)) hub row r sound is =
    complete_upload-Recoverable sha256 assemble out d token hash q.headers.mtime q.parts hub row r
      sound is

-- If the row of a path describes its object, and what R2 stores under a hash has it, then after any
-- completion of an upload in parts to the path, whatever R2 assembles of the parts and answers to each
-- call (D1 does not fail here), the bytes that have the row's hash are under `previous`, or are the
-- beginning of the canonical object.
pub complete_multipart-Recoverable :
    (sha256 : List ℕ → ℕ) (assemble : Assembly) (out : Outside) (d : Detection)
    (q : CompleteRequest) (hub : Hub) (row : FilesRow)
    → hub.row ≡ some row
    → IsSound sha256 hub.bucket
    → Describes row hub.bucket
    → Recoverable sha256 row.queue.content_hash
        (complete_multipart sha256 assemble out d q hub).0.bucket
unfolding complete_multipart pure
complete_multipart-Recoverable sha256 assemble out d q hub row r sound is =
    elim (Option-cases (refused q.headers.identity q.headers.machine_id)) [
      | inr (reply, e) ↦
          rw (complete_multipart, e)
            (IsStored-Recoverable sha256 row.queue.content_hash hub.bucket
              (Describes-IsStored sha256 row hub.bucket sound is))
      | inl e ↦
          rw (complete_multipart, e)
            (complete_checked-Recoverable sha256 assemble out d q (checked_complete q) hub row r
              sound is)
    ]
