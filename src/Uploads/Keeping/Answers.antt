-- ===== src/Uploads/Keeping/Answers.antt =====
-- hub/src/api/upload.ts and hub/src/api/multipart.ts: what the answer `stored` means.
use agent_sessions_backup.Uploads.Keeping.{bind-returned}
use agent_sessions_backup.Uploads.Rows.{Landed}
use agent_sessions_backup.Uploads.Keeping.Recorded.{
  put_canonical-returned, record_uploaded_object-IsRecorded, IsRecorded, landed_object,
}
use agent_sessions_backup.Uploads.Complete.{stage, delete_staging, finalize, finalized}
use agent_sessions_backup.Uploads.Put.{
  store_canonical, put_changed, store_if_preserved, recorded_put,
}
use agent_sessions_backup.Uploads.State.{
  StoredObject, Bucket, FilesRow, Hub, throw, Outside, caught, pure, on_bucket, ◌>>=◌, ◌>>◌, stored,
}
use agent_sessions_backup.Detect.{Detection}
use agent_sessions_backup.Prelude.{
  ℕ, ◌≡◌, refl, ap, inl, inr, true, false, Option, none, some, List, Bool-cases, length,
}

recorded_put-IsRecorded :
    (sha256 : List ℕ → ℕ) (out : Outside) (d : Detection) (hash : ℕ) (mtime : Option ℕ)
    (body : List ℕ) (id : ℕ) (put : Option (Unit {0})) (hub : Hub)
    → ((u : Unit {0}) → put ≡ some u → hub.bucket.canonical ≡ some (landed_object hash mtime body))
    → let (after, result) =
        recorded_put sha256 out d
          (record { size = length body; mtime = mtime; hash = hash })
          body
          put
          hub in
      result ≡ some (stored id) → IsRecorded hash body after.row after.bucket
unfolding recorded_put pure
recorded_put-IsRecorded sha256 out d hash mtime body id none hub landed h = absurd cc
recorded_put-IsRecorded sha256 out d hash mtime body id (some u) hub landed h =
    record_uploaded_object-IsRecorded sha256 out d hash mtime body (some body) false (stored id) hub
      (landed u refl) h

store_if_preserved-IsRecorded :
    (sha256 : List ℕ → ℕ) (out : Outside) (d : Detection) (hash : ℕ) (mtime : Option ℕ)
    (body : List ℕ) (id : ℕ) (preserved : Option (Unit {0})) (hub : Hub)
    → let (after, result) = store_if_preserved sha256 out d hash mtime body preserved hub in
      result ≡ some (stored id) → IsRecorded hash body after.row after.bucket
unfolding store_if_preserved store_canonical pure ◌>>=◌ caught on_bucket
store_if_preserved-IsRecorded sha256 out d hash mtime body id none hub h = absurd cc
store_if_preserved-IsRecorded sha256 out d hash mtime body id (some u) hub h =
    recorded_put-IsRecorded sha256 out d hash mtime body id _ _
      (put_canonical-returned sha256 out.canonical_put body hash mtime hub.bucket) h

-- A PUT of other bytes that is answered with `stored` (201) has recorded them: the row has the
-- declared hash and the number of the bytes, and the canonical object is the bytes under that hash,
-- whatever the row and the objects were before.
pub put_changed-IsRecorded :
    (sha256 : List ℕ → ℕ) (out : Outside) (d : Detection) (existing : Option FilesRow) (hash : ℕ)
    (mtime : Option ℕ) (body : List ℕ) (id : ℕ) (hub : Hub)
    → let (after, result) = put_changed sha256 out d existing hash mtime body hub in
      result ≡ some (stored id) → IsRecorded hash body after.row after.bucket
unfolding put_changed ◌>>=◌ caught throw
put_changed-IsRecorded sha256 out d existing hash mtime body id hub =
    elim (Bool-cases out.body_is_read) [
      | inr t ↦ rw (put_changed, t) (λ h. absurd cc)
      | inl t ↦
          rw (put_changed, t) (store_if_preserved-IsRecorded sha256 out d hash mtime body id _ _)
    ]

finalized-IsRecorded :
    (sha256 : List ℕ → ℕ) (out : Outside) (d : Detection) (hash : ℕ) (mtime : Option ℕ)
    (bytes : List ℕ) (id : ℕ) (put : Option (Unit {0})) (hub : Hub)
    → ((u : Unit {0}) → put ≡ some u → hub.bucket.canonical ≡ some (landed_object hash mtime bytes))
    → let (after, result) =
        finalized sha256 out d
          (record { size = length bytes; mtime = mtime; hash = hash })
          put
          hub in
      result ≡ some (stored id) → IsRecorded hash bytes after.row after.bucket
unfolding finalized pure
finalized-IsRecorded sha256 out d hash mtime bytes id none hub landed h = absurd cc
finalized-IsRecorded sha256 out d hash mtime bytes id (some u) hub landed h =
    record_uploaded_object-IsRecorded sha256 out d hash mtime bytes none true (stored id) hub
      (landed u refl) h

deleted-canonical :
    (out : Outside) (nonce : List ℕ) (b : Bucket)
    → (staging : List ℕ → Option StoredObject) × (delete_staging out nonce b
        ≡ (record b { staging = staging }, some tt))
unfolding delete_staging
deleted-canonical out nonce b = elim (Bool-cases out.staging_deletes) [
  | inl t ↦ ((stage nonce none b).0.staging, rw (delete_staging, t) refl)
  | inr t ↦ (b.staging, rw (delete_staging, t) refl)
]

finalize_deleted-IsRecorded :
    (sha256 : List ℕ → ℕ) (out : Outside) (d : Detection) (nonce : List ℕ) (hash : ℕ)
    (mtime : Option ℕ) (bytes : List ℕ) (id : ℕ) (put : Option (Unit {0})) (hub : Hub)
    → ((u : Unit {0}) → put ≡ some u → hub.bucket.canonical ≡ some (landed_object hash mtime bytes))
    → let landed : Landed = record { size = length bytes; mtime = mtime; hash = hash } in
      let (after, result) =
        (on_bucket (delete_staging out nonce) >> finalized sha256 out d landed put) hub in
      result ≡ some (stored id) → IsRecorded hash bytes after.row after.bucket
unfolding on_bucket
finalize_deleted-IsRecorded sha256 out d nonce hash mtime bytes id put hub landed =
    let (staging, e) = deleted-canonical out nonce hub.bucket in
    let next : Hub = record hub { bucket = record hub.bucket { staging = staging } } in
    rw
      (bind-returned (on_bucket (delete_staging out nonce))
        (λ u.
          finalized sha256 out d (record { size = length bytes; mtime = mtime; hash = hash }) put)
        hub next tt (ap (λ r. (record hub { bucket = r.0 }, r.1)) e))
      (finalized-IsRecorded sha256 out d hash mtime bytes id put next landed)

-- The same of the end of an upload in parts: answered with `stored`, the row has the declared hash and
-- the number of the staged bytes, and the canonical object is those bytes under that hash.
pub finalize-IsRecorded :
    (sha256 : List ℕ → ℕ) (out : Outside) (d : Detection) (nonce : List ℕ) (hash : ℕ)
    (mtime : Option ℕ) (bytes : List ℕ) (id : ℕ) (hub : Hub)
    → let landed : Landed = record { size = length bytes; mtime = mtime; hash = hash } in
      let (after, result) = finalize sha256 out d nonce landed bytes hub in
      result ≡ some (stored id) → IsRecorded hash bytes after.row after.bucket
unfolding finalize ◌>>=◌ caught on_bucket
finalize-IsRecorded sha256 out d nonce hash mtime bytes id hub =
    finalize_deleted-IsRecorded sha256 out d nonce hash mtime bytes id _ _
      (put_canonical-returned sha256 out.canonical_put bytes hash mtime hub.bucket)
