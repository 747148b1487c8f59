-- ===== src/Uploads/Recovery/Puts.antt =====
-- hub/src/api/upload.ts: what a PUT of a file does to the stored bytes that its row describes.
use agent_sessions_backup.Uploads.Objects.{body_extends_stored}
use agent_sessions_backup.Uploads.Keeping.Puts.{put_same_hash-Keeps, store_canonical-Keeps}
use agent_sessions_backup.Uploads.Recovery.Guards.{
  preserve_displaced_object-IsGuarded, IsStored-Recoverable, body_extends_stored-HasPrefix,
  IsStored, HasPrefix-whole, IsGuarded,
}
use agent_sessions_backup.Uploads.Put.{
  checked_request, refused, PutRequest, put_file, put_checked, enrolled, same_as,
  ensure_preview_upload_machine, put_body, put_changed, preserve_first, store_if_preserved,
}
use agent_sessions_backup.Uploads.Recovery.{
  Describes, IsSound, put_canonical-KeptByPuts, Bucket, Recoverable, IsPreserved, HasPrefix,
}
use agent_sessions_backup.Uploads.Keeping.{KeptByPuts}
use agent_sessions_backup.Uploads.State.{
  UploadReply, machine_identity, Identity, throw, modify, caught, on_bucket, Outside, pure, Hub,
  FilesRow, ◌>>=◌, other_identity,
}
use agent_sessions_backup.Detect.{Detection}
use agent_sessions_backup.Prelude.{
  ℕ, ◌≡◌, refl, sym, ap, subst, inl, inr, Bool, ◌&&◌, Option, none, some, List, ◌==◌, Bool-cases,
  Option-cases, Result, ok, err,
}

pub IsPreserved-KeptByPuts :
    (sha256 : List ℕ → ℕ) (h hash : ℕ) (body : List ℕ)
    → KeptByPuts (IsPreserved sha256 h) sha256 hash body
IsPreserved-KeptByPuts sha256 h hash body =
    put_canonical-KeptByPuts sha256 hash body (λ mtime b e p. p)

pub Recoverable-KeptByPuts :
    (sha256 : List ℕ → ℕ) (h hash : ℕ) (body : List ℕ)
    → HasPrefix sha256 h body
    → KeptByPuts (Recoverable sha256 h) sha256 hash body
Recoverable-KeptByPuts sha256 h hash body prefix =
    put_canonical-KeptByPuts sha256 hash body (λ mtime b e p.
      inr (record { bytes = body; checksum = some hash; mtime = mtime }, refl, prefix))

-- A body that R2 takes under the hash has it.
pub Recoverable-KeptBySame :
    (sha256 : List ℕ → ℕ) (h : ℕ) (body : List ℕ) → KeptByPuts (Recoverable sha256 h) sha256 h body
Recoverable-KeptBySame sha256 h body = put_canonical-KeptByPuts sha256 h body (λ mtime b e p. inr (
  record { bytes = body; checksum = some h; mtime = mtime },
  refl,
  HasPrefix-whole sha256 h body e,
))

-- What a row that describes the sound objects says of them.
pub Describes-IsStored :
    (sha256 : List ℕ → ℕ) (row : FilesRow) (b : Bucket)
    → IsSound sha256 b
    → Describes row b
    → IsStored sha256 row.queue.content_hash b
Describes-IsStored sha256 row b sound (o, c, s, len) =
    (o, c, s, sound.canonical_sound o row.queue.content_hash c s)

pub store_if_preserved-Recoverable :
    (sha256 : List ℕ → ℕ) (out : Outside) (d : Detection) (hash : ℕ) (mtime : Option ℕ)
    (body : List ℕ) (h : ℕ) (preserved : Option (Unit {0})) (hub : Hub)
    → IsGuarded sha256 h body preserved hub.bucket
    → Recoverable sha256 h (store_if_preserved sha256 out d hash mtime body preserved hub).0.bucket
unfolding store_if_preserved pure
store_if_preserved-Recoverable sha256 out d hash mtime body h none hub guarded = guarded
store_if_preserved-Recoverable sha256 out d hash mtime body h (some u) hub (inl preserved) = inl (
    (store_canonical-Keeps sha256 out d hash mtime body
        (IsPreserved-KeptByPuts sha256 h hash body)).kept
      hub preserved)
store_if_preserved-Recoverable sha256 out d hash mtime body h (some u) hub (inr (prefix, is)) =
    (store_canonical-Keeps sha256 out d hash mtime body
        (Recoverable-KeptByPuts sha256 h hash body prefix)).kept
      hub is

keeps_guard :
    (sha256 : List ℕ → ℕ) (h : ℕ) (body : List ℕ) (hub : Hub) (r : Option Bool)
    → IsGuarded sha256 h body r hub.bucket
    → IsGuarded sha256 h body
        (elim r as (λ o. Hub × Option (Unit {0})) [
          | none ↦ (hub, none)
          | some a ↦ (hub, some tt)
        ]).1
        (elim r as (λ o. Hub × Option (Unit {0})) [
          | none ↦ (hub, none)
          | some a ↦ (hub, some tt)
        ]).0.bucket
keeps_guard sha256 h body hub none g = g
keeps_guard sha256 h body hub (some a) g = g

pub preserve_first-IsGuarded :
    (sha256 : List ℕ → ℕ) (out : Outside) (body : List ℕ) (row : FilesRow) (hub : Hub)
    → IsSound sha256 hub.bucket
    → Describes row hub.bucket
    → IsGuarded sha256 row.queue.content_hash body
        (preserve_first sha256 out body (some row) hub).1
        (preserve_first sha256 out body (some row) hub).0.bucket
unfolding preserve_first ◌>>=◌ pure on_bucket
preserve_first-IsGuarded sha256 out body row hub sound is =
    let stays : IsStored sha256 row.queue.content_hash hub.bucket =
      Describes-IsStored sha256 row hub.bucket sound is in
    let (o, c, s, len) = is in
    elim (Bool-cases (body_extends_stored sha256 body row.size row.queue.content_hash)) [
      | inl t ↦
          rw (preserve_first, t)
            (inr (
              body_extends_stored-HasPrefix sha256 body o.bytes row.size row.queue.content_hash len
                  (sound.canonical_sound o row.queue.content_hash c s) t,
              IsStored-Recoverable sha256 row.queue.content_hash hub.bucket stays,
            ))
      | inr t ↦
          rw (preserve_first, t)
            (keeps_guard sha256 row.queue.content_hash body _ _ (
              preserve_displaced_object-IsGuarded sha256 out.preserve_reads out.preserve_put
                row.queue.content_hash body hub.bucket sound stays))
    ]

put_changed-Recoverable :
    (sha256 : List ℕ → ℕ) (out : Outside) (d : Detection) (row : FilesRow) (hash : ℕ)
    (mtime : Option ℕ) (body : List ℕ) (hub : Hub)
    → IsSound sha256 hub.bucket
    → Describes row hub.bucket
    → Recoverable sha256 row.queue.content_hash
        (put_changed sha256 out d (some row) hash mtime body hub).0.bucket
unfolding put_changed ◌>>=◌ caught throw
put_changed-Recoverable sha256 out d row hash mtime body hub sound is =
    elim (Bool-cases out.body_is_read) [
      | inr t ↦
          rw (put_changed, t)
            (IsStored-Recoverable sha256 row.queue.content_hash hub.bucket
              (Describes-IsStored sha256 row hub.bucket sound is))
      | inl t ↦
          rw (put_changed, t)
            (store_if_preserved-Recoverable sha256 out d hash mtime body row.queue.content_hash _ _
              (preserve_first-IsGuarded sha256 out body row hub sound is))
    ]

pub put_body-Recoverable :
    (sha256 : List ℕ → ℕ) (out : Outside) (d : Detection) (row : FilesRow) (hash : ℕ)
    (mtime : Option ℕ) (body : List ℕ) (hub : Hub)
    → hub.row ≡ some row
    → IsSound sha256 hub.bucket
    → Describes row hub.bucket
    → Recoverable sha256 row.queue.content_hash (put_body sha256 out d hash mtime body hub).0.bucket
unfolding put_body same_as
put_body-Recoverable sha256 out d row hash mtime body hub r sound is =
    elim (Bool-cases (row.queue.content_hash == hash)) [
      | inl t ↦
          rw (put_body, r, same_as, t)
            ((put_same_hash-Keeps sha256 out d row hash body
                (Recoverable-KeptBySame sha256 row.queue.content_hash body)).kept
              hub
              (IsStored-Recoverable sha256 row.queue.content_hash hub.bucket
                (Describes-IsStored sha256 row hub.bucket sound is)))
      | inr t ↦
          rw (put_body, r, same_as, t)
            (subst
              (λ existing.
                Recoverable sha256 row.queue.content_hash
                  (put_changed sha256 out d existing hash mtime body hub).0.bucket)
              (sym r) (put_changed-Recoverable sha256 out d row hash mtime body hub sound is))
    ]

-- The row and the objects are not touched before the body is looked at.
ensured-same :
    (out : Outside) (identity : Identity) (hub : Hub)
    → (m : Option (Option ℕ)) × (ensure_preview_upload_machine out identity hub
        ≡ (record hub { machine = m }, some tt))
unfolding ensure_preview_upload_machine pure modify
ensured-same out other_identity hub = (hub.machine, refl)
ensured-same out (machine_identity own is_admin) hub =
    elim (Bool-cases (out.is_preview && is_admin)) [
      | inl t ↦ (enrolled hub.machine, rw (ensure_preview_upload_machine, t) refl)
      | inr t ↦ (hub.machine, rw (ensure_preview_upload_machine, t) refl)
    ]

put_checked-Recoverable :
    (sha256 : List ℕ → ℕ) (out : Outside) (d : Detection) (row : FilesRow) (mtime : Option ℕ)
    (checked : Result UploadReply (ℕ × List ℕ)) (hub : Hub)
    → hub.row ≡ some row
    → IsSound sha256 hub.bucket
    → Describes row hub.bucket
    → Recoverable sha256 row.queue.content_hash
        (put_checked sha256 out d mtime checked hub).0.bucket
unfolding put_checked pure
put_checked-Recoverable sha256 out d row mtime (err reply) hub r sound is =
    IsStored-Recoverable sha256 row.queue.content_hash hub.bucket
      (Describes-IsStored sha256 row hub.bucket sound is)
put_checked-Recoverable sha256 out d row mtime (ok (hash, body)) hub r sound is =
    put_body-Recoverable sha256 out d row hash mtime body hub r sound is

-- If the row of a path describes its object, and what R2 stores under a hash has it, then after any
-- PUT to the path, whatever the bytes and the hash that it declares, whoever sends it, and whatever R2
-- and the queue answer to each call (D1 does not fail here), the bytes that have the row's hash are
-- recoverable: they are under `previous`, or are the beginning of the canonical object.
pub put_file-Recoverable :
    (sha256 : List ℕ → ℕ) (out : Outside) (d : Detection) (q : PutRequest) (hub : Hub)
    (row : FilesRow)
    → hub.row ≡ some row
    → IsSound sha256 hub.bucket
    → Describes row hub.bucket
    → Recoverable sha256 row.queue.content_hash (put_file sha256 out d q hub).0.bucket
unfolding put_file pure ◌>>=◌
put_file-Recoverable sha256 out d q hub row r sound is =
    elim (Option-cases (refused q.identity q.machine_id)) [
      | inr (reply, e) ↦
          rw (put_file, e)
            (IsStored-Recoverable sha256 row.queue.content_hash hub.bucket
              (Describes-IsStored sha256 row hub.bucket sound is))
      | inl e ↦
          let (m, ensured) = ensured-same out q.identity hub in
          rw (put_file, e, ◌>>=◌, ensured, ap (λ x. x.0) ensured)
            (put_checked-Recoverable sha256 out d row q.mtime (checked_request q)
              (record hub { machine = m }) r sound is)
    ]
