-- ===== src/Uploads/Keeping/Agreement.antt =====
-- hub/src/api/upload.ts: convergence, by which the row and the object of a path come to agree again
-- after overlapping uploads.
use agent_sessions_backup.Uploads.Keeping.Stored.{send_if_updated-Keeps}
use agent_sessions_backup.Uploads.Rows.{row_holds, holds}
use agent_sessions_backup.Uploads.Finish.{realigned, realign, converge_multipart_row, other_object}
use agent_sessions_backup.Uploads.State.{
  Outside, Hub, update_row, Bucket, StoredObject, FilesRow, ◌>>=◌,
}
use agent_sessions_backup.Queue.{is_fresh_reservation}
use agent_sessions_backup.Prelude.{
  ℕ, ◌≡◌, refl, ◌⊎◌, inl, inr, Bool, true, Option, none, some, arith, ◌==◌, Bool-cases,
  Option-cases,
}

-- The row has the hash of the object, where R2 has a checksum of it.
abbrev pub Agree : Option FilesRow → Bucket → Type 0
Agree row b =
    (r : FilesRow) (o : StoredObject) (hash : ℕ)
    → row ≡ some r
    → b.canonical ≡ some o
    → o.checksum ≡ some hash
    → r.queue.content_hash ≡ hash

other_object-cases :
    (hash : ℕ) (canonical : Option StoredObject)
    → ((other_object hash canonical ≡ none)
        × ((o : StoredObject) (k : ℕ) → canonical ≡ some o → o.checksum ≡ some k → hash ≡ k))
      ⊎ ((o : StoredObject) × (k : ℕ) × (other_object hash canonical ≡ some (o, k))
          × (canonical ≡ some o)
          × (o.checksum ≡ some k))
other_object-cases hash none = inl (refl, λ o k c s. absurd cc)
other_object-cases hash (some p) = elim (Option-cases p.checksum) [
  | inl c ↦ inl (rw c refl, λ o k q s. absurd cc)
  | inr (j, c) ↦ elim (Bool-cases (j == hash)) [
    | inl t ↦ let same : j ≡ hash = ground arith in inl (rw (c, t) refl, λ o k q s. cc)
    | inr t ↦ inr (p, j, simp (c, t), refl, c)
  ]
]

pub holds_itself : (row : FilesRow) → holds row.id row.queue.content_hash row ≡ true
holds_itself row = ground arith

realigned-hash :
    (time : ℕ) (known_other : Bool) (object : StoredObject) (observed : ℕ) (row : FilesRow)
    → (realigned time known_other object observed row).queue.content_hash ≡ observed
unfolding realigned
realigned-hash time known_other object observed row =
    elim (Bool-cases (is_fresh_reservation time row.queue)) [
      | inl t ↦ rw (realigned, t) refl
      | inr t ↦ rw (realigned, t) refl
    ]

realigned_row-agrees :
    (time : ℕ) (known_other : Bool) (object : StoredObject) (observed : ℕ) (row : FilesRow)
    (b : Bucket)
    → b.canonical ≡ some object
    → object.checksum ≡ some observed
    → Agree (some (realigned time known_other object observed row)) b
realigned_row-agrees time known_other object observed row b c h s o k q d i =
    let e : (realigned time known_other object observed row).queue.content_hash ≡ observed =
      realigned-hash time known_other object observed row in
    cc

realign-agrees :
    (out : Outside) (known_other : Bool) (row : FilesRow) (object : StoredObject) (observed : ℕ)
    (hub : Hub)
    → hub.row ≡ some row
    → hub.bucket.canonical ≡ some object
    → object.checksum ≡ some observed
    → let after = (realign out row.id row.queue.content_hash known_other object observed hub).0 in
      Agree after.row after.bucket
unfolding realign ◌>>=◌
realign-agrees out known_other row object observed hub r c h =
    rw (realign, ◌>>=◌, update_row, r, holds_itself row)
      ((send_if_updated-Keeps {Q = Agree} out known_other observed
          (some (realigned out.time known_other object observed row))).kept
        (record hub { row = some (realigned out.time known_other object observed row) })
        (realigned_row-agrees out.time known_other object observed row hub.bucket c h))

-- After the convergence of an upload in parts, the row has the hash of the object in R2, whichever
-- upload came last in either of them; the row is the request's own until then, and R2 is read. The
-- queue may fail afterwards.
pub converge_multipart_row-agrees :
    (out : Outside) (known_other : Bool) (row : FilesRow) (hub : Hub)
    → hub.row ≡ some row
    → out.head_reads ≡ true
    → let after = (converge_multipart_row out row.id row.queue.content_hash known_other hub).0 in
      Agree after.row after.bucket
unfolding converge_multipart_row
converge_multipart_row-agrees out known_other row hub r reads =
    let held : row_holds row.id row.queue.content_hash hub.row ≡ true = rw r (holds_itself row) in
    elim (other_object-cases row.queue.content_hash hub.bucket.canonical) [
      | inl (e, same) ↦
          rw (converge_multipart_row, held, reads, e)
            (λ s o k q c h. let d : row.queue.content_hash ≡ k = same o k c h in cc)
      | inr (object, observed, e, c, h) ↦
          rw (converge_multipart_row, held, reads, e)
            (realign-agrees out known_other row object observed hub r c h)
    ]
