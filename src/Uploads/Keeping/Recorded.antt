-- ===== src/Uploads/Keeping/Recorded.antt =====
-- hub/src/api/upload.ts: what a stored file leaves, where no other request is under way.
use agent_sessions_backup.Uploads.Keeping.{
  bind-returned, bind-thrown, bind-Keeps, pure-Keeps, Frames,
}
use agent_sessions_backup.Uploads.Keeping.Stored.{record_row-Keeps}
use agent_sessions_backup.Uploads.Finish.{
  record_uploaded_object, record_row, converge_body, converge_multipart_row, other_object, mtime_of,
  converge_r2_with_row,
}
use agent_sessions_backup.Uploads.Objects.{put_canonical, object_sha256, has_hash}
use agent_sessions_backup.Uploads.Rows.{is_other, row_holds, upsert, Landed, upserted, conflicted}
use agent_sessions_backup.Uploads.State.{Hub, UploadReply, StoredObject, Outside, Bucket, FilesRow}
use agent_sessions_backup.Detect.{Detection}
use agent_sessions_backup.Queue.{is_fresh_reservation}
use agent_sessions_backup.Prelude.{
  ℕ, ◌≡◌, refl, inl, inr, Bool, true, Option, none, some, List, arith, ◌==◌, Bool-cases,
  Option-cases, length, Call, done, lost_before, lost_after, call,
}

-- The row and the object are those of the bytes, under the hash.
abbrev pub IsRecorded : ℕ → List ℕ → Option FilesRow → Bucket → Type 0
IsRecorded hash bytes row b =
    (r : FilesRow) × (o : StoredObject) × (row ≡ some r)
    × (b.canonical ≡ some o)
    × (r.queue.content_hash ≡ hash)
    × (r.size ≡ length bytes)
    × (o.checksum ≡ some hash)
    × (o.bytes ≡ bytes)

conflicted-lands :
    (time : ℕ) (d : Detection) (landed : Landed) (row : FilesRow)
    → ((conflicted time d landed row).queue.content_hash ≡ landed.hash)
      × ((conflicted time d landed row).size ≡ landed.size)
unfolding conflicted
conflicted-lands time d landed row = elim (Bool-cases (is_fresh_reservation time row.queue)) [
  | inl t ↦ rw (conflicted, t) (refl, refl)
  | inr t ↦ rw (conflicted, t) (refl, refl)
]

upserted-lands :
    (out : Outside) (d : Detection) (landed : Landed) (row : Option FilesRow)
    → ((upserted out d landed row).queue.content_hash ≡ landed.hash)
      × ((upserted out d landed row).size ≡ landed.size)
unfolding upserted
upserted-lands out d landed none = (refl, refl)
upserted-lands out d landed (some row) = conflicted-lands out.time d landed row

has_own_hash : (c : Option ℕ) (hash : ℕ) → c ≡ some hash → has_hash c hash ≡ true
unfolding has_hash
has_own_hash none hash e = absurd cc
has_own_hash (some k) hash e = let same : k ≡ hash = cc in ground arith

recorded_hash :
    (hash : ℕ) (canonical : Option StoredObject) (o : StoredObject)
    → canonical ≡ some o
    → o.checksum ≡ some hash
    → has_hash (object_sha256 canonical) hash ≡ true
unfolding object_sha256
recorded_hash hash none o c s = absurd cc
recorded_hash hash (some p) o c s = has_own_hash p.checksum hash cc

converge_r2_with_row-IsRecorded :
    (sha256 : List ℕ → ℕ) (out : Outside) (id hash : ℕ) (body bytes : List ℕ)
    → Frames (IsRecorded hash bytes) (converge_r2_with_row sha256 out id hash body)
unfolding converge_r2_with_row
converge_r2_with_row-IsRecorded sha256 out id hash body bytes = record {
  kept = λ hub is.
      let (r, o, er, eo, eh, es, ec, eb) = is in
      elim (Option-cases (mtime_of id hash hub.row)) [
        | inl e ↦ rw (converge_r2_with_row, e) is
        | inr (mtime, e) ↦ elim (Bool-cases out.head_reads) [
          | inr h ↦ rw (converge_r2_with_row, e, h) is
          | inl h ↦
              rw (converge_r2_with_row, e, h, recorded_hash hash hub.bucket.canonical o eo ec) is
        ]
      ];
}

other_object-own :
    (hash : ℕ) (canonical : Option StoredObject) (o : StoredObject)
    → canonical ≡ some o
    → o.checksum ≡ some hash
    → other_object hash canonical ≡ none
other_object-own hash none o c s = absurd cc
other_object-own hash (some p) o c s =
    let own : p.checksum ≡ some hash = cc in
    let same : (hash == hash) ≡ true = ground arith in rw (own, same) refl

converge_multipart_row-IsRecorded :
    (out : Outside) (id hash : ℕ) (known_other : Bool) (bytes : List ℕ)
    → Frames (IsRecorded hash bytes) (converge_multipart_row out id hash known_other)
unfolding converge_multipart_row
converge_multipart_row-IsRecorded out id hash known_other bytes = record {
  kept = λ hub is.
      let (r, o, er, eo, eh, es, ec, eb) = is in
      elim (Bool-cases (row_holds id hash hub.row)) [
        | inr e ↦ rw (converge_multipart_row, e) is
        | inl e ↦ elim (Bool-cases out.head_reads) [
          | inr h ↦ rw (converge_multipart_row, e, h) is
          | inl h ↦
              rw (converge_multipart_row, e, h, other_object-own hash hub.bucket.canonical o eo ec)
                is
        ]
      ];
}

converge_body-IsRecorded :
    (sha256 : List ℕ → ℕ) (out : Outside) (id hash : ℕ) (body : Option (List ℕ)) (bytes : List ℕ)
    → Frames (IsRecorded hash bytes) (converge_body sha256 out id hash body)
unfolding converge_body
converge_body-IsRecorded sha256 out id hash none bytes = pure-Keeps tt
converge_body-IsRecorded sha256 out id hash (some body) bytes =
    bind-Keeps (converge_r2_with_row-IsRecorded sha256 out id hash body bytes) (λ u. pure-Keeps tt)

record_row-IsRecorded :
    (sha256 : List ℕ → ℕ) (out : Outside) (d : Detection) (landed : Landed) (body : Option (List ℕ))
    (observe : Bool) (row : FilesRow) (bytes : List ℕ)
    → Frames (IsRecorded landed.hash bytes) (record_row sha256 out d landed body observe row)
record_row-IsRecorded sha256 out d landed body observe row bytes =
    record_row-Keeps sha256 out d landed body observe row
      (converge_body-IsRecorded sha256 out row.id landed.hash body bytes)
      (converge_multipart_row-IsRecorded out row.id landed.hash (is_other d.kind) bytes)

-- The object with its checksum, as a canonical put leaves it.
abbrev pub landed_object : ℕ → Option ℕ → List ℕ → StoredObject
landed_object hash mtime bytes = record { bytes = bytes; checksum = some hash; mtime = mtime }

-- Once the bytes are in R2, an answer means that the row is theirs and that they are still there.
pub record_uploaded_object-IsRecorded :
    (sha256 : List ℕ → ℕ) (out : Outside) (d : Detection) (hash : ℕ) (mtime : Option ℕ)
    (bytes : List ℕ) (body : Option (List ℕ)) (observe : Bool) (reply : UploadReply) (hub : Hub)
    → hub.bucket.canonical ≡ some (landed_object hash mtime bytes)
    → let (after, result) =
        record_uploaded_object sha256 out d
          (record { size = length bytes; mtime = mtime; hash = hash })
          body
          observe
          hub in
      result ≡ some reply → IsRecorded hash bytes after.row after.bucket
unfolding record_uploaded_object upsert
record_uploaded_object-IsRecorded sha256 out d hash mtime bytes body observe reply hub c =
    let landed : Landed = record { size = length bytes; mtime = mtime; hash = hash } in
    let row : FilesRow = upserted out d landed hub.row in
    let next : Hub = record hub { row = some row } in
    elim (Option-cases hub.machine) [
      | inl e ↦
          rw
            (
              record_uploaded_object,
              bind-thrown (upsert out d landed) (record_row sha256 out d landed body observe) hub
                  hub (simp (upsert, e)),
            )
            (λ h. absurd cc)
      | inr (m, e) ↦
          let (lands, sized) = upserted-lands out d landed hub.row in
          rw
            (
              record_uploaded_object,
              bind-returned (upsert out d landed) (record_row sha256 out d landed body observe) hub
                  next row (simp (upsert, e)),
            )
            (λ h.
              (record_row-IsRecorded sha256 out d landed body observe row bytes).kept next
                (row, landed_object hash mtime bytes, refl, c, lands, sized, refl, refl))
    ]

call_returned :
    (outage : Call) (object : StoredObject) (b : Bucket) (u : Unit {0})
    → (call outage (λ bucket. (record bucket { canonical = some object }, tt)) b).1 ≡ some u
    → (call outage (λ bucket. (record bucket { canonical = some object }, tt)) b).0.canonical
      ≡ some object
unfolding call
call_returned done object b u h = refl
call_returned lost_before object b u h = absurd cc
call_returned lost_after object b u h = absurd cc

pub put_canonical-returned :
    (sha256 : List ℕ → ℕ) (outage : Call) (bytes : List ℕ) (hash : ℕ) (mtime : Option ℕ)
    (b : Bucket) (u : Unit {0})
    → (put_canonical sha256 outage bytes hash mtime b).1 ≡ some u
    → (put_canonical sha256 outage bytes hash mtime b).0.canonical
      ≡ some (landed_object hash mtime bytes)
unfolding put_canonical
put_canonical-returned sha256 outage bytes hash mtime b u =
    elim (Bool-cases (sha256 bytes == hash)) [
      | inr e ↦ rw (put_canonical, e) (λ h. absurd cc)
      | inl e ↦ rw (put_canonical, e) (call_returned outage _ b u)
    ]
