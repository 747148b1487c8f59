-- ===== src/Uploads/Objects.antt =====
-- hub/src/api/upload.ts: the R2 objects of a path, and the copy of a displaced predecessor.
use agent_sessions_backup.Prelude.{
  ℕ, Bool, true, false, Option, none, some, List, ltb, ◌==◌, if◌then◌else◌, length, take, Call,
  call,
}
use agent_sessions_backup.Uploads.State.{StoredObject, Bucket}

-- `objectSha256(obj) === hash`.
unfoldable pub has_hash : Option ℕ → ℕ → Bool
has_hash none hash = false
has_hash (some checksum) hash = checksum == hash

unfoldable pub object_sha256 : Option StoredObject → Option ℕ
object_sha256 none = none
object_sha256 (some object) = object.checksum

-- `RAW.put(prevKey, …)`, without a checksum.
unfoldable pub put_previous : ℕ → List ℕ → Bucket → Bucket × Unit {0}
put_previous hash bytes b = (
  record b {
    previous = λ key.
        if key == hash
        then some (record { bytes = bytes; checksum = none; mtime = none })
        else b.previous key;
  },
  tt,
)

-- `RAW.put(r2Key, body, { sha256, … })`: R2 refuses a body with another hash.
unfoldable pub put_canonical :
    (List ℕ → ℕ) → Call → List ℕ → ℕ → Option ℕ → Bucket → Bucket × Option (Unit {0})
put_canonical sha256 outage body hash mtime b =
    if sha256 body == hash
    then call outage
        (λ bucket. (
          record bucket {
            canonical = some (record { bytes = body; checksum = some hash; mtime = mtime });
          },
          tt,
        ))
        b
    else (b, none)

unfoldable pub copy_aside : Call → ℕ → StoredObject → Bucket → Bucket × Option Bool
unfolding put_previous
copy_aside outage old_hash old b =
    let (copied, ended) = call outage (put_previous old_hash old.bytes) b in
    (copied, elim ended [ none ↦ none | some _ ↦ some true ])

-- `preserveDisplacedObject`: whether there is a preserved object now, or an error (`reads` is false where R2 fails
-- at a `head` or a `get`).
unfoldable pub preserve_displaced_object : Bool → Call → ℕ → Bucket → Bucket × Option Bool
unfolding copy_aside has_hash
preserve_displaced_object reads outage old_hash b =
    if reads
    then elim (b.previous old_hash) [
      | some preserved ↦ (b, some true)
      | none ↦ elim b.canonical [
        | none ↦ (b, some false)
        | some old ↦
            if has_hash old.checksum old_hash
            then copy_aside outage old_hash old b
            else (b, some false)
      ]
    ]
    else (b, none)

-- `bodyExtendsStored`.
unfoldable pub body_extends_stored : (List ℕ → ℕ) → List ℕ → ℕ → ℕ → Bool
body_extends_stored sha256 body stored_size stored_hash =
    if ltb (length body) stored_size
    then false
    else (if stored_size == 0 then true else sha256 (take stored_size body) == stored_hash)
