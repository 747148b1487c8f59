-- ===== src/Uploads/Recovery.antt =====
-- hub/src/api/upload.ts: what `preserveDisplacedObject` is for. An upload may displace the stored
-- bytes of a path, but they stay recoverable.
use agent_sessions_backup.Uploads.Keeping.{KeptByPuts}
use agent_sessions_backup.Uploads.Objects.{put_canonical}
use agent_sessions_backup.Uploads.State.{StoredObject, FilesRow, Bucket, ◌>>=◌, ◌>>◌, stored}
use agent_sessions_backup.Detect.{Detection, Kind}
pub mod Sound
pub mod Guards
pub mod Puts
pub mod Completes
pub mod Invariants
use agent_sessions_backup.Prelude.{
  ℕ, zero, suc, ◌+◌, ◌-◌, ◌*◌, ◌/◌, ◌%◌, ◌^◌, ◌≤◌, ◌<◌, min, max, ◌≡◌, refl, sym, ap, ◌∙◌, subst,
  ◌≡⟨◌⟩◌, ◌∎, ◌≢◌, ◌↔◌, ◌⊎◌, inl, inr, Bool, true, false, not, ◌&&◌, ◌||◌, Option, none, some, List,
  [], ◌∷◌, ◌++◌, map, append-nil, append_assoc, arith, dec_lt, ℕ_discrete, ltb, leb, ◌==◌,
  if◌then◌else◌, ltb→lt, lt→ltb, leb→le, ==_iff, tests, Bool-cases, Option-cases, length, take,
  drop, replicate, concat, get_elem?, All, length-append, take-append-drop, length-take,
  length-drop, take-append, drop-append, concat-append, All-append, All-map, ℤ, pos, negsuc, Result,
  ok, err, Result-cases, Call, done, lost_before, lost_after, call, call-kept, text_eq, starts_with,
  find, lower,
}

-- The bytes begin with ones that have the hash.
abbrev pub HasPrefix : (List ℕ → ℕ) → ℕ → List ℕ → Type 0
HasPrefix sha256 h bytes = (n : ℕ) × (sha256 (take n bytes) ≡ h)

abbrev pub IsPreserved : (List ℕ → ℕ) → ℕ → Bucket → Type 0
IsPreserved sha256 h b = (o : StoredObject) × (b.previous h ≡ some o) × (sha256 o.bytes ≡ h)

abbrev pub IsCanonical : (List ℕ → ℕ) → ℕ → Bucket → Type 0
IsCanonical sha256 h b = (o : StoredObject) × (b.canonical ≡ some o) × HasPrefix sha256 h o.bytes

-- The bytes with the hash are at the beginning of the canonical object, or preserved under it.
abbrev pub Recoverable : (List ℕ → ℕ) → ℕ → Bucket → Type 0
Recoverable sha256 h b = IsPreserved sha256 h b ⊎ IsCanonical sha256 h b

-- What R2 stores with a checksum has that hash, and what is preserved under a hash has it.
pub record IsSound (sha256 : List ℕ → ℕ) (b : Bucket) : Type 0 where
  pub canonical_sound :
      (o : StoredObject) (h : ℕ) → b.canonical ≡ some o → o.checksum ≡ some h → sha256 o.bytes ≡ h
  pub previous_sound : (h : ℕ) (o : StoredObject) → b.previous h ≡ some o → sha256 o.bytes ≡ h

-- The row describes the canonical object.
abbrev pub Describes : FilesRow → Bucket → Type 0
Describes row b =
    (o : StoredObject) × (b.canonical ≡ some o)
    × (o.checksum ≡ some row.queue.content_hash)
    × (length o.bytes ≡ row.size)

pub put_canonical-KeptByPuts :
    {P : Bucket → Type 0} (sha256 : List ℕ → ℕ) (hash : ℕ) (body : List ℕ)
    → ((mtime : Option ℕ) (b : Bucket)
        → sha256 body ≡ hash
        → P b
        → P (record b {
          canonical = some (record { bytes = body; checksum = some hash; mtime = mtime });
        }))
    → KeptByPuts P sha256 hash body
unfolding put_canonical
put_canonical-KeptByPuts {P = P} sha256 hash body k outage mtime b p =
    elim (Bool-cases (sha256 body == hash)) [
      | inr e ↦ rw (put_canonical, e) p
      | inl e ↦
          let h : sha256 body ≡ hash = ground arith in
          rw (put_canonical, e) (call-kept P outage _ b p (k mtime b h p))
    ]
