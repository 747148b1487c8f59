-- ===== src/Uploads/Recovery/Guards.antt =====
-- hub/src/api/upload.ts: the guard before the bytes of a path are replaced.
use agent_sessions_backup.Uploads.Objects.{
  has_hash, preserve_displaced_object, put_previous, copy_aside, body_extends_stored,
}
use agent_sessions_backup.Uploads.Recovery.{
  IsSound, IsPreserved, StoredObject, Recoverable, HasPrefix,
}
use agent_sessions_backup.Uploads.State.{Bucket}
use agent_sessions_backup.Prelude.{
  ℕ, ◌≡◌, refl, ◌∙◌, ◌⊎◌, inl, inr, Bool, true, false, Option, none, some, List, [], ◌∷◌, arith,
  ltb, ◌==◌, if◌then◌else◌, Bool-cases, Option-cases, length, take, Call, done, lost_before,
  lost_after, call,
}

take_all : (bytes : List ℕ) → take (length bytes) bytes ≡ bytes
take_all [] = refl
take_all (c ∷ bytes) = cc (take_all bytes)

pub HasPrefix-whole :
    (sha256 : List ℕ → ℕ) (h : ℕ) (bytes : List ℕ) → sha256 bytes ≡ h → HasPrefix sha256 h bytes
HasPrefix-whole sha256 h bytes e = (length bytes, rw (take_all bytes) e)

empty_bytes : (bytes : List ℕ) → length bytes ≡ 0 → bytes ≡ []
empty_bytes [] e = refl
empty_bytes (c ∷ bytes) e = absurd (ground arith)

extends_hash :
    (short none_stored : Bool) (k h : ℕ)
    → none_stored ≡ false
    → (if short then false else (if none_stored then true else k == h)) ≡ true
    → k ≡ h
extends_hash true none_stored k h z e = absurd cc
extends_hash false true k h z e = absurd cc
extends_hash false false k h z e = ground arith

-- A body that is taken to extend the stored bytes begins with ones that have their hash.
pub body_extends_stored-HasPrefix :
    (sha256 : List ℕ → ℕ) (body old : List ℕ) (size h : ℕ)
    → length old ≡ size
    → sha256 old ≡ h
    → body_extends_stored sha256 body size h ≡ true
    → HasPrefix sha256 h body
unfolding body_extends_stored
body_extends_stored-HasPrefix sha256 body old size h len sound e = elim (Bool-cases (size == 0)) [
  | inl z ↦
      let none_stored : old ≡ [] = empty_bytes old (len ∙ ground arith) in
      (0, rw⁻¹ none_stored sound)
  | inr z ↦
      (size, extends_hash (ltb (length body) size) (size == 0) (sha256 (take size body)) h z e)
]

-- After the guard: where it has failed, the bytes with the hash are recoverable; where the upload
-- goes on, they are preserved or the body begins with them.
abbrev pub IsGuarded : (List ℕ → ℕ) → ℕ → List ℕ → {A : Type 0} → Option A → Bucket → Type 0
IsGuarded sha256 h body none b = Recoverable sha256 h b
IsGuarded sha256 h body (some a) b =
    IsPreserved sha256 h b ⊎ (HasPrefix sha256 h body × Recoverable sha256 h b)

-- A canonical object with a checksum, by which the copy aside knows it.
abbrev pub IsStored : (List ℕ → ℕ) → ℕ → Bucket → Type 0
IsStored sha256 h b =
    (o : StoredObject) × (b.canonical ≡ some o) × (o.checksum ≡ some h) × (sha256 o.bytes ≡ h)

pub IsStored-Recoverable :
    (sha256 : List ℕ → ℕ) (h : ℕ) (b : Bucket) → IsStored sha256 h b → Recoverable sha256 h b
IsStored-Recoverable sha256 h b (o, c, s, e) = inr (o, c, HasPrefix-whole sha256 h o.bytes e)

copy_aside-IsGuarded :
    (sha256 : List ℕ → ℕ) (h : ℕ) (body : List ℕ) (outage : Call) (o : StoredObject) (b : Bucket)
    → b.canonical ≡ some o
    → sha256 o.bytes ≡ h
    → IsGuarded sha256 h body (copy_aside outage h o b).1 (copy_aside outage h o b).0
unfolding copy_aside call put_previous
copy_aside-IsGuarded sha256 h body done o b c e =
    let same : (h == h) ≡ true = ground arith in
    inl (record { bytes = o.bytes; checksum = none; mtime = none }, rw (copy_aside, same) refl, e)
copy_aside-IsGuarded sha256 h body lost_before o b c e =
    inr (o, c, HasPrefix-whole sha256 h o.bytes e)
copy_aside-IsGuarded sha256 h body lost_after o b c e =
    inr (o, c, HasPrefix-whole sha256 h o.bytes e)

-- Where the canonical object has the hash, the copy aside either leaves it in its place and fails, or
-- returns with the bytes preserved under the hash.
pub preserve_displaced_object-IsGuarded :
    (sha256 : List ℕ → ℕ) (reads : Bool) (outage : Call) (h : ℕ) (body : List ℕ) (b : Bucket)
    → IsSound sha256 b
    → IsStored sha256 h b
    → IsGuarded sha256 h body
        (preserve_displaced_object reads outage h b).1
        (preserve_displaced_object reads outage h b).0
unfolding preserve_displaced_object has_hash
preserve_displaced_object-IsGuarded sha256 false outage h body b sound is =
    IsStored-Recoverable sha256 h b is
preserve_displaced_object-IsGuarded sha256 true outage h body b sound (o, c, s, e) =
    elim (Option-cases (b.previous h)) [
      | inr (p, q) ↦ rw (preserve_displaced_object, q) (inl (p, q, sound.previous_sound h p q))
      | inl q ↦
          let same : (h == h) ≡ true = ground arith in
          rw (preserve_displaced_object, q, c, s, has_hash, same)
            (copy_aside-IsGuarded sha256 h body outage o b c e)
    ]
