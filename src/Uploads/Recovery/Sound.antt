-- ===== src/Uploads/Recovery/Sound.antt =====
-- hub/src/api/upload.ts: the checksum guard of the copy aside.
use agent_sessions_backup.Uploads.Recovery.{Bucket, StoredObject, put_canonical-KeptByPuts, IsSound}
use agent_sessions_backup.Uploads.Objects.{
  preserve_displaced_object, has_hash, put_previous, copy_aside,
}
use agent_sessions_backup.Uploads.Keeping.{KeptByPuts}
use agent_sessions_backup.Prelude.{
  ℕ, ◌≡◌, refl, sym, ◌∙◌, subst, inl, inr, Bool, true, false, Option, none, some, List, arith, ◌==◌,
  if◌then◌else◌, Bool-cases, Option-cases, Call, call-kept,
}

pub put-KeptByPuts :
    (sha256 : List ℕ → ℕ) (hash : ℕ) (body : List ℕ) → KeptByPuts (IsSound sha256) sha256 hash body
put-KeptByPuts sha256 hash body = put_canonical-KeptByPuts sha256 hash body λ mtime b e sound.
    record { canonical_sound = λ o h c s. cc; previous_sound = sound.previous_sound }

preserved_sound :
    (sha256 : List ℕ → ℕ) (key : ℕ) (t : Bool) (bytes : List ℕ) (prior : Option StoredObject)
    (p : StoredObject)
    → (if t then some (record { bytes = bytes; checksum = none; mtime = none }) else prior) ≡ some p
    → (t ≡ true → sha256 bytes ≡ key)
    → (prior ≡ some p → sha256 p.bytes ≡ key)
    → sha256 p.bytes ≡ key
preserved_sound sha256 key true bytes prior p e new old =
    subst (λ o. elim o [ none ↦ Unit {0} | some q ↦ sha256 q.bytes ≡ key ]) e (new refl)
preserved_sound sha256 key false bytes prior p e new old = old e

copy_aside-IsSound :
    (sha256 : List ℕ → ℕ) (outage : Call) (h : ℕ) (o : StoredObject) (b : Bucket)
    → sha256 o.bytes ≡ h
    → IsSound sha256 b
    → IsSound sha256 (copy_aside outage h o b).0
unfolding copy_aside put_previous
copy_aside-IsSound sha256 outage h o b e sound =
    call-kept (IsSound sha256) outage (put_previous h o.bytes) b sound (record {
      canonical_sound = sound.canonical_sound;
      previous_sound = λ key p q.
          preserved_sound sha256 key (key == h) o.bytes (b.previous key) p q
            (λ t. let k : key ≡ h = ground arith in e ∙ sym k) (sound.previous_sound key p);
    })

pub has_hash→checksum : (c : Option ℕ) (h : ℕ) → has_hash c h ≡ true → c ≡ some h
unfolding has_hash
has_hash→checksum none h e = absurd cc
has_hash→checksum (some k) h e = let i : k ≡ h = ground arith in cc

-- Every displaced object is what its key says: the copy aside keeps the objects sound, whatever R2
-- answers to its calls, also where the canonical object was replaced before it was read.
pub preserve_displaced_object-IsSound :
    (sha256 : List ℕ → ℕ) (reads : Bool) (outage : Call) (h : ℕ) (b : Bucket)
    → IsSound sha256 b
    → IsSound sha256 (preserve_displaced_object reads outage h b).0
unfolding preserve_displaced_object
preserve_displaced_object-IsSound sha256 false outage h b sound = sound
preserve_displaced_object-IsSound sha256 true outage h b sound =
    elim (Option-cases (b.previous h)) [
      | inr (p, e) ↦ rw (preserve_displaced_object, e) sound
      | inl e ↦ elim (Option-cases b.canonical) [
        | inl c ↦ rw (preserve_displaced_object, e, c) sound
        | inr (o, c) ↦ elim (Bool-cases (has_hash o.checksum h)) [
          | inr f ↦ rw (preserve_displaced_object, e, c, f) sound
          | inl t ↦
              rw (preserve_displaced_object, e, c, t)
                (copy_aside-IsSound sha256 outage h o _
                  (sound.canonical_sound o h c (has_hash→checksum o.checksum h t)) sound)
        ]
      ]
    ]
