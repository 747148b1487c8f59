-- ===== src/Uploads/Keeping.antt =====
-- hub/src/api/upload.ts: predicates on the objects of a path that the actions keep, whether they return
-- or throw. Apart from the copy aside and the staging, the bucket changes by canonical puts only.
pub mod Stored
pub mod Puts
pub mod Agreement
pub mod Recorded
pub mod Answers
use agent_sessions_backup.Uploads.Finish.{
  may_flip, upload_message, other_object, owner_of, record_uploaded_object, finish_upload,
  refresh_owner, converge_multipart_row, send_realigned, flip_by_kind, stamp_last_upload,
  converge_body, mtime_of, restore, converge_r2_with_row,
}
use agent_sessions_backup.Uploads.Rows.{
  is_other, is_export_archive, Landed, upsert, is_stale, row_holds, restamp_if_stale, requeue,
  mark_known_other_skipped, flip_owned_sessions_to_parsing,
}
use agent_sessions_backup.Uploads.Objects.{object_sha256, has_hash, put_canonical}
use agent_sessions_backup.Uploads.State.{
  stored, modify, gets, throw, caught, pure, Outside, FilesRow, Hub, send, update_row, on_bucket,
  Action, Bucket, ◌>>=◌, ◌>>◌,
}
use agent_sessions_backup.Queue.{FileRow, ParseMessage, is_reserved}
use agent_sessions_backup.Detect.{Detection, Kind}
use agent_sessions_backup.Prelude.{
  ℕ, zero, suc, ◌+◌, ◌-◌, ◌*◌, ◌/◌, ◌%◌, ◌^◌, ◌≤◌, ◌<◌, min, max, ◌≡◌, refl, sym, ap, ◌∙◌, subst,
  ◌≡⟨◌⟩◌, ◌∎, ◌≢◌, ◌↔◌, ◌⊎◌, inl, inr, Bool, true, false, not, ◌&&◌, ◌||◌, Option, none, some, List,
  [], ◌∷◌, ◌++◌, map, append-nil, append_assoc, arith, dec_lt, ℕ_discrete, ltb, leb, ◌==◌,
  if◌then◌else◌, ltb→lt, lt→ltb, leb→le, ==_iff, tests, Bool-cases, Option-cases, length, take,
  drop, replicate, concat, get_elem?, All, length-append, take-append-drop, length-take,
  length-drop, take-append, drop-append, concat-append, All-append, All-map, ℤ, pos, negsuc, Result,
  ok, err, Result-cases, Call, done, lost_before, lost_after, call, text_eq, starts_with, find,
  lower,
}

-- `Q` reads the row and the objects.
pub record Frames (Q : Option FilesRow → Bucket → Type 0) {A : Type 0} (run : Action A)
    : Type 0 where
  pub kept : (hub : Hub) → Q hub.row hub.bucket → Q (run hub).0.row (run hub).0.bucket

abbrev pub Keeps : (Bucket → Type 0) → {A : Type 0} → Action A → Type 0
Keeps P run = Frames (λ row b. P b) run

-- `P` is kept by every canonical put of the body under the hash.
abbrev pub KeptByPuts : (Bucket → Type 0) → (List ℕ → ℕ) → ℕ → List ℕ → Type 0
KeptByPuts P sha256 hash body =
    (outage : Call) (mtime : Option ℕ) (b : Bucket)
    → P b
    → P (put_canonical sha256 outage body hash mtime b).0

-- A step after an action that returned, or that threw.
module _ {A B : Type 0} where
  pub bind-returned :
      (m : Action A) (f : A → Action B) (hub next : Hub) (a : A)
      → m hub ≡ (next, some a)
      → (m >>= f) hub ≡ f a next
  unfolding ◌>>=◌
  bind-returned m f hub next a e =
      ap (λ r. elim r.1 as (λ o. Hub × Option B) [ none ↦ (r.0, none) | some b ↦ f b r.0 ]) e

  pub bind-thrown :
      (m : Action A) (f : A → Action B) (hub next : Hub)
      → m hub ≡ (next, none)
      → (m >>= f) hub ≡ (next, none)
  unfolding ◌>>=◌
  bind-thrown m f hub next e =
      ap (λ r. elim r.1 as (λ o. Hub × Option B) [ none ↦ (r.0, none) | some b ↦ f b r.0 ]) e

module _ {Q : Option FilesRow → Bucket → Type 0} where
  pub pure-Keeps : {A : Type 0} (a : A) → Frames Q (pure a)
  unfolding pure
  pure-Keeps a = record { kept = λ hub p. p }

  after-Keeps :
      {A B : Type 0} (f : A → Action B)
      → ((a : A) → Frames Q (f a))
      → (r : Option A) (hub : Hub) → Q hub.row hub.bucket
      → Q
          (elim r as (λ o. Hub × Option B) [ none ↦ (hub, none) | some a ↦ f a hub ]).0.row
          (elim r as (λ o. Hub × Option B) [ none ↦ (hub, none) | some a ↦ f a hub ]).0.bucket
  after-Keeps f kf none hub p = p
  after-Keeps f kf (some a) hub p = (kf a).kept hub p

  pub throw-Keeps : {A : Type 0} → Frames Q (throw {A = A})
  unfolding throw
  throw-Keeps = record { kept = λ hub p. p }

  pub gets-Keeps : {A : Type 0} (f : Hub → A) → Frames Q (gets f)
  unfolding gets
  gets-Keeps f = record { kept = λ hub p. p }

  pub bind-Keeps :
      {A B : Type 0} {m : Action A} {f : A → Action B}
      → Frames Q m
      → ((a : A) → Frames Q (f a))
      → Frames Q (m >>= f)
  unfolding ◌>>=◌
  bind-Keeps {m = m} {f = f} km kf = record {
    kept = λ hub p. after-Keeps f kf (m hub).1 (m hub).0 (km.kept hub p);
  }

  pub caught-Keeps : {A : Type 0} {m : Action A} → Frames Q m → Frames Q (caught m)
  unfolding caught
  caught-Keeps km = record { kept = km.kept }

  pub if-Keeps :
      {A : Type 0} (t : Bool) {m k : Action A}
      → Frames Q m
      → Frames Q k
      → Frames Q (if t then m else k)
  if-Keeps true km kk = km
  if-Keeps false km kk = kk

  pub flip_owned_sessions_to_parsing-Keeps :
      (id : ℕ) (session : Option (List ℕ)) (hash : ℕ)
      → Frames Q (flip_owned_sessions_to_parsing id session hash)
  unfolding flip_owned_sessions_to_parsing modify
  flip_owned_sessions_to_parsing-Keeps id session hash = record {
    kept =
        λ hub p. elim (Bool-cases (row_holds id hash hub.row)) [ inl e ↦ rw e p | inr e ↦ rw e p ];
  }

  pub send-Keeps : (accepts : Bool) (m : ParseMessage) → Frames Q (send accepts m)
  unfolding send
  send-Keeps true m = record { kept = λ hub p. p }
  send-Keeps false m = record { kept = λ hub p. p }

module _ {P : Bucket → Type 0} where
  pub on_bucket-Keeps :
      {A : Type 0} (f : Bucket → Bucket × Option A)
      → ((b : Bucket) → P b → P (f b).0)
      → Keeps P (on_bucket f)
  unfolding on_bucket
  on_bucket-Keeps f k = record { kept = λ hub p. k hub.bucket p }

  pub update_row-Keeps :
      (test : FilesRow → Bool) (change : FilesRow → FilesRow) → Keeps P (update_row test change)
  unfolding update_row
  update_row-Keeps test change = record {
    kept = λ hub p. elim (Option-cases hub.row) [
      | inl e ↦ rw e p
      | inr (row, e) ↦ elim (Bool-cases (test row)) [
        | inl h ↦ rw (update_row, e, h) p
        | inr h ↦ rw (update_row, e, h) p
      ]
    ];
  }

  pub mark_known_other_skipped-Keeps :
      (out : Outside) (id hash : ℕ) → Keeps P (mark_known_other_skipped out id hash)
  unfolding mark_known_other_skipped
  mark_known_other_skipped-Keeps out id hash =
      bind-Keeps (update_row-Keeps _ _) (λ updated. pure-Keeps _)

  pub requeue-Keeps : (out : Outside) (hash : ℕ) → Keeps P (requeue out hash)
  unfolding requeue
  requeue-Keeps out hash = record {
    kept = λ hub p. elim (Option-cases hub.row) [ inl e ↦ rw e p | inr (row, e) ↦ rw e p ];
  }

  pub restamp_if_stale-Keeps : (d : Detection) (row : FilesRow) → Keeps P (restamp_if_stale d row)
  unfolding restamp_if_stale
  restamp_if_stale-Keeps d row =
      if-Keeps (is_stale d row) (bind-Keeps (update_row-Keeps _ _) (λ updated. pure-Keeps true))
        (pure-Keeps false)

  pub upsert-Keeps :
      (out : Outside) (d : Detection) (landed : Landed) → Keeps P (upsert out d landed)
  unfolding upsert
  upsert-Keeps out d landed = record {
    kept = λ hub p. elim (Option-cases hub.machine) [ inl e ↦ rw e p | inr (m, e) ↦ rw e p ];
  }

module _ {P : Bucket → Type 0} (sha256 : List ℕ → ℕ) (hash : ℕ) (body : List ℕ) where
  pub converge_r2_with_row-Keeps :
      (out : Outside) (id : ℕ)
      → KeptByPuts P sha256 hash body
      → Keeps P (converge_r2_with_row sha256 out id hash body)
  unfolding converge_r2_with_row restore
  converge_r2_with_row-Keeps out id k = record {
    kept = λ hub p. elim (Option-cases (mtime_of id hash hub.row)) [
      | inl e ↦ rw (converge_r2_with_row, e) p
      | inr (mtime, e) ↦ elim (Bool-cases out.head_reads) [
        | inr h ↦ rw (converge_r2_with_row, e, h) p
        | inl h ↦ elim (Bool-cases (has_hash (object_sha256 hub.bucket.canonical) hash)) [
          | inl t ↦ rw (converge_r2_with_row, e, h, t) p
          | inr t ↦
              rw (converge_r2_with_row, e, h, t)
                ((bind-Keeps (on_bucket-Keeps _ (k out.restore_put mtime))
                    (λ u. pure-Keeps true)).kept
                  hub p)
        ]
      ]
    ];
  }
