-- ===== src/Uploads/Keeping/Stored.antt =====
-- hub/src/api/upload.ts: what is kept once the bytes of a file are in R2.
use agent_sessions_backup.Uploads.Keeping.{
  Frames, is_other, stored, upsert-Keeps, send-Keeps, send, update_row-Keeps, is_export_archive,
  converge_r2_with_row-Keeps, pure, bind-Keeps, if-Keeps, pure-Keeps, Landed, Action, row_holds,
  FilesRow, flip_owned_sessions_to_parsing-Keeps, KeptByPuts, Keeps,
}
use agent_sessions_backup.Uploads.Finish.{
  record_row, may_flip, upload_message, owner_of, other_object, record_uploaded_object,
  finish_upload, refresh_owner, converge_multipart_row, realign, send_if_updated, send_realigned,
  flip_by_kind, stamp_last_upload, converge_body,
}
use agent_sessions_backup.Uploads.State.{stored, StoredObject, modify, Outside, Bucket}
use agent_sessions_backup.Queue.{is_reserved, FileRow}
use agent_sessions_backup.Detect.{Detection, Kind}
use agent_sessions_backup.Prelude.{
  ℕ, ◌≡◌, refl, inl, inr, Bool, true, false, not, ◌&&◌, ◌||◌, Option, none, some, List, [], ◌∷◌,
  if◌then◌else◌, Bool-cases, Option-cases,
}

module _ {Q : Option FilesRow → Bucket → Type 0} where
  pub stamp_last_upload-Keeps : (out : Outside) → Frames Q (stamp_last_upload out)
  unfolding stamp_last_upload modify
  stamp_last_upload-Keeps out = record { kept = λ hub p. p }

  pub flip_by_kind-Keeps :
      (id hash : ℕ) (session : Option (List ℕ)) (kind : Kind)
      → Frames Q (flip_by_kind id hash session kind)
  unfolding flip_by_kind
  flip_by_kind-Keeps id hash (some (c ∷ s)) kind =
      flip_owned_sessions_to_parsing-Keeps id (some (c ∷ s)) hash
  flip_by_kind-Keeps id hash none kind =
      if-Keeps (is_export_archive kind) (flip_owned_sessions_to_parsing-Keeps id none hash)
        (pure-Keeps tt)
  flip_by_kind-Keeps id hash (some []) kind =
      if-Keeps (is_export_archive kind) (flip_owned_sessions_to_parsing-Keeps id none hash)
        (pure-Keeps tt)

  pub send_realigned-Keeps :
      (out : Outside) (known_other : Bool) (observed : ℕ) (row : FilesRow)
      → Frames Q (send_realigned out known_other observed row)
  unfolding send_realigned
  send_realigned-Keeps out known_other observed row =
      bind-Keeps
        (bind-Keeps
          (if-Keeps known_other (pure-Keeps tt)
            (flip_owned_sessions_to_parsing-Keeps row.id none observed))
          (λ u.
            elim (owner_of row.queue)
              as (λ o. Frames Q (elim o as (λ p. Action (Unit {0})) [
                | some owner ↦
                    send out.queue_accepts
                      (upload_message observed (some (owner, row.queue.reservation_generation)))
                | none ↦
                    if known_other
                    then pure tt
                    else send out.queue_accepts (upload_message observed none)
              ])) [
                | some owner ↦ send-Keeps out.queue_accepts _
                | none ↦
                    if-Keeps known_other (pure-Keeps tt)
                      (send-Keeps out.queue_accepts (upload_message observed none))
              ]))
        (λ u. pure-Keeps true)

  pub send_if_updated-Keeps :
      (out : Outside) (known_other : Bool) (observed : ℕ) (updated : Option FilesRow)
      → Frames Q (send_if_updated out known_other observed updated)
  unfolding send_if_updated
  send_if_updated-Keeps out known_other observed none = pure-Keeps false
  send_if_updated-Keeps out known_other observed (some row) =
      send_realigned-Keeps out known_other observed row

  pub refresh_owner-Keeps :
      (out : Outside) (hash : ℕ) (queue : FileRow) → Frames Q (refresh_owner out hash queue)
  unfolding refresh_owner
  refresh_owner-Keeps out hash queue =
      elim queue.reserved_by
        as (λ o. Frames Q (elim o as (λ p. Action (Unit {0})) [
          | none ↦ pure tt
          | some owner ↦
              send out.queue_accepts
                (upload_message hash (some (owner, queue.reservation_generation)))
        ])) [ none ↦ pure-Keeps tt | some owner ↦ send-Keeps out.queue_accepts _ ]

  pub finish_upload-Keeps :
      (out : Outside) (known_other : Bool) (hash : ℕ) (row : FilesRow) (was_realigned : Bool)
      → Frames Q (finish_upload out known_other hash row was_realigned)
  unfolding finish_upload
  finish_upload-Keeps out known_other hash row was_realigned =
      bind-Keeps
        (bind-Keeps
          (if-Keeps (not was_realigned && _) (refresh_owner-Keeps out hash row.queue)
            (pure-Keeps tt))
          (λ u.
            if-Keeps (known_other || (was_realigned || is_reserved row.queue.parse_state))
              (pure-Keeps tt) (send-Keeps out.queue_accepts (upload_message hash none))))
        (λ u. pure-Keeps (stored row.id))

  pub record_row-Keeps :
      (sha256 : List ℕ → ℕ) (out : Outside) (d : Detection) (landed : Landed)
      (kept_body : Option (List ℕ)) (observe : Bool) (row : FilesRow)
      → Frames Q (converge_body sha256 out row.id landed.hash kept_body)
      → Frames Q (converge_multipart_row out row.id landed.hash (is_other d.kind))
      → Frames Q (record_row sha256 out d landed kept_body observe row)
  unfolding record_row
  record_row-Keeps sha256 out d landed kept_body observe row converged observed =
      bind-Keeps
        (bind-Keeps
          (bind-Keeps (bind-Keeps converged (λ u. stamp_last_upload-Keeps out)) (λ u.
            if-Keeps (may_flip row.queue)
              (flip_by_kind-Keeps row.id landed.hash d.session_id d.kind) (pure-Keeps tt)))
          (λ u. if-Keeps observe observed (pure-Keeps false)))
        (λ was_realigned. finish_upload-Keeps out (is_other d.kind) landed.hash row was_realigned)

module _ {P : Bucket → Type 0} where
  converge_body-Keeps :
      (sha256 : List ℕ → ℕ) (out : Outside) (id hash : ℕ) (body : Option (List ℕ))
      → ((bytes : List ℕ) → body ≡ some bytes → KeptByPuts P sha256 hash bytes)
      → Keeps P (converge_body sha256 out id hash body)
  unfolding converge_body
  converge_body-Keeps sha256 out id hash none k = pure-Keeps tt
  converge_body-Keeps sha256 out id hash (some bytes) k =
      bind-Keeps (converge_r2_with_row-Keeps sha256 hash bytes out id (k bytes refl))
        (λ u. pure-Keeps tt)

  realign-Keeps :
      (out : Outside) (id hash : ℕ) (known_other : Bool) (o : StoredObject) (observed : ℕ)
      → Keeps P (realign out id hash known_other o observed)
  unfolding realign
  realign-Keeps out id hash known_other o observed =
      bind-Keeps (update_row-Keeps _ _) (send_if_updated-Keeps out known_other observed)

  converge_multipart_row-Keeps :
      (out : Outside) (id hash : ℕ) (known_other : Bool)
      → Keeps P (converge_multipart_row out id hash known_other)
  unfolding converge_multipart_row
  converge_multipart_row-Keeps out id hash known_other = record {
    kept = λ hub p. elim (Bool-cases (row_holds id hash hub.row)) [
      | inr e ↦ rw (converge_multipart_row, e) p
      | inl e ↦ elim (Bool-cases out.head_reads) [
        | inr h ↦ rw (converge_multipart_row, e, h) p
        | inl h ↦ elim (Option-cases (other_object hash hub.bucket.canonical)) [
          | inl t ↦ rw (converge_multipart_row, e, h, t) p
          | inr ((o, observed), t) ↦
              rw (converge_multipart_row, e, h, t)
                ((realign-Keeps out id hash known_other o observed).kept hub p)
        ]
      ]
    ];
  }

  pub record_uploaded_object-Keeps :
      (sha256 : List ℕ → ℕ) (out : Outside) (d : Detection) (landed : Landed)
      (kept_body : Option (List ℕ)) (observe : Bool)
      → ((bytes : List ℕ) → kept_body ≡ some bytes → KeptByPuts P sha256 landed.hash bytes)
      → Keeps P (record_uploaded_object sha256 out d landed kept_body observe)
  unfolding record_uploaded_object
  record_uploaded_object-Keeps sha256 out d landed kept_body observe k =
      bind-Keeps (upsert-Keeps out d landed) λ row.
        record_row-Keeps sha256 out d landed kept_body observe row
          (converge_body-Keeps sha256 out row.id landed.hash kept_body k)
          (converge_multipart_row-Keeps out row.id landed.hash (is_other d.kind))
