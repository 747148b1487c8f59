-- ===== src/Queue/Hashes.antt =====
-- hub/src/queue.ts: a requeue does not touch the content hash.
use agent_sessions_backup.Queue.{is_recent, is_reserved, upload, reindex, recover}
use agent_sessions_backup.Queue.{
  same_reason, is_pending, to_pending, is_fresh_reservation, carries, transition, FileRow, enqueue,
  Request, Reason, mark_pending_and_enqueue, gated, refreshed, clear_reason,
}
use agent_sessions_backup.Prelude.{
  ℕ, ◌≡◌, refl, ap, ◌∙◌, inl, inr, Bool, not, ◌&&◌, Option, none, some, ◌==◌, Bool-cases,
}

clear_reason-hash :
    (hash : ℕ) (reason : Option Reason) (row : FileRow)
    → (clear_reason hash reason row).content_hash ≡ row.content_hash
unfolding clear_reason
clear_reason-hash hash reason row =
    elim (Bool-cases (
      carries reason
      && (is_pending row.parse_state
          && (row.content_hash == hash && same_reason row.reserved_reason reason)))) [
            | inl t ↦ rw (clear_reason, t) refl
            | inr t ↦ rw (clear_reason, t) refl
          ]

refreshed-hash :
    (q : Request) (row : FileRow) (owner : Option ℕ) → (refreshed q row owner).row ≡ row
unfolding refreshed
refreshed-hash q row none = refl
refreshed-hash q row (some owner) = elim (Bool-cases (is_fresh_reservation q.check_time row)) [
  | inr t ↦ rw (refreshed, t) refl
  | inl t ↦ elim (Bool-cases q.queue_accepts) [
    | inl a ↦ rw (refreshed, t, a) refl
    | inr a ↦ rw (refreshed, t, a) refl
  ]
]

gated-same : (q : Request) (row : FileRow) (reason : Option Reason) → (gated q row reason).row ≡ row
unfolding gated
gated-same q row none = refl
gated-same q row (some upload) = refreshed-hash q row row.reserved_by
gated-same q row (some reindex) = refl
gated-same q row (some recover) = refl

transition-hash :
    (force : Bool) (now : ℕ) (row : FileRow)
    → (transition force now row).0.content_hash ≡ row.content_hash
unfolding transition to_pending
transition-hash force now row =
    elim (Bool-cases
      (not force && (is_reserved row.parse_state && is_recent row.reserved_at now))) [
        | inl t ↦ rw (transition, t) refl
        | inr t ↦ rw (transition, t) refl
      ]

enqueue-hash :
    (q : Request) (row : FileRow)
    → ((r : FileRow) → (q.others r).content_hash ≡ r.content_hash)
    → (enqueue q row).row.content_hash ≡ row.content_hash
unfolding enqueue
enqueue-hash q row others = elim (Bool-cases q.queue_accepts) [
  | inl t ↦
      rw (enqueue, t) (clear_reason-hash q.hash row.reserved_reason (q.others row) ∙ others row)
  | inr t ↦ rw (enqueue, t) refl
]

-- Where nobody else writes to the row meanwhile.
pub mark_pending_and_enqueue-hash :
    (q : Request) (row : FileRow)
    → ((r : FileRow) → (q.others r).content_hash ≡ r.content_hash)
    → (mark_pending_and_enqueue q row).row.content_hash ≡ row.content_hash
unfolding mark_pending_and_enqueue
mark_pending_and_enqueue-hash q row others =
    let next : FileRow = (transition q.force q.time row).0 in
    elim (Bool-cases (transition q.force q.time row).1) [
      | inl t ↦
          rw (mark_pending_and_enqueue, t)
            (enqueue-hash q next others ∙ transition-hash q.force q.time row)
      | inr t ↦
          rw (mark_pending_and_enqueue, t)
            (ap (λ r. r.content_hash) (gated-same q next next.reserved_reason)
              ∙ transition-hash q.force q.time row)
    ]
