-- ===== src/Queue/Requeue.antt =====
-- hub/src/queue.ts: what a requeue leaves of the row, and what it sends.
use agent_sessions_backup.Prelude.{
  ℕ, ◌≡◌, refl, ap, ◌∙◌, ◌⊎◌, inl, inr, Bool, true, false, ◌&&◌, Option, none, some, arith,
  Bool-cases,
}
use agent_sessions_backup.Queue.{
  is_recent, is_reserved, FileRow, ParseState, pending, error, reserved, Reason, upload, reindex,
  recover, ParseMessage, Request, Requeued, mark_pending_and_enqueue, transition,
  is_fresh_reservation, to_pending, clear_reason, refreshed, gated, enqueue,
}

-- The states in which a lost message is noticed and sent again.
abbrev pub is_open : ParseState → Bool
is_open pending = true
is_open error = true
is_open reserved = true
is_open _ = false

transition-cases :
    (force : Bool) (now : ℕ) (row : FileRow)
    → ((force ≡ false)
        × (is_fresh_reservation now row ≡ true)
        × (transition force now row ≡ (row, false)))
      ⊎ (transition force now row ≡ (to_pending force row, true))
unfolding transition is_fresh_reservation
transition-cases true now row = inr refl
transition-cases false now row =
    elim (Bool-cases (is_reserved row.parse_state && is_recent row.reserved_at now)) [
      | inl e ↦ rw e (inl (refl, refl, refl))
      | inr e ↦ rw e (inr refl)
    ]

reserved-open :
    (s : ParseState) (recent : Bool) → (is_reserved s && recent) ≡ true → is_open s ≡ true
reserved-open reserved recent h = refl
reserved-open s recent h = cc

fresh-open :
    (now : ℕ) (row : FileRow) → is_fresh_reservation now row ≡ true → is_open row.parse_state ≡ true
unfolding is_fresh_reservation
fresh-open now row h = reserved-open row.parse_state (is_recent row.reserved_at now) h

-- The row and the message of a call that leaves a fresh reservation alone.
abbrev pub LeavesAlone : FileRow → Requeued → Type 0
LeavesAlone row r =
    (r.row ≡ row)
    × ((m : ParseMessage)
        → r.sent ≡ some m
        → (owner : ℕ) × (row.reserved_by ≡ some owner)
          × (row.reserved_reason ≡ some upload)
          × (m.reservation ≡ some (owner, row.reservation_generation)))

gated-LeavesAlone :
    (q : Request) (row : FileRow) (reason : Option Reason) (owner : Option ℕ)
    → row.reserved_reason ≡ reason
    → row.reserved_by ≡ owner
    → LeavesAlone row (gated q row reason)
unfolding gated refreshed
gated-LeavesAlone q row (some upload) none er eo = rw eo (refl, λ m h. absurd cc)
gated-LeavesAlone q row (some upload) (some owner) er eo =
    elim (Bool-cases (is_fresh_reservation q.check_time row)) [
      | inl f ↦ elim (Bool-cases q.queue_accepts) [
        | inl a ↦ rw (eo, f, a) (refl, λ m h. (owner, refl, er, ground arith))
        | inr a ↦ rw (eo, f, a) (refl, λ m h. absurd cc)
      ]
      | inr f ↦ rw (eo, f) (refl, λ m h. absurd cc)
    ]
gated-LeavesAlone q row (some reindex) owner er eo = (refl, λ m h. absurd cc)
gated-LeavesAlone q row (some recover) owner er eo = (refl, λ m h. absurd cc)
gated-LeavesAlone q row none owner er eo = (refl, λ m h. absurd cc)

-- A fresh reservation belongs to the cleanup that made it: unless the requeue is forced, the row
-- stays as it is, and the only message that may be sent is one for the owner of an upload
-- reservation, under its generation.
pub mark_pending_and_enqueue-LeavesAlone :
    (q : Request) (row : FileRow)
    → q.force ≡ false
    → is_fresh_reservation q.time row ≡ true
    → LeavesAlone row (mark_pending_and_enqueue q row)
unfolding mark_pending_and_enqueue transition is_fresh_reservation
mark_pending_and_enqueue-LeavesAlone q row e f =
    rw (e, f) (gated-LeavesAlone q row row.reserved_reason row.reserved_by refl refl)

clear_reason-open :
    (hash : ℕ) (stored : Option Reason) (row : FileRow)
    → (clear_reason hash stored row).parse_state ≡ row.parse_state
unfolding clear_reason
clear_reason-open hash stored row = ground arith

enqueue-open :
    (q : Request) (row : FileRow)
    → ((r : FileRow) → (q.others r).parse_state ≡ r.parse_state)
    → row.parse_state ≡ pending
    → is_open (enqueue q row).row.parse_state ≡ true
unfolding enqueue
enqueue-open q row idle p = elim (Bool-cases q.queue_accepts) [
  | inl a ↦
      rw a
        (ap is_open (clear_reason-open q.hash row.reserved_reason (q.others row) ∙ (idle row ∙ p)))
  | inr a ↦ rw a (ap is_open p)
]

pending_lem : (force : Bool) (row : FileRow) → (to_pending force row).parse_state ≡ pending
unfolding to_pending
pending_lem force row = refl

-- After a requeue the row is in a state from which a lost message is noticed, whether the message
-- was sent, the queue refused it, or the row was left to its owner, as long as nobody else moves
-- the row meanwhile.
pub mark_pending_and_enqueue-open :
    (q : Request) (row : FileRow)
    → ((r : FileRow) → (q.others r).parse_state ≡ r.parse_state)
    → is_open (mark_pending_and_enqueue q row).row.parse_state ≡ true
unfolding mark_pending_and_enqueue
mark_pending_and_enqueue-open q row idle = elim (transition-cases q.force q.time row) [
  | inl (e, f, t) ↦
      let alone = gated-LeavesAlone q row row.reserved_reason row.reserved_by refl refl in
      rw t (ap (λ r. is_open r.parse_state) alone.0 ∙ fresh-open q.time row f)
  | inr t ↦ rw t (enqueue-open q (to_pending q.force row) idle (pending_lem q.force row))
]
