-- ===== src/Grants/Bearers.antt =====
-- hub/src/auth/read-grants.ts: what a bearer that is accepted says of its grant.
use agent_sessions_backup.Grants.Rows.{Always, All-Always, All-first}
use agent_sessions_backup.Grants.{
  is_unstamped, first, Grants, grant_identity, is_granted, revoke_grant, revoked_row, is_active,
  GrantRow, code_revoked,
}
use agent_sessions_backup.Grants.Traces.{
  grant_identity-Holds, exchange-Holds, revoke_grant-Holds, verify_grant-Holds, Holds, run, step,
  Event, verified, revoked, exchanged, presented,
}
use agent_sessions_backup.Prelude.{
  ℕ, ◌≡◌, refl, ◌≢◌, inl, inr, Bool, true, false, ◌&&◌, none, some, List, [], ◌∷◌, map, arith, ltb,
  ◌==◌, if◌then◌else◌, Option-cases, All,
}

-- The event issues no grant with this id; ids are random.
abbrev pub IssuesOther : ℕ → Event → Type 0
IssuesOther id (exchanged now code challenge issued token) = (issued == id) ≡ false
IssuesOther id _ = Unit {0}

abbrev IsInactive : ℕ → GrantRow → Type 0
IsInactive id row = is_active id row ≡ false

and_false : (b : Bool) → (b && false) ≡ false
and_false true = refl
and_false false = refl

revoked-IsInactive :
    (now id : ℕ) (row : GrantRow) (t : Bool)
    → is_active id row ≡ t
    → IsInactive id (if t then record row { revoked_at = some now } else row)
unfolding is_active
revoked-IsInactive now id row true e = and_false (row.grant_id == id)
revoked-IsInactive now id row false e = e

stamped-IsInactive :
    (now id : ℕ) (row : GrantRow) (t : Bool)
    → IsInactive id row
    → IsInactive id (if t then record row { last_used_at = some now } else row)
unfolding is_active
stamped-IsInactive now id row true e = e
stamped-IsInactive now id row false e = e

-- A row that another request revokes stays without activity.
revoked_other-IsInactive :
    (now id : ℕ) (row : GrantRow) (t : Bool)
    → IsInactive id row
    → IsInactive id (if t then record row { revoked_at = some now } else row)
unfolding is_active
revoked_other-IsInactive now id row true e = and_false (row.grant_id == id)
revoked_other-IsInactive now id row false e = e

step-IsInactive :
    (id : ℕ) (event : Event) (g : Grants)
    → IssuesOther id event
    → Holds Always (IsInactive id) g
    → Holds Always (IsInactive id) (step event g)
unfolding step is_active
step-IsInactive id (verified at origin_ok response asked minted) g m h =
    verify_grant-Holds Always (IsInactive id) at origin_ok response asked minted g (λ params e. tt)
      h
step-IsInactive id (revoked at origin_ok is_signed_in other) g m h =
    revoke_grant-Holds Always (IsInactive id) at origin_ok is_signed_in other g
      (λ row. revoked_other-IsInactive at id row (is_active other row)) h
step-IsInactive id (exchanged at other proof issued token) g m h =
    exchange-Holds Always (IsInactive id) at other proof issued token g (λ row c. rw m refl) h
step-IsInactive id (presented at token) g m h =
    grant_identity-Holds Always (IsInactive id) at token g
      (λ other row.
        stamped-IsInactive at id row ((row.grant_id == other) && is_unstamped at row.last_used_at))
      h

run-IsInactive :
    (id : ℕ) (events : List Event) (g : Grants)
    → All (IssuesOther id) events
    → Holds Always (IsInactive id) g
    → Holds Always (IsInactive id) (run events g)
unfolding run
run-IsInactive id [] g m h = h
run-IsInactive id (event ∷ events) g (e, m) h =
    run-IsInactive id events (step event g) m (step-IsInactive id event g e h)

All-revoked :
    (now id : ℕ) (rows : List GrantRow) → All (IsInactive id) (map (revoked_row now id) rows)
All-revoked now id [] = tt
All-revoked now id (row ∷ rows) =
    (revoked-IsInactive now id row (is_active id row) refl, All-revoked now id rows)

revoke_grant-IsInactive :
    (now : ℕ) (origin_ok is_signed_in : Bool) (id : ℕ) (g : Grants)
    → (revoke_grant now origin_ok is_signed_in id g).1 ≡ code_revoked
    → Holds Always (IsInactive id) (revoke_grant now origin_ok is_signed_in id g).0
unfolding revoke_grant
revoke_grant-IsInactive now false is_signed_in id g = λ h. absurd cc
revoke_grant-IsInactive now true false id g = λ h. absurd cc
revoke_grant-IsInactive now true true id g = elim (Option-cases (first (is_active id) g.grants)) [
  | inl e ↦ rw (revoke_grant, e) (λ h. absurd cc)
  | inr (row, e) ↦ rw (revoke_grant, e) (λ h. (All-Always g.codes, All-revoked now id g.grants))
]

accepted_active :
    (same is_token is_live is_timely : Bool)
    → same ≡ true
    → (same && is_live) ≡ false
    → (is_token && (is_live && is_timely)) ≡ true
    → ⊥
accepted_active true true true is_timely s e g = cc
accepted_active true true false is_timely s e g = cc
accepted_active true false is_live is_timely s e g = cc
accepted_active false is_token is_live is_timely s e g = cc

active_granted :
    (id now token : ℕ) (row : GrantRow)
    → IsInactive id row
    → is_granted now token row ≡ true
    → row.grant_id ≢ id
unfolding is_active is_granted
active_granted id now token row e g same =
    accepted_active (row.grant_id == id) (row.token_hash == token)
      (elim row.revoked_at [ none ↦ true | some at ↦ false ]) (ltb now row.expires_at)
      (ground arith) e g

pub granted_row :
    (now token : ℕ) (g : Grants) (row : GrantRow)
    → (grant_identity now token g).1 ≡ some row
    → first (is_granted now token) g.grants ≡ some row
unfolding grant_identity
granted_row now token g row = elim (Option-cases (first (is_granted now token) g.grants)) [
  | inl e ↦ rw (grant_identity, e) (λ h. absurd cc)
  | inr (r, e) ↦ rw (grant_identity, e) (λ h. h)
]

-- Once a grant was revoked, no bearer is ever accepted for it again, whatever requests follow, if none
-- of them issues a grant with the same id.
pub revoke_grant-final :
    (now later : ℕ) (origin_ok is_signed_in : Bool) (id token : ℕ) (events : List Event)
    (g : Grants) (row : GrantRow)
    → All (IssuesOther id) events
    → (revoke_grant now origin_ok is_signed_in id g).1 ≡ code_revoked
    → (grant_identity later token (run events (revoke_grant now origin_ok is_signed_in id g).0)).1
      ≡ some row
    → row.grant_id ≢ id
revoke_grant-final now later origin_ok is_signed_in id token events g row m ended accepted =
    let after : Grants = run events (revoke_grant now origin_ok is_signed_in id g).0 in
    let (u, inactive) =
      run-IsInactive id events _ m
        (revoke_grant-IsInactive now origin_ok is_signed_in id g ended) in
    let (e, granted) =
      All-first (IsInactive id) (is_granted later token) after.grants row inactive
        (granted_row later token after row accepted) in
    active_granted id later token row e granted
