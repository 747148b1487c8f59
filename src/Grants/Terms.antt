-- ===== src/Grants/Terms.antt =====
-- hub/src/auth/read-grants.ts: how long a bearer is accepted.
use agent_sessions_backup.Grants.Bearers.{granted_row}
use agent_sessions_backup.Grants.Rows.{All-first}
use agent_sessions_backup.Grants.{
  is_unstamped, is_label, is_active, exact_loopback, is_token, kept_if, ttl_default_seconds,
  grant_identity, GrantParams, ttl_max_seconds, Asked, ttl_min_seconds, is_granted, Grants,
  valid_grant_params, valid_ttl, GrantRow, CodeRow,
}
use agent_sessions_backup.Grants.Traces.{
  grant_identity-Holds, exchange-Holds, revoke_grant-Holds, verify_grant-Holds, Holds, Event, run,
  step, verified, revoked, exchanged, presented,
}
use agent_sessions_backup.Prelude.{
  ℕ, ◌+◌, ◌*◌, ◌≤◌, ◌<◌, ◌≡◌, inl, inr, Bool, true, false, ◌&&◌, Option, none, some, List, [], ◌∷◌,
  arith, ltb, leb, ◌==◌, if◌then◌else◌, Bool-cases, Option-cases,
}

-- The terms that an approved request can ask for.
abbrev IsApproved : CodeRow → Type 0
IsApproved row = (ttl_min_seconds ≤ row.ttl_seconds) × (row.ttl_seconds ≤ ttl_max_seconds)

abbrev pub HasTerm : GrantRow → Type 0
HasTerm row =
    (row.created_at + ttl_min_seconds * 1000 ≤ row.expires_at)
    × (row.expires_at ≤ row.created_at + ttl_max_seconds * 1000)

valid_ttl-bounds :
    (asked : Option (Option ℕ)) (ttl : ℕ)
    → valid_ttl asked ≡ some ttl
    → (ttl_min_seconds ≤ ttl) × (ttl ≤ ttl_max_seconds)
unfolding valid_ttl
valid_ttl-bounds none ttl =
    λ e. let same : ttl_default_seconds ≡ ttl = cc in (omega arith, omega arith)
valid_ttl-bounds (some none) ttl = λ e. absurd cc
valid_ttl-bounds (some (some given)) ttl = elim (Bool-cases (leb ttl_min_seconds given)) [
  | inr t ↦ rw (valid_ttl, t) (λ e. absurd cc)
  | inl t ↦ elim (Bool-cases (leb given ttl_max_seconds)) [
    | inr u ↦ rw (valid_ttl, t, u) (λ e. absurd cc)
    | inl u ↦
        rw (valid_ttl, t, u)
          (λ e.
            let same : given ≡ ttl = cc in
            let low : ttl_min_seconds ≤ given = ground arith in
            let high : given ≤ ttl_max_seconds = ground arith in (omega arith, omega arith))
  ]
]

valid_grant_params-ttl :
    (asked : Asked) (params : GrantParams)
    → valid_grant_params asked ≡ some params
    → valid_ttl asked.ttl ≡ some params.ttl
unfolding valid_grant_params
valid_grant_params-ttl asked params = elim (Option-cases (kept_if is_token asked.challenge)) [
  | inl a ↦ rw (valid_grant_params, a) (λ e. absurd cc)
  | inr (challenge, a) ↦ elim (Option-cases (kept_if exact_loopback asked.callback)) [
    | inl b ↦ rw (valid_grant_params, a, b) (λ e. absurd cc)
    | inr (callback, b) ↦ elim (Option-cases (kept_if is_label asked.label)) [
      | inl c ↦ rw (valid_grant_params, a, b, c) (λ e. absurd cc)
      | inr (label, c) ↦ elim (Option-cases (valid_ttl asked.ttl)) [
        | inl d ↦ rw (valid_grant_params, a, b, c, d) (λ e. absurd cc)
        | inr (ttl, d) ↦ rw (valid_grant_params, a, b, c, d) (λ e. cc)
      ]
    ]
  ]
]

stamped-HasTerm :
    (now : ℕ) (row : GrantRow) (t : Bool)
    → HasTerm row
    → HasTerm (if t then record row { last_used_at = some now } else row)
stamped-HasTerm now row true h = h
stamped-HasTerm now row false h = h

revoked-HasTerm :
    (now : ℕ) (row : GrantRow) (t : Bool)
    → HasTerm row
    → HasTerm (if t then record row { revoked_at = some now } else row)
revoked-HasTerm now row true h = h
revoked-HasTerm now row false h = h

step-HasTerm :
    (event : Event) (g : Grants)
    → Holds IsApproved HasTerm g
    → Holds IsApproved HasTerm (step event g)
unfolding step
step-HasTerm (verified at origin_ok response asked minted) g h =
    verify_grant-Holds IsApproved HasTerm at origin_ok response asked minted g
      (λ params e. valid_ttl-bounds asked.ttl params.ttl (valid_grant_params-ttl asked params e)) h
step-HasTerm (revoked at origin_ok is_signed_in id) g h =
    revoke_grant-Holds IsApproved HasTerm at origin_ok is_signed_in id g
      (λ row. revoked-HasTerm at row (is_active id row)) h
step-HasTerm (exchanged at code proof id token) g h =
    exchange-Holds IsApproved HasTerm at code proof id token g
      (λ row c. (omega (arith, c.0, c.1), omega (arith, c.0, c.1))) h
step-HasTerm (presented at token) g h =
    grant_identity-Holds IsApproved HasTerm at token g
      (λ id row. stamped-HasTerm at row ((row.grant_id == id) && is_unstamped at row.last_used_at))
      h

run-HasTerm :
    (events : List Event) (g : Grants)
    → Holds IsApproved HasTerm g
    → Holds IsApproved HasTerm (run events g)
unfolding run
run-HasTerm [] g h = h
run-HasTerm (event ∷ events) g h = run-HasTerm events (step event g) (step-HasTerm event g h)

accepted_in_time :
    (is_token is_live : Bool) (now expires : ℕ)
    → (is_token && (is_live && ltb now expires)) ≡ true
    → now < expires
accepted_in_time true true now expires e = ground arith
accepted_in_time true false now expires e = absurd cc
accepted_in_time false is_live now expires e = absurd cc

-- The hub without codes and grants.
abbrev pub no_grants : Grants
no_grants = record { codes = []; grants = [] }

-- After any requests, a bearer that is accepted belongs to a grant that has not expired and that was
-- made for five minutes at least and for a day at most.
pub grant_identity-term :
    (events : List Event) (now token : ℕ) (row : GrantRow)
    → (grant_identity now token (run events no_grants)).1 ≡ some row
    → (now < row.expires_at) × HasTerm row
unfolding is_granted
grant_identity-term events now token row accepted =
    let after : Grants = run events no_grants in
    let (codes, grants) = run-HasTerm events no_grants (tt, tt) in
    let (term, granted) =
      All-first HasTerm (is_granted now token) after.grants row grants
        (granted_row now token after row accepted) in
    (
      accepted_in_time (row.token_hash == token)
          (elim row.revoked_at [ none ↦ true | some at ↦ false ]) now row.expires_at granted,
      term,
    )
