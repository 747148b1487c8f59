-- ===== src/Grants/Traces.antt =====
-- hub/src/auth/read-grants.ts: any sequence of requests, and what it keeps.
use agent_sessions_backup.Grants.Rows.{All-first, All-map_rows, All-keep}
use agent_sessions_backup.Grants.{
  grant_retention_ms, is_unstamped, is_granted, is_redeemable, is_active, code_ttl_ms, stamped_row,
  first, valid_grant_params, grant_identity, revoked_row, GrantParams, exchange, GrantRow,
  revoke_grant, CodeRow, Grants, verify_grant, Asked,
}
use agent_sessions_backup.Prelude.{
  ℕ, ◌+◌, ◌*◌, ◌≡◌, inl, inr, Bool, true, false, not, Option, none, some, List, [], ◌∷◌, ltb,
  Bool-cases, Option-cases, All,
}

-- The requests, with the arguments of their handlers.
pub data Event : Type 0 where
  verified : ℕ → Bool → Option Bool → Asked → ℕ → Event
  revoked : ℕ → Bool → Bool → ℕ → Event
  exchanged : ℕ → ℕ → List ℕ → ℕ → ℕ → Event
  presented : ℕ → ℕ → Event

unfoldable pub step : Event → Grants → Grants
unfolding verify_grant revoke_grant exchange grant_identity
step (verified now origin_ok response asked code) g =
    (verify_grant now origin_ok response asked code g).0
step (revoked now origin_ok is_signed_in id) g = (revoke_grant now origin_ok is_signed_in id g).0
step (exchanged now code challenge id token) g = (exchange now code challenge id token g).0
step (presented now token) g = (grant_identity now token g).0

unfoldable pub run : List Event → Grants → Grants
unfolding step
run [] g = g
run (event ∷ events) g = run events (step event g)

-- What the rows of the state satisfy.
module _ (C : CodeRow → Type 0) (G : GrantRow → Type 0) where
  abbrev pub Holds : Grants → Type 0
  Holds g = All C g.codes × All G g.grants

  pub verify_grant-Holds :
      (now : ℕ) (origin_ok : Bool) (response : Option Bool) (asked : Asked) (code : ℕ) (g : Grants)
      → ((params : GrantParams)
          → valid_grant_params asked ≡ some params
          → C (record {
            code_hash = code;
            pkce_challenge = params.challenge;
            label = params.label;
            ttl_seconds = params.ttl;
            expires_at = now + code_ttl_ms;
          }))
      → Holds g
      → Holds (verify_grant now origin_ok response asked code g).0
  unfolding verify_grant
  verify_grant-Holds now false response asked code g k h = h
  verify_grant-Holds now true none asked code g k h =
      elim (Option-cases (valid_grant_params asked)) [
        | inl e ↦ rw (verify_grant, e) h
        | inr (params, e) ↦ rw (verify_grant, e) h
      ]
  verify_grant-Holds now true (some is_verified) asked code g k h =
      elim (Option-cases (valid_grant_params asked)) [
        | inl e ↦ rw (verify_grant, e) h
        | inr (params, e) ↦ elim (Bool-cases is_verified) [
          | inr t ↦ rw (verify_grant, e, t) h
          | inl t ↦
              rw (verify_grant, e, t)
                ((k params e, All-keep C (λ row. ltb now row.expires_at) g.codes h.0), h.1)
        ]
      ]

  pub revoke_grant-Holds :
      (now : ℕ) (origin_ok is_signed_in : Bool) (id : ℕ) (g : Grants)
      → ((row : GrantRow) → G row → G (revoked_row now id row))
      → Holds g
      → Holds (revoke_grant now origin_ok is_signed_in id g).0
  unfolding revoke_grant
  revoke_grant-Holds now false is_signed_in id g k h = h
  revoke_grant-Holds now true false id g k h = h
  revoke_grant-Holds now true true id g k h = elim (Option-cases (first (is_active id) g.grants)) [
    | inl e ↦ rw (revoke_grant, e) h
    | inr (row, e) ↦ rw (revoke_grant, e) (h.0, All-map_rows G (revoked_row now id) g.grants k h.1)
  ]

  pub exchange-Holds :
      (now code : ℕ) (challenge : List ℕ) (id token : ℕ) (g : Grants)
      → ((row : CodeRow)
          → C row
          → G (record {
            grant_id = id;
            token_hash = token;
            label = row.label;
            created_at = now;
            expires_at = now + row.ttl_seconds * 1000;
            revoked_at = none;
            last_used_at = none;
          }))
      → Holds g
      → Holds (exchange now code challenge id token g).0
  unfolding exchange
  exchange-Holds now code challenge id token g k h =
      elim (Option-cases (first (is_redeemable now code challenge) g.codes)) [
        | inl e ↦ rw (exchange, e) h
        | inr (row, e) ↦
            let (c, found) = All-first C (is_redeemable now code challenge) g.codes row h.0 e in
            rw (exchange, e)
              (
                All-keep C (λ r. not (is_redeemable now code challenge r)) g.codes h.0,
                (
                  k row c,
                  All-keep G (λ r. ltb now (r.expires_at + grant_retention_ms)) g.grants h.1,
                ),
              )
      ]

  pub grant_identity-Holds :
      (now token : ℕ) (g : Grants)
      → ((id : ℕ) (row : GrantRow) → G row → G (stamped_row now id row))
      → Holds g
      → Holds (grant_identity now token g).0
  unfolding grant_identity
  grant_identity-Holds now token g k h =
      elim (Option-cases (first (is_granted now token) g.grants)) [
        | inl e ↦ rw (grant_identity, e) h
        | inr (row, e) ↦ elim (Bool-cases (is_unstamped now row.last_used_at)) [
          | inl t ↦
              rw (grant_identity, e, t)
                (h.0, All-map_rows G (stamped_row now row.grant_id) g.grants (k row.grant_id) h.1)
          | inr t ↦ rw (grant_identity, e, t) h
        ]
      ]
