-- ===== src/Grants/Lifetimes.antt =====
-- hub/src/auth/read-grants.ts: a code is good for one exchange, a bearer for its time and until it is
-- revoked, whatever requests come in between.
use agent_sessions_backup.Grants.Rows.{Always, All-Always, first-none, kept-All}
use agent_sessions_backup.Grants.{
  grant_retention_ms, keep, code_ttl_ms, first, Grants, exchange, is_redeemable, CodeRow, bad_code,
  token_issued,
}
use agent_sessions_backup.Grants.Traces.{
  grant_identity-Holds, exchange-Holds, revoke_grant-Holds, verify_grant-Holds, Holds, run, step,
  Event, verified, revoked, exchanged, presented,
}
use agent_sessions_backup.Prelude.{
  ℕ, ◌+◌, ◌≤◌, ◌≡◌, refl, inl, inr, Bool, true, false, ◌&&◌, none, List, [], ◌∷◌, arith, ltb, ◌==◌,
  Option-cases, All, text_eq,
}

-- The event mints no code with this hash; codes are random.
abbrev pub MintsOther : ℕ → Event → Type 0
MintsOther code (verified now origin_ok response asked minted) = (minted == code) ≡ false
MintsOther code _ = Unit {0}

-- The code cannot be redeemed at the time or later.
abbrev IsSpent : ℕ → ℕ → List ℕ → CodeRow → Type 0
IsSpent now code challenge row = is_redeemable now code challenge row ≡ false

other_code :
    (same_code same_challenge is_live : Bool)
    → same_code ≡ false
    → (same_code && (same_challenge && is_live)) ≡ false
other_code true same_challenge is_live e = cc
other_code false same_challenge is_live e = refl

still_spent :
    (same_code same_challenge : Bool) (now later expires : ℕ)
    → now ≤ later
    → (same_code && (same_challenge && ltb now expires)) ≡ false
    → (same_code && (same_challenge && ltb later expires)) ≡ false
still_spent false same_challenge now later expires l e = refl
still_spent true false now later expires l e = refl
still_spent true true now later expires l e = ground arith

IsSpent-later :
    (now later code : ℕ) (challenge : List ℕ)
    → now ≤ later
    → (rows : List CodeRow) → All (IsSpent now code challenge) rows
    → All (IsSpent later code challenge) rows
unfolding is_redeemable
IsSpent-later now later code challenge l [] h = tt
IsSpent-later now later code challenge l (row ∷ rows) (e, h) = (
  still_spent (row.code_hash == code) (text_eq row.pkce_challenge challenge) now later
      row.expires_at l e,
  IsSpent-later now later code challenge l rows h,
)

step-IsSpent :
    (now code : ℕ) (challenge : List ℕ) (event : Event) (g : Grants)
    → MintsOther code event
    → Holds (IsSpent now code challenge) Always g
    → Holds (IsSpent now code challenge) Always (step event g)
unfolding step is_redeemable
step-IsSpent now code challenge (verified at origin_ok response asked minted) g m h =
    verify_grant-Holds (IsSpent now code challenge) Always at origin_ok response asked minted g
      (λ params e.
        other_code (minted == code) (text_eq params.challenge challenge)
          (ltb now (at + code_ttl_ms)) m)
      h
step-IsSpent now code challenge (revoked at origin_ok is_signed_in id) g m h =
    revoke_grant-Holds (IsSpent now code challenge) Always at origin_ok is_signed_in id g
      (λ row u. tt) h
step-IsSpent now code challenge (exchanged at other proof id token) g m h =
    exchange-Holds (IsSpent now code challenge) Always at other proof id token g (λ row c. tt) h
step-IsSpent now code challenge (presented at token) g m h =
    grant_identity-Holds (IsSpent now code challenge) Always at token g (λ id row u. tt) h

run-IsSpent :
    (now code : ℕ) (challenge : List ℕ) (events : List Event) (g : Grants)
    → All (MintsOther code) events
    → Holds (IsSpent now code challenge) Always g
    → Holds (IsSpent now code challenge) Always (run events g)
unfolding run
run-IsSpent now code challenge [] g m h = h
run-IsSpent now code challenge (event ∷ events) g (e, m) h =
    run-IsSpent now code challenge events (step event g) m
      (step-IsSpent now code challenge event g e h)

exchange-IsSpent :
    (now code : ℕ) (challenge : List ℕ) (id token : ℕ) (g : Grants)
    → (exchange now code challenge id token g).1 ≡ token_issued id
    → Holds (IsSpent now code challenge) Always (exchange now code challenge id token g).0
unfolding exchange
exchange-IsSpent now code challenge id token g =
    elim (Option-cases (first (is_redeemable now code challenge) g.codes)) [
      | inl e ↦ rw (exchange, e) (λ h. absurd cc)
      | inr (row, e) ↦
          rw (exchange, e)
            (λ h. (
              kept-All (is_redeemable now code challenge) g.codes,
              (tt, All-Always (keep (λ r. ltb now (r.expires_at + grant_retention_ms)) g.grants)),
            ))
    ]

-- A code that was exchanged for a bearer is refused ever after with the same verifier, whatever
-- requests follow, if none of them mints a code with the same hash.
pub exchange-once :
    (now later code : ℕ) (challenge : List ℕ) (id token next_id next_token : ℕ)
    (events : List Event) (g : Grants)
    → now ≤ later
    → All (MintsOther code) events
    → (exchange now code challenge id token g).1 ≡ token_issued id
    → (exchange later code challenge next_id next_token
        (run events (exchange now code challenge id token g).0)).1
      ≡ bad_code
unfolding exchange
exchange-once now later code challenge id token next_id next_token events g l m issued =
    let after : Grants = run events (exchange now code challenge id token g).0 in
    let (spent, u) =
      run-IsSpent now code challenge events _ m
        (exchange-IsSpent now code challenge id token g issued) in
    let none_left : first (is_redeemable later code challenge) after.codes ≡ none =
      first-none (is_redeemable later code challenge) after.codes
        (IsSpent-later now later code challenge l after.codes spent) in
    rw (exchange, none_left) refl
