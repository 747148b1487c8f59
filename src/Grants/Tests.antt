-- ===== src/Grants/Tests.antt =====
-- hub/src/auth/read-grants.ts: one code, its exchange and the revocation of its grant.
use agent_sessions_backup.Grants.Lifetimes.{exchange-once}
use agent_sessions_backup.Grants.Terms.{grant_identity-term, no_grants, HasTerm}
use agent_sessions_backup.Grants.Bearers.{revoke_grant-final}
use agent_sessions_backup.Grants.{
  is_granted, grant_identity, is_active, revoke_grant, first, is_redeemable, keep, all, valid_ttl,
  exact_loopback, is_label, is_token, loopback, valid_grant_params, http, GrantRow, exchange,
  verify_grant, Grants, Asked, bad_code, code_revoked, token_issued,
}
use agent_sessions_backup.Grants.Traces.{step, run, Event, verified, exchanged, presented}
use agent_sessions_backup.Prelude.{
  ℕ, ◌<◌, ◌≡◌, refl, ◌≢◌, true, none, some, List, [], ◌∷◌, arith, replicate, text_eq,
}

abbrev challenge : List ℕ
challenge = replicate 43 b'a'

abbrev asked : Asked
asked = record {
  challenge = some challenge;
  callback = some (record {
    protocol = http;
    hostname = loopback;
    username = [];
    password = [];
    port = b'8' ∷ b'0' ∷ [];
  });
  label = some (b'o' ∷ b'm' ∷ b'p' ∷ []);
  ttl = some (some 600);
}

-- Code 7 is approved at 1000, and exchanged at 2000 for grant 5 with bearer 11.
abbrev with_code : Grants
with_code = (verify_grant 1000 true (some true) asked 7 no_grants).0

abbrev with_grant : Grants
with_grant = (exchange 2000 7 challenge 5 11 with_code).0

code_is_exchanged : (exchange 2000 7 challenge 5 11 with_code).1 ≡ token_issued 5
unfolding verify_grant valid_grant_params is_token is_label exact_loopback valid_ttl all text_eq
    keep exchange is_redeemable first
code_is_exchanged = refl

exchange-once_example :
    (exchange 3000 7 challenge 6 12
      (run (presented 2500 11 ∷ []) (exchange 2000 7 challenge 5 11 with_code).0)).1
    ≡ bad_code
exchange-once_example =
    exchange-once 2000 3000 7 challenge 5 11 6 12 (presented 2500 11 ∷ []) with_code (omega arith)
      (tt, tt) code_is_exchanged

-- Another grant, which stays good when grant 5 is revoked.
abbrev two_grants : Grants
two_grants = record with_grant {
  grants =
      record {
        grant_id = 9;
        token_hash = 13;
        label = [];
        created_at = 0;
        expires_at = 600000;
        revoked_at = none;
        last_used_at = none;
      }
      ∷ with_grant.grants;
}

grant_is_revoked : (revoke_grant 4000 true true 5 two_grants).1 ≡ code_revoked
unfolding verify_grant valid_grant_params is_token is_label exact_loopback valid_ttl all text_eq
    keep exchange is_redeemable first revoke_grant is_active
grant_is_revoked = refl

abbrev other_grant : GrantRow
other_grant = record {
  grant_id = 9;
  token_hash = 13;
  label = [];
  created_at = 0;
  expires_at = 600000;
  revoked_at = none;
  last_used_at = some 4500;
}

other_is_accepted :
    (grant_identity 5000 13
      (run (presented 4500 13 ∷ []) (revoke_grant 4000 true true 5 two_grants).0)).1
    ≡ some other_grant
unfolding verify_grant valid_grant_params is_token is_label exact_loopback valid_ttl all text_eq
    keep exchange is_redeemable first revoke_grant is_active run step grant_identity is_granted
other_is_accepted = refl

revoke_grant-final_example : other_grant.grant_id ≢ 5
revoke_grant-final_example =
    revoke_grant-final 4000 5000 true true 5 13 (presented 4500 13 ∷ []) two_grants other_grant
      (tt, tt) grant_is_revoked other_is_accepted

abbrev new_grant : GrantRow
new_grant = record {
  grant_id = 5;
  token_hash = 11;
  label = b'o' ∷ b'm' ∷ b'p' ∷ [];
  created_at = 2000;
  expires_at = 602000;
  revoked_at = none;
  last_used_at = none;
}

abbrev requests : List Event
requests = verified 1000 true (some true) asked 7 ∷ exchanged 2000 7 challenge 5 11 ∷ []

grant_is_accepted : (grant_identity 2500 11 (run requests no_grants)).1 ≡ some new_grant
unfolding verify_grant valid_grant_params is_token is_label exact_loopback valid_ttl all text_eq
    keep exchange is_redeemable first run step grant_identity is_granted
grant_is_accepted = refl

grant_identity-term_example : (2500 < 602000) × HasTerm new_grant
grant_identity-term_example = grant_identity-term requests 2500 11 new_grant grant_is_accepted
