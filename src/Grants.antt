-- ===== src/Grants.antt =====
-- hub/src/auth/read-grants.ts: codes and bearers that let an agent read. A text is the list of its code
-- units and a time a number of milliseconds; the hash of a code or of a bearer is a number. The parser
-- of URLs, the session and passkey checks, the random ids and the page are left out: their results
-- come with the request. A statement, or the statements of one request, is one transition.
pub mod Rows
pub mod Traces
pub mod Lifetimes
pub mod Bearers
pub mod Terms
pub mod Tests
use agent_sessions_backup.Prelude.{
  ℕ, zero, suc, ◌+◌, ◌-◌, ◌*◌, ◌/◌, ◌%◌, ◌^◌, ◌≤◌, ◌<◌, min, max, ◌≡◌, refl, sym, ap, ◌∙◌, subst,
  ◌≡⟨◌⟩◌, ◌∎, ◌≢◌, ◌↔◌, ◌⊎◌, inl, inr, Bool, true, false, not, ◌&&◌, ◌||◌, Option, none, some, List,
  [], ◌∷◌, ◌++◌, map, append-nil, append_assoc, arith, dec_lt, ℕ_discrete, ltb, leb, ◌==◌,
  if◌then◌else◌, ltb→lt, lt→ltb, leb→le, ==_iff, tests, Bool-cases, Option-cases, length, take,
  drop, replicate, concat, get_elem?, All, length-append, take-append-drop, length-take,
  length-drop, take-append, drop-append, concat-append, All-append, All-map, ℤ, pos, negsuc, Result,
  ok, err, Result-cases, Call, done, lost_before, lost_after, call, call-kept, text_eq, starts_with,
  find, lower,
}

abbrev is_digit_code : ℕ → Bool
is_digit_code c = leb b'0' c && leb c b'9'

abbrev is_letter_code : ℕ → Bool
is_letter_code c = (leb b'A' c && leb c b'Z') || (leb b'a' c && leb c b'z')

abbrev pub is_base64url : ℕ → Bool
is_base64url c = is_letter_code c || is_digit_code c || (c == b'_') || (c == b'-')

abbrev pub is_verifier_code : ℕ → Bool
is_verifier_code c =
    is_letter_code c || is_digit_code c || (c == b'-') || (c == b'.') || (c == b'_') || (c == b'~')

abbrev pub is_label_code : ℕ → Bool
is_label_code c =
    is_letter_code c
    || is_digit_code c
    || (c == b' ')
    || (c == b'.')
    || (c == b'_')
    || (c == b':')
    || (c == b'@')
    || (c == b'/')
    || (c == b'-')

unfoldable pub all : (ℕ → Bool) → List ℕ → Bool
all test [] = true
all test (c ∷ cs) = test c && all test cs

-- `PKCE_RE`, and `CODE_RE`.
unfoldable pub is_token : List ℕ → Bool
unfolding all
is_token text = (length text == 43) && all is_base64url text

-- `VERIFIER_RE`.
unfoldable pub is_verifier : List ℕ → Bool
unfolding all
is_verifier text = leb 43 (length text) && leb (length text) 128 && all is_verifier_code text

-- `LABEL_RE`.
unfoldable pub is_label : List ℕ → Bool
unfolding all
is_label [] = false
is_label (c ∷ cs) =
    (is_letter_code c || is_digit_code c) && leb (length cs) 63 && all is_label_code cs

pub record Url : Type 0 where
  pub protocol : List ℕ
  pub hostname : List ℕ
  pub username : List ℕ
  pub password : List ℕ
  pub port : List ℕ

abbrev pub http : List ℕ
http = b'h' ∷ b't' ∷ b't' ∷ b'p' ∷ b':' ∷ []

abbrev pub loopback : List ℕ
loopback = b'1' ∷ b'2' ∷ b'7' ∷ b'.' ∷ b'0' ∷ b'.' ∷ b'0' ∷ b'.' ∷ b'1' ∷ []

-- `exactLoopback` on a URL that the parser took.
unfoldable pub exact_loopback : Url → Bool
unfolding text_eq
exact_loopback url =
    text_eq url.protocol http
    && text_eq url.hostname loopback
    && (length url.username == 0)
    && (length url.password == 0)
    && not (length url.port == 0)

-- The fields of a request; a `ttl` that is no safe integer is `some none`.
pub record Asked : Type 0 where
  pub challenge : Option (List ℕ)
  pub callback : Option Url
  pub label : Option (List ℕ)
  pub ttl : Option (Option ℕ)

pub record GrantParams : Type 0 where
  pub challenge : List ℕ
  pub callback : Url
  pub label : List ℕ
  pub ttl : ℕ

abbrev pub ttl_min_seconds : ℕ
ttl_min_seconds = 300

abbrev pub ttl_max_seconds : ℕ
ttl_max_seconds = 86400

abbrev pub ttl_default_seconds : ℕ
ttl_default_seconds = 14400

abbrev pub kept_if : {A : Type 0} → (A → Bool) → Option A → Option A
kept_if test none = none
kept_if test (some a) = if test a then some a else none

unfoldable pub valid_ttl : Option (Option ℕ) → Option ℕ
valid_ttl none = some ttl_default_seconds
valid_ttl (some none) = none
valid_ttl (some (some ttl)) =
    if leb ttl_min_seconds ttl && leb ttl ttl_max_seconds then some ttl else none

unfoldable pub valid_grant_params : Asked → Option GrantParams
unfolding is_token is_label exact_loopback valid_ttl
valid_grant_params asked = elim (kept_if is_token asked.challenge) [
  | none ↦ none
  | some challenge ↦ elim (kept_if exact_loopback asked.callback) [
    | none ↦ none
    | some callback ↦ elim (kept_if is_label asked.label) [
      | none ↦ none
      | some label ↦ elim (valid_ttl asked.ttl) [
        | none ↦ none
        | some ttl ↦
            some (record { challenge = challenge; callback = callback; label = label; ttl = ttl })
      ]
    ]
  ]
]

pub record CodeRow : Type 0 where
  pub code_hash : ℕ
  pub pkce_challenge : List ℕ
  pub label : List ℕ
  pub ttl_seconds : ℕ
  pub expires_at : ℕ

pub record GrantRow : Type 0 where
  pub grant_id : ℕ
  pub token_hash : ℕ
  pub label : List ℕ
  pub created_at : ℕ
  pub expires_at : ℕ
  pub revoked_at : Option ℕ
  pub last_used_at : Option ℕ

pub record Grants : Type 0 where
  pub codes : List CodeRow
  pub grants : List GrantRow

pub data GrantReply : Type 0 where
  bad_origin bad_request unverified grant_unauthorized not_found bad_code : GrantReply
  code_minted code_revoked : GrantReply
  token_issued : ℕ → GrantReply

abbrev pub code_ttl_ms : ℕ
code_ttl_ms = 5 * 60000

abbrev pub last_used_write_interval_ms : ℕ
last_used_write_interval_ms = 60000

abbrev pub grant_retention_ms : ℕ
grant_retention_ms = 30 * 86400000

-- The rows of a table for which a test holds.
unfoldable pub keep {ℓ} : {A : Type ℓ} → (A → Bool) → List A → List A
keep test [] = []
keep test (row ∷ rows) = let rest = keep test rows in if test row then row ∷ rest else rest

unfoldable pub first {ℓ} : {A : Type ℓ} → (A → Bool) → List A → Option A
first test [] = none
first test (row ∷ rows) = let rest = first test rows in if test row then some row else rest

-- POST /grant/verify, with whether the origin is accepted and, if the body has a passkey response,
-- whether it is verified.
unfoldable pub verify_grant : ℕ → Bool → Option Bool → Asked → ℕ → Grants → Grants × GrantReply
unfolding valid_grant_params keep
verify_grant now origin_ok response asked code g =
    if not origin_ok then (g, bad_origin) else elim (valid_grant_params asked) [
      | none ↦ (g, bad_request)
      | some params ↦ elim response [
        | none ↦ (g, bad_request)
        | some is_verified ↦ if not is_verified then (g, unverified) else (
          record g {
            codes =
                record {
                  code_hash = code;
                  pkce_challenge = params.challenge;
                  label = params.label;
                  ttl_seconds = params.ttl;
                  expires_at = now + code_ttl_ms;
                }
                ∷ keep (λ row. ltb now row.expires_at) g.codes;
          },
          code_minted,
        )
      ]
    ]

-- POST /grants/{id}/revoke.
unfoldable pub is_active : ℕ → GrantRow → Bool
is_active id row = (row.grant_id == id) && elim row.revoked_at [ none ↦ true | some at ↦ false ]

abbrev pub revoked_row : ℕ → ℕ → GrantRow → GrantRow
revoked_row now id row = if is_active id row then record row { revoked_at = some now } else row

unfoldable pub revoke_grant : ℕ → Bool → Bool → ℕ → Grants → Grants × GrantReply
unfolding is_active first
revoke_grant now origin_ok is_signed_in id g =
    if not origin_ok
    then (g, bad_origin)
    else (if not is_signed_in
        then (g, grant_unauthorized)
        else elim (first (is_active id) g.grants) [
          | none ↦ (g, not_found)
          | some row ↦ (record g { grants = map (revoked_row now id) g.grants }, code_revoked)
        ])

-- The code that a request names: of its hash and of its verifier's challenge, and not expired.
unfoldable pub is_redeemable : ℕ → ℕ → List ℕ → CodeRow → Bool
unfolding text_eq
is_redeemable now code challenge row =
    (row.code_hash == code) && (text_eq row.pkce_challenge challenge && ltb now row.expires_at)

-- The exchange, with a new id and the hash of a new bearer.
unfoldable pub exchange : ℕ → ℕ → List ℕ → ℕ → ℕ → Grants → Grants × GrantReply
unfolding is_redeemable keep first
exchange now code challenge new_id new_token g =
    let codes : List CodeRow = keep (λ row. not (is_redeemable now code challenge row)) g.codes in
    elim (first (is_redeemable now code challenge) g.codes) [
      | none ↦ (g, bad_code)
      | some row ↦ (
        record {
          codes = codes;
          grants =
              record {
                grant_id = new_id;
                token_hash = new_token;
                label = row.label;
                created_at = now;
                expires_at = now + row.ttl_seconds * 1000;
                revoked_at = none;
                last_used_at = none;
              }
              ∷ keep (λ grant. ltb now (grant.expires_at + grant_retention_ms)) g.grants;
        },
        token_issued new_id,
      )
    ]

-- The route: the texts of the request, under the hash of the code and the challenge of the verifier.
unfoldable pub exchange_route :
    (List ℕ → ℕ) → (List ℕ → List ℕ) → ℕ → List ℕ → List ℕ → ℕ → ℕ → Grants → Grants × GrantReply
unfolding is_token is_verifier exchange
exchange_route code_hash challenge_of now code verifier new_id new_token g =
    if is_token code && is_verifier verifier
    then exchange now (code_hash code) (challenge_of verifier) new_id new_token g
    else (g, bad_request)

-- The grant of a bearer.
unfoldable pub is_granted : ℕ → ℕ → GrantRow → Bool
is_granted now token row =
    (row.token_hash == token)
    && (elim row.revoked_at [ none ↦ true | some at ↦ false ] && ltb now row.expires_at)

abbrev pub is_unstamped : ℕ → Option ℕ → Bool
is_unstamped now none = true
is_unstamped now (some at) = ltb (at + last_used_write_interval_ms) now

abbrev pub stamped_row : ℕ → ℕ → GrantRow → GrantRow
stamped_row now id row =
    if (row.grant_id == id) && is_unstamped now row.last_used_at
    then record row { last_used_at = some now }
    else row

unfoldable pub grant_identity : ℕ → ℕ → Grants → Grants × Option GrantRow
unfolding is_granted first
grant_identity now token g = elim (first (is_granted now token) g.grants) [
  | none ↦ (g, none)
  | some row ↦ (
    if is_unstamped now row.last_used_at
        then record g { grants = map (stamped_row now row.grant_id) g.grants }
        else g,
    some row,
  )
]
