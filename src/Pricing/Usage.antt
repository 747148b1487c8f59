-- ===== src/Pricing/Usage.antt =====
-- hub/src/pricing.ts: the tokens that each class of a row is billed for.
use agent_sessions_backup.Pricing.{
  UsageTokens, Billed, billed_tokens, CacheBasis, subset, disjoint, non_negative, or_else,
}
use agent_sessions_backup.Prelude.{
  ℕ, ◌+◌, ◌-◌, min, ◌≡◌, refl, Option, none, some, arith, ℤ, pos, negsuc,
}

-- Without sums over several rows, the tokens that a subset row is billed for as fresh input and as
-- cache reads are together the input that it reports, so no token is billed in both classes.
pub billed_tokens-subset :
    (u : UsageTokens)
    → u.cache_basis ≡ some subset
    → u.fresh_input_tokens ≡ none
    → u.billable_cache_read_tokens ≡ none
    → (billed_tokens u).input + (billed_tokens u).cache_read ≡ non_negative u.input_tokens
unfolding billed_tokens
billed_tokens-subset u basis fresh reads = rw (basis, fresh, reads) (omega arith)

-- What the five classes of a row are billed for, by its basis: where the cache reads are a subset of
-- the input, the input is what they leave of it. A sum that is given over several rows stands for
-- itself.
abbrev tokens_of : Option ℤ → ℕ
tokens_of (some (pos n)) = n
tokens_of _ = 0

abbrev sum_or : Option ℤ → ℕ → ℕ
sum_or (some sum) counted = tokens_of (some sum)
sum_or none counted = counted

abbrev reads_within : UsageTokens → ℕ
reads_within u = min (tokens_of u.input_tokens) (tokens_of u.cache_read_tokens)

abbrev fresh_of : CacheBasis → UsageTokens → ℕ
fresh_of disjoint u = tokens_of u.input_tokens
fresh_of subset u = sum_or u.fresh_input_tokens (tokens_of u.input_tokens - reads_within u)

abbrev reads_of : CacheBasis → UsageTokens → ℕ
reads_of disjoint u = tokens_of u.cache_read_tokens
reads_of subset u = sum_or u.billable_cache_read_tokens (reads_within u)

abbrev pub usage_of : CacheBasis → UsageTokens → Billed
usage_of basis u = record {
  input = fresh_of basis u;
  output = tokens_of u.output_tokens;
  cache_read = reads_of basis u;
  write_5m = tokens_of u.cache_creation_5m_tokens;
  write_1h = tokens_of u.cache_creation_1h_tokens;
}

tokens_lem : (count : Option ℤ) → non_negative count ≡ tokens_of count
tokens_lem none = refl
tokens_lem (some (pos n)) = refl
tokens_lem (some (negsuc n)) = refl

sum_lem : (sum : Option ℤ) (m n : ℕ) → m ≡ n → or_else sum m ≡ sum_or sum n
sum_lem none m n e = e
sum_lem (some (pos k)) m n e = refl
sum_lem (some (negsuc k)) m n e = refl

pub billed_tokens-usage_of :
    (u : UsageTokens) (basis : CacheBasis)
    → u.cache_basis ≡ some basis
    → billed_tokens u ≡ usage_of basis u
unfolding billed_tokens
billed_tokens-usage_of u disjoint e =
    rw
      (
        e,
        billed_tokens,
        tokens_lem u.input_tokens,
        tokens_lem u.output_tokens,
        tokens_lem u.cache_read_tokens,
        tokens_lem u.cache_creation_5m_tokens,
        tokens_lem u.cache_creation_1h_tokens,
      )
      refl
billed_tokens-usage_of u subset e =
    let t1 = tokens_lem u.input_tokens in
    let t3 = tokens_lem u.cache_read_tokens in
    let fresh =
      sum_lem u.fresh_input_tokens (non_negative u.input_tokens - non_negative u.cache_read_tokens)
        (tokens_of u.input_tokens - reads_within u) (omega (arith, t1, t3)) in
    let reads =
      sum_lem u.billable_cache_read_tokens
        (min (non_negative u.cache_read_tokens) (non_negative u.input_tokens)) (reads_within u)
        (omega (arith, t1, t3)) in
    rw
      (
        e,
        billed_tokens,
        fresh,
        reads,
        tokens_lem u.output_tokens,
        tokens_lem u.cache_creation_5m_tokens,
        tokens_lem u.cache_creation_1h_tokens,
      )
      refl
