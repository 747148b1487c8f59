-- ===== src/Pricing.antt =====
-- hub/src/pricing.ts, hub/src/cache-basis.ts and `priceForGroup` of hub/src/usage-agg.ts: the cost
-- of a usage row. Rates and dollars are JavaScript numbers, which the development does not define:
-- their type and the operations that the code applies to them are the record `Money`. Token counts
-- are integers. A text is the list of its code units. The signature of a cost is the list of the
-- parts that the code joins to one text.
pub mod Snapshots
pub mod Usage
pub mod Charges
pub mod Classes
pub mod Groups
pub mod Histories
pub mod Tests
use agent_sessions_backup.Prelude.{
  text_eq, ℕ, zero, suc, ◌+◌, ◌-◌, ◌*◌, ◌/◌, ◌%◌, ◌^◌, ◌≤◌, ◌<◌, min, max, ◌≡◌, refl, sym, ap, ◌∙◌,
  subst, ◌≡⟨◌⟩◌, ◌∎, ◌≢◌, ◌↔◌, ◌⊎◌, inl, inr, Bool, true, false, not, ◌&&◌, ◌||◌, Option, none,
  some, List, [], ◌∷◌, ◌++◌, map, append-nil, append_assoc, arith, dec_lt, ℕ_discrete, ltb, leb,
  ◌==◌, if◌then◌else◌, ltb→lt, lt→ltb, leb→le, ==_iff, tests, Bool-cases, Option-cases, length,
  take, drop, replicate, concat, get_elem?, All, length-append, take-append-drop, length-take,
  length-drop, take-append, drop-append, concat-append, All-append, All-map, ℤ, pos, negsuc, Result,
  ok, err, ◌>>=◌, Result-cases,
}

-- `charge tokens rate` is `(tokens * rate) / MILLION`; `same` compares two rates as texts. The
-- numbers 0 and -0 are one `Amount`: no operation of these tells them apart.
pub record Money : Type 1 where
  pub Amount : Type 0
  pub nothing : Amount
  pub charge : ℕ → Amount → Amount
  pub plus : Amount → Amount → Amount
  pub is_finite : Amount → Bool
  pub same : Amount → Amount → Bool

pub data CacheBasis : Type 0 where
  disjoint : CacheBasis
  subset : CacheBasis

-- `CACHE_BASIS_BY_HARNESS`.
omp : List ℕ
omp = b'o' ∷ b'm' ∷ b'p' ∷ []

claude_code : List ℕ
claude_code = b'c' ∷ b'l' ∷ b'a' ∷ b'u' ∷ b'd' ∷ b'e' ∷ b'-' ∷ b'c' ∷ b'o' ∷ b'd' ∷ b'e' ∷ []

codex : List ℕ
codex = b'c' ∷ b'o' ∷ b'd' ∷ b'e' ∷ b'x' ∷ []

unfoldable pub cache_basis_for_harness : Option (List ℕ) → Option CacheBasis
unfolding omp claude_code codex text_eq
cache_basis_for_harness none = none
cache_basis_for_harness (some harness) =
    if text_eq harness omp || text_eq harness claude_code
    then some disjoint
    else (if text_eq harness codex then some subset else none)

pub data ModelPricingClass : Type 0 where
  billable : ModelPricingClass
  sentinel : ModelPricingClass
  unknown : ModelPricingClass

-- `none` is null or undefined.
unfoldable pub classify_model : Option (List ℕ) → ModelPricingClass
classify_model none = unknown
classify_model (some []) = unknown
classify_model (some (c ∷ cs)) = if c == b'<' then sentinel else billable

unfoldable pub is_billable_model : Option (List ℕ) → Bool
is_billable_model model = elim (classify_model model) [
  | billable ↦ true
  | sentinel ↦ false
  | unknown ↦ false
]

-- A basis that is neither of the two is `none`, as a missing one.
pub record UsageTokens : Type 0 where
  pub cache_basis : Option CacheBasis
  pub input_tokens : Option ℤ
  pub output_tokens : Option ℤ
  pub cache_read_tokens : Option ℤ
  pub cache_creation_5m_tokens : Option ℤ
  pub cache_creation_1h_tokens : Option ℤ
  pub fresh_input_tokens : Option ℤ
  pub billable_cache_read_tokens : Option ℤ

abbrev pub non_negative : Option ℤ → ℕ
non_negative none = 0
non_negative (some (pos n)) = n
non_negative (some (negsuc n)) = 0

-- `nonNegative(sum ?? otherwise)`.
abbrev pub or_else : Option ℤ → ℕ → ℕ
or_else none otherwise = otherwise
or_else (some sum) otherwise = non_negative (some sum)

-- The tokens that each class is billed for.
pub record Billed : Type 0 where
  pub input : ℕ
  pub output : ℕ
  pub cache_read : ℕ
  pub write_5m : ℕ
  pub write_1h : ℕ

billed_input : Option CacheBasis → UsageTokens → ℕ
billed_input (some subset) u =
    or_else u.fresh_input_tokens (non_negative u.input_tokens - non_negative u.cache_read_tokens)
billed_input _ u = non_negative u.input_tokens

billed_cache_read : Option CacheBasis → UsageTokens → ℕ
billed_cache_read (some subset) u =
    or_else u.billable_cache_read_tokens
      (min (non_negative u.cache_read_tokens) (non_negative u.input_tokens))
billed_cache_read _ u = non_negative u.cache_read_tokens

unfoldable pub billed_tokens : UsageTokens → Billed
unfolding billed_input billed_cache_read
billed_tokens u = record {
  input = billed_input u.cache_basis u;
  output = non_negative u.output_tokens;
  cache_read = billed_cache_read u.cache_basis u;
  write_5m = non_negative u.cache_creation_5m_tokens;
  write_1h = non_negative u.cache_creation_1h_tokens;
}

abbrev pub any_billed : Billed → Bool
any_billed b =
    ltb 0 b.input || ltb 0 b.output || ltb 0 b.cache_read || ltb 0 b.write_5m || ltb 0 b.write_1h

pub data RateSet : Type 0 where
  standard : RateSet
  batched : RateSet
  mixed : RateSet
  no_rates : RateSet

-- `x ?? y` on values that may be missing.
abbrev pub or_other : {A : Type 0} → Option A → Option A → Option A
or_other none y = y
or_other (some x) y = some x

abbrev pub is_some : {A : Type 0} → Option A → Bool
is_some none = false
is_some (some x) = true

abbrev pub count_of : Bool → ℕ
count_of t = if t then 1 else 0

-- A class with tokens and no rate.
abbrev pub lacks : {A : Type 0} → ℕ → Option A → Bool
lacks tokens rate = ltb 0 tokens && not (is_some rate)

abbrev pub part_of : {A : Type 0} → ℕ → Option A → Option A
part_of tokens rate = if ltb 0 tokens then rate else none

-- `(tokens * (rate ?? 0)) / MILLION`.
abbrev pub charge_at : (money : Money) → ℕ → Option money.Amount → money.Amount
charge_at money tokens none = money.charge tokens money.nothing
charge_at money tokens (some rate) = money.charge tokens rate

module _ (money : Money) where
  pub record ModelPrice : Type 0 where
    pub input_cost : Option money.Amount
    pub output_cost : Option money.Amount
    pub cache_read_cost : Option money.Amount
    pub cache_write_5m_cost : Option money.Amount
    pub cache_write_1h_cost : Option money.Amount
    pub input_cost_batch : Option money.Amount
    pub output_cost_batch : Option money.Amount

  -- The rate of each class, and whether the first two are batch rates.
  pub record Rates : Type 0 where
    pub in_rate : Option money.Amount
    pub out_rate : Option money.Amount
    pub read_rate : Option money.Amount
    pub rate_5m : Option money.Amount
    pub rate_1h : Option money.Amount
    pub batch_in : Bool
    pub batch_out : Bool

  pub record CostByClass : Type 0 where
    pub input_usd : money.Amount
    pub output_usd : money.Amount
    pub cache_read_usd : money.Amount
    pub write_5m_usd : money.Amount
    pub write_1h_usd : money.Amount

  -- A part is there for a class that has tokens.
  pub record Signature : Type 0 where
    pub in_part : Option money.Amount
    pub out_part : Option money.Amount
    pub read_part : Option money.Amount
    pub part_5m : Option money.Amount
    pub part_1h : Option money.Amount
    pub basis_part : Option CacheBasis
    pub set_part : RateSet

  pub data RateSignature : Type 0 where
    unpriced_rates : RateSignature
    zero_rates : RateSignature
    rates : Signature → RateSignature

  pub record Cost : Type 0 where
    pub usd : money.Amount
    pub unpriced : Bool
    pub billable_input_tokens : ℕ
    pub rate_set : RateSet
    pub rate_signature : RateSignature
    pub by_class : CostByClass

module _ {money : Money} where
  unfoldable pub no_class_cost : CostByClass money
  no_class_cost = record {
    input_usd = money.nothing;
    output_usd = money.nothing;
    cache_read_usd = money.nothing;
    write_5m_usd = money.nothing;
    write_1h_usd = money.nothing;
  }

  unfoldable pub unpriced_cost : Cost money
  unpriced_cost = record {
    usd = money.nothing;
    unpriced = true;
    billable_input_tokens = 0;
    rate_set = no_rates;
    rate_signature = unpriced_rates;
    by_class = no_class_cost;
  }

  unfoldable pub zero_cost : Cost money
  zero_cost = record {
    usd = money.nothing;
    unpriced = false;
    billable_input_tokens = 0;
    rate_set = no_rates;
    rate_signature = zero_rates;
    by_class = no_class_cost;
  }

  unfoldable pub select_rates : ModelPrice money → Bool → Rates money
  select_rates price want_batch =
      let batch_in = want_batch && is_some price.input_cost_batch in
      let batch_out = want_batch && is_some price.output_cost_batch in
      record {
        in_rate = if batch_in then price.input_cost_batch else price.input_cost;
        out_rate = if batch_out then price.output_cost_batch else price.output_cost;
        read_rate = or_other price.cache_read_cost price.input_cost;
        rate_5m = price.cache_write_5m_cost;
        rate_1h = price.cache_write_1h_cost;
        batch_in = batch_in;
        batch_out = batch_out;
      }

  unfoldable pub lacks_rate : Billed → Rates money → Bool
  lacks_rate b r =
      lacks b.input r.in_rate
      || lacks b.output r.out_rate
      || lacks b.cache_read r.read_rate
      || lacks b.write_5m r.rate_5m
      || lacks b.write_1h r.rate_1h

  unfoldable pub class_costs : Billed → Rates money → CostByClass money
  class_costs b r = record {
    input_usd = charge_at money b.input r.in_rate;
    output_usd = charge_at money b.output r.out_rate;
    cache_read_usd = charge_at money b.cache_read r.read_rate;
    write_5m_usd = charge_at money b.write_5m r.rate_5m;
    write_1h_usd = charge_at money b.write_1h r.rate_1h;
  }

  unfoldable pub total : CostByClass money → money.Amount
  total c =
      money.plus
        (money.plus (money.plus (money.plus c.input_usd c.output_usd) c.cache_read_usd)
          c.write_5m_usd)
        c.write_1h_usd

  unfoldable pub rate_set_of : Billed → Rates money → RateSet
  rate_set_of b r =
      let cache_classes = ltb 0 b.cache_read || ltb 0 b.write_5m || ltb 0 b.write_1h in
      let batch_classes =
        count_of (ltb 0 b.input && r.batch_in) + count_of (ltb 0 b.output && r.batch_out) in
      let standard_classes =
        count_of (ltb 0 b.input && not r.batch_in)
        + count_of (ltb 0 b.output && not r.batch_out)
        + count_of cache_classes in
      if ltb 0 batch_classes && ltb 0 standard_classes
      then mixed
      else (if ltb 0 batch_classes
          then batched
          else (if ltb 0 standard_classes then standard else no_rates))

  unfoldable pub signature_of : Option CacheBasis → Billed → Rates money → Signature money
  signature_of basis b r = record {
    in_part = part_of b.input r.in_rate;
    out_part = part_of b.output r.out_rate;
    read_part = part_of b.cache_read r.read_rate;
    part_5m = part_of b.write_5m r.rate_5m;
    part_1h = part_of b.write_1h r.rate_1h;
    basis_part = basis;
    set_part = rate_set_of b r;
  }

  -- The cost of a row with tokens, at a price.
  unfoldable pub price_tokens : Option CacheBasis → Billed → Rates money → Cost money
  price_tokens basis b r =
      if lacks_rate b r || not (money.is_finite (total (class_costs b r)))
      then unpriced_cost
      else record {
        usd = total (class_costs b r);
        unpriced = false;
        billable_input_tokens = b.input;
        rate_set = rate_set_of b r;
        rate_signature = rates (signature_of basis b r);
        by_class = class_costs b r;
      }

  pub cost_at : Option CacheBasis → Billed → Option (ModelPrice money) → Bool → Cost money
  cost_at none b price want_batch = unpriced_cost
  cost_at (some basis) b price want_batch = if not (any_billed b) then zero_cost else elim price [
    | none ↦ unpriced_cost
    | some p ↦ price_tokens (some basis) b (select_rates p want_batch)
  ]

  unfoldable pub cost_of_usage : UsageTokens → Option (ModelPrice money) → Bool → Cost money
  unfolding cost_at
  cost_of_usage u price want_batch = cost_at u.cache_basis (billed_tokens u) price want_batch
