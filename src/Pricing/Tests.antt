-- ===== src/Pricing/Tests.antt =====
-- The theorems on pricing at concrete inputs, and runs of the definitions.
use agent_sessions_backup.Pricing.Histories.{price_at-IsLatestAt, IsLatestAt}
use agent_sessions_backup.Pricing.Snapshots.{last_of, price_at, price_for_group}
use agent_sessions_backup.Pricing.Classes.{cost_of_usage-cases}
use agent_sessions_backup.Pricing.Charges.{IsNothing, IsCost}
use agent_sessions_backup.Pricing.Usage.{usage_of}
use agent_sessions_backup.Pricing.Groups.{price_for_group-SameCost, SameCost, IsMoney}
use agent_sessions_backup.Prelude.{
  ℕ, ◌+◌, ◌*◌, ◌≡◌, refl, ◌⊎◌, true, false, none, some, List, [], ◌∷◌, arith, leb, ◌==◌, ==_iff,
  All, pos, negsuc,
}
use agent_sessions_backup.Pricing.{
  CacheBasis, signature_of, lacks_rate, total, class_costs, price_tokens, Money, UsageTokens,
  ModelPrice, cost_of_usage, billed_tokens, subset, select_rates, rate_set_of, batched, Billed,
  cache_basis_for_harness,
}

-- Whole numbers of millionths of a dollar.
abbrev millionths : Money
millionths = record {
  Amount = ℕ;
  nothing = 0;
  charge = λ tokens rate. tokens * rate;
  plus = λ a b. a + b;
  is_finite = λ a. true;
  same = λ a b. a == b;
}

millionths-IsMoney : IsMoney millionths
millionths-IsMoney = record {
  same_sound = λ x y h. (==_iff x y).0 h;
  finite_parts = λ x y h. (refl, refl);
  charge_zero = λ rate f. omega arith;
}

-- 500 tokens of input, of which 300 are cached, and 10 of output.
abbrev row : UsageTokens
row = record {
  cache_basis = some subset;
  input_tokens = some (pos 500);
  output_tokens = some (pos 10);
  cache_read_tokens = some (pos 300);
  cache_creation_5m_tokens = none;
  cache_creation_1h_tokens = some (negsuc 4);
  fresh_input_tokens = none;
  billable_cache_read_tokens = none;
}

abbrev price : ModelPrice millionths
price = record {
  input_cost = some 3;
  output_cost = some 15;
  cache_read_cost = none;
  cache_write_5m_cost = none;
  cache_write_1h_cost = none;
  input_cost_batch = some 1;
  output_cost_batch = none;
}

-- 200 fresh tokens at 3, 10 at 15, and 300 cached ones at the input rate.
row_cost : (cost_of_usage row (some price) false).usd ≡ 1650
unfolding cost_of_usage billed_tokens select_rates price_tokens class_costs total lacks_rate
row_cost = refl

codex_basis : cache_basis_for_harness (some (b'c' ∷ b'o' ∷ b'd' ∷ b'e' ∷ b'x' ∷ [])) ≡ some subset
unfolding cache_basis_for_harness
codex_basis = refl

cost_of_usage-cases_example :
    ((some subset ≡ none) × IsNothing true (cost_of_usage row (some price) false))
    ⊎ ((basis : CacheBasis) × (some subset ≡ some basis)
        × IsCost (usage_of basis row) (some price) false (cost_of_usage row (some price) false))
cost_of_usage-cases_example = cost_of_usage-cases row (some price) false

abbrev output_only : Billed
output_only = record { input = 0; output = 10; cache_read = 0; write_5m = 0; write_1h = 0 }

abbrev batch_price : ModelPrice millionths
batch_price = record price { output_cost_batch = some 7 }

all_batched : rate_set_of output_only (select_rates batch_price true) ≡ batched
unfolding rate_set_of select_rates
all_batched = refl

-- The second snapshot changes a rate that the row does not need.
abbrev history : List (ℕ × ModelPrice millionths)
history = (20, price) ∷ (10, record price { cache_write_5m_cost = some 9 }) ∷ []

chosen_snapshot : price_for_group leb history none row false ≡ some (20, price)
unfolding price_for_group cost_of_usage billed_tokens select_rates price_tokens class_costs total
    lacks_rate signature_of rate_set_of
chosen_snapshot = refl

price_for_group-SameCost_example :
    All
      (λ t.
        SameCost millionths-IsMoney
          (cost_of_usage row (some t.1) false)
          (cost_of_usage row (some price) false))
      history
price_for_group-SameCost_example =
    price_for_group-SameCost millionths-IsMoney leb history row false chosen_snapshot

abbrev dated : List (ℕ × ℕ)
dated = (20, 1) ∷ (10, 2) ∷ []

abbrev rows : List (ℕ × ℕ)
rows = (1, 5) ∷ (2, 6) ∷ (1, 7) ∷ []

price_at-IsLatestAt_example :
    (s : ℕ × ℕ) × (price_at leb dated (some 15) ≡ some s)
    × (IsLatestAt leb 15 dated s ⊎ (All (λ t. leb t.0 15 ≡ false) dated × (last_of dated ≡ some s)))
price_at-IsLatestAt_example =
    price_at-IsLatestAt leb (λ k. ground arith) 15 (20, 1) ((10, 2) ∷ []) ((refl, tt), (tt, tt))
