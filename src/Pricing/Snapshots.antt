-- ===== src/Pricing/Snapshots.antt =====
-- hub/src/pricing.ts (`priceAt`, `loadPrices`) and hub/src/usage-agg.ts (`priceForGroup`): the
-- snapshots of a model's prices, newest first. A snapshot is its `effective_from` with its rates;
-- `K` is the type of such texts and `le` their comparison.
use agent_sessions_backup.Prelude.{
  Bool, true, false, ◌&&◌, Option, none, some, List, [], ◌∷◌, ◌++◌, if◌then◌else◌,
}
use agent_sessions_backup.Pricing.{
  Money, ModelPrice, Signature, RateSignature, UsageTokens, cost_of_usage, RateSet, standard,
  batched, mixed, no_rates, CacheBasis, disjoint, subset, or_other, unpriced_rates, zero_rates,
  rates,
}

module _ {K P : Type 0} (le : K → K → Bool) where
  unfoldable pub latest_at : K → List (K × P) → Option (K × P)
  latest_at ts [] = none
  latest_at ts (s ∷ ss) = if le s.0 ts then some s else latest_at ts ss

unfoldable pub last_of : {A : Type 0} → List A → Option A
last_of [] = none
last_of (x ∷ []) = some x
last_of (x ∷ y ∷ xs) = last_of (y ∷ xs)

module _ {K P : Type 0} (le : K → K → Bool) where
  -- `none` for a missing or an empty time.
  unfoldable pub price_at : List (K × P) → Option K → Option (K × P)
  unfolding latest_at last_of
  price_at [] ts = none
  price_at (s ∷ ss) none = some s
  price_at (s ∷ ss) (some ts) = or_other (latest_at le ts (s ∷ ss)) (last_of (s ∷ ss))

-- The rows of one model among all: `Map.get` of the map that `loadPrices` fills.
module _ {M P : Type 0} (eq : M → M → Bool) where
  unfoldable pub push_row : M → P → List (M × List P) → List (M × List P)
  push_row m p [] = (m, p ∷ []) ∷ []
  push_row m p ((n, ps) ∷ rest) =
      if eq n m then (n, ps ++ p ∷ []) ∷ rest else (n, ps) ∷ push_row m p rest

  unfoldable pub load_from : List (M × List P) → List (M × P) → List (M × List P)
  unfolding push_row
  load_from by_model [] = by_model
  load_from by_model ((m, p) ∷ rows) = load_from (push_row m p by_model) rows

  unfoldable pub load_prices : List (M × P) → List (M × List P)
  unfolding load_from
  load_prices rows = load_from [] rows

unfoldable pub same_set : RateSet → RateSet → Bool
same_set standard standard = true
same_set batched batched = true
same_set mixed mixed = true
same_set no_rates no_rates = true
same_set _ _ = false

unfoldable pub same_basis : Option CacheBasis → Option CacheBasis → Bool
same_basis none none = true
same_basis (some disjoint) (some disjoint) = true
same_basis (some subset) (some subset) = true
same_basis _ _ = false

unfoldable pub same_part : (money : Money) → Option money.Amount → Option money.Amount → Bool
same_part money none none = true
same_part money none (some y) = false
same_part money (some x) none = false
same_part money (some x) (some y) = money.same x y

module _ {money : Money} where
  unfoldable pub same_parts : Signature money → Signature money → Bool
  unfolding same_set same_basis same_part
  same_parts s t =
      same_part money s.in_part t.in_part
      && same_part money s.out_part t.out_part
      && same_part money s.read_part t.read_part
      && same_part money s.part_5m t.part_5m
      && same_part money s.part_1h t.part_1h
      && same_basis s.basis_part t.basis_part
      && same_set s.set_part t.set_part

  -- `===` on two signatures.
  unfoldable pub same_signature : RateSignature money → RateSignature money → Bool
  unfolding same_parts
  same_signature unpriced_rates unpriced_rates = true
  same_signature zero_rates zero_rates = true
  same_signature (rates s) (rates t) = same_parts s t
  same_signature _ _ = false

  module _ {K : Type 0} (le : K → K → Bool) where
    -- `history.every(…)`.
    unfoldable pub every_same :
        RateSignature money → UsageTokens → Bool → List (K × ModelPrice money) → Bool
    unfolding same_signature
    every_same baseline row want_batch [] = true
    every_same baseline row want_batch (s ∷ ss) =
        same_signature (cost_of_usage row (some s.1) want_batch).rate_signature baseline
        && every_same baseline row want_batch ss

    -- `none` is `EPOCH_UNKNOWN_TIME`.
    unfoldable pub price_for_group :
        List (K × ModelPrice money) → Option K → UsageTokens → Bool → Option (K × ModelPrice money)
    unfolding every_same
    price_for_group history (some epoch) row want_batch = price_at le history (some epoch)
    price_for_group [] none row want_batch = none
    price_for_group (first ∷ []) none row want_batch = some first
    price_for_group (first ∷ second ∷ others) none row want_batch =
        let baseline = (cost_of_usage row (some first.1) want_batch).rate_signature in
        if every_same baseline row want_batch (first ∷ second ∷ others) then some first else none
