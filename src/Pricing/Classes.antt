-- ===== src/Pricing/Classes.antt =====
-- hub/src/pricing.ts: what a row is charged, in every case.
use agent_sessions_backup.Pricing.Usage.{usage_of, billed_tokens-usage_of}
use agent_sessions_backup.Pricing.Charges.{
  IsNothing, IsCostAt, IsCost, class_costs-AreCharged, lacks_rate-LacksRate, select_rates-rates_of,
  class_rates, all_tokens,
}
use agent_sessions_backup.Pricing.{
  cost_at, Money, UsageTokens, ModelPrice, Billed, Rates, cost_of_usage, billed_tokens,
  select_rates, price_tokens, class_costs, total, unpriced_cost, zero_cost, no_class_cost,
  CacheBasis, any_billed, lacks_rate, rate_set_of, batched,
}
use agent_sessions_backup.Prelude.{
  ◌+◌, ◌<◌, ◌≡◌, refl, sym, ap, ◌∙◌, subst, ◌⊎◌, inl, inr, Bool, true, false, Option, none, some,
  arith, Bool-cases, Option-cases,
}

module _ {money : Money} where
  unpriced_cost-IsNothing : IsNothing {money = money} true unpriced_cost
  unfolding unpriced_cost no_class_cost
  unpriced_cost-IsNothing = (refl, refl, refl, refl)

  zero_cost-IsNothing : IsNothing {money = money} false zero_cost
  unfolding zero_cost no_class_cost
  zero_cost-IsNothing = (refl, refl, refl, refl)

  price_tokens-IsCostAt :
      (basis : Option CacheBasis) (b : Billed) (r : Rates money)
      → IsCostAt b (class_rates r) (price_tokens basis b r)
  unfolding price_tokens total
  price_tokens-IsCostAt basis b r = elim (Bool-cases (lacks_rate b r)) [
    | inl l ↦ rw (price_tokens, l) (inl (inl (lacks_rate-LacksRate b r l), unpriced_cost-IsNothing))
    | inr l ↦
        let charged = class_costs-AreCharged b r l in
        elim (Bool-cases (money.is_finite (total (class_costs b r)))) [
          | inl f ↦ rw (price_tokens, l, f) (inr (refl, refl, refl, f, charged))
          | inr f ↦
              rw (price_tokens, l, f)
                (inl (inr (class_costs b r, charged, f), unpriced_cost-IsNothing))
        ]
  ]

  cost_at-IsCost :
      (basis : CacheBasis) (b : Billed) (price : Option (ModelPrice money)) (want : Bool)
      → IsCost b price want (cost_at (some basis) b price want)
  unfolding cost_at
  cost_at-IsCost basis b price want = elim (Bool-cases (any_billed b)) [
    | inr e ↦ rw (cost_at, e) (inl (ground arith, zero_cost-IsNothing))
    | inl e ↦
        let some_tokens : 0 < all_tokens b = ground arith in
        elim (Option-cases price) [
          | inl n ↦ rw (cost_at, e, n) (inr (inl (some_tokens, refl, unpriced_cost-IsNothing)))
          | inr (p, n) ↦
              rw (cost_at, e, n)
                (inr (
                  inr (
                    some_tokens,
                    (
                      p,
                      refl,
                      subst (λ r. IsCostAt b r (price_tokens (some basis) b (select_rates p want)))
                          (select_rates-rates_of p want)
                          (price_tokens-IsCostAt (some basis) b (select_rates p want)),
                    ),
                  )))
        ]
  ]

  -- A row whose basis is not known is unpriced, with nothing charged or counted. Of another row, the
  -- tokens of the classes are those that its basis gives. If there are none, it costs nothing. If
  -- there are some, it is unpriced without a price, or if a class with tokens has no rate, or if the
  -- sum of the charges is not finite; or else its dollars are that sum, each class being charged for
  -- its tokens at its rate.
  pub cost_of_usage-cases :
      (u : UsageTokens) (price : Option (ModelPrice money)) (want_batch : Bool)
      → ((u.cache_basis ≡ none) × IsNothing true (cost_of_usage u price want_batch))
        ⊎ ((basis : CacheBasis) × (u.cache_basis ≡ some basis)
            × IsCost (usage_of basis u) price want_batch (cost_of_usage u price want_batch))
  unfolding cost_of_usage cost_at
  cost_of_usage-cases u price want_batch = elim (Option-cases u.cache_basis) [
    | inl n ↦
        let same = ap (λ basis. cost_at basis (billed_tokens u) price want_batch) n in
        inl (n, subst (IsNothing true) (sym same) unpriced_cost-IsNothing)
    | inr (basis, e) ↦
        let same =
          ap (λ known. cost_at known (billed_tokens u) price want_batch) e
          ∙ ap (λ b. cost_at (some basis) b price want_batch) (billed_tokens-usage_of u basis e) in
        inr (
          basis,
          e,
          subst (IsCost (usage_of basis u) price want_batch) (sym same)
              (cost_at-IsCost basis (usage_of basis u) price want_batch),
        )
  ]

  -- A row labelled as batch-priced has tokens, no cache class, and a batch rate for each class that
  -- it has.
  pub rate_set_of-batched :
      (b : Billed) (r : Rates money)
      → rate_set_of b r ≡ batched
      → (b.cache_read ≡ 0)
        × (b.write_5m ≡ 0)
        × (b.write_1h ≡ 0)
        × (0 < b.input → r.batch_in ≡ true)
        × (0 < b.output → r.batch_out ≡ true)
        × (0 < b.input + b.output)
  unfolding rate_set_of
  rate_set_of-batched b r h = ground arith
