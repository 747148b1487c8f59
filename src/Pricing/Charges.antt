-- ===== src/Pricing/Charges.antt =====
-- hub/src/pricing.ts: the rates of the five classes, and what they are charged.
use agent_sessions_backup.Pricing.{
  lacks, Money, Cost, CostByClass, ModelPrice, Billed, Rates, select_rates, class_costs, lacks_rate,
  or_other, is_some, charge_at,
}
use agent_sessions_backup.Prelude.{
  ℕ, ◌+◌, ◌<◌, ◌≡◌, refl, ap, ◌⊎◌, inl, inr, Bool, true, false, not, ◌&&◌, ◌||◌, Option, none, some,
  arith, if◌then◌else◌,
}

-- A batch rate if the row wants it and it is published, or else the standard one.
abbrev batch_or : {A : Type 0} → Bool → Option A → Option A → Option A
batch_or true (some rate) standard = some rate
batch_or _ _ standard = standard

abbrev own_or : {A : Type 0} → Option A → Option A → Option A
own_or (some rate) other = some rate
own_or none other = other

batch_lem :
    {A : Type 0} (want : Bool) (batch standard : Option A)
    → (if want && is_some batch then batch else standard) ≡ batch_or want batch standard
batch_lem true (some r) standard = refl
batch_lem true none standard = refl
batch_lem false (some r) standard = refl
batch_lem false none standard = refl

own_lem : {A : Type 0} (own other : Option A) → or_other own other ≡ own_or own other
own_lem none other = refl
own_lem (some r) other = refl

or-false : (a b : Bool) → (a || b) ≡ false → (a ≡ false) × (b ≡ false)
or-false a b h = ground arith

or-true : (a b : Bool) → (a || b) ≡ true → (a ≡ true) ⊎ (b ≡ true)
or-true true b h = inl refl
or-true false b h = inr h

not-true : (a : Bool) → not a ≡ true → a ≡ false
not-true a h = ground arith

pub not-false : (a : Bool) → not a ≡ false → a ≡ true
not-false a h = ground arith

-- A class of these tokens is charged so at this rate, which only a class without tokens may lack.
abbrev IsCharged : (money : Money) → ℕ → Option money.Amount → money.Amount → Type 0
IsCharged money tokens rate usd =
    ((r : money.Amount) × (rate ≡ some r) × (usd ≡ money.charge tokens r))
    ⊎ ((tokens ≡ 0) × (rate ≡ none) × (usd ≡ money.charge 0 money.nothing))

charge_at-IsCharged :
    (money : Money) (tokens : ℕ) (rate : Option money.Amount)
    → lacks tokens rate ≡ false
    → IsCharged money tokens rate (charge_at money tokens rate)
charge_at-IsCharged money tokens none h =
    let z : tokens ≡ 0 = ground arith in inr (z, refl, ap (λ n. money.charge n money.nothing) z)
charge_at-IsCharged money tokens (some r) h = inl (r, refl, refl)

abbrev Lacks : {A : Type 0} → ℕ → Option A → Type 0
Lacks tokens rate = (0 < tokens) × (rate ≡ none)

lacks-Lacks :
    {A : Type 0} (tokens : ℕ) (rate : Option A) → lacks tokens rate ≡ true → Lacks tokens rate
lacks-Lacks tokens none h = (ground arith, refl)
lacks-Lacks tokens (some r) h = absurd (ground arith)

abbrev pub all_tokens : Billed → ℕ
all_tokens b = b.input + b.output + b.cache_read + b.write_5m + b.write_1h

module _ (money : Money) where
  -- The rates that a price has for the five classes; cache reads are at the price of input if they
  -- have none of their own.
  pub record ClassRates : Type 0 where
    pub input_rate : Option money.Amount
    pub output_rate : Option money.Amount
    pub cache_read_rate : Option money.Amount
    pub write_5m_rate : Option money.Amount
    pub write_1h_rate : Option money.Amount

module _ {money : Money} where
  abbrev pub rates_of : ModelPrice money → Bool → ClassRates money
  rates_of p want = record {
    input_rate = batch_or want p.input_cost_batch p.input_cost;
    output_rate = batch_or want p.output_cost_batch p.output_cost;
    cache_read_rate = own_or p.cache_read_cost p.input_cost;
    write_5m_rate = p.cache_write_5m_cost;
    write_1h_rate = p.cache_write_1h_cost;
  }

  abbrev pub class_rates : Rates money → ClassRates money
  class_rates r = record {
    input_rate = r.in_rate;
    output_rate = r.out_rate;
    cache_read_rate = r.read_rate;
    write_5m_rate = r.rate_5m;
    write_1h_rate = r.rate_1h;
  }

  pub select_rates-rates_of :
      (p : ModelPrice money) (want : Bool) → class_rates (select_rates p want) ≡ rates_of p want
  unfolding select_rates
  select_rates-rates_of p want =
      rw
        (
          batch_lem want p.input_cost_batch p.input_cost,
          batch_lem want p.output_cost_batch p.output_cost,
          own_lem p.cache_read_cost p.input_cost,
        )
        refl

  -- Nothing is charged or counted.
  abbrev pub IsNothing : Bool → Cost money → Type 0
  IsNothing unpriced c =
      (c.usd ≡ money.nothing)
      × (c.by_class ≡ record {
        input_usd = money.nothing;
        output_usd = money.nothing;
        cache_read_usd = money.nothing;
        write_5m_usd = money.nothing;
        write_1h_usd = money.nothing;
      })
      × (c.billable_input_tokens ≡ 0)
      × (c.unpriced ≡ unpriced)

  -- Some class with tokens has no rate.
  abbrev pub LacksRate : Billed → ClassRates money → Type 0
  LacksRate b r =
      Lacks b.input r.input_rate
      ⊎ Lacks b.output r.output_rate
      ⊎ Lacks b.cache_read r.cache_read_rate
      ⊎ Lacks b.write_5m r.write_5m_rate
      ⊎ Lacks b.write_1h r.write_1h_rate

  abbrev pub AreCharged : Billed → ClassRates money → CostByClass money → Type 0
  AreCharged b r c =
      IsCharged money b.input r.input_rate c.input_usd
      × IsCharged money b.output r.output_rate c.output_usd
      × IsCharged money b.cache_read r.cache_read_rate c.cache_read_usd
      × IsCharged money b.write_5m r.write_5m_rate c.write_5m_usd
      × IsCharged money b.write_1h r.write_1h_rate c.write_1h_usd

  abbrev pub sum_of : CostByClass money → money.Amount
  sum_of c =
      money.plus
        (money.plus (money.plus (money.plus c.input_usd c.output_usd) c.cache_read_usd)
          c.write_5m_usd)
        c.write_1h_usd

  -- What is charged is not finite.
  abbrev pub IsOverflow : Billed → ClassRates money → Type 0
  IsOverflow b r = (c : CostByClass money) × AreCharged b r c × (money.is_finite (sum_of c) ≡ false)

  abbrev pub IsPriced : Billed → ClassRates money → Cost money → Type 0
  IsPriced b r c =
      (c.unpriced ≡ false)
      × (c.usd ≡ sum_of c.by_class)
      × (c.billable_input_tokens ≡ b.input)
      × (money.is_finite c.usd ≡ true)
      × AreCharged b r c.by_class

  -- The cost of a row with these tokens at these rates.
  abbrev pub IsCostAt : Billed → ClassRates money → Cost money → Type 0
  IsCostAt b r c = ((LacksRate b r ⊎ IsOverflow b r) × IsNothing true c) ⊎ IsPriced b r c

  -- The cost of a row with these tokens.
  abbrev pub IsCost : Billed → Option (ModelPrice money) → Bool → Cost money → Type 0
  IsCost b price want c =
      ((all_tokens b ≡ 0) × IsNothing false c)
      ⊎ ((0 < all_tokens b) × (price ≡ none) × IsNothing true c)
      ⊎ ((0 < all_tokens b)
          × ((p : ModelPrice money) × (price ≡ some p) × IsCostAt b (rates_of p want) c))

  pub class_costs-AreCharged :
      (b : Billed) (r : Rates money)
      → lacks_rate b r ≡ false
      → AreCharged b (class_rates r) (class_costs b r)
  unfolding class_costs lacks_rate
  class_costs-AreCharged b r h =
      let (h4, l5) = or-false _ (lacks b.write_1h r.rate_1h) h in
      let (h3, l4) = or-false _ (lacks b.write_5m r.rate_5m) h4 in
      let (h2, l3) = or-false _ (lacks b.cache_read r.read_rate) h3 in
      let (l1, l2) = or-false (lacks b.input r.in_rate) (lacks b.output r.out_rate) h2 in
      (
        charge_at-IsCharged money b.input r.in_rate l1,
        charge_at-IsCharged money b.output r.out_rate l2,
        charge_at-IsCharged money b.cache_read r.read_rate l3,
        charge_at-IsCharged money b.write_5m r.rate_5m l4,
        charge_at-IsCharged money b.write_1h r.rate_1h l5,
      )

  pub lacks_rate-LacksRate :
      (b : Billed) (r : Rates money) → lacks_rate b r ≡ true → LacksRate b (class_rates r)
  unfolding lacks_rate
  lacks_rate-LacksRate b r h = elim (or-true _ (lacks b.write_1h r.rate_1h) h) [
    | inr l5 ↦ inr (inr (inr (inr (lacks-Lacks b.write_1h r.rate_1h l5))))
    | inl h4 ↦ elim (or-true _ (lacks b.write_5m r.rate_5m) h4) [
      | inr l4 ↦ inr (inr (inr (inl (lacks-Lacks b.write_5m r.rate_5m l4))))
      | inl h3 ↦ elim (or-true _ (lacks b.cache_read r.read_rate) h3) [
        | inr l3 ↦ inr (inr (inl (lacks-Lacks b.cache_read r.read_rate l3)))
        | inl h2 ↦ elim (or-true _ (lacks b.output r.out_rate) h2) [
          | inr l2 ↦ inr (inl (lacks-Lacks b.output r.out_rate l2))
          | inl l1 ↦ inl (lacks-Lacks b.input r.in_rate l1)
        ]
      ]
    ]
  ]
