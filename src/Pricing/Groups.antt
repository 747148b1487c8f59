-- ===== src/Pricing/Groups.antt =====
-- hub/src/usage-agg.ts: the price of a group whose calls have no time.
use agent_sessions_backup.Prelude.{
  ℕ, zero, suc, ◌≡◌, refl, sym, ap, ◌∙◌, subst, inl, inr, Bool, true, false, not, ◌&&◌, ◌||◌,
  Option, none, some, List, [], ◌∷◌, arith, ltb, Bool-cases, All,
}
use agent_sessions_backup.Pricing.{
  Money, Cost, CostByClass, UsageTokens, ModelPrice, Billed, Rates, cost_of_usage, billed_tokens,
  select_rates, price_tokens, class_costs, total, unpriced_cost, CacheBasis, any_billed, charge_at,
  part_of, cost_at, rate_set_of, signature_of, RateSet, lacks_rate,
}
use agent_sessions_backup.Pricing.Snapshots.{
  same_part, same_parts, same_signature, same_set, same_basis, every_same, price_for_group,
}

-- What the code relies on: rates with the same text are the same; a sum is finite only if its parts
-- are; and no tokens cost nothing, if their charge is finite (0 times an infinite rate is NaN).
pub record IsMoney (money : Money) : Type 0 where
  pub same_sound : (x y : money.Amount) → money.same x y ≡ true → x ≡ y
  pub finite_parts :
      (x y : money.Amount)
      → money.is_finite (money.plus x y) ≡ true
      → (money.is_finite x ≡ true) × (money.is_finite y ≡ true)
  pub charge_zero :
      (rate : money.Amount)
      → money.is_finite (money.charge 0 rate) ≡ true
      → money.charge 0 rate ≡ money.nothing

and-true : (a b : Bool) → (a && b) ≡ true → (a ≡ true) × (b ≡ true)
and-true a b h = ground arith

finite_if : (a b : Bool) → (a || not b) ≡ false → b ≡ true
finite_if a b h = ground arith

module _ {money : Money} (laws : IsMoney money) where
  -- Two costs with the same dollars in every class, the same total and the same label.
  abbrev pub SameCost : Cost money → Cost money → Type 0
  SameCost c d =
      (c.by_class ≡ d.by_class)
      × (c.usd ≡ d.usd)
      × (c.unpriced ≡ d.unpriced)
      × (c.rate_set ≡ d.rate_set)

  part_eq : (x y : Option money.Amount) → same_part money x y ≡ true → x ≡ y
  unfolding same_part
  part_eq none none h = refl
  part_eq none (some y) h = cc
  part_eq (some x) none h = cc
  part_eq (some x) (some y) h = ap some (laws.same_sound x y h)

  set_eq : (s t : RateSet) → same_set s t ≡ true → s ≡ t
  unfolding same_set
  set_eq s t h = ground arith

  charge_none :
      (rate : Option money.Amount)
      → money.is_finite (charge_at money 0 rate) ≡ true
      → charge_at money 0 rate ≡ money.nothing
  charge_none none f = laws.charge_zero money.nothing f
  charge_none (some rate) f = laws.charge_zero rate f

  charge_eq :
      (tokens : ℕ) (x y : Option money.Amount)
      → money.is_finite (charge_at money tokens x) ≡ true
      → money.is_finite (charge_at money tokens y) ≡ true
      → same_part money (part_of tokens x) (part_of tokens y) ≡ true
      → charge_at money tokens x ≡ charge_at money tokens y
  charge_eq zero x y f g h = charge_none x f ∙ sym (charge_none y g)
  charge_eq (suc n) x y f g h =
      let t : ltb 0 (suc n) ≡ true = ground arith in
      let shown : same_part money x y ≡ true = sym (rw t refl) ∙ h in
      ap (charge_at money (suc n)) (part_eq x y shown)

  abbrev AreFinite : CostByClass money → Type 0
  AreFinite c =
      (money.is_finite c.input_usd ≡ true)
      × (money.is_finite c.output_usd ≡ true)
      × (money.is_finite c.cache_read_usd ≡ true)
      × (money.is_finite c.write_5m_usd ≡ true)
      × (money.is_finite c.write_1h_usd ≡ true)

  total-AreFinite : (c : CostByClass money) → money.is_finite (total c) ≡ true → AreFinite c
  unfolding total
  total-AreFinite c h =
      let (h4, f5) = laws.finite_parts _ _ h in
      let (h3, f4) = laws.finite_parts _ _ h4 in
      let (h2, f3) = laws.finite_parts _ _ h3 in
      let (f1, f2) = laws.finite_parts _ _ h2 in (f1, f2, f3, f4, f5)

  class_costs_eq :
      (basis : Option CacheBasis) (b : Billed) (r s : Rates money)
      → AreFinite (class_costs b r)
      → AreFinite (class_costs b s)
      → same_parts (signature_of basis b r) (signature_of basis b s) ≡ true
      → (class_costs b r ≡ class_costs b s) × (rate_set_of b r ≡ rate_set_of b s)
  unfolding same_parts signature_of class_costs
  class_costs_eq basis b r s (f1, f2, f3, f4, f5) (g1, g2, g3, g4, g5) h =
      let sr = signature_of basis b r in
      let ss = signature_of basis b s in
      let (h6, e7) =
        and-true
          (same_part money sr.in_part ss.in_part
            && same_part money sr.out_part ss.out_part
            && same_part money sr.read_part ss.read_part
            && same_part money sr.part_5m ss.part_5m
            && same_part money sr.part_1h ss.part_1h
            && same_basis sr.basis_part ss.basis_part)
          (same_set sr.set_part ss.set_part) h in
      let (h5, e6) =
        and-true
          (same_part money sr.in_part ss.in_part
            && same_part money sr.out_part ss.out_part
            && same_part money sr.read_part ss.read_part
            && same_part money sr.part_5m ss.part_5m
            && same_part money sr.part_1h ss.part_1h)
          (same_basis sr.basis_part ss.basis_part) h6 in
      let (h4, e5) =
        and-true
          (same_part money sr.in_part ss.in_part
            && same_part money sr.out_part ss.out_part
            && same_part money sr.read_part ss.read_part
            && same_part money sr.part_5m ss.part_5m)
          (same_part money sr.part_1h ss.part_1h) h5 in
      let (h3, e4) =
        and-true
          (same_part money sr.in_part ss.in_part
            && same_part money sr.out_part ss.out_part
            && same_part money sr.read_part ss.read_part)
          (same_part money sr.part_5m ss.part_5m) h4 in
      let (h2, e3) =
        and-true (same_part money sr.in_part ss.in_part && same_part money sr.out_part ss.out_part)
          (same_part money sr.read_part ss.read_part) h3 in
      let (e1, e2) =
        and-true (same_part money sr.in_part ss.in_part) (same_part money sr.out_part ss.out_part)
          h2 in
      (
        rw
            (
              charge_eq b.input r.in_rate s.in_rate f1 g1 e1,
              charge_eq b.output r.out_rate s.out_rate f2 g2 e2,
              charge_eq b.cache_read r.read_rate s.read_rate f3 g3 e3,
              charge_eq b.write_5m r.rate_5m s.rate_5m f4 g4 e4,
              charge_eq b.write_1h r.rate_1h s.rate_1h f5 g5 e5,
            )
            refl,
        set_eq _ _ e7,
      )

  unpriced_if : Billed → Rates money → Bool
  unpriced_if b r = lacks_rate b r || not (money.is_finite (total (class_costs b r)))

  priced-AreFinite :
      (b : Billed) (r : Rates money) → unpriced_if b r ≡ false → AreFinite (class_costs b r)
  unfolding unpriced_if
  priced-AreFinite b r e = total-AreFinite (class_costs b r) (finite_if (lacks_rate b r) _ e)

  price_tokens_eq :
      (basis : Option CacheBasis) (b : Billed) (r s : Rates money)
      → same_signature
          (price_tokens basis b r).rate_signature
          (price_tokens basis b s).rate_signature
        ≡ true
      → SameCost (price_tokens basis b r) (price_tokens basis b s)
  unfolding price_tokens same_signature unpriced_cost unpriced_if
  price_tokens_eq basis b r s h = elim (Bool-cases (unpriced_if b r)) [
    | inl e ↦ elim (Bool-cases (unpriced_if b s)) [
      | inl f ↦ rw (e, f) (refl, refl, refl, refl)
      | inr f ↦ let clash : false ≡ true = sym (rw (e, f) refl) ∙ h in cc
    ]
    | inr e ↦ elim (Bool-cases (unpriced_if b s)) [
      | inl f ↦ let clash : false ≡ true = sym (rw (e, f) refl) ∙ h in cc
      | inr f ↦
          let parts : same_parts (signature_of basis b r) (signature_of basis b s) ≡ true =
            sym (rw (e, f) refl) ∙ h in
          let (costs, sets) =
            class_costs_eq basis b r s (priced-AreFinite b r e) (priced-AreFinite b s f) parts in
          rw (e, f) (costs, ap total costs, refl, sets)
    ]
  ]

  cost_at_eq :
      (basis : Option CacheBasis) (b : Billed) (p q : ModelPrice money) (want_batch : Bool)
      → same_signature
          (cost_at basis b (some p) want_batch).rate_signature
          (cost_at basis b (some q) want_batch).rate_signature
        ≡ true
      → SameCost (cost_at basis b (some p) want_batch) (cost_at basis b (some q) want_batch)
  unfolding cost_at
  cost_at_eq none b p q want_batch h = (refl, refl, refl, refl)
  cost_at_eq (some basis) b p q want_batch h = elim (Bool-cases (any_billed b)) [
    | inl e ↦
        let priced : same_signature
              (price_tokens (some basis) b (select_rates p want_batch)).rate_signature
              (price_tokens (some basis) b (select_rates q want_batch)).rate_signature
            ≡ true =
          sym (rw e refl) ∙ h in
        rw e (
          price_tokens_eq (some basis) b (select_rates p want_batch) (select_rates q want_batch)
            priced)
    | inr e ↦ rw e (refl, refl, refl, refl)
  ]

  every_same-SameCost :
      {K : Type 0} (le : K → K → Bool) (first : ModelPrice money) (row : UsageTokens)
      (want_batch : Bool) (history : List (K × ModelPrice money))
      → every_same le
          (cost_of_usage row (some first) want_batch).rate_signature
          row
          want_batch
          history
        ≡ true
      → All
          (λ s.
            SameCost
              (cost_of_usage row (some s.1) want_batch)
              (cost_of_usage row (some first) want_batch))
          history
  unfolding every_same cost_of_usage
  every_same-SameCost le first row want_batch [] h = tt
  every_same-SameCost le first row want_batch (s ∷ ss) h =
      let (now, later) = and-true _ _ h in
      (
        cost_at_eq row.cache_basis (billed_tokens row) s.1 first want_batch now,
        every_same-SameCost le first row want_batch ss later,
      )

  -- A group of calls without a time gets a price only if every snapshot of the model charges the
  -- same dollars for it, class by class and in total; provided that rates with the same text are the
  -- same, that a sum is finite only if its parts are, and that no tokens cost nothing wherever their
  -- charge is finite.
  pub price_for_group-SameCost :
      {K : Type 0} (le : K → K → Bool) (history : List (K × ModelPrice money)) (row : UsageTokens)
      (want_batch : Bool) {s : K × ModelPrice money}
      → price_for_group le history none row want_batch ≡ some s
      → All
          (λ t.
            SameCost
              (cost_of_usage row (some t.1) want_batch)
              (cost_of_usage row (some s.1) want_batch))
          history
  unfolding price_for_group
  price_for_group-SameCost le [] row want_batch h = tt
  price_for_group-SameCost le (first ∷ []) row want_batch {s} h =
      let same : first ≡ s = cc in
      subst
        (λ t.
          SameCost (cost_of_usage row (some first.1) want_batch)
            (cost_of_usage row (some t.1) want_batch)
          × Unit)
        same ((refl, refl, refl, refl), tt)
  price_for_group-SameCost le (first ∷ second ∷ others) row want_batch {s} h =
      let baseline = (cost_of_usage row (some first.1) want_batch).rate_signature in
      elim (Bool-cases (every_same le baseline row want_batch (first ∷ second ∷ others))) [
        | inl e ↦
            let chosen : some first ≡ some s = sym (rw e refl) ∙ h in
            let same : first ≡ s = cc in
            subst
              (λ c.
                All
                  (λ t.
                    SameCost (cost_of_usage row (some t.1) want_batch)
                      (cost_of_usage row (some c.1) want_batch))
                  (first ∷ second ∷ others))
              same (every_same-SameCost le first.1 row want_batch (first ∷ second ∷ others) e)
        | inr e ↦ let clash : none ≡ some s = sym (rw e refl) ∙ h in absurd cc
      ]
