-- ===== src/Pricing/Histories.antt =====
-- hub/src/pricing.ts: the snapshot that `priceAt` picks, and the histories that `loadPrices` builds.
use agent_sessions_backup.Prelude.{
  ℕ, suc, ◌≡◌, refl, sym, ap, ◌∙◌, ◌↔◌, ◌⊎◌, inl, inr, Bool, true, false, none, some, List, [], ◌∷◌,
  ◌++◌, append-nil, append_assoc, if◌then◌else◌, Bool-cases, get_elem?, All, All-map,
}
use agent_sessions_backup.Pricing.Snapshots.{
  latest_at, last_of, price_at, push_row, load_from, load_prices,
}
use agent_sessions_backup.Pricing.{or_other}

last_of-some : {A : Type 0} (x : A) (xs : List A) → (y : A) × (last_of (x ∷ xs) ≡ some y)
unfolding last_of
last_of-some x [] = (x, refl)
last_of-some x (y ∷ xs) = last_of-some y xs

module _ {K P : Type 0} (le : K → K → Bool) where
  -- Each snapshot is no older than those after it.
  abbrev pub IsNewestFirst : List (K × P) → Type 0
  IsNewestFirst [] = Unit
  IsNewestFirst (s ∷ ss) = All (λ t. le t.0 s.0 ≡ true) ss × IsNewestFirst ss

  -- The snapshot is of the history and not after the time, and no later one is.
  abbrev pub IsLatestAt : K → List (K × P) → K × P → Type 0
  IsLatestAt ts history s =
      ((i : ℕ) × (get_elem? history i ≡ some s))
      × (le s.0 ts ≡ true)
      × All (λ t. le t.0 ts ≡ true → le t.0 s.0 ≡ true) history

  latest_at-cases :
      ((k : K) → le k k ≡ true)
      → (ts : K) (history : List (K × P)) → IsNewestFirst history
      → ((latest_at le ts history ≡ none) × All (λ t. le t.0 ts ≡ false) history)
        ⊎ ((s : K × P) × (latest_at le ts history ≡ some s) × IsLatestAt ts history s)
  unfolding latest_at
  latest_at-cases self ts [] h = inl (refl, tt)
  latest_at-cases self ts (s ∷ ss) h = elim (Bool-cases (le s.0 ts)) [
    | inl e ↦
        rw (e, latest_at)
          (inr
            (s, refl, ((0, refl), e, ((λ q. self s.0), All-map _ _ ss (λ t older q. older) h.0))))
    | inr e ↦ elim (latest_at-cases self ts ss h.1) [
      | inl (missing, later) ↦ rw (e, latest_at) (inl (missing, (refl, later)))
      | inr (s', found, ((i, at_i), fits, newest)) ↦
          rw (e, latest_at) (inr (s', found, ((suc i, at_i), fits, ((λ q. absurd cc), newest))))
    ]
  ]

  -- In a history that is newest first, the price at a time is that of the newest snapshot not after
  -- it, or, if all are after it, that of the oldest; a history that is not empty always has one.
  pub price_at-IsLatestAt :
      ((k : K) → le k k ≡ true)
      → (ts : K) (first : K × P) (rest : List (K × P)) → IsNewestFirst (first ∷ rest)
      → (s : K × P) × (price_at le (first ∷ rest) (some ts) ≡ some s)
        × (IsLatestAt ts (first ∷ rest) s
            ⊎ (All (λ t. le t.0 ts ≡ false) (first ∷ rest) × (last_of (first ∷ rest) ≡ some s)))
  unfolding price_at
  price_at-IsLatestAt self ts first rest h = elim (latest_at-cases self ts (first ∷ rest) h) [
    | inl (missing, later) ↦
        let (s, last) = last_of-some first rest in
        (s, ap (λ o. or_other o (last_of (first ∷ rest))) missing ∙ last, inr (later, last))
    | inr (s, found, latest) ↦ (s, ap (λ o. or_other o (last_of (first ∷ rest))) found, inl latest)
  ]

module _ {M : Type 0} (eq : M → M → Bool) (eq_iff : (m n : M) → (eq m n ≡ true) ↔ (m ≡ n)) where
  eq_sides : (n k m : M) → eq n k ≡ true → eq n m ≡ eq k m
  eq_sides n k m e = ap (λ x. eq x m) ((eq_iff n k).0 e)

  eq_apart : (n k m : M) → eq n k ≡ false → eq n m ≡ true → eq k m ≡ false
  eq_apart n k m e f = elim (Bool-cases (eq k m)) [
    | inl g ↦
        let same : n ≡ k = (eq_iff n m).0 f ∙ sym ((eq_iff k m).0 g) in
        let clash = sym ((eq_iff n k).1 same) ∙ e in absurd cc
    | inr g ↦ g
  ]

module _ {M P : Type 0} (eq : M → M → Bool) where
  -- `byModel.get(m) ?? []`.
  abbrev pub rows_of : M → List (M × List P) → List P
  rows_of m [] = []
  rows_of m ((n, ps) ∷ rest) = if eq n m then ps else rows_of m rest

  abbrev pub matching : M → List (M × P) → List P
  matching m [] = []
  matching m ((n, p) ∷ rows) = (if eq n m then p ∷ [] else []) ++ matching m rows

  module _ (eq_iff : (m n : M) → (eq m n ≡ true) ↔ (m ≡ n)) where
    rows_of-push_row :
        (m k : M) (p : P) (by_model : List (M × List P))
        → rows_of m (push_row eq k p by_model)
          ≡ rows_of m by_model ++ (if eq k m then p ∷ [] else [])
    unfolding push_row
    rows_of-push_row m k p [] = elim (Bool-cases (eq k m)) [ inl e ↦ rw e refl | inr e ↦ rw e refl ]
    rows_of-push_row m k p ((n, ps) ∷ rest) = elim (Bool-cases (eq n k)) [
      | inl e ↦ elim (Bool-cases (eq n m)) [
        | inl f ↦ let g = sym (eq_sides eq eq_iff n k m e) ∙ f in rw (e, f, g) refl
        | inr f ↦ let g = sym (eq_sides eq eq_iff n k m e) ∙ f in rw (e, f, g) (sym (append-nil _))
      ]
      | inr e ↦ elim (Bool-cases (eq n m)) [
        | inl f ↦ let g = eq_apart eq eq_iff n k m e f in rw (e, f, g) (sym (append-nil _))
        | inr f ↦ rw (e, f) (rows_of-push_row m k p rest)
      ]
    ]

    load_from-matching :
        (m : M) (by_model : List (M × List P)) (rows : List (M × P))
        → rows_of m (load_from eq by_model rows) ≡ rows_of m by_model ++ matching m rows
    unfolding load_from
    load_from-matching m by_model [] = sym (append-nil _)
    load_from-matching m by_model ((k, p) ∷ rows) =
        load_from-matching m (push_row eq k p by_model) rows
        ∙ (ap (λ r. r ++ matching m rows) (rows_of-push_row m k p by_model)
            ∙ append_assoc (rows_of m by_model) _ (matching m rows))

    -- The history loaded for a model is its rows, all of them and in the order of the query.
    pub load_prices-matching :
        (m : M) (rows : List (M × P)) → rows_of m (load_prices eq rows) ≡ matching m rows
    unfolding load_prices
    load_prices-matching m rows = load_from-matching m [] rows
