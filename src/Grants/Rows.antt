-- ===== src/Grants/Rows.antt =====
-- hub/src/auth/read-grants.ts: rows that a statement keeps, finds or updates.
use agent_sessions_backup.Grants.{first, keep}
use agent_sessions_backup.Prelude.{
  ◌≡◌, refl, subst, inl, inr, Bool, true, false, not, none, some, List, [], ◌∷◌, map, Bool-cases,
  All,
}

-- The predicate of every row.
abbrev pub Always : {A : Type 0} → A → Type 0
Always a = Unit {0}

pub All-Always : {A : Type 0} (rows : List A) → All Always rows
All-Always [] = tt
All-Always (row ∷ rows) = (tt, All-Always rows)

module _ {A : Type 0} (P : A → Type 0) where
  pub All-keep : (test : A → Bool) (rows : List A) → All P rows → All P (keep test rows)
  unfolding keep
  All-keep test [] h = tt
  All-keep test (row ∷ rows) (p, h) = elim (Bool-cases (test row)) [
    | inl t ↦ rw (keep, t) (p, All-keep test rows h)
    | inr t ↦ rw (keep, t) (All-keep test rows h)
  ]

  pub All-map_rows :
      (change : A → A) (rows : List A)
      → ((row : A) → P row → P (change row))
      → All P rows
      → All P (map change rows)
  All-map_rows change [] k h = tt
  All-map_rows change (row ∷ rows) k (p, h) = (k row p, All-map_rows change rows k h)

  pub All-first :
      (test : A → Bool) (rows : List A) (row : A)
      → All P rows
      → first test rows ≡ some row
      → P row × (test row ≡ true)
  unfolding first
  All-first test [] row h = λ e. absurd cc
  All-first test (r ∷ rows) row (p, h) = elim (Bool-cases (test r)) [
    | inl t ↦
        rw (first, t)
          (λ e. let same : r ≡ row = cc in subst (λ x. P x × (test x ≡ true)) same (p, t))
    | inr t ↦ rw (first, t) (All-first test rows row h)
  ]

pub kept-All :
    {A : Type 0} (test : A → Bool) (rows : List A)
    → All (λ row. test row ≡ false) (keep (λ row. not (test row)) rows)
unfolding keep
kept-All test [] = tt
kept-All test (row ∷ rows) = elim (Bool-cases (test row)) [
  | inl t ↦ rw (keep, t) (kept-All test rows)
  | inr t ↦ rw (keep, t) (t, kept-All test rows)
]

pub first-none :
    {A : Type 0} (test : A → Bool) (rows : List A)
    → All (λ row. test row ≡ false) rows
    → first test rows ≡ none
unfolding first
first-none test [] h = refl
first-none test (row ∷ rows) (t, h) = rw (first, t) (first-none test rows h)
