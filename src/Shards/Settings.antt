-- ===== src/Shards/Settings.antt =====
-- hub/src/index-shards.ts: the settings that `parseIndexShardCount` accepts.
use agent_sessions_backup.Shards.{
  is_count, is_digit, all_digits, number_from, bad_count, parse_index_shard_count,
}
use agent_sessions_backup.Prelude.{
  ℕ, ◌+◌, ◌-◌, ◌*◌, ◌/◌, ◌%◌, ◌≤◌, ◌≡◌, refl, sym, ap, ◌∙◌, subst, inl, inr, true, false, Option,
  none, some, List, [], ◌∷◌, arith, ltb, if◌then◌else◌, Bool-cases, ok,
}

-- A number of at most two digits, in decimal.
abbrev pub decimal : ℕ → List ℕ
decimal n = if ltb n 10 then (b'0' + n) ∷ [] else (b'0' + n / 10) ∷ (b'0' + n % 10) ∷ []

-- The setting is this number, and shards can be so many: at most 16, and 256 is their multiple.
pub record IsSetting (setting : Option (List ℕ)) (count : ℕ) : Type 0 where
  pub written : setting ≡ some (decimal count)
  pub positive : 1 ≤ count
  pub few : count ≤ 16
  pub divides : 256 % count ≡ 0

pub number_from-le : (n : ℕ) (cs : List ℕ) → n ≤ number_from n cs
unfolding number_from
number_from-le n [] = omega arith
number_from-le n (c ∷ cs) = omega (arith, number_from-le (n * 10 + (c - b'0')) cs)

bad_count-false : (count : ℕ) → bad_count count ≡ false → (count ≤ 16) × (256 % count ≡ 0)
unfolding bad_count
bad_count-false count h = ground arith

one_digit : (n : ℕ) → ltb n 10 ≡ true → decimal n ≡ (b'0' + n) ∷ []
one_digit n t = rw t refl

two_digits : (n : ℕ) → ltb n 10 ≡ false → decimal n ≡ (b'0' + n / 10) ∷ (b'0' + n % 10) ∷ []
two_digits n t = rw t refl

-- What `/^[1-9][0-9]*$/` lets through, if it is at most 16, is a number in decimal.
decimal_lem :
    (value : List ℕ)
    → is_count value ≡ true
    → number_from 0 value ≤ 16
    → value ≡ decimal (number_from 0 value)
unfolding is_count number_from is_digit
decimal_lem [] h b = absurd cc
decimal_lem (c ∷ []) h b =
    let digit : (b'1' ≤ c) × (c ≤ b'9') = ground arith in
    let t : ltb (0 + (c - b'0')) 10 ≡ true = ground (arith, digit) in
    let same : c ≡ b'0' + (0 + (c - b'0')) = omega (arith, digit) in
    ap (λ x. x ∷ []) same ∙ sym (one_digit (0 + (c - b'0')) t)
decimal_lem (c ∷ d ∷ []) h b =
    let digits : (b'1' ≤ c) × (b'0' ≤ d) × (d ≤ b'9') = ground arith in
    let n = (0 + (c - b'0')) * 10 + (d - b'0') in
    let t : ltb n 10 ≡ false = ground (arith, digits) in
    let tens : c ≡ b'0' + n / 10 = omega (arith, digits) in
    let ones : d ≡ b'0' + n % 10 = omega (arith, digits) in
    ap (λ x. x ∷ d ∷ []) tens ∙ ap (λ x. (b'0' + n / 10) ∷ x ∷ []) ones ∙ sym (two_digits n t)
decimal_lem (c ∷ d ∷ e ∷ cs) h b =
    let large : b'1' ≤ c = ground arith in
    let n = ((0 + (c - b'0')) * 10 + (d - b'0')) * 10 + (e - b'0') in
    let small : number_from n cs ≤ 16 = b in
    absurd (omega (arith, large, small, number_from-le n cs))

decimal-is_count : (n : ℕ) → 1 ≤ n → n ≤ 16 → is_count (decimal n) ≡ true
unfolding is_count is_digit all_digits
decimal-is_count n p b = elim (Bool-cases (ltb n 10)) [
  | inl t ↦ rw t (ground arith)
  | inr t ↦ rw t (ground arith)
]

number_from-decimal : (n : ℕ) → n ≤ 16 → number_from 0 (decimal n) ≡ n
unfolding number_from
number_from-decimal n b = elim (Bool-cases (ltb n 10)) [
  | inl t ↦ rw t (omega arith)
  | inr t ↦ rw t (omega arith)
]

possible : (count : ℕ) → count ≤ 16 → 256 % count ≡ 0 → bad_count count ≡ false
unfolding bad_count
possible count few divides = rw divides (ground arith)

pub IsSetting-parse :
    (setting : Option (List ℕ)) (count : ℕ)
    → IsSetting setting count
    → parse_index_shard_count setting ≡ ok count
unfolding parse_index_shard_count
IsSetting-parse setting count is =
    rw
      (
        is.written,
        parse_index_shard_count,
        decimal-is_count count is.positive is.few,
        number_from-decimal count is.few,
        possible count is.few is.divides,
      )
      refl

is_count-positive : (value : List ℕ) → is_count value ≡ true → 1 ≤ number_from 0 value
unfolding is_count number_from is_digit
is_count-positive [] h = absurd cc
is_count-positive (c ∷ cs) h =
    let large : b'1' ≤ c = ground arith in
    omega (arith, large, number_from-le (0 * 10 + (c - b'0')) cs)

pub parse-IsSetting :
    (setting : Option (List ℕ)) (count : ℕ)
    → parse_index_shard_count setting ≡ ok count
    → IsSetting setting count
unfolding parse_index_shard_count
parse-IsSetting none count = λ h. absurd cc
parse-IsSetting (some value) count = elim (Bool-cases (is_count value)) [
  | inr t ↦ rw (parse_index_shard_count, t) (λ h. absurd cc)
  | inl t ↦ elim (Bool-cases (bad_count (number_from 0 value))) [
    | inl bad ↦ rw (parse_index_shard_count, t, bad) (λ h. absurd cc)
    | inr good ↦
        rw (parse_index_shard_count, t, good)
          λ h.
            let same : number_from 0 value ≡ count = cc in
            let (few, divides) = bad_count-false (number_from 0 value) good in
            subst (IsSetting (some value)) same (record {
              written = ap some (decimal_lem value t few);
              positive = is_count-positive value t;
              few = few;
              divides = divides;
            })
  ]
]
