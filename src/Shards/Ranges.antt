-- ===== src/Shards/Ranges.antt =====
-- hub/src/index-shards.ts: the block ids that `reserveBlockIds` hands out.
use agent_sessions_backup.Prelude.{
  ℕ, ◌+◌, ◌*◌, ◌≤◌, ◌≡◌, refl, sym, subst, ◌⊎◌, inl, inr, Option, none, some, List, [], ◌∷◌, arith,
  ◌==◌, if◌then◌else◌, ==_iff, Bool-cases, All, All-map, Result, ok, err,
}
use agent_sessions_backup.Shards.{ShardMeta, reserve_block_ids, index_id_span, IndexError}

-- A reservation that succeeded.
pub record Range : Type 0 where
  pub shard : ℕ
  pub first : ℕ
  pub count : ℕ

abbrev pub store : ℕ → Option ShardMeta → (ℕ → Option ShardMeta) → ℕ → Option ShardMeta
store shard row w k = if k == shard then row else w k

log : ℕ → ℕ → Result IndexError ℕ → List Range → List Range
log shard count (ok first) rest = record { shard = shard; first = first; count = count } ∷ rest
log shard count (err e) rest = rest

-- The reservations that succeed when the requests (shard, count) reach their shards in this order.
unfoldable pub reserve_all : List (ℕ × ℕ) → (ℕ → Option ShardMeta) → List Range
unfolding log
reserve_all [] w = []
reserve_all ((shard, count) ∷ requests) w =
    let (row, result) = reserve_block_ids count (w shard) in
    log shard count result (reserve_all requests (store shard row w))

-- What `verifyShard` has checked of a shard's row.
abbrev pub InRange : ℕ → Option ShardMeta → Type 0
InRange shard none = Unit
InRange shard (some m) =
    (m.shard_index ≡ shard)
    × ((shard + 1) * index_id_span ≤ m.next_block_id)
    × (m.next_block_id ≤ (shard + 2) * index_id_span)

abbrev pub Inside : Range → Type 0
Inside r =
    ((r.shard + 1) * index_id_span ≤ r.first)
    × (r.first + r.count ≤ (r.shard + 2) * index_id_span)
    × (1 ≤ r.count)

abbrev pub Apart : Range → Range → Type 0
Apart r s = (r.first + r.count ≤ s.first) ⊎ (s.first + s.count ≤ r.first)

abbrev pub AllApart : List Range → Type 0
AllApart [] = Unit
AllApart (r ∷ rs) = All (Apart r) rs × AllApart rs

start : Option ShardMeta → ℕ
start none = 0
start (some m) = m.next_block_id

-- Each branch of a reservation.
reserve_parts :
    (shard count : ℕ) (row : Option ShardMeta)
    → InRange shard row
    → InRange shard (reserve_block_ids count row).0
      × (start row ≤ start (reserve_block_ids count row).0)
unfolding reserve_block_ids start
reserve_parts shard count none h = ground arith
reserve_parts shard count (some m) h = ground arith

reserve-ok :
    (shard count first : ℕ) (row : Option ShardMeta)
    → InRange shard row
    → (reserve_block_ids count row).1 ≡ ok first
    → Inside (record { shard = shard; first = first; count = count })
      × (first ≡ start row)
      × (start (reserve_block_ids count row).0 ≡ first + count)
unfolding reserve_block_ids start
reserve-ok shard count first none h e = ground arith
reserve-ok shard count first (some m) h e = ground arith

store-InRange :
    (w : ℕ → Option ShardMeta) (shard : ℕ) (row : Option ShardMeta)
    → ((k : ℕ) → InRange k (w k))
    → InRange shard row
    → (k : ℕ) → InRange k (store shard row w k)
store-InRange w shard row h hr k = elim (Bool-cases (k == shard)) [
  | inl e ↦ rw e (subst (λ j. InRange j row) (sym ((==_iff k shard).0 e)) hr)
  | inr e ↦ rw e (h k)
]

start-store :
    (w : ℕ → Option ShardMeta) (shard : ℕ) (row : Option ShardMeta) (k : ℕ)
    → start (w shard) ≤ start row
    → start (w k) ≤ start (store shard row w k)
start-store w shard row k h = elim (Bool-cases (k == shard)) [
  | inl e ↦ rw (e, (==_iff k shard).0 e) h
  | inr e ↦ rw e (omega arith)
]

-- Later reservations of a shard start where its counter stands, or above.
abbrev After : (ℕ → Option ShardMeta) → Range → Type 0
After w r = Inside r × (start (w r.shard) ≤ r.first)

later-Apart :
    (w : ℕ → Option ShardMeta) (row : Option ShardMeta) (r s : Range)
    → Inside r
    → start row ≡ r.first + r.count
    → After (store r.shard row w) s
    → Apart r s
later-Apart w row r s hr he hs = elim (Bool-cases (s.shard == r.shard)) [
  | inl e ↦
      let same : store r.shard row w s.shard ≡ row = rw e refl in
      let below : start row ≤ s.first = subst (λ o. start o ≤ s.first) same hs.1 in
      inl (omega (arith, below, he))
  | inr e ↦ ground (arith, ==_iff s.shard r.shard)
]

-- Each reservation lies in its shard's span, and no two share an id.
abbrev Log : (ℕ → Option ShardMeta) → List Range → Type 0
Log w rs = All (After w) rs × AllApart rs

log-Log :
    (shard count : ℕ) (w : ℕ → Option ShardMeta) (row : Option ShardMeta)
    (result : Result IndexError ℕ) (rest : List Range)
    → start (w shard) ≤ start row
    → ((first : ℕ)
        → result ≡ ok first
        → Inside (record { shard = shard; first = first; count = count })
          × (first ≡ start (w shard))
          × (start row ≡ first + count))
    → Log (store shard row w) rest
    → Log w (log shard count result rest)
unfolding log
log-Log shard count w row (err e) rest grow reserved h = (
  All-map (After (store shard row w)) (After w) rest
      (λ s a. (a.0, omega (arith, start-store w shard row s.shard grow, a.1))) h.0,
  h.1,
)
log-Log shard count w row (ok first) rest grow reserved h =
    let r : Range = record { shard = shard; first = first; count = count } in
    let facts = reserved first refl in
    (
      (
        (facts.0, omega (arith, facts.1)),
        All-map (After (store shard row w)) (After w) rest
            (λ s a. (a.0, omega (arith, start-store w shard row s.shard grow, a.1))) h.0,
      ),
      (
        All-map (After (store shard row w)) (Apart r) rest
            (λ s. later-Apart w row r s facts.0 facts.2) h.0,
        h.1,
      ),
    )

reserve_all-Log :
    (requests : List (ℕ × ℕ)) (w : ℕ → Option ShardMeta)
    → ((k : ℕ) → InRange k (w k))
    → Log w (reserve_all requests w)
unfolding reserve_all
reserve_all-Log [] w h = (tt, tt)
reserve_all-Log ((shard, count) ∷ requests) w h =
    let parts = reserve_parts shard count (w shard) (h shard) in
    let row = (reserve_block_ids count (w shard)).0 in
    log-Log shard count w row _ _ parts.1
      (λ first e. reserve-ok shard count first (w shard) (h shard) e)
      (reserve_all-Log requests (store shard row w) (store-InRange w shard row h parts.0))

-- On shards whose counters lie in their ranges, the ids that any sequence of reservations hands out
-- are never handed out twice, and each lies in the range of its shard.
pub reserve_all-AllApart :
    (requests : List (ℕ × ℕ)) (w : ℕ → Option ShardMeta)
    → ((k : ℕ) → InRange k (w k))
    → AllApart (reserve_all requests w) × All Inside (reserve_all requests w)
reserve_all-AllApart requests w h =
    let log = reserve_all-Log requests w h in
    (log.1, All-map (After w) Inside (reserve_all requests w) (λ r a. a.0) log.0)
