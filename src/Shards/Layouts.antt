-- ===== src/Shards/Layouts.antt =====
-- hub/src/index-shards.ts: what `verifyShard` records and accepts.
use agent_sessions_backup.Prelude.{
  ℕ, ◌+◌, ◌*◌, ◌≤◌, ◌<◌, ◌≡◌, refl, ◌↔◌, inl, inr, ◌||◌, Option, none, some, arith, ltb, leb,
  lt→ltb, Bool-cases, Result, ok,
}
use agent_sessions_backup.Shards.{
  max_safe_integer, init_meta, index_id_limit, index_id_base, ShardMeta, verify_shard, index_layout,
  index_id_span, index_max_shards, IndexError, reserve_block_ids,
}
use text.Mathlib.TextEquality.{eq_iff}
use agent_sessions_backup.Shards.{check_meta}

abbrev pub IsAccepted : ℕ → ℕ → ShardMeta → Type 0
IsAccepted shard count m =
    (m.layout ≡ index_layout)
    × (m.shard_index ≡ shard)
    × (m.shard_count ≡ count)
    × ((shard + 1) * index_id_span ≤ m.next_block_id)
    × (m.next_block_id ≤ (shard + 2) * index_id_span)

check_meta-ok :
    (shard count : ℕ) (m : ShardMeta)
    → (check_meta shard count ((shard + 1) * index_id_span) ((shard + 2) * index_id_span) m
        ≡ ok (shard, count))
      ↔ IsAccepted shard count m
unfolding check_meta
check_meta-ok shard count m = (
  λ e. ground (arith, eq_iff m.layout index_layout),
  λ a. ground (arith, eq_iff m.layout index_layout),
)

verify_shard_lem :
    (shard count : ℕ) (meta : Option ShardMeta)
    → shard < index_max_shards
    → verify_shard shard count meta
      ≡ ok (
        some (
            init_meta
              (record {
                shard_index = shard;
                shard_count = count;
                layout = index_layout;
                next_block_id = (shard + 1) * index_id_span;
              })
              meta),
        check_meta shard count ((shard + 1) * index_id_span) ((shard + 2) * index_id_span) (
            init_meta
              (record {
                shard_index = shard;
                shard_count = count;
                layout = index_layout;
                next_block_id = (shard + 1) * index_id_span;
              })
              meta),
      )
unfolding verify_shard index_id_base index_id_limit
verify_shard_lem shard count meta h = rw (lt→ltb shard index_max_shards h) refl

-- The check of a shard that has a row leaves the row and succeeds exactly when the row is accepted;
-- the check of an empty shard records an accepted row.
pub verify_shard-IsAccepted :
    (shard count : ℕ) (meta : Option ShardMeta)
    → shard < index_max_shards
    → (row : ShardMeta) × (result : Result IndexError (ℕ × ℕ)) × (verify_shard shard count meta
        ≡ ok (some row, result))
      × ((m : ShardMeta) → meta ≡ some m → row ≡ m)
      × (meta ≡ none → IsAccepted shard count row)
      × ((result ≡ ok (shard, count)) ↔ IsAccepted shard count row)
verify_shard-IsAccepted shard count (some m) h = (
  m,
  _,
  verify_shard_lem shard count (some m) h,
  λ k e. cc,
  λ e. absurd cc,
  check_meta-ok shard count m,
)
verify_shard-IsAccepted shard count none h = (
  _,
  _,
  verify_shard_lem shard count none h,
  λ k e. absurd cc,
  λ e. (refl, refl, refl, omega arith, omega arith),
  check_meta-ok shard count _,
)

-- Once a shard is accepted, it stays accepted through any reservation of block ids.
pub reserve_block_ids-IsAccepted :
    (shard count n : ℕ) (m : ShardMeta)
    → IsAccepted shard count m
    → (row : ShardMeta) × ((reserve_block_ids n (some m)).0 ≡ some row) × IsAccepted shard count row
unfolding reserve_block_ids
reserve_block_ids-IsAccepted shard count n m h =
    elim (Bool-cases (ltb n 1 || ltb max_safe_integer n)) [
      | inl e ↦ rw e (m, refl, h)
      | inr e ↦
          elim (Bool-cases (leb (m.next_block_id + n) ((m.shard_index + 2) * index_id_span))) [
            | inl t ↦
                rw (e, t) (record m { next_block_id = m.next_block_id + n }, refl, ground arith)
            | inr t ↦ rw (e, t) (m, refl, h)
          ]
    ]
