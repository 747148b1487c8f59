-- ===== src/Shards/Tests.antt =====
-- The theorems on the index shards at concrete inputs, and runs of the definitions.
use agent_sessions_backup.Shards.Pools.{map_index_dbs_lem, IsBusy-le, IsBusy, map_from}
use agent_sessions_backup.Shards.Fences.{claim_index_write-fence, not_above, claim_all}
use agent_sessions_backup.Shards.Ranges.{
  reserve_all-AllApart, Inside, reserve_all, AllApart, InRange,
}
use agent_sessions_backup.Shards.Layouts.{verify_shard-IsAccepted, IsAccepted}
use agent_sessions_backup.Shards.Bindings.{index_db_for_lem, index_dbs_iff, name_of, AreIndexDbs}
use agent_sessions_backup.Prelude.{
  ℕ, ◌+◌, ◌-◌, ◌*◌, ◌%◌, ◌^◌, ◌≤◌, ◌<◌, min, ◌≡◌, refl, ◌↔◌, Option, none, some, List, [], ◌∷◌, map,
  arith, ltb, if◌then◌else◌, length, All, Result, ok, err,
}
use agent_sessions_backup.Shards.{
  Env, ShardMeta, index_dbs, index_db_for, index_shard_for, index_hash_bucket, verify_shard,
  index_layout, index_id_span, index_hash_buckets, reserve_block_ids, claim_index_write,
  index_write_fence, map_index_dbs, open_pool, resume, returned, max_shard_concurrency, IndexError,
  invalid, index_shard_binding_name, parse_index_shard_count,
}

-- `INDEX_SHARD_COUNT` is 2, and `IDX00` and `IDX01` are bound.
bind_two : List ℕ → Option ℕ
bind_two (_ ∷ _ ∷ _ ∷ d ∷ e ∷ []) =
    let shard = (d - b'0') * 10 + (e - b'0') in if ltb shard 2 then some shard else none
bind_two _ = none

abbrev two_shards : Env ℕ
two_shards = record { shard_setting = some (b'2' ∷ []); binding = bind_two }

two_shards_dbs : index_dbs two_shards ≡ ok (0 ∷ 1 ∷ [])
unfolding index_dbs parse_index_shard_count bind_two index_shard_binding_name
two_shards_dbs = refl

-- The FNV-1a hash of "a" is 0xe40c292c.
bucket_of_a : index_hash_bucket (λ s. s) (b'a' ∷ []) ≡ ok 0x2c
unfolding index_hash_bucket
bucket_of_a = refl

-- Three is no divisor of 256.
three_shards : parse_index_shard_count (some (b'3' ∷ [])) ≡ err invalid
unfolding parse_index_shard_count
three_shards = refl

index_dbs_iff_example :
    (index_dbs two_shards ≡ ok (0 ∷ 1 ∷ [])) ↔ AreIndexDbs two_shards (0 ∷ 1 ∷ [])
index_dbs_iff_example = index_dbs_iff two_shards (0 ∷ 1 ∷ [])

index_db_for_lem_example :
    (bucket : ℕ) × (shard : ℕ) × (db : ℕ) × (index_hash_bucket (λ s. s) (b'a' ∷ []) ≡ ok bucket)
    × (bucket < index_hash_buckets)
    × (shard ≡ bucket % 2)
    × (shard < 2)
    × (index_shard_for two_shards (λ s. s) (b'a' ∷ []) ≡ ok shard)
    × (index_db_for two_shards (λ s. s) (b'a' ∷ []) ≡ ok (some db))
    × (bind_two (name_of shard) ≡ some db)
index_db_for_lem_example = index_db_for_lem two_shards (0 ∷ 1 ∷ []) (λ s. s) b'a' [] two_shards_dbs

abbrev fresh_row : ℕ → ShardMeta
fresh_row shard = record {
  shard_index = shard;
  shard_count = 2;
  layout = index_layout;
  next_block_id = (shard + 1) * index_id_span;
}

verify_shard-IsAccepted_example :
    (row : ShardMeta) × (result : Result IndexError (ℕ × ℕ)) × (verify_shard 1 2
        (some (fresh_row 1))
      ≡ ok (some row, result))
    × ((m : ShardMeta) → some (fresh_row 1) ≡ some m → row ≡ m)
    × (some (fresh_row 1) ≡ none → IsAccepted 1 2 row)
    × ((result ≡ ok (1, 2)) ↔ IsAccepted 1 2 row)
verify_shard-IsAccepted_example = verify_shard-IsAccepted 1 2 (some (fresh_row 1)) (omega arith)

abbrev requests : List (ℕ × ℕ)
requests = (0, 5) ∷ (1, 3) ∷ (0, 2) ∷ (0, 0) ∷ []

fresh-InRange : (k : ℕ) → InRange k (some (fresh_row k))
fresh-InRange k = (refl, omega arith, omega arith)

reserve_all-AllApart_example :
    AllApart (reserve_all requests (λ k. some (fresh_row k)))
    × All Inside (reserve_all requests (λ k. some (fresh_row k)))
reserve_all-AllApart_example = reserve_all-AllApart requests (λ k. some (fresh_row k)) fresh-InRange

three_reserved :
    map (λ r. r.first) (reserve_all requests (λ k. some (fresh_row k)))
    ≡ 2 ^ 40 ∷ 2 ^ 41 ∷ (2 ^ 40 + 5) ∷ []
unfolding reserve_all reserve_block_ids
three_reserved = refl

claim_index_write-fence_example :
    (((claim_index_write 5 (some 4)).1 ≡ ok tt) ↔ (4 ≤ 5))
    × (4 ≤ 5
        → index_write_fence 5 (claim_all (3 ∷ 6 ∷ []) (claim_index_write 5 (some 4)).0)
          ≡ not_above 5 (3 ∷ 6 ∷ []))
claim_index_write-fence_example =
    claim_index_write-fence 5 (some 4) (3 ∷ 6 ∷ []) (omega arith, omega arith)
      ((omega arith, omega arith), ((omega arith, omega arith), tt))

abbrev read : ℕ → ℕ → ℕ
read db shard = db * 10 + shard

-- Two shards, the second worker ahead of the first.
abbrev order : List ℕ
order = 1 ∷ 0 ∷ 1 ∷ 0 ∷ []

order_returned :
    All
      (λ w. w ≡ returned)
      (map_index_dbs read (7 ∷ 8 ∷ []) order (open_pool read (7 ∷ 8 ∷ []))).workers
unfolding map_index_dbs open_pool
order_returned = (refl, (refl, tt))

map_index_dbs_lem_example :
    (length (map_index_dbs read (7 ∷ 8 ∷ []) order (open_pool read (7 ∷ 8 ∷ []))).workers
      ≤ max_shard_concurrency)
    × ((map_index_dbs read (7 ∷ 8 ∷ []) order (open_pool read (7 ∷ 8 ∷ []))).results
        ≡ map_from read 0 (7 ∷ 8 ∷ []))
map_index_dbs_lem_example = map_index_dbs_lem read (7 ∷ 8 ∷ []) order order_returned

order-IsBusy : IsBusy read (7 ∷ 8 ∷ []) order (open_pool read (7 ∷ 8 ∷ []))
unfolding resume open_pool
order-IsBusy =
    ((_, refl, λ e. cc), ((_, refl, λ e. cc), ((_, refl, λ e. cc), ((_, refl, λ e. cc), tt))))

IsBusy-le_example : length order ≤ 2 + min max_shard_concurrency 2
IsBusy-le_example = IsBusy-le read (7 ∷ 8 ∷ []) order order-IsBusy
