-- ===== src/Shards.antt =====
-- hub/src/index-layout.mjs and hub/src/index-shards.ts: where a session's blocks live, the range of
-- block ids of each shard and the fence that orders the writers of a session. A D1 database is the
-- row `shard_meta` with id 1, if there is one, and the table `index_write_versions` as a function
-- of the session. One D1 statement or batch is one transition, as it is atomic. The caches of the
-- isolate (`shardSets`, `verifiedLayouts`) are left out.
pub mod Settings
pub mod Bindings
pub mod Ranges
pub mod Fences
pub mod Pools
pub mod Layouts
pub mod Tests
use agent_sessions_backup.Prelude.{
  ℕ, zero, suc, ◌+◌, ◌-◌, ◌*◌, ◌/◌, ◌%◌, ◌^◌, ◌≤◌, ◌<◌, min, max, ◌≡◌, refl, sym, ap, ◌∙◌, subst,
  ◌≡⟨◌⟩◌, ◌∎, ◌≢◌, ◌↔◌, ◌⊎◌, inl, inr, Bool, true, false, not, ◌&&◌, ◌||◌, Option, none, some, List,
  [], ◌∷◌, ◌++◌, map, append-nil, append_assoc, arith, dec_lt, ℕ_discrete, ltb, leb, ◌==◌,
  if◌then◌else◌, ltb→lt, lt→ltb, leb→le, ==_iff, tests, Bool-cases, Option-cases, length, take,
  drop, replicate, concat, get_elem?, All, length-append, take-append-drop, length-take,
  length-drop, take-append, drop-append, concat-append, All-append, ℤ, pos, negsuc, Result, ok, err,
  ◌>>=◌,
}
use Prim.Native.Nat.{bit_xor}
use Prim.Native.String.{String}
use text.Mathlib.Text.{◌==◌ as str_eq}

-- `Error`, `IndexLayoutError`, `RangeError` and `IndexWriteSupersededError`.
pub data IndexError : Type 0 where
  invalid : IndexError
  layout_error : IndexError
  range_error : IndexError
  superseded : IndexError

abbrev pub index_layout : String
index_layout = "fnv1a32-utf8-mod256"

abbrev pub index_hash_buckets : ℕ
index_hash_buckets = 256

abbrev pub index_max_shards : ℕ
index_max_shards = 16

abbrev pub index_id_span : ℕ
index_id_span = 2 ^ 40

abbrev pub fnv_offset : ℕ
fnv_offset = 0x811c9dc5

abbrev pub fnv_prime : ℕ
fnv_prime = 0x01000193

abbrev pub max_safe_integer : ℕ
max_safe_integer = 2 ^ 53 - 1

-- The test `/^[1-9][0-9]*$/`, on the code units of the text.
pub is_digit : ℕ → Bool
is_digit c = leb b'0' c && leb c b'9'

pub all_digits : List ℕ → Bool
all_digits [] = true
all_digits (c ∷ cs) = is_digit c && all_digits cs

pub is_count : List ℕ → Bool
unfolding is_digit all_digits
is_count [] = false
is_count (c ∷ cs) = leb b'1' c && is_digit c && all_digits cs

-- `Number(value)` on decimal digits.
pub number_from : ℕ → List ℕ → ℕ
number_from n [] = n
number_from n (c ∷ cs) = number_from (n * 10 + (c - b'0')) cs

-- Whether a count of shards is possible.
pub bad_count : ℕ → Bool
bad_count count = ltb index_max_shards count || not (index_hash_buckets % count == 0)

-- `none` for a value that is no string.
unfoldable pub parse_index_shard_count : Option (List ℕ) → Result IndexError ℕ
unfolding is_count number_from bad_count
parse_index_shard_count none = err invalid
parse_index_shard_count (some value) =
    if not (is_count value)
    then err invalid
    else (let count = number_from 0 value in if bad_count count then err invalid else ok count)

pub is_shard_index : ℕ → Bool
is_shard_index shard = ltb shard index_max_shards

-- The code units of `IDX` and of the number, padded to two digits.
unfoldable pub index_shard_binding_name : ℕ → Result IndexError (List ℕ)
unfolding is_shard_index
index_shard_binding_name shard =
    if is_shard_index shard
    then ok (b'I' ∷ b'D' ∷ b'X' ∷ (b'0' + shard / 10) ∷ (b'0' + shard % 10) ∷ [])
    else err invalid

pub fnv_from : ℕ → List ℕ → ℕ
fnv_from hash [] = hash
fnv_from hash (byte ∷ bytes) = fnv_from (bit_xor hash byte * fnv_prime % 2 ^ 32) bytes

unfoldable pub index_id_base : ℕ → Result IndexError ℕ
unfolding is_shard_index
index_id_base shard = if is_shard_index shard then ok ((shard + 1) * index_id_span) else err invalid

unfoldable pub index_id_limit : ℕ → Result IndexError ℕ
unfolding is_shard_index
index_id_limit shard =
    if is_shard_index shard then ok ((shard + 2) * index_id_span) else err invalid

-- `utf8` is `encoder.encode`; a session id is the list of its code units.
module _ (utf8 : List ℕ → List ℕ) where
  unfoldable pub index_hash_bucket : List ℕ → Result IndexError ℕ
  unfolding fnv_from
  index_hash_bucket [] = err invalid
  index_hash_bucket (c ∷ cs) = ok (fnv_from fnv_offset (utf8 (c ∷ cs)) % index_hash_buckets)

  unfoldable pub index_shard_for_session_id : List ℕ → ℕ → Result IndexError ℕ
  unfolding index_hash_bucket bad_count
  index_shard_for_session_id session_id count =
      if ltb count 1 || bad_count count
      then err invalid
      else (index_hash_bucket session_id >>= λ bucket. ok (bucket % count))

pub record ShardMeta : Type 0 where
  pub shard_index : ℕ
  pub shard_count : ℕ
  pub layout : String
  pub next_block_id : ℕ

-- The shard databases of an environment: the setting and the bindings by name.
pub record Env (D : Type 0) : Type 0 where
  pub shard_setting : Option (List ℕ)
  pub binding : List ℕ → Option D

-- One round: whether the shard is configured, its binding, and what the later rounds give.
pub place : {D : Type 0} → Bool → Option D → Result IndexError (List D) → Result IndexError (List D)
place true none rest = err layout_error
place true (some db) rest = rest >>= λ dbs. ok (db ∷ dbs)
place false none rest = rest
place false (some db) rest = err layout_error

module _ {D : Type 0} (env : Env D) where
  pub bound : ℕ → Result IndexError (Option D)
  bound shard = index_shard_binding_name shard >>= λ name. ok (env.binding name)

  -- The loop from a shard on, with the number of shards left.
  pub collect_dbs : ℕ → ℕ → ℕ → Result IndexError (List D)
  unfolding bound place
  collect_dbs count shard zero = ok []
  collect_dbs count shard (suc left) =
      let rest = collect_dbs count (shard + 1) left in
      bound shard >>= λ binding. place (ltb shard count) binding rest

  -- An error of the setting becomes an `IndexLayoutError`.
  unfoldable pub index_dbs : Result IndexError (List D)
  unfolding collect_dbs
  index_dbs = elim (parse_index_shard_count env.shard_setting) [
    | ok count ↦ collect_dbs count 0 index_max_shards
    | err e ↦ err layout_error
  ]

  unfoldable pub index_shard_for : (List ℕ → List ℕ) → List ℕ → Result IndexError ℕ
  index_shard_for utf8 session_id =
      index_dbs >>= λ dbs. index_shard_for_session_id utf8 session_id (length dbs)

  -- The database, `none` for `undefined`.
  unfoldable pub index_db_for : (List ℕ → List ℕ) → List ℕ → Result IndexError (Option D)
  index_db_for utf8 session_id = index_dbs >>= λ dbs.
      index_shard_for_session_id utf8 session_id (length dbs) >>= λ shard. ok (get_elem? dbs shard)

-- The row after `INSERT … ON CONFLICT (id) DO NOTHING`.
abbrev pub init_meta : ShardMeta → Option ShardMeta → ShardMeta
init_meta fresh none = fresh
init_meta fresh (some meta) = meta

-- The checks of the row that is read back.
pub check_meta : ℕ → ℕ → ℕ → ℕ → ShardMeta → Result IndexError (ℕ × ℕ)
check_meta shard count base limit meta =
    if not (str_eq meta.layout index_layout)
      || not (meta.shard_index == shard)
      || not (meta.shard_count == count)
    then err layout_error
    else (if not (leb base meta.next_block_id && leb meta.next_block_id limit)
        then err layout_error
        else ok (shard, count))

-- The row is written only where there is none. The result is the identity `shard/count`.
unfoldable pub verify_shard :
    ℕ → ℕ → Option ShardMeta → Result IndexError (Option ShardMeta × Result IndexError (ℕ × ℕ))
unfolding check_meta
verify_shard shard count meta = index_id_base shard >>= λ base. index_id_limit shard >>= λ limit.
    let row =
      init_meta
        (record {
          shard_index = shard;
          shard_count = count;
          layout = index_layout;
          next_block_id = base;
        })
        meta in
    ok (some row, check_meta shard count base limit row)

-- `UPDATE shard_meta … RETURNING`: the row afterwards and the first id.
reserve_row : ℕ → ShardMeta → Option ShardMeta × Result IndexError ℕ
reserve_row count meta =
    if leb (meta.next_block_id + count) ((meta.shard_index + 2) * index_id_span)
    then (
      some (record meta { next_block_id = meta.next_block_id + count }),
      ok (meta.next_block_id + count - count),
    )
    else (some meta, err layout_error)

unfoldable pub reserve_block_ids : ℕ → Option ShardMeta → Option ShardMeta × Result IndexError ℕ
unfolding reserve_row
reserve_block_ids count meta =
    if ltb count 1 || ltb max_safe_integer count
    then (meta, err range_error)
    else elim meta [ none ↦ (none, err layout_error) | some row ↦ reserve_row count row ]

-- The statement `INSERT … ON CONFLICT … WHERE excluded.version > version` on one session's row.
abbrev pub upsert_version : ℕ → Option ℕ → ℕ
upsert_version version none = version
upsert_version version (some held) = if ltb held version then version else held

unfoldable pub claim_index_write : ℕ → Option ℕ → Option ℕ × Result IndexError (Unit {0})
claim_index_write version held =
    if ltb version 1 || ltb max_safe_integer version
    then (held, err range_error)
    else (let current = upsert_version version held in
        (some current, if current == version then ok tt else err superseded))

-- `indexWriteFence`: whether a version holds the fence.
unfoldable pub index_write_fence : ℕ → Option ℕ → Bool
index_write_fence version none = false
index_write_fence version (some held) = held == version

-- The pool of `mapIndexDbs`: a worker waits to start, awaits the read of a shard, or has returned.
pub data Worker : Type 0 where
  ready : Worker
  reading : ℕ → Worker
  returned : Worker

abbrev pub max_shard_concurrency : ℕ
max_shard_concurrency = 4

pub record Pool (T : Type 0) : Type 0 where
  pub next : ℕ
  pub results : List (Option T)
  pub workers : List Worker

module _ {ℓ} {A : Type ℓ} where
  -- `xs[i] = v`, within bounds.
  abbrev pub set : List A → ℕ → A → List A
  set [] i v = []
  set (x ∷ xs) zero v = v ∷ xs
  set (x ∷ xs) (suc i) v = x ∷ set xs i v

module _ {D T : Type 0} (read : D → ℕ → T) (dbs : List D) where
  unfoldable pub open_pool : Pool T
  open_pool = record {
    next = 0;
    results = replicate (length dbs) none;
    workers = replicate (min max_shard_concurrency (length dbs)) ready;
  }

  -- The loop's test and the call of the next read, up to its `await`.
  pub take_shard : ℕ → Pool T → Pool T
  take_shard i p =
      if ltb p.next (length dbs)
      then record p { next = p.next + 1; workers = set p.workers i (reading p.next) }
      else record p { workers = set p.workers i returned }

  pub store_result : ℕ → Pool T → Pool T
  store_result shard p = elim (get_elem? dbs shard) [
    | none ↦ p
    | some db ↦ record p { results = set p.results shard (some (read db shard)) }
  ]

  pub run_worker : Option Worker → ℕ → Pool T → Pool T
  unfolding take_shard store_result
  run_worker none i p = p
  run_worker (some ready) i p = take_shard i p
  run_worker (some (reading shard)) i p = take_shard i (store_result shard p)
  run_worker (some returned) i p = p

  -- A worker runs until its next `await`.
  unfoldable pub resume : ℕ → Pool T → Pool T
  unfolding run_worker
  resume i p = run_worker (get_elem? p.workers i) i p

  -- The pool after the workers ran in some order.
  unfoldable pub map_index_dbs : List ℕ → Pool T → Pool T
  unfolding resume
  map_index_dbs [] p = p
  map_index_dbs (i ∷ order) p = map_index_dbs order (resume i p)
