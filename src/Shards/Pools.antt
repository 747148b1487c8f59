-- ===== src/Shards/Pools.antt =====
-- hub/src/index-shards.ts: `mapIndexDbs`, its workers interleaved in any order.
use agent_sessions_backup.Prelude.{
  ℕ, zero, suc, ◌+◌, ◌-◌, ◌≤◌, ◌<◌, min, ◌≡◌, refl, sym, ap, ◌∙◌, subst, ◌≢◌, ◌⊎◌, inl, inr, Option,
  none, some, List, [], ◌∷◌, arith, ℕ_discrete, ltb, ltb→lt, Bool-cases, Option-cases, length,
  replicate, get_elem?, All,
}
use agent_sessions_backup.Shards.{
  run_worker, store_result, take_shard, Pool, Worker, ready, reading, returned, set, resume,
  map_index_dbs, open_pool, max_shard_concurrency,
}

abbrev pub map_from : {D T : Type 0} → (D → ℕ → T) → ℕ → List D → List (Option T)
map_from read shard [] = []
map_from read shard (db ∷ dbs) = some (read db shard) ∷ map_from read (shard + 1) dbs

-- Some worker other than `self` awaits the read of a shard.
abbrev AwaitedBut : Option ℕ → ℕ → List Worker → Type 0
AwaitedBut self shard workers =
    (i : ℕ) × (get_elem? workers i ≡ some (reading shard)) × (self ≢ some i)

module _ {ℓ} {A : Type ℓ} where
  length-set : (xs : List A) (i : ℕ) (v : A) → length (set xs i v) ≡ length xs
  length-set [] i v = refl
  length-set (x ∷ xs) zero v = refl
  length-set (x ∷ xs) (suc i) v = ap suc (length-set xs i v)

  get_elem?-set_self :
      (xs : List A) (i : ℕ) (v : A) → i < length xs → get_elem? (set xs i v) i ≡ some v
  get_elem?-set_self [] i v h = absurd (omega arith)
  get_elem?-set_self (x ∷ xs) zero v h = refl
  get_elem?-set_self (x ∷ xs) (suc i) v h = get_elem?-set_self xs i v (omega arith)

  get_elem?-set_other :
      (xs : List A) (i j : ℕ) (v : A) → i ≢ j → get_elem? (set xs i v) j ≡ get_elem? xs j
  get_elem?-set_other [] i j v h = refl
  get_elem?-set_other (x ∷ xs) zero zero v h = absurd (h refl)
  get_elem?-set_other (x ∷ xs) zero (suc j) v h = refl
  get_elem?-set_other (x ∷ xs) (suc i) zero v h = refl
  get_elem?-set_other (x ∷ xs) (suc i) (suc j) v h =
      get_elem?-set_other xs i j v (λ e. h (ap suc e))

  get_elem?_lt : (xs : List A) (i : ℕ) {a : A} → get_elem? xs i ≡ some a → i < length xs
  get_elem?_lt [] i h = absurd cc
  get_elem?_lt (x ∷ xs) zero h = omega arith
  get_elem?_lt (x ∷ xs) (suc i) h = omega (arith, get_elem?_lt xs i h)

reading_inj : {s t : ℕ} → reading s ≡ reading t → s ≡ t
reading_inj e = cc

same_at :
    {D : Type 0} (dbs : List D) (s t : ℕ) {a b : D}
    → s ≡ t
    → get_elem? dbs s ≡ some a
    → get_elem? dbs t ≡ some b
    → a ≡ b
same_at dbs s t e p q = let r = sym p ∙ (ap (get_elem? dbs) e ∙ q) in cc

ext_from :
    {D T : Type 0} (read : D → ℕ → T) (shard : ℕ) (dbs : List D) (results : List (Option T))
    → length results ≡ length dbs
    → ((i : ℕ) (db : D)
        → get_elem? dbs i ≡ some db
        → get_elem? results i ≡ some (some (read db (shard + i))))
    → results ≡ map_from read shard dbs
ext_from read shard [] [] e h = refl
ext_from read shard [] (r ∷ rs) e h = absurd (omega arith)
ext_from read shard (db ∷ dbs) [] e h = absurd (omega arith)
ext_from read shard (db ∷ dbs) (r ∷ rs) e h =
    let head : some r ≡ some (some (read db (shard + 0))) = h 0 db refl in
    let plain : shard + 0 ≡ shard = omega arith in
    let first : r ≡ some (read db shard) =
      (let r_eq : r ≡ some (read db (shard + 0)) = cc in r_eq ∙ ap (λ k. some (read db k)) plain) in
    let rest = ext_from read (shard + 1) dbs rs (omega arith) (λ i d at_i.
      let next : shard + suc i ≡ shard + 1 + i = omega arith in
      h (suc i) d at_i ∙ ap (λ k. some (some (read d k))) next) in
    rw (first, rest) refl

open_ready : (n i : ℕ) {w : Worker} → get_elem? (replicate n ready) i ≡ some w → w ≡ ready
open_ready zero i e = absurd cc
open_ready (suc n) zero e = cc
open_ready (suc n) (suc i) e = open_ready n i e

length-replicate {ℓ} : {A : Type ℓ} (n : ℕ) (a : A) → length (replicate n a) ≡ n
length-replicate zero a = refl
length-replicate (suc n) a = ap suc (length-replicate n a)

All-at {ℓ κ} :
    {A : Type ℓ} (P : A → Type κ) (xs : List A) (i : ℕ) {a : A}
    → All P xs
    → get_elem? xs i ≡ some a
    → P a
All-at P [] i h e = absurd cc
All-at P (x ∷ xs) zero h e = subst P (let same : x ≡ _ = cc in same) h.0
All-at P (x ∷ xs) (suc i) h e = All-at P xs i h.1 e

first_returned :
    (workers : List Worker)
    → 0 < length workers
    → All (λ w. w ≡ returned) workers
    → get_elem? workers 0 ≡ some returned
first_returned [] h all = absurd (omega arith)
first_returned (w ∷ ws) h all = ap some all.0

module _ {D T : Type 0} (read : D → ℕ → T) (dbs : List D) where
  -- Every result is missing or the read of its shard, and a shard that was taken is stored or
  -- awaited, by another worker than `self` where one is named.
  record IsPool (self : Option ℕ) (p : Pool T) : Type 0 where
    as_many : length p.results ≡ length dbs
    pool_size : length p.workers ≡ min max_shard_concurrency (length dbs)
    taken : p.next ≤ length dbs
    settled :
        (shard : ℕ) (db : D)
        → get_elem? dbs shard ≡ some db
        → shard < p.next
        → (get_elem? p.results shard ≡ some (some (read db shard)))
          ⊎ AwaitedBut self shard p.workers
    last : (i : ℕ) → get_elem? p.workers i ≡ some returned → p.next ≡ length dbs

  others :
      (p : Pool T) (i : ℕ) (w : Worker) (shard : ℕ) (db : D)
      → (get_elem? p.results shard ≡ some (some (read db shard)))
        ⊎ AwaitedBut (some i) shard p.workers
      → (get_elem? p.results shard ≡ some (some (read db shard)))
        ⊎ AwaitedBut none shard (set p.workers i w)
  others p i w shard db (inl e) = inl e
  others p i w shard db (inr (j, e, differ)) =
      inr (j, get_elem?-set_other p.workers i j w (λ same. differ (ap some same)) ∙ e, λ x. cc)

  take_shard-IsPool :
      (i : ℕ) (p : Pool T)
      → i < length p.workers
      → IsPool (some i) p
      → IsPool none (take_shard read dbs i p)
  unfolding take_shard
  take_shard-IsPool i p below h = elim (Bool-cases (ltb p.next (length dbs))) [
    | inl t ↦
        rw (t, take_shard)
          (record {
            as_many = h.as_many;
            pool_size = length-set p.workers i _ ∙ h.pool_size;
            taken = ground (arith, ltb→lt _ _ t);
            settled = λ shard db e lt. elim (ℕ_discrete shard p.next) [
              | yes same ↦ inr (
                i,
                get_elem?-set_self p.workers i _ below ∙ ap (λ k. some (reading k)) (sym same),
                λ x. cc,
              )
              | no differ ↦ others p i _ shard db (h.settled shard db e (omega arith))
            ];
            last = λ j e. elim (ℕ_discrete i j) [
              | yes same ↦
                  let self = get_elem?-set_self p.workers i (reading p.next) below in
                  let at_j : get_elem? (set p.workers i (reading p.next)) j
                      ≡ some (reading p.next) =
                    rw (sym same) self in
                  let clash = sym at_j ∙ e in cc
              | no differ ↦
                  let before = h.last j (sym (get_elem?-set_other p.workers i j _ differ) ∙ e) in
                  let lt = ltb→lt _ _ t in absurd (omega arith)
            ];
          })
    | inr t ↦
        rw (t, take_shard)
          (record {
            as_many = h.as_many;
            pool_size = length-set p.workers i _ ∙ h.pool_size;
            taken = h.taken;
            settled = λ shard db e lt. others p i _ shard db (h.settled shard db e lt);
            last = λ j e. ground (arith, h.taken, t);
          })
  ]

  not_reading :
      (p : Pool T) (i shard : ℕ) (w : Worker) (db : D)
      → get_elem? p.workers i ≡ some w
      → w ≢ reading shard
      → (get_elem? p.results shard ≡ some (some (read db shard))) ⊎ AwaitedBut none shard p.workers
      → (get_elem? p.results shard ≡ some (some (read db shard)))
        ⊎ AwaitedBut (some i) shard p.workers
  not_reading p i shard w db e differ (inl r) = inl r
  not_reading p i shard w db e differ (inr (j, at_j, _)) = inr (
    j,
    at_j,
    λ same.
        let at_i : get_elem? p.workers i ≡ some (reading shard) =
          ap (get_elem? p.workers) (cc) ∙ at_j in
        differ cc,
  )

  -- Before the worker takes its next shard: it awaits nothing any more.
  store_result-IsPool :
      (i shard : ℕ) (p : Pool T)
      → get_elem? p.workers i ≡ some (reading shard)
      → IsPool none p
      → IsPool (some i) (store_result read dbs shard p)
  unfolding store_result
  store_result-IsPool i shard p e h = elim (Option-cases (get_elem? dbs shard)) [
    | inl none_there ↦
        rw (none_there, store_result)
          (record {
            as_many = h.as_many;
            pool_size = h.pool_size;
            taken = h.taken;
            settled = λ s db at_s lt.
                not_reading p i s (reading shard) db e (λ same. cc) (h.settled s db at_s lt);
            last = h.last;
          })
    | inr (db, there) ↦
        rw (there, store_result)
          (record {
            as_many = length-set p.results shard _ ∙ h.as_many;
            pool_size = h.pool_size;
            taken = h.taken;
            settled = λ s d at_s lt. elim (ℕ_discrete shard s) [
              | yes same ↦
                  let d_eq : db ≡ d = same_at dbs shard s same there at_s in
                  let in_range : shard < length p.results =
                    omega (arith, h.as_many, get_elem?_lt dbs shard there) in
                  inl (rw (sym same, sym d_eq) (get_elem?-set_self p.results shard _ in_range))
              | no differ ↦
                  let w_differs : reading shard ≢ reading s = λ x. differ (reading_inj x) in
                  elim (not_reading p i s (reading shard) d e w_differs (h.settled s d at_s lt)) [
                    | inl r ↦ inl (get_elem?-set_other p.results shard s _ differ ∙ r)
                    | inr a ↦ inr a
                  ]
            ];
            last = h.last;
          })
  ]

  run_worker-IsPool :
      (w : Option Worker) (i : ℕ) (p : Pool T)
      → get_elem? p.workers i ≡ w
      → IsPool none p
      → IsPool none (run_worker read dbs w i p)
  unfolding run_worker
  run_worker-IsPool none i p e h = h
  run_worker-IsPool (some returned) i p e h = h
  run_worker-IsPool (some ready) i p e h =
      take_shard-IsPool i p (get_elem?_lt p.workers i e) (record {
        as_many = h.as_many;
        pool_size = h.pool_size;
        taken = h.taken;
        settled =
            λ s db at_s lt. not_reading p i s ready db e (λ same. cc) (h.settled s db at_s lt);
        last = h.last;
      })
  run_worker-IsPool (some (reading shard)) i p e h =
      take_shard-IsPool i (store_result read dbs shard p)
        (let now = store_result-IsPool i shard p e h in
          omega (arith, now.pool_size, h.pool_size, get_elem?_lt p.workers i e))
        (store_result-IsPool i shard p e h)

  map_index_dbs-IsPool :
      (order : List ℕ) (p : Pool T) → IsPool none p → IsPool none (map_index_dbs read dbs order p)
  unfolding map_index_dbs
  map_index_dbs-IsPool [] p h = h
  map_index_dbs-IsPool (i ∷ order) p h =
      map_index_dbs-IsPool order _ (run_worker-IsPool (get_elem? p.workers i) i p refl h)

  open_pool-IsPool : IsPool none (open_pool read dbs)
  unfolding open_pool
  open_pool-IsPool = record {
    as_many = length-replicate (length dbs) none;
    pool_size = length-replicate (min max_shard_concurrency (length dbs)) ready;
    taken = omega arith;
    settled = λ s db e lt. absurd (omega arith);
    last = λ i e. let w = open_ready (min max_shard_concurrency (length dbs)) i e in absurd cc;
  }

  -- Whenever all workers have returned, in whatever order they ran, there are at most four, each
  -- shard was read, and the results stand in the order of the shards.
  pub map_index_dbs_lem :
      (order : List ℕ)
      → All (λ w. w ≡ returned) (map_index_dbs read dbs order (open_pool read dbs)).workers
      → (length (map_index_dbs read dbs order (open_pool read dbs)).workers ≤ max_shard_concurrency)
        × ((map_index_dbs read dbs order (open_pool read dbs)).results ≡ map_from read 0 dbs)
  map_index_dbs_lem order all =
      let p = map_index_dbs read dbs order (open_pool read dbs) in
      let h = map_index_dbs-IsPool order (open_pool read dbs) open_pool-IsPool in
      (
        omega (arith, h.pool_size),
        ext_from read 0 dbs p.results h.as_many (λ i db e.
            let below = get_elem?_lt dbs i e in
            let full =
              h.last 0 (first_returned p.workers (omega (arith, h.pool_size, below)) all) in
            let plain : i ≡ 0 + i = omega arith in
            elim (h.settled i db e (omega (arith, full, below))) [
              | inl r ↦ r ∙ ap (λ k. some (some (read db k))) plain
              | inr (j, awaited, _) ↦
                  let w : reading i ≡ returned =
                    All-at (λ w. w ≡ returned) p.workers j all awaited in
                  absurd cc
            ]),
      )

waiting : Worker → ℕ
waiting returned = 0
waiting ready = 1
waiting (reading shard) = 1

all_waiting : List Worker → ℕ
all_waiting [] = 0
all_waiting (w ∷ ws) = waiting w + all_waiting ws

all_waiting-set :
    (ws : List Worker) (i : ℕ) (w v : Worker)
    → get_elem? ws i ≡ some w
    → all_waiting (set ws i v) + waiting w ≡ all_waiting ws + waiting v
unfolding all_waiting
all_waiting-set [] i w v e = absurd cc
all_waiting-set (x ∷ ws) zero w v e = (let same : x ≡ w = cc in rw same (omega arith))
all_waiting-set (x ∷ ws) (suc i) w v e = omega (arith, all_waiting-set ws i w v e)

module _ {D T : Type 0} (read : D → ℕ → T) (dbs : List D) where
  -- Every step resumes a worker that has not returned.
  abbrev pub IsBusy : List ℕ → Pool T → Type 0
  IsBusy [] p = Unit
  IsBusy (i ∷ order) p =
      ((w : Worker) × (get_elem? p.workers i ≡ some w) × (w ≢ returned))
      × IsBusy order (resume read dbs i p)

  left : Pool T → ℕ
  left p = length dbs - p.next + all_waiting p.workers

  take_shard-left :
      (i : ℕ) (p : Pool T) (w : Worker)
      → get_elem? p.workers i ≡ some w
      → waiting w ≡ 1
      → left (take_shard read dbs i p) + 1 ≡ left p
  unfolding take_shard left waiting
  take_shard-left i p w e one = ground (
    arith,
    all_waiting-set p.workers i w returned e,
    all_waiting-set p.workers i w (reading p.next) e,
  )

  store_result_same :
      (shard : ℕ) (p : Pool T)
      → ((store_result read dbs shard p).workers ≡ p.workers)
        × ((store_result read dbs shard p).next ≡ p.next)
  unfolding store_result
  store_result_same shard p = elim (Option-cases (get_elem? dbs shard)) [
    | inl e ↦ rw (e, store_result) (refl, refl)
    | inr (db, e) ↦ rw (e, store_result) (refl, refl)
  ]

  run_worker-left :
      (w : Worker) (i : ℕ) (p : Pool T)
      → get_elem? p.workers i ≡ some w
      → w ≢ returned
      → left (run_worker read dbs (some w) i p) + 1 ≡ left p
  unfolding run_worker left waiting
  run_worker-left ready i p e busy = take_shard-left i p ready e refl
  run_worker-left returned i p e busy = absurd (busy refl)
  run_worker-left (reading shard) i p e busy =
      let same = store_result_same shard p in
      take_shard-left i (store_result read dbs shard p) (reading shard)
        (ap (λ ws. get_elem? ws i) same.0 ∙ e) refl
      ∙ rw (same.0, same.1) refl

  IsBusy-left : (order : List ℕ) (p : Pool T) → IsBusy order p → length order ≤ left p
  unfolding resume
  IsBusy-left [] p h = omega arith
  IsBusy-left (i ∷ order) p ((w, e, busy), later) =
      let step : left (resume read dbs i p) + 1 ≡ left p =
        ap (λ v. left (run_worker read dbs v i p) + 1) e ∙ run_worker-left w i p e busy in
      omega (arith, step, IsBusy-left order (resume read dbs i p) later)

  all_ready : (n : ℕ) → all_waiting (replicate n ready) ≡ n
  unfolding all_waiting waiting
  all_ready zero = refl
  all_ready (suc n) = omega (arith, all_ready n)

  -- The pool terminates: workers that have not returned can be resumed at most once for each shard
  -- and once for each worker, in whatever order.
  pub IsBusy-le :
      (order : List ℕ)
      → IsBusy order (open_pool read dbs)
      → length order ≤ length dbs + min max_shard_concurrency (length dbs)
  unfolding left open_pool
  IsBusy-le order h = omega (
    arith,
    IsBusy-left order (open_pool read dbs) h,
    all_ready (min max_shard_concurrency (length dbs)),
  )
