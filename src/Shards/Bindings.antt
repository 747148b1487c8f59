-- ===== src/Shards/Bindings.antt =====
-- hub/src/index-shards.ts: the bindings that `indexDbs` accepts, and where a session is placed.
use agent_sessions_backup.Prelude.{
  Result-cases, ℕ, zero, suc, ◌+◌, ◌-◌, ◌/◌, ◌%◌, ◌≤◌, ◌<◌, min, ◌≡◌, refl, sym, ap, ◌∙◌, subst,
  ◌↔◌, ◌⊎◌, inl, inr, Bool, true, false, ◌||◌, Option, none, some, List, [], ◌∷◌, arith, ltb,
  ltb→lt, lt→ltb, length, drop, get_elem?, Result, ok, err,
}
use agent_sessions_backup.Shards.Settings.{
  IsSetting, IsSetting-parse, parse-IsSetting, number_from-le,
}
use agent_sessions_backup.Shards.{
  fnv_offset, fnv_from, Env, index_dbs, collect_dbs, index_shard_binding_name, index_max_shards,
  parse_index_shard_count, IndexError, index_shard_for, index_db_for, index_hash_bucket,
  index_shard_for_session_id, bad_count, index_hash_buckets, layout_error, place,
}

-- The binding of a shard, `IDX` and two digits.
abbrev pub name_of : ℕ → List ℕ
name_of shard = b'I' ∷ b'D' ∷ b'X' ∷ (b'0' + shard / 10) ∷ (b'0' + shard % 10) ∷ []

name_lem :
    (shard : ℕ) → shard < index_max_shards → index_shard_binding_name shard ≡ ok (name_of shard)
unfolding index_shard_binding_name
name_lem shard h = rw (lt→ltb shard index_max_shards h)

place-ok :
    {D : Type 0} (t : Bool) (b : Option D) (rest : Result IndexError (List D)) {dbs : List D}
    → place t b rest ≡ ok dbs
    → ((t ≡ true) × ((db : D) × (ds : List D) × (b ≡ some db) × (rest ≡ ok ds) × (dbs ≡ db ∷ ds)))
      ⊎ ((t ≡ false) × (b ≡ none) × (rest ≡ ok dbs))
unfolding place
place-ok true none rest e = cc
place-ok true (some db) (ok ds) e = inl (refl, (db, ds, refl, refl, ground arith))
place-ok true (some db) (err x) e = cc
place-ok false none rest e = inr (refl, refl, e)
place-ok false (some db) rest e = cc

module _ {D : Type 0} (env : Env D) where
  -- The databases of the shards from one on, of which `left` are left.
  record AreBound (count shard left : ℕ) (dbs : List D) : Type 0 where
    as_many : length dbs ≡ min left (count - shard)
    each : (j : ℕ) → j < left → env.binding (name_of (shard + j)) ≡ get_elem? dbs j

  collect_suc :
      (count shard left : ℕ)
      → shard < index_max_shards
      → collect_dbs env count shard (suc left)
        ≡ place
            (ltb shard count)
            (env.binding (name_of shard))
            (collect_dbs env count (shard + 1) left)
  unfolding collect_dbs
  collect_suc count shard left h = rw (name_lem shard h)

  at_cons :
      (shard left : ℕ) (db : D) (ds : List D) (j : ℕ)
      → j < suc left
      → env.binding (name_of shard) ≡ some db
      → ((i : ℕ) → i < left → env.binding (name_of (shard + 1 + i)) ≡ get_elem? ds i)
      → env.binding (name_of (shard + j)) ≡ get_elem? (db ∷ ds) j
  at_cons shard left db ds zero p b later =
      subst (λ k. env.binding (name_of k) ≡ some db) (let e : shard ≡ shard + 0 = omega arith in e)
        b
  at_cons shard left db ds (suc j) p b later =
      subst (λ k. env.binding (name_of k) ≡ get_elem? ds j)
        (let e : shard + 1 + j ≡ shard + suc j = omega arith in e) (later j (omega arith))

  at_nil :
      (shard left : ℕ) (j : ℕ)
      → j < suc left
      → env.binding (name_of shard) ≡ none
      → ((i : ℕ) → i < left → env.binding (name_of (shard + 1 + i)) ≡ none)
      → env.binding (name_of (shard + j)) ≡ none
  at_nil shard left zero p b later =
      subst (λ k. env.binding (name_of k) ≡ none) (let e : shard ≡ shard + 0 = omega arith in e) b
  at_nil shard left (suc j) p b later =
      subst (λ k. env.binding (name_of k) ≡ none)
        (let e : shard + 1 + j ≡ shard + suc j = omega arith in e) (later j (omega arith))

  empty_of : (dbs : List D) → length dbs ≡ 0 → dbs ≡ []
  empty_of [] h = refl
  empty_of (db ∷ dbs) h = absurd (omega arith)

  collect_dbs-AreBound :
      (count shard left : ℕ) {dbs : List D}
      → shard + left ≤ index_max_shards
      → collect_dbs env count shard left ≡ ok dbs
      → AreBound count shard left dbs
  unfolding collect_dbs
  collect_dbs-AreBound count shard zero h e = record {
    as_many = ground arith;
    each = λ j p. absurd (omega arith);
  }
  collect_dbs-AreBound count shard (suc left) {dbs} h e =
      let found =
        place-ok (ltb shard count) (env.binding (name_of shard))
          (collect_dbs env count (shard + 1) left)
          (sym (collect_suc count shard left (omega arith)) ∙ e) in
      elim found [
        | inl (t, (db, ds, b, r, same)) ↦
            let below = collect_dbs-AreBound count (shard + 1) left {dbs = ds} (omega arith) r in
            let lt = ltb→lt shard count t in
            let many : length (db ∷ ds) ≡ min (suc left) (count - shard) =
              omega (arith, below.as_many, lt) in
            subst (AreBound count shard (suc left)) (sym same)
              (record { as_many = many; each = λ j p. at_cons shard left db ds j p b below.each })
        | inr (t, b, r) ↦
            let below = collect_dbs-AreBound count (shard + 1) left {dbs = dbs} (omega arith) r in
            let ge : count ≤ shard = ground (arith, t) in
            let none_left = empty_of dbs (omega (arith, below.as_many, ge)) in
            subst (AreBound count shard (suc left)) (sym none_left) (record {
              as_many = omega (arith, ge);
              each = λ j p. at_nil shard left j p b (
                  subst
                    (λ ds.
                      (i : ℕ) → i < left → env.binding (name_of (shard + 1 + i)) ≡ get_elem? ds i)
                    none_left below.each);
            })
      ]

  head_of :
      (count shard left : ℕ) {dbs : List D}
      → AreBound count shard (suc left) dbs
      → env.binding (name_of shard) ≡ get_elem? dbs 0
  head_of count shard left {dbs} are =
      subst (λ k. env.binding (name_of k) ≡ get_elem? dbs 0)
        (let e : shard + 0 ≡ shard = omega arith in e) (are.each 0 (omega arith))

  tail_of :
      (count shard left : ℕ) (dbs : List D)
      → AreBound count shard (suc left) dbs
      → AreBound count (shard + 1) left (drop 1 dbs)
  tail_of count shard left [] are = record {
    as_many = omega (arith, are.as_many);
    each = λ j p.
        subst (λ k. env.binding (name_of k) ≡ none)
          (let e : shard + suc j ≡ shard + 1 + j = omega arith in e)
          (are.each (suc j) (omega arith));
  }
  tail_of count shard left (db ∷ ds) are = record {
    as_many = omega (arith, are.as_many);
    each = λ j p.
        subst (λ k. env.binding (name_of k) ≡ get_elem? ds j)
          (let e : shard + suc j ≡ shard + 1 + j = omega arith in e)
          (are.each (suc j) (omega arith));
  }

  collect_dbs_lem :
      (count shard left : ℕ) (dbs : List D)
      → shard + left ≤ index_max_shards
      → AreBound count shard left dbs
      → collect_dbs env count shard left ≡ ok dbs
  unfolding collect_dbs place
  collect_dbs_lem count shard zero [] h are = refl
  collect_dbs_lem count shard zero (db ∷ dbs) h are = absurd (omega (arith, are.as_many))
  collect_dbs_lem count shard (suc left) [] h are =
      let t : ltb shard count ≡ false = ground (arith, are.as_many) in
      let rest =
        collect_dbs_lem count (shard + 1) left [] (omega arith) (tail_of count shard left [] are) in
      collect_suc count shard left (omega arith) ∙ rw (head_of count shard left are, t, rest) refl
  collect_dbs_lem count shard (suc left) (db ∷ ds) h are =
      let t : ltb shard count ≡ true = ground (arith, are.as_many) in
      let rest =
        collect_dbs_lem count (shard + 1) left ds (omega arith)
          (tail_of count shard left (db ∷ ds) are) in
      collect_suc count shard left (omega arith) ∙ rw (head_of count shard left are, t, rest) refl

-- The configured databases are `dbs`: the setting is their number, each is bound at its place, and
-- no further shard is bound.
pub record AreIndexDbs {D : Type 0} (env : Env D) (dbs : List D) : Type 0 where
  pub setting : IsSetting env.shard_setting (length dbs)
  pub bindings :
      (shard : ℕ) → shard < index_max_shards → env.binding (name_of shard) ≡ get_elem? dbs shard

-- A setting that is accepted is a count from 1 to 16 that divides 256.
parse_index_shard_count_range :
    (setting : Option (List ℕ)) (count : ℕ)
    → parse_index_shard_count setting ≡ ok count
    → (1 ≤ count) × (count ≤ index_max_shards) × (bad_count count ≡ false)
unfolding parse_index_shard_count
parse_index_shard_count_range none count h = cc
parse_index_shard_count_range (some []) count h = cc
parse_index_shard_count_range (some (c ∷ cs)) count h = ground (arith, number_from-le (c - b'0') cs)

zero-add : (n : ℕ) → 0 + n ≡ n
zero-add n = omega arith

module _ {D : Type 0} (env : Env D) (dbs : List D) where
  index_dbs-AreIndexDbs : index_dbs env ≡ ok dbs → AreIndexDbs env dbs
  unfolding index_dbs
  index_dbs-AreIndexDbs h = elim (Result-cases (parse_index_shard_count env.shard_setting)) [
    | inl (count, e) ↦
        let range = parse_index_shard_count_range env.shard_setting count e in
        let h' : collect_dbs env count 0 index_max_shards ≡ ok dbs =
          sym (rw (e, index_dbs) refl) ∙ h in
        let are = collect_dbs-AreBound env count 0 index_max_shards (omega arith) h' in
        record {
          setting = parse-IsSetting env.shard_setting (length dbs) (
              e
              ∙ ap ok (let same : count ≡ length dbs = omega (arith, are.as_many, range) in same));
          bindings = λ j p.
              subst (λ k. env.binding (name_of k) ≡ get_elem? dbs j) (zero-add j) (are.each j p);
        }
    | inr (x, e) ↦ let h' : err layout_error ≡ ok dbs = sym (rw (e, index_dbs) refl) ∙ h in cc
  ]

  AreIndexDbs-index_dbs : AreIndexDbs env dbs → index_dbs env ≡ ok dbs
  unfolding index_dbs
  AreIndexDbs-index_dbs h =
      let parsed = IsSetting-parse env.shard_setting (length dbs) h.setting in
      let range = parse_index_shard_count_range env.shard_setting (length dbs) parsed in
      rw (parsed, index_dbs)
        (collect_dbs_lem env (length dbs) 0 index_max_shards dbs (omega arith) (record {
          as_many = omega (arith, range);
          each = λ j p.
              subst (λ k. env.binding (name_of k) ≡ get_elem? dbs j) (sym (zero-add j))
                (h.bindings j p);
        }))

  -- The bindings are accepted with certain databases exactly when the setting is their number in
  -- decimal, a divisor of 256 from 1 to 16, the binding of each configured shard is the database at its place, and no other of the sixteen is
  -- bound.
  pub index_dbs_iff : (index_dbs env ≡ ok dbs) ↔ AreIndexDbs env dbs
  index_dbs_iff = (index_dbs-AreIndexDbs, AreIndexDbs-index_dbs)

get_elem?_below :
    {D : Type 0} (dbs : List D) (i : ℕ) → i < length dbs → (db : D) × (get_elem? dbs i ≡ some db)
get_elem?_below [] i h = absurd (omega arith)
get_elem?_below (db ∷ dbs) zero h = (db, refl)
get_elem?_below (db ∷ dbs) (suc i) h = get_elem?_below dbs i (omega arith)

-- Under accepted bindings every session with a non-empty id is placed: on one of the configured
-- shards, which depends on the id's bucket and the number of shards only, in the database bound
-- under that shard's name.
pub index_db_for_lem :
    {D : Type 0} (env : Env D) (dbs : List D) (utf8 : List ℕ → List ℕ) (c : ℕ) (cs : List ℕ)
    → index_dbs env ≡ ok dbs
    → (bucket : ℕ) × (shard : ℕ) × (db : D) × (index_hash_bucket utf8 (c ∷ cs) ≡ ok bucket)
      × (bucket < index_hash_buckets)
      × (shard ≡ bucket % length dbs)
      × (shard < length dbs)
      × (index_shard_for env utf8 (c ∷ cs) ≡ ok shard)
      × (index_db_for env utf8 (c ∷ cs) ≡ ok (some db))
      × (env.binding (name_of shard) ≡ some db)
unfolding index_hash_bucket index_shard_for index_db_for index_shard_for_session_id
index_db_for_lem env dbs utf8 c cs h =
    let are = index_dbs-AreIndexDbs env dbs h in
    let range =
      parse_index_shard_count_range env.shard_setting (length dbs)
        (IsSetting-parse env.shard_setting (length dbs) are.setting) in
    let bucket = fnv_from fnv_offset (utf8 (c ∷ cs)) % index_hash_buckets in
    let below : bucket % length dbs < length dbs = omega (arith, range.0) in
    let (db, found) = get_elem?_below dbs (bucket % length dbs) below in
    let t : (ltb (length dbs) 1 || bad_count (length dbs)) ≡ false =
      (let one : ltb (length dbs) 1 ≡ false = ground (arith, range.0) in rw (one, range.2) refl) in
    (
      bucket,
      bucket % length dbs,
      db,
      refl,
      omega arith,
      refl,
      below,
      rw (h, t) refl,
      rw (h, t, found) refl,
      are.bindings (bucket % length dbs) (omega (arith, below, range.1)) ∙ found,
    )
