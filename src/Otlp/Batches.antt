-- ===== src/Otlp/Batches.antt =====
-- The chunker of hub/gateway/otlp-protobuf.ts: no chunk exceeds the cap by more than its length
-- prefixes, and the records of the chunks are, in order, those that fit.
use agent_sessions_backup.Otlp.Chunks.{
  Batch, record_field_size, flush_batch, make_room, has_records, fit_record, push_record,
  add_record, add_records,
}
use agent_sessions_backup.Otlp.Wire.{push_message_field}
use agent_sessions_backup.Otlp.Sizes.{total_size, record_field_size-length}
use agent_sessions_backup.Prelude.{
  ℕ, ◌+◌, ◌-◌, ◌≤◌, ◌≡◌, refl, sym, ap, ◌∙◌, subst, ◌≢◌, inl, inr, true, false, ◌&&◌, Option, none,
  some, List, [], ◌∷◌, ◌++◌, map, append-nil, append_assoc, arith, ltb, Bool-cases, Option-cases,
  length, concat, All, concat-append, All-append,
}

module _ {R : Type 0} (encode : R → List ℕ) (degrade : R → ℕ → Option R) (base limit : ℕ) where
  -- The bytes of the records that fit, in order, and the number of those that do not.
  unfoldable pub kept_records : List R → List (List ℕ)
  kept_records [] = []
  kept_records (rec ∷ recs) = elim (fit_record encode degrade base limit rec) [
    | none ↦ kept_records recs
    | some enc ↦ enc ∷ kept_records recs
  ]

  unfoldable pub lost_records : List R → ℕ
  lost_records [] = 0
  lost_records (rec ∷ recs) = elim (fit_record encode degrade base limit rec) [
    | none ↦ lost_records recs + 1
    | some enc ↦ lost_records recs
  ]

  fit_record-le :
      (rec : R) (enc : List ℕ)
      → fit_record encode degrade base limit rec ≡ some enc
      → base + record_field_size (length enc) ≤ limit
  unfolding fit_record
  fit_record-le rec enc e = ground arith

module _ {R : Type 0} (encode : R → List ℕ) (degrade : R → ℕ → Option R) (base limit : ℕ) where
  -- The record's field, as it is written into its scope, fits a request of its own.
  abbrev pub Fits : List ℕ → Type 0
  Fits enc = base + length (push_message_field 2 enc) ≤ limit

  -- What becomes of the records, in order: the bytes that are kept, and how many are given up. A
  -- record is kept as it is if it fits, else as it is shrunk if that fits, else it is given up.
  pub data Keeps : List R → List (List ℕ) → ℕ → Type 0 where
    no_records : Keeps [] [] 0
    whole :
        {rec : R} {recs : List R} {kept : List (List ℕ)} {lost : ℕ}
        → Fits (encode rec)
        → Keeps recs kept lost
        → Keeps (rec ∷ recs) (encode rec ∷ kept) lost
    shrunk :
        {rec smaller : R} {recs : List R} {kept : List (List ℕ)} {lost : ℕ}
        → ¬ Fits (encode rec)
        → degrade rec (limit - base - 64) ≡ some smaller
        → Fits (encode smaller)
        → Keeps recs kept lost
        → Keeps (rec ∷ recs) (encode smaller ∷ kept) lost
    given_up :
        {rec : R} {recs : List R} {kept : List (List ℕ)} {lost : ℕ}
        → ¬ Fits (encode rec)
        → ((smaller : R) → degrade rec (limit - base - 64) ≡ some smaller → ¬ Fits (encode smaller))
        → Keeps recs kept lost
        → Keeps (rec ∷ recs) kept (lost + 1)

  Fits-true : (enc : List ℕ) → ltb limit (base + record_field_size (length enc)) ≡ false → Fits enc
  Fits-true enc h = ground (arith, record_field_size-length 2 enc (omega arith))

  Fits-false :
      (enc : List ℕ) → ltb limit (base + record_field_size (length enc)) ≡ true → ¬ Fits enc
  Fits-false enc h fits = ground (arith, record_field_size-length 2 enc (omega arith))

  pub kept_records-Keeps :
      (recs : List R)
      → Keeps recs
          (kept_records encode degrade base limit recs)
          (lost_records encode degrade base limit recs)
  unfolding kept_records lost_records fit_record
  kept_records-Keeps [] = no_records
  kept_records-Keeps (rec ∷ recs) =
      let rest = kept_records-Keeps recs in
      elim (Bool-cases (ltb limit (base + record_field_size (length (encode rec))))) [
        | inr small ↦
            rw (kept_records, lost_records, fit_record, small)
              (whole (Fits-true (encode rec) small) rest)
        | inl large ↦ elim (Option-cases (degrade rec (limit - base - 64))) [
          | inl misses ↦
              rw (kept_records, lost_records, fit_record, large, misses)
                (given_up (Fits-false (encode rec) large) (λ smaller e. absurd cc) rest)
          | inr (smaller, e) ↦
              elim (Bool-cases (ltb limit (base + record_field_size (length (encode smaller))))) [
                | inr small ↦
                    rw (kept_records, lost_records, fit_record, large, e, small)
                      (shrunk (Fits-false (encode rec) large) e (Fits-true (encode smaller) small)
                        rest)
                | inl still ↦
                    rw (kept_records, lost_records, fit_record, large, e, still)
                      (given_up (Fits-false (encode rec) large)
                        (λ other f.
                          let same : smaller ≡ other = cc in
                          subst (λ r. ¬ Fits (encode r)) same (Fits-false (encode smaller) still))
                        rest)
              ]
        ]
      ]

total_size-append : (xs ys : List (List ℕ)) → total_size (xs ++ ys) ≡ total_size xs + total_size ys
unfolding total_size
total_size-append [] ys = omega arith
total_size-append (x ∷ xs) ys = omega (arith, total_size-append xs ys)

map-snoc :
    {A B : Type 0} (f : A → B) (xs : List A) (x : A) → map f (xs ++ x ∷ []) ≡ map f xs ++ f x ∷ []
map-snoc f [] x = refl
map-snoc f (y ∷ xs) x = ap (◌∷◌ (f y)) (map-snoc f xs x)

-- A batch in the making: the chunks after the first `before` are built from groups of records that
-- fit the cap and are not empty; the groups and the open records are the `kept` ones, in order.
pub record Packs (build : List (List ℕ) → List ℕ) (base limit : ℕ) (before : List (List ℕ))
    (b : Batch) (kept : List (List ℕ)) : Type 0 where
  pub groups : List (List (List ℕ))
  pub chunks_are : b.chunks ≡ before ++ map build groups
  pub in_order : concat groups ++ b.recs ≡ kept
  pub fitting : All (λ g. (g ≢ []) × (base + total_size g ≤ limit)) groups
  pub open_size : b.size ≡ base + total_size b.recs
  pub open_fits : b.recs ≢ [] → b.size ≤ limit

snoc_one : {A : Type 0} (xs ys : List A) → (xs ++ (ys ++ [])) ++ [] ≡ xs ++ ys
snoc_one xs ys = append-nil (xs ++ (ys ++ [])) ∙ ap (◌++◌ xs) (append-nil ys)

module _ (build : List (List ℕ) → List ℕ) (base limit : ℕ) (before : List (List ℕ)) where
  full_fits :
      (b : Batch) (recs kept : List (List ℕ))
      → b.recs ≡ recs
      → recs ≢ []
      → Packs build base limit before b kept
      → base + total_size recs ≤ limit
  full_fits b recs kept e some_left p =
      let fits : b.size ≤ limit = p.open_fits (rw e some_left) in
      let size : b.size ≡ base + total_size recs = rw e at p.open_size in omega arith

  flush_batch-Packs :
      (b : Batch) (recs kept : List (List ℕ))
      → b.recs ≡ recs
      → Packs build base limit before b kept
      → Packs build base limit before (flush_batch build base limit b) kept
        × ((flush_batch build base limit b).recs ≡ [])
  unfolding flush_batch total_size
  flush_batch-Packs b [] kept e p = rw (e, flush_batch) (p, e)
  flush_batch-Packs b (r ∷ rs) kept e p =
      rw (e, flush_batch)
        (
          record {
            groups = p.groups ++ (r ∷ rs) ∷ [];
            chunks_are =
                rw (p.chunks_are, map-snoc build p.groups (r ∷ rs))
                  (append_assoc before (map build p.groups) (build (r ∷ rs) ∷ []));
            in_order = rw (concat-append p.groups ((r ∷ rs) ∷ [])) (
                snoc_one (concat p.groups) (r ∷ rs)
                ∙ ap (◌++◌ (concat p.groups)) (sym e)
                ∙ p.in_order);
            fitting =
                All-append _ p.groups ((r ∷ rs) ∷ []) p.fitting
                  ((cc, full_fits b (r ∷ rs) kept e (λ h. cc) p), tt);
            open_size = omega arith;
            open_fits = λ h. absurd (h refl);
          },
          refl,
        )

  empty_size :
      (b : Batch) (kept : List (List ℕ))
      → b.recs ≡ []
      → Packs build base limit before b kept
      → b.size ≡ base
  unfolding total_size
  empty_size b kept e p =
      let size : b.size ≡ base + total_size [] = rw e at p.open_size in omega arith

  room_fits :
      (field : ℕ) (b : Batch) (recs kept : List (List ℕ))
      → base + field ≤ limit
      → b.recs ≡ recs
      → Packs build base limit before b kept
      → (has_records recs && ltb limit (b.size + field)) ≡ false
      → b.size + field ≤ limit
  unfolding has_records
  room_fits field b [] kept h e p room = omega (arith, empty_size b kept e p)
  room_fits field b (r ∷ rs) kept h e p room = ground arith

  make_room-Packs :
      (field : ℕ) (b : Batch) (kept : List (List ℕ))
      → base + field ≤ limit
      → Packs build base limit before b kept
      → Packs build base limit before (make_room build base limit field b) kept
        × ((make_room build base limit field b).size + field ≤ limit)
  unfolding make_room
  make_room-Packs field b kept h p =
      elim (Bool-cases (has_records b.recs && ltb limit (b.size + field))) [
        | inl full ↦
            let (q, empty) = flush_batch-Packs b b.recs kept refl p in
            rw (full, make_room) (q, omega (arith, empty_size _ kept empty q))
        | inr room ↦ rw (room, make_room) (p, room_fits field b b.recs kept h refl p room)
      ]

  push_record-Packs :
      (enc : List ℕ) (b : Batch) (kept : List (List ℕ))
      → base + record_field_size (length enc) ≤ limit
      → Packs build base limit before b kept
      → Packs build base limit before (push_record build base limit enc b) (kept ++ enc ∷ [])
  unfolding push_record total_size
  push_record-Packs enc b kept h p =
      let field = record_field_size (length enc) in
      let o = make_room build base limit field b in
      let (q, fits) = make_room-Packs field b kept h p in
      record {
        groups = q.groups;
        chunks_are = q.chunks_are;
        in_order =
            sym (append_assoc (concat q.groups) o.recs (enc ∷ []))
            ∙ ap (λ xs. xs ++ enc ∷ []) q.in_order;
        fitting = q.fitting;
        open_size = omega (arith, q.open_size, total_size-append o.recs (enc ∷ []));
        open_fits = λ _. fits;
      }

  flush_batch-dropped :
      (b : Batch) (recs : List (List ℕ))
      → b.recs ≡ recs
      → (flush_batch build base limit b).dropped ≡ b.dropped
  unfolding flush_batch
  flush_batch-dropped b [] e = rw (e, flush_batch)
  flush_batch-dropped b (r ∷ rs) e = rw (e, flush_batch)

  flush_batch-empty :
      (b : Batch) (recs : List (List ℕ))
      → b.recs ≡ recs
      → (flush_batch build base limit b).recs ≡ []
  unfolding flush_batch
  flush_batch-empty b [] e = rw (e, flush_batch) e
  flush_batch-empty b (r ∷ rs) e = rw (e, flush_batch)

  push_record-dropped :
      (enc : List ℕ) (b : Batch) → (push_record build base limit enc b).dropped ≡ b.dropped
  unfolding push_record make_room
  push_record-dropped enc b =
      elim (Bool-cases
        (has_records b.recs && ltb limit (b.size + record_field_size (length enc)))) [
          | inl full ↦ rw (full, make_room) (flush_batch-dropped b b.recs refl)
          | inr room ↦ rw (room, make_room)
        ]

  module _ {R : Type 0} (encode : R → List ℕ) (degrade : R → ℕ → Option R) where
    pub add_records-Packs :
        (recs : List R) (b : Batch) (kept : List (List ℕ))
        → Packs build base limit before b kept
        → Packs build base limit before
            (add_records encode degrade build base limit recs b)
            (kept ++ kept_records encode degrade base limit recs)
    unfolding add_records kept_records
    add_records-Packs [] b kept p = rw (append-nil kept) (flush_batch-Packs b b.recs kept refl p).0
    add_records-Packs (rec ∷ recs) b kept p =
        elim (Option-cases (fit_record encode degrade base limit rec)) [
          | inl misses ↦
              rw (misses, add_record, kept_records)
                (add_records-Packs recs (record b { dropped = b.dropped + 1 }) kept
                  (record {
                    groups = p.groups;
                    chunks_are = p.chunks_are;
                    in_order = p.in_order;
                    fitting = p.fitting;
                    open_size = p.open_size;
                    open_fits = p.open_fits;
                  }))
          | inr (enc, fits) ↦
              let small = fit_record-le encode degrade base limit rec enc fits in
              rw
                (
                  fits,
                  add_record,
                  kept_records,
                  ← append_assoc kept (enc ∷ []) (kept_records encode degrade base limit recs),
                )
                (add_records-Packs recs _ (kept ++ enc ∷ []) (push_record-Packs enc b kept small p))
        ]

    pub add_records-empty :
        (recs : List R) (b : Batch) → (add_records encode degrade build base limit recs b).recs ≡ []
    unfolding add_records flush_batch
    add_records-empty [] b = flush_batch-empty b b.recs refl
    add_records-empty (rec ∷ recs) b = add_records-empty recs _

    pub add_records-dropped :
        (recs : List R) (b : Batch)
        → (add_records encode degrade build base limit recs b).dropped
          ≡ b.dropped + lost_records encode degrade base limit recs
    unfolding add_records add_record lost_records
    add_records-dropped [] b = omega (arith, flush_batch-dropped b b.recs refl)
    add_records-dropped (rec ∷ recs) b =
        let after = λ (o : Batch). (add_records encode degrade build base limit recs o).dropped in
        let lost = lost_records encode degrade base limit recs in
        elim (Option-cases (fit_record encode degrade base limit rec)) [
          | inl misses ↦
              let up = record b { dropped = b.dropped + 1 } in
              let step : add_record encode degrade build base limit rec b ≡ up =
                rw (misses, add_record) in
              let total : up.dropped + lost
                  ≡ b.dropped + lost_records encode degrade base limit (rec ∷ recs) =
                rw (misses, lost_records) (omega arith) in
              ap after step ∙ (add_records-dropped recs up ∙ total)
          | inr (enc, fits) ↦
              let up = push_record build base limit enc b in
              let step : add_record encode degrade build base limit rec b ≡ up =
                rw (fits, add_record) in
              let total : up.dropped + lost
                  ≡ b.dropped + lost_records encode degrade base limit (rec ∷ recs) =
                rw (fits, lost_records) (omega (arith, push_record-dropped enc b)) in
              ap after step ∙ (add_records-dropped recs up ∙ total)
        ]
