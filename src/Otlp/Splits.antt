-- ===== src/Otlp/Splits.antt =====
-- The chunker of hub/gateway/otlp-protobuf.ts over a whole batch: what one scope adds, and the cap.
use agent_sessions_backup.Otlp.Wire.{Runtime, push_message_field}
use agent_sessions_backup.Otlp.Values.{ScopeItem, ResourceItem}
use agent_sessions_backup.Otlp.Chunks.{
  Batch, scope_builder, chunk_scope, chunk_scopes, chunk_resources, chunk_signal,
}
use agent_sessions_backup.Otlp.Sizes.{total_size, build_request-length, written_size}
use agent_sessions_backup.Otlp.Batches.{
  Keeps, kept_records-Keeps, kept_records, lost_records, add_records-Packs, add_records-empty,
  add_records-dropped,
}
use agent_sessions_backup.Prelude.{
  ℕ, ◌+◌, ◌≤◌, ◌≡◌, refl, sym, ap, ◌∙◌, ◌≢◌, Option, List, [], ◌∷◌, ◌++◌, map, append-nil, arith,
  length, concat, All, All-append,
}

module _ {R : Type 0} (encode : R → List ℕ) (degrade : R → ℕ → Option R) (rt : Runtime)
    (limit : ℕ) where
  module _ (ri : ResourceItem R) (sc : ScopeItem R) where
    abbrev pub scope_base : ℕ
    scope_base = length (scope_builder encode degrade rt limit ri sc [])

    -- The records of a request: some, which as they are written fit the empty request.
    abbrev pub IsGroup : List (List ℕ) → Type 0
    IsGroup g = (g ≢ []) × (scope_base + length (concat (map (push_message_field 2) g)) ≤ limit)

    -- What one scope adds to the batch.
    pub record Splits (before after : Batch) : Type 0 where
      pub groups : List (List (List ℕ))
      pub chunks_are :
          after.chunks ≡ before.chunks ++ map (scope_builder encode degrade rt limit ri sc) groups
      pub kept : List (List ℕ)
      pub lost : ℕ
      pub keeps : Keeps encode degrade scope_base limit sc.records kept lost
      pub in_order : concat groups ≡ kept
      pub fitting : All IsGroup groups
      pub counted : after.dropped ≡ before.dropped + lost

    groups_written :
        (groups : List (List (List ℕ)))
        → All (λ g. (g ≢ []) × (scope_base + total_size g ≤ limit)) groups
        → All IsGroup groups
    groups_written [] h = tt
    groups_written (g ∷ groups) ((some_left, fits), hs) =
        ((some_left, omega (arith, written_size g)), groups_written groups hs)

    -- One scope adds chunks built from non-empty groups of encoded records. The fields of a group are
    -- together at most as long as the cap leaves beside the request without records. The groups are
    -- together, in their order, the records whose field so fits alone, as they are or else as they are
    -- shrunk; the dropped count grows by the number of the others.
    pub chunk_scope-Splits : (b : Batch) → Splits b (chunk_scope encode degrade rt limit ri sc b)
    unfolding chunk_scope total_size
    chunk_scope-Splits b =
        let build = scope_builder encode degrade rt limit ri sc in
        let start = record b { recs = []; size = scope_base } in
        let p =
          add_records-Packs build scope_base limit b.chunks encode degrade sc.records start []
            (record {
              groups = [];
              chunks_are = sym (append-nil b.chunks);
              in_order = refl;
              fitting = tt;
              open_size = omega arith;
              open_fits = λ h. absurd (h refl);
            }) in
        let closed =
          add_records-empty build scope_base limit b.chunks encode degrade sc.records start in
        record {
          groups = p.groups;
          chunks_are = p.chunks_are;
          in_order =
              sym (append-nil (concat p.groups))
              ∙ (ap (◌++◌ (concat p.groups)) (sym closed) ∙ p.in_order);
          kept = kept_records encode degrade scope_base limit sc.records;
          lost = lost_records encode degrade scope_base limit sc.records;
          keeps = kept_records-Keeps encode degrade scope_base limit sc.records;
          fitting = groups_written p.groups p.fitting;
          counted =
              add_records-dropped build scope_base limit b.chunks encode degrade sc.records start;
        }

    built-le :
        (groups : List (List (List ℕ)))
        → All IsGroup groups
        → All (λ c. length c ≤ limit + 8) (map (scope_builder encode degrade rt limit ri sc) groups)
    unfolding scope_builder
    built-le [] h = tt
    built-le (g ∷ groups) (h, hs) = (
      omega (arith, h.1, written_size g, build_request-length rt _ _ ri.schema_url sc.schema_url g),
      built-le groups hs,
    )

  abbrev WithinCap : Batch → Type 0
  WithinCap b = All (λ c. length c ≤ limit + 8) b.chunks

  chunk_scopes-WithinCap :
      (ri : ResourceItem R) (scs : List (ScopeItem R)) (b : Batch)
      → WithinCap b
      → WithinCap (chunk_scopes encode degrade rt limit ri scs b)
  unfolding chunk_scopes
  chunk_scopes-WithinCap ri [] b h = h
  chunk_scopes-WithinCap ri (sc ∷ scs) b h =
      let s = chunk_scope-Splits ri sc b in
      chunk_scopes-WithinCap ri scs _
        (rw s.chunks_are (All-append _ b.chunks _ h (built-le ri sc s.groups s.fitting)))

  chunk_resources-WithinCap :
      (ris : List (ResourceItem R)) (b : Batch)
      → WithinCap b
      → WithinCap (chunk_resources encode degrade rt limit ris b)
  unfolding chunk_resources
  chunk_resources-WithinCap [] b h = h
  chunk_resources-WithinCap (ri ∷ ris) b h =
      chunk_resources-WithinCap ris _ (chunk_scopes-WithinCap ri ri.scopes b h)

  -- No chunk is longer than the cap and eight bytes, whatever the batch holds and whatever a
  -- record that does not fit is shrunk to.
  pub chunk_signal-le :
      (items : List (ResourceItem R))
      → All (λ c. length c ≤ limit + 8) (chunk_signal encode degrade rt limit items).0
  unfolding chunk_signal
  chunk_signal-le items = chunk_resources-WithinCap items _ tt
