-- ===== src/Otlp/Chunks.antt =====
-- hub/gateway/otlp-protobuf.ts, lines 320-491: splitting a batch into requests under a size cap,
-- and shrinking a log record that does not fit alone.
use agent_sessions_backup.Otlp.Wire.{Runtime, push_message_field, push_string_field}
use agent_sessions_backup.Otlp.Values.{
  AnyValue, string_value, bool_value, KeyValue, key_value, KeyValues, no_pairs, and_pair, LogRecord,
  Span, ScopeItem, ResourceItem,
}
use agent_sessions_backup.Otlp.Encode.{
  when, for_each, encode_resource, encode_scope, encode_log_record, encode_span,
}
use Prim.Native.String
use Prim.Native.String.{String}
use mathlib.Core.Option
use agent_sessions_backup.Prelude.{
  ℕ, zero, suc, ◌+◌, ◌-◌, ◌/◌, ◌%◌, ◌^◌, Bool, true, false, ◌&&◌, Option, none, some, List, [], ◌∷◌,
  ◌++◌, ltb, leb, ◌==◌, if◌then◌else◌, length, take, concat, get_elem?,
}

abbrev pub record_field : ℕ
record_field = 2

-- The loop of `varintSize`; the fuel is above the value.
unfoldable pub varint_size_from : ℕ → ℕ → ℕ → ℕ
varint_size_from zero v size = size
varint_size_from (suc fuel) v size =
    let more = varint_size_from fuel (v / 128) (size + 1) in if ltb 0x7f v then more else size

unfoldable pub varint_size : ℕ → ℕ
varint_size value = let v = value % 2 ^ 32 in varint_size_from (suc v) v 1

unfoldable pub record_field_size : ℕ → ℕ
record_field_size content_length = 1 + varint_size content_length + content_length

-- One request: one resource, one scope, the given records.
unfoldable pub build_request :
    Runtime
    → Option (List ℕ)
    → Option (List ℕ)
    → Option String
    → Option String
    → List (List ℕ)
    → List ℕ
build_request rt enc_res enc_scope res_schema scope_schema records =
    let scope = concat (
      when enc_scope (push_message_field 1)
      ∷ for_each records (push_message_field record_field)
      ∷ when scope_schema (push_string_field rt 3)
      ∷ []) in
    let resource = concat (
      when enc_res (push_message_field 1)
      ∷ push_message_field 2 scope
      ∷ when res_schema (push_string_field rt 3)
      ∷ []) in
    push_message_field 1 resource

-- The loop variables: the requests so far, the records given up, and the open batch.
pub record Batch : Type 0 where
  pub chunks : List (List ℕ)
  pub dropped : ℕ
  pub recs : List (List ℕ)
  pub size : ℕ

unfoldable pub has_records : List (List ℕ) → Bool
has_records [] = false
has_records (r ∷ rs) = true

module _ (build : List (List ℕ) → List ℕ) (base max_bytes : ℕ) where
  unfoldable pub flush_batch : Batch → Batch
  flush_batch b = elim b.recs [
    | [] ↦ b
    | r ∷ rs ↦ record b { chunks = b.chunks ++ build (r ∷ rs) ∷ []; recs = []; size = base }
  ]

  -- `if (recs.length > 0 && size + field > maxBytes) flush();`
  unfoldable pub make_room : ℕ → Batch → Batch
  unfolding has_records
  make_room field b =
      if has_records b.recs && ltb max_bytes (b.size + field) then flush_batch b else b

  unfoldable pub push_record : List ℕ → Batch → Batch
  unfolding make_room flush_batch
  push_record enc b =
      let field = record_field_size (length enc) in
      let open_batch = make_room field b in
      record open_batch { recs = open_batch.recs ++ enc ∷ []; size = open_batch.size + field }

-- `SignalSpec.encodeRecord` and `SignalSpec.degrade`. The budget is never negative here: the one
-- `degrade` that reads it takes `Math.max(0, …)` of a smaller number first.
module _ {R : Type 0} (encode_record : R → List ℕ) (degrade : R → ℕ → Option R) where
  -- The record's bytes, where it fits a request of its own, shrunk if it must be.
  unfoldable pub fit_record : ℕ → ℕ → R → Option (List ℕ)
  fit_record base max_bytes rec =
      let enc = encode_record rec in
      let shrunk : Option (List ℕ) = elim (degrade rec (max_bytes - base - 64)) [
        | none ↦ none
        | some degraded ↦
            let smaller = encode_record degraded in
            if ltb max_bytes (base + record_field_size (length smaller)) then none else some smaller
      ] in
      if ltb max_bytes (base + record_field_size (length enc)) then shrunk else some enc

  module _ (build : List (List ℕ) → List ℕ) (base max_bytes : ℕ) where
    unfoldable pub add_record : R → Batch → Batch
    unfolding push_record
    add_record rec b = elim (fit_record base max_bytes rec) [
      | none ↦ record b { dropped = b.dropped + 1 }
      | some enc ↦ push_record build base max_bytes enc b
    ]

    unfoldable pub add_records : List R → Batch → Batch
    unfolding add_record flush_batch
    add_records [] b = flush_batch build base max_bytes b
    add_records (rec ∷ recs) b = add_records recs (add_record rec b)

  module _ (rt : Runtime) (max_bytes : ℕ) where
    unfoldable pub scope_builder : ResourceItem R → ScopeItem R → List (List ℕ) → List ℕ
    scope_builder ri sc =
        build_request rt (Option.map (encode_resource rt) ri.resource)
          (Option.map (encode_scope rt) sc.scope) ri.schema_url sc.schema_url

    unfoldable pub chunk_scope : ResourceItem R → ScopeItem R → Batch → Batch
    unfolding add_records
    chunk_scope ri sc b =
        let build = scope_builder ri sc in
        let base = length (build []) in
        add_records build base max_bytes sc.records (record b { recs = []; size = base })

    unfoldable pub chunk_scopes : ResourceItem R → List (ScopeItem R) → Batch → Batch
    chunk_scopes ri [] b = b
    chunk_scopes ri (sc ∷ scs) b = chunk_scopes ri scs (chunk_scope ri sc b)

    unfoldable pub chunk_resources : List (ResourceItem R) → Batch → Batch
    chunk_resources [] b = b
    chunk_resources (ri ∷ ris) b = chunk_resources ris (chunk_scopes ri ri.scopes b)

    -- The chunks and the count of dropped records.
    unfoldable pub chunk_signal : List (ResourceItem R) → List (List ℕ) × ℕ
    unfolding chunk_resources chunk_scopes chunk_scope
    chunk_signal items =
        let final =
          chunk_resources items (record { chunks = []; dropped = 0; recs = []; size = 0 }) in
        (final.chunks, final.dropped)

-- `(enc[end]! & 0xc0) === 0x80`.
unfoldable pub is_continuation : Option ℕ → Bool
is_continuation none = false
is_continuation (some b) = (b / 64) % 4 == 2

unfoldable pub back_off : List ℕ → ℕ → ℕ
back_off enc zero = zero
back_off enc (suc end) =
    let shorter = back_off enc end in
    if is_continuation (get_elem? enc (suc end)) then shorter else suc end

unfoldable pub truncate_utf8 : {T : Type 0} → (T → List ℕ) → (List ℕ → T) → T → ℕ → T
unfolding back_off
truncate_utf8 utf8 text_of str max_bytes =
    let enc = utf8 str in
    if leb (length enc) max_bytes then str else text_of (take (back_off enc max_bytes) enc)

append_pair : KeyValues → KeyValue → KeyValues
append_pair no_pairs kv = and_pair kv no_pairs
append_pair (and_pair first rest) kv = and_pair first (append_pair rest kv)

abbrev marker : String
marker = "…[gateway-truncated]"

module _ (rt : Runtime) where
  truncate_body : LogRecord → ℕ → Option AnyValue → Option LogRecord
  truncate_body lr budget (some (string_value original)) =
      let keep = budget - length (rt.utf8 marker) - 256 in
      let kept = truncate_utf8 rt.utf8 rt.text_of original keep in
      some (record lr {
        body = some (string_value (String.◌++◌ kept marker));
        attributes =
            append_pair lr.attributes (key_value (some "gateway.truncated") (bool_value true));
      })
  truncate_body lr budget body = none

  unfoldable pub degrade_log_record : LogRecord → ℕ → Option LogRecord
  unfolding truncate_body append_pair
  degrade_log_record lr budget = truncate_body lr budget lr.body

  unfoldable pub encode_logs_chunks : List (ResourceItem LogRecord) → ℕ → List (List ℕ) × ℕ
  encode_logs_chunks resource_logs max_bytes =
      chunk_signal (encode_log_record rt) degrade_log_record rt max_bytes resource_logs

  unfoldable pub encode_trace_chunks : List (ResourceItem Span) → ℕ → List (List ℕ) × ℕ
  encode_trace_chunks resource_spans max_bytes =
      chunk_signal (encode_span rt) (λ span budget. none) rt max_bytes resource_spans
