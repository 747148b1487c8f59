-- ===== src/Otlp/Encode.antt =====
-- hub/gateway/otlp-protobuf.ts, lines 113-318: the messages. A message is the concatenation of the
-- fields that the source appends, in its order.
use agent_sessions_backup.Otlp.Values.{
  AnyValue, string_value, bool_value, int_value, double_value, array_value, kvlist_value,
  bytes_value, no_value, Values, no_values, and_value, KeyValue, key_only, key_value, KeyValues,
  no_pairs, and_pair, EnumValue, enum_number, enum_name, enum_other, Resource, Scope, LogRecord,
  Status, Event, Link, Span, ScopeItem, ResourceItem,
}
use agent_sessions_backup.Otlp.Wire.{
  Runtime, push_tag, push_varint_big, push_double, push_fixed32, push_len_field, push_string_field,
  push_message_field, push_varint_field, push_fixed64_field, hex_to_bytes, wire_varint,
  wire_fixed64, wire_fixed32,
}
use agent_sessions_backup.Prelude.{
  ℕ, Option, none, some, List, [], ◌∷◌, ◌++◌, if◌then◌else◌, concat,
}
use Prim.Native.String.{String}
use text.Mathlib.Text.{◌==◌ as str_eq}

-- `if (field) …`: nothing where the test fails.
abbrev pub when {ℓ} : {A : Type ℓ} → Option A → (A → List ℕ) → List ℕ
when none push = []
when (some a) push = push a

-- `for (const item of items ?? []) …`.
abbrev pub for_each {ℓ} : {A : Type ℓ} → List A → (A → List ℕ) → List ℕ
for_each [] push = []
for_each (item ∷ items) push = push item ++ for_each items push

unfoldable pub severity_numbers : List (String × ℕ)
severity_numbers =
    ("SEVERITY_NUMBER_UNSPECIFIED", 0)
    ∷ ("SEVERITY_NUMBER_TRACE", 1)
    ∷ ("SEVERITY_NUMBER_TRACE2", 2)
    ∷ ("SEVERITY_NUMBER_TRACE3", 3)
    ∷ ("SEVERITY_NUMBER_TRACE4", 4)
    ∷ ("SEVERITY_NUMBER_DEBUG", 5)
    ∷ ("SEVERITY_NUMBER_DEBUG2", 6)
    ∷ ("SEVERITY_NUMBER_DEBUG3", 7)
    ∷ ("SEVERITY_NUMBER_DEBUG4", 8)
    ∷ ("SEVERITY_NUMBER_INFO", 9)
    ∷ ("SEVERITY_NUMBER_INFO2", 10)
    ∷ ("SEVERITY_NUMBER_INFO3", 11)
    ∷ ("SEVERITY_NUMBER_INFO4", 12)
    ∷ ("SEVERITY_NUMBER_WARN", 13)
    ∷ ("SEVERITY_NUMBER_WARN2", 14)
    ∷ ("SEVERITY_NUMBER_WARN3", 15)
    ∷ ("SEVERITY_NUMBER_WARN4", 16)
    ∷ ("SEVERITY_NUMBER_ERROR", 17)
    ∷ ("SEVERITY_NUMBER_ERROR2", 18)
    ∷ ("SEVERITY_NUMBER_ERROR3", 19)
    ∷ ("SEVERITY_NUMBER_ERROR4", 20)
    ∷ ("SEVERITY_NUMBER_FATAL", 21)
    ∷ ("SEVERITY_NUMBER_FATAL2", 22)
    ∷ ("SEVERITY_NUMBER_FATAL3", 23)
    ∷ ("SEVERITY_NUMBER_FATAL4", 24)
    ∷ []

unfoldable pub span_kinds : List (String × ℕ)
span_kinds =
    ("SPAN_KIND_UNSPECIFIED", 0)
    ∷ ("SPAN_KIND_INTERNAL", 1)
    ∷ ("SPAN_KIND_SERVER", 2)
    ∷ ("SPAN_KIND_CLIENT", 3)
    ∷ ("SPAN_KIND_PRODUCER", 4)
    ∷ ("SPAN_KIND_CONSUMER", 5)
    ∷ []

unfoldable pub status_codes : List (String × ℕ)
status_codes = ("STATUS_CODE_UNSET", 0) ∷ ("STATUS_CODE_OK", 1) ∷ ("STATUS_CODE_ERROR", 2) ∷ []

-- `value in names ? names[value]`, or else the default.
unfoldable pub name_or : String → List (String × ℕ) → ℕ → ℕ
name_or key [] default = default
name_or key ((name, n) ∷ names) default = if str_eq name key then n else name_or key names default

number_or_zero : Option ℕ → ℕ
number_or_zero none = 0
number_or_zero (some n) = n

-- `pushTag(out, field, WIRE_FIXED32); pushFixed32(out, value)`.
unfoldable pub push_fixed32_field : ℕ → ℕ → List ℕ
push_fixed32_field field value = push_tag field wire_fixed32 ++ push_fixed32 value

module _ (rt : Runtime) where
  unfoldable pub enum_int : EnumValue → List (String × ℕ) → ℕ
  unfolding name_or number_or_zero
  enum_int (enum_number n) names = n
  enum_int (enum_name s) names = name_or s names (number_or_zero (rt.number_of s))
  enum_int enum_other names = 0

  unfoldable mutual
    pub encode_any_value : AnyValue → List ℕ
    encode_any_value (string_value s) = push_string_field rt 1 s
    encode_any_value (bool_value b) = push_varint_field 2 (if b then 1 else 0)
    encode_any_value (int_value n) = push_tag 3 wire_varint ++ push_varint_big n
    encode_any_value (double_value bits) = push_tag 4 wire_fixed64 ++ push_double bits
    encode_any_value (array_value a) = push_message_field 5 (encode_array_value a)
    encode_any_value (kvlist_value k) = push_message_field 6 (encode_kv_list k)
    encode_any_value (bytes_value bytes) = push_len_field 7 bytes
    encode_any_value no_value = []

    pub encode_array_value : Values → List ℕ
    encode_array_value no_values = []
    encode_array_value (and_value item items) =
        push_message_field 1 (encode_any_value item) ++ encode_array_value items

    pub encode_key_value : KeyValue → List ℕ
    encode_key_value (key_only key) = when key (push_string_field rt 1)
    encode_key_value (key_value key value) =
        when key (push_string_field rt 1) ++ push_message_field 2 (encode_any_value value)

    pub encode_kv_list : KeyValues → List ℕ
    encode_kv_list no_pairs = []
    encode_kv_list (and_pair kv kvs) =
        push_message_field 1 (encode_key_value kv) ++ encode_kv_list kvs

  unfoldable pub encode_attributes : ℕ → KeyValues → List ℕ
  encode_attributes field no_pairs = []
  encode_attributes field (and_pair kv kvs) =
      push_message_field field (encode_key_value kv) ++ encode_attributes field kvs

  unfoldable pub encode_resource : Resource → List ℕ
  encode_resource r = concat (
      encode_attributes 1 r.attributes ∷ when r.dropped_attributes_count (push_varint_field 2) ∷ [])

  unfoldable pub encode_scope : Scope → List ℕ
  encode_scope s = concat (
      when s.name (push_string_field rt 1)
      ∷ when s.version (push_string_field rt 2)
      ∷ encode_attributes 3 s.attributes
      ∷ when s.dropped_attributes_count (push_varint_field 4)
      ∷ [])

  unfoldable pub encode_log_record : LogRecord → List ℕ
  encode_log_record lr = concat (
      when lr.time_unix_nano (push_fixed64_field 1)
      ∷ when lr.severity_number (λ n. push_varint_field 2 (enum_int n severity_numbers))
      ∷ when lr.severity_text (push_string_field rt 3)
      ∷ when lr.body (λ body. push_message_field 5 (encode_any_value body))
      ∷ encode_attributes 6 lr.attributes
      ∷ when lr.dropped_attributes_count (push_varint_field 7)
      ∷ when lr.flags (push_fixed32_field 8)
      ∷ when lr.trace_id (λ id. push_len_field 9 (hex_to_bytes id))
      ∷ when lr.span_id (λ id. push_len_field 10 (hex_to_bytes id))
      ∷ when lr.observed_time_unix_nano (push_fixed64_field 11)
      ∷ [])

  unfoldable pub encode_status : Status → List ℕ
  encode_status s = concat (
      when s.message (push_string_field rt 2)
      ∷ when s.code (λ code. push_varint_field 3 (enum_int code status_codes))
      ∷ [])

  unfoldable pub encode_event : Event → List ℕ
  encode_event e = concat (
      when e.time_unix_nano (push_fixed64_field 1)
      ∷ when e.name (push_string_field rt 2)
      ∷ encode_attributes 3 e.attributes
      ∷ when e.dropped_attributes_count (push_varint_field 4)
      ∷ [])

  unfoldable pub encode_link : Link → List ℕ
  encode_link l = concat (
      when l.trace_id (λ id. push_len_field 1 (hex_to_bytes id))
      ∷ when l.span_id (λ id. push_len_field 2 (hex_to_bytes id))
      ∷ when l.trace_state (push_string_field rt 3)
      ∷ encode_attributes 4 l.attributes
      ∷ when l.dropped_attributes_count (push_varint_field 5)
      ∷ when l.flags (push_fixed32_field 6)
      ∷ [])

  unfoldable pub encode_span : Span → List ℕ
  encode_span sp = concat (
      when sp.trace_id (λ id. push_len_field 1 (hex_to_bytes id))
      ∷ when sp.span_id (λ id. push_len_field 2 (hex_to_bytes id))
      ∷ when sp.trace_state (push_string_field rt 3)
      ∷ when sp.parent_span_id (λ id. push_len_field 4 (hex_to_bytes id))
      ∷ when sp.name (push_string_field rt 5)
      ∷ when sp.kind (λ kind. push_varint_field 6 (enum_int kind span_kinds))
      ∷ when sp.start_time_unix_nano (push_fixed64_field 7)
      ∷ when sp.end_time_unix_nano (push_fixed64_field 8)
      ∷ encode_attributes 9 sp.attributes
      ∷ when sp.dropped_attributes_count (push_varint_field 10)
      ∷ for_each sp.events (λ e. push_message_field 11 (encode_event e))
      ∷ when sp.dropped_events_count (push_varint_field 12)
      ∷ for_each sp.links (λ l. push_message_field 13 (encode_link l))
      ∷ when sp.dropped_links_count (push_varint_field 14)
      ∷ when sp.status (λ s. push_message_field 15 (encode_status s))
      ∷ when sp.flags (push_fixed32_field 16)
      ∷ [])

  -- `encodeScopeLogs` and `encodeScopeSpans` differ in the encoder of a record.
  unfoldable pub encode_scope_item : {R : Type 0} → (R → List ℕ) → ScopeItem R → List ℕ
  encode_scope_item encode_record item = concat (
      when item.scope (λ s. push_message_field 1 (encode_scope s))
      ∷ for_each item.records (λ r. push_message_field 2 (encode_record r))
      ∷ when item.schema_url (push_string_field rt 3)
      ∷ [])

  -- `encodeResourceLogs` and `encodeResourceSpans`.
  unfoldable pub encode_resource_item : {R : Type 0} → (R → List ℕ) → ResourceItem R → List ℕ
  encode_resource_item encode_record item = concat (
      when item.resource (λ r. push_message_field 1 (encode_resource r))
      ∷ for_each item.scopes (λ s. push_message_field 2 (encode_scope_item encode_record s))
      ∷ when item.schema_url (push_string_field rt 3)
      ∷ [])

  unfoldable pub encode_logs_request : List (ResourceItem LogRecord) → List ℕ
  encode_logs_request items =
      for_each items (λ rl. push_message_field 1 (encode_resource_item encode_log_record rl))

  unfoldable pub encode_trace_request : List (ResourceItem Span) → List ℕ
  encode_trace_request items =
      for_each items (λ rs. push_message_field 1 (encode_resource_item encode_span rs))
