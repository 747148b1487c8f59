-- ===== src/Otlp/Messages.antt =====
-- The encoder of hub/gateway/otlp-protobuf.ts, level by level: the fields of the messages around log
-- records and spans.
use agent_sessions_backup.Otlp.Wire.{
  Runtime, push_varint_big, push_fixed64_field, push_fixed64, push_double, push_fixed32,
  push_string_field, push_message_field, push_varint_field, push_len_field, hex_to_bytes,
}
use agent_sessions_backup.Otlp.Values.{
  AnyValue, string_value, bool_value, int_value, double_value, array_value, kvlist_value,
  bytes_value, no_value, KeyValue, key_only, key_value, KeyValues, no_pairs, and_pair, EnumValue,
  Resource, Scope, Status, Event, Link, ScopeItem, ResourceItem,
}
use agent_sessions_backup.Otlp.Encode.{
  when, for_each, enum_int, push_fixed32_field, status_codes, encode_any_value, encode_array_value,
  encode_kv_list, encode_key_value, encode_attributes, encode_resource, encode_scope, encode_status,
  encode_event, encode_link, encode_scope_item, encode_resource_item,
}
use agent_sessions_backup.Otlp.Decode.{len_field, read_message}
use agent_sessions_backup.Otlp.Schema.{
  opt, each, key_value_fields, count_field, time_field, flags_field, id_field, text_field,
  any_value_fields, attribute_fields, resource_fields, scope_fields, status_fields, event_fields,
  link_fields, scope_item_fields, resource_item_fields,
}
use agent_sessions_backup.Otlp.Varints.{
  to_u64, IsInt64, read_varint-push_varint_big, push_fixed64-length, push_fixed32-length,
  push_double-length,
}
use agent_sessions_backup.Otlp.Fields.{
  IsShort, IsEncoding, IsEncoding-nil, ◌&◌, IsEncoding-read_message, push_varint_field-IsEncoding,
  varint_field-IsEncoding, fixed64_field-IsEncoding, fixed32_field-IsEncoding,
  push_len_field-IsEncoding, when-IsEncoding, for_each-IsEncoding,
}
use Prim.Native.String.{String}
use agent_sessions_backup.Prelude.{ℕ, ◌^◌, ◌<◌, ◌≡◌, true, false, Option, some, List, arith, All, ℤ}

-- Field numbers are small enough for a tag.
abbrev IsNumber : ℕ → Type 0
IsNumber number = number < 2 ^ 28

module _ (number : ℕ) (small : IsNumber number) where
  count-IsEncoding :
      (o : Option ℕ) → IsEncoding (when o (push_varint_field number)) (opt o (count_field number))
  count-IsEncoding = when-IsEncoding _ _ (push_varint_field-IsEncoding number small)

  time-IsEncoding :
      (o : Option ℤ) → IsEncoding (when o (push_fixed64_field number)) (opt o (time_field number))
  unfolding push_fixed64_field
  time-IsEncoding =
      when-IsEncoding _ _
        (λ t. fixed64_field-IsEncoding number small (push_fixed64 t) (push_fixed64-length t))

  flags-IsEncoding :
      (o : Option ℕ) → IsEncoding (when o (push_fixed32_field number)) (opt o (flags_field number))
  unfolding push_fixed32_field
  flags-IsEncoding =
      when-IsEncoding _ _
        (λ n. fixed32_field-IsEncoding number small (push_fixed32 n) (push_fixed32-length n))

  id-IsEncoding :
      (o : Option (List ℕ))
      → IsEncoding
          (when o (λ id. push_len_field number (hex_to_bytes id)))
          (opt o (id_field number))
  id-IsEncoding =
      when-IsEncoding _ _ (λ id. push_len_field-IsEncoding number small (hex_to_bytes id))

  text-IsEncoding :
      (rt : Runtime) (o : Option String)
      → IsEncoding (when o (push_string_field rt number)) (opt o (text_field rt number))
  unfolding push_string_field
  text-IsEncoding rt = when-IsEncoding _ _ (λ s. push_len_field-IsEncoding number small (rt.utf8 s))

  message-IsEncoding {ℓ} :
      {A : Type ℓ} (encode : A → List ℕ) (o : Option A)
      → IsEncoding
          (when o (λ a. push_message_field number (encode a)))
          (opt o (λ a. len_field number (encode a)))
  unfolding push_message_field
  message-IsEncoding encode =
      when-IsEncoding _ _ (λ a. push_len_field-IsEncoding number small (encode a))

  messages-IsEncoding {ℓ} :
      {A : Type ℓ} (encode : A → List ℕ) (items : List A)
      → IsEncoding
          (for_each items (λ a. push_message_field number (encode a)))
          (each items (λ a. len_field number (encode a)))
  unfolding push_message_field
  messages-IsEncoding encode =
      for_each-IsEncoding _ _ (λ a. push_len_field-IsEncoding number small (encode a))

  enum-IsEncoding :
      (value : EnumValue → ℕ) (o : Option EnumValue)
      → IsEncoding
          (when o (λ e. push_varint_field number (value e)))
          (opt o (λ e. count_field number (value e)))
  enum-IsEncoding value =
      when-IsEncoding _ _ (λ e. push_varint_field-IsEncoding number small (value e))

  attributes-IsEncoding :
      (rt : Runtime) (kvs : KeyValues)
      → IsEncoding (encode_attributes rt number kvs) (attribute_fields rt number kvs)
  unfolding encode_attributes push_message_field
  attributes-IsEncoding rt no_pairs = IsEncoding-nil
  attributes-IsEncoding rt (and_pair kv kvs) =
      push_len_field-IsEncoding number small (encode_key_value rt kv) & attributes-IsEncoding rt kvs

module _ (rt : Runtime) where
  resource-IsEncoding : (r : Resource) → IsEncoding (encode_resource rt r) (resource_fields rt r)
  unfolding encode_resource
  resource-IsEncoding r =
      attributes-IsEncoding 1 (omega arith) rt r.attributes
      & count-IsEncoding 2 (omega arith) r.dropped_attributes_count
      & IsEncoding-nil

  scope-IsEncoding : (s : Scope) → IsEncoding (encode_scope rt s) (scope_fields rt s)
  unfolding encode_scope
  scope-IsEncoding s =
      text-IsEncoding 1 (omega arith) rt s.name
      & text-IsEncoding 2 (omega arith) rt s.version
      & attributes-IsEncoding 3 (omega arith) rt s.attributes
      & count-IsEncoding 4 (omega arith) s.dropped_attributes_count
      & IsEncoding-nil

  status-IsEncoding : (s : Status) → IsEncoding (encode_status rt s) (status_fields rt s)
  unfolding encode_status
  status-IsEncoding s =
      text-IsEncoding 2 (omega arith) rt s.message
      & enum-IsEncoding 3 (omega arith) (λ n. enum_int rt n status_codes) s.code
      & IsEncoding-nil

  event-IsEncoding : (e : Event) → IsEncoding (encode_event rt e) (event_fields rt e)
  unfolding encode_event
  event-IsEncoding e =
      time-IsEncoding 1 (omega arith) e.time_unix_nano
      & text-IsEncoding 2 (omega arith) rt e.name
      & attributes-IsEncoding 3 (omega arith) rt e.attributes
      & count-IsEncoding 4 (omega arith) e.dropped_attributes_count
      & IsEncoding-nil

  link-IsEncoding : (l : Link) → IsEncoding (encode_link rt l) (link_fields rt l)
  unfolding encode_link
  link-IsEncoding l =
      id-IsEncoding 1 (omega arith) l.trace_id
      & id-IsEncoding 2 (omega arith) l.span_id
      & text-IsEncoding 3 (omega arith) rt l.trace_state
      & attributes-IsEncoding 4 (omega arith) rt l.attributes
      & count-IsEncoding 5 (omega arith) l.dropped_attributes_count
      & flags-IsEncoding 6 (omega arith) l.flags
      & IsEncoding-nil

  key_value-IsEncoding :
      (kv : KeyValue) → IsEncoding (encode_key_value rt kv) (key_value_fields rt kv)
  unfolding encode_key_value push_message_field
  key_value-IsEncoding (key_only key) = text-IsEncoding 1 (omega arith) rt key
  key_value-IsEncoding (key_value key value) =
      text-IsEncoding 1 (omega arith) rt key
      & push_len_field-IsEncoding 2 (omega arith) (encode_any_value rt value)

  -- The smaller messages are read back as their fields, each where no payload of its own reaches
  -- 2 ^ 32 bytes: resource, scope, status, event, link and attribute.
  pub read_message_parts :
      (r : Resource) (s : Scope) (st : Status) (e : Event) (l : Link) (kv : KeyValue)
      → All IsShort (resource_fields rt r)
      → All IsShort (scope_fields rt s)
      → All IsShort (status_fields rt st)
      → All IsShort (event_fields rt e)
      → All IsShort (link_fields rt l)
      → All IsShort (key_value_fields rt kv)
      → (read_message (encode_resource rt r) ≡ some (resource_fields rt r))
        × (read_message (encode_scope rt s) ≡ some (scope_fields rt s))
        × (read_message (encode_status rt st) ≡ some (status_fields rt st))
        × (read_message (encode_event rt e) ≡ some (event_fields rt e))
        × (read_message (encode_link rt l) ≡ some (link_fields rt l))
        × (read_message (encode_key_value rt kv) ≡ some (key_value_fields rt kv))
  read_message_parts r s st e l kv hr hs hst he hl hkv = (
    IsEncoding-read_message _ _ (resource-IsEncoding r) hr,
    IsEncoding-read_message _ _ (scope-IsEncoding s) hs,
    IsEncoding-read_message _ _ (status-IsEncoding st) hst,
    IsEncoding-read_message _ _ (event-IsEncoding e) he,
    IsEncoding-read_message _ _ (link-IsEncoding l) hl,
    IsEncoding-read_message _ _ (key_value-IsEncoding kv) hkv,
  )

  module _ {R : Type 0} (encode_record : R → List ℕ) where
    -- A resource group of a request is read back as its resource, its scope groups and its schema
    -- URL, for logs and spans alike.
    read_message-encode_resource_item :
        (item : ResourceItem R)
        → All IsShort (resource_item_fields rt encode_record item)
        → read_message (encode_resource_item rt encode_record item)
          ≡ some (resource_item_fields rt encode_record item)
    unfolding encode_resource_item
    read_message-encode_resource_item item = IsEncoding-read_message _ _ (
        message-IsEncoding 1 (omega arith) (encode_resource rt) item.resource
        & messages-IsEncoding 2 (omega arith) (encode_scope_item rt encode_record) item.scopes
        & text-IsEncoding 3 (omega arith) rt item.schema_url
        & IsEncoding-nil)

    pub read_message-encode_scope_item :
        (item : ScopeItem R)
        → All IsShort (scope_item_fields rt encode_record item)
        → read_message (encode_scope_item rt encode_record item)
          ≡ some (scope_item_fields rt encode_record item)
    unfolding encode_scope_item
    read_message-encode_scope_item item = IsEncoding-read_message _ _ (
        message-IsEncoding 1 (omega arith) (encode_scope rt) item.scope
        & messages-IsEncoding 2 (omega arith) encode_record item.records
        & text-IsEncoding 3 (omega arith) rt item.schema_url
        & IsEncoding-nil)

  -- What a 64-bit varint can hold.
  abbrev pub IsEncodable : AnyValue → Type 0
  IsEncodable (int_value n) = IsInt64 n
  IsEncodable v = Unit {0}

  any_value-IsEncoding :
      (v : AnyValue) → IsEncodable v → IsEncoding (encode_any_value rt v) (any_value_fields rt v)
  unfolding encode_any_value push_string_field push_message_field
  any_value-IsEncoding (string_value s) h = push_len_field-IsEncoding 1 (omega arith) (rt.utf8 s)
  any_value-IsEncoding (bool_value true) h = push_varint_field-IsEncoding 2 (omega arith) 1
  any_value-IsEncoding (bool_value false) h = push_varint_field-IsEncoding 2 (omega arith) 0
  any_value-IsEncoding (int_value n) h =
      varint_field-IsEncoding 3 (omega arith) (push_varint_big n) (to_u64 n)
        (λ rest. read_varint-push_varint_big n rest h)
  any_value-IsEncoding (double_value bits) h =
      fixed64_field-IsEncoding 4 (omega arith) (push_double bits) (push_double-length bits)
  any_value-IsEncoding (array_value a) h =
      push_len_field-IsEncoding 5 (omega arith) (encode_array_value rt a)
  any_value-IsEncoding (kvlist_value k) h =
      push_len_field-IsEncoding 6 (omega arith) (encode_kv_list rt k)
  any_value-IsEncoding (bytes_value bytes) h = push_len_field-IsEncoding 7 (omega arith) bytes
  any_value-IsEncoding no_value h = IsEncoding-nil

  -- An attribute value is read back as the one field of its alternative: a text, a truth value, a
  -- 64-bit integer in two's complement, a double, a nested array or list of pairs, or bytes.
  pub read_message-encode_any_value :
      (v : AnyValue)
      → IsEncodable v
      → All IsShort (any_value_fields rt v)
      → read_message (encode_any_value rt v) ≡ some (any_value_fields rt v)
  read_message-encode_any_value v h = IsEncoding-read_message _ _ (any_value-IsEncoding v h)
