-- ===== src/Otlp/Schema.antt =====
-- The fields that the OTLP messages around log records and spans have on the wire, by the numbers and
-- wire types of opentelemetry-proto, with the payloads that the encoder writes.
use agent_sessions_backup.Otlp.Wire.{Runtime, push_fixed64, push_fixed32, hex_to_bytes}
use agent_sessions_backup.Otlp.Values.{
  AnyValue, string_value, bool_value, int_value, double_value, array_value, kvlist_value,
  bytes_value, no_value, KeyValue, key_only, key_value, KeyValues, no_pairs, and_pair, Resource,
  Scope, Status, Event, Link, ScopeItem, ResourceItem,
}
use agent_sessions_backup.Otlp.Encode.{
  enum_int, status_codes, encode_any_value, encode_array_value, encode_kv_list, encode_key_value,
  encode_resource, encode_scope, encode_scope_item,
}
use agent_sessions_backup.Otlp.Decode.{
  WireField, varint_field, fixed64_field, len_field, fixed32_field,
}
use agent_sessions_backup.Otlp.Varints.{to_u64}
use agent_sessions_backup.Otlp.Wire.{push_double}
use Prim.Native.String.{String}
use agent_sessions_backup.Prelude.{
  ℕ, ◌%◌, ◌^◌, Option, none, some, List, [], ◌∷◌, ◌++◌, if◌then◌else◌, concat, ℤ,
}

abbrev pub opt {ℓ} : {A : Type ℓ} → Option A → (A → WireField) → List WireField
opt none field = []
opt (some a) field = field a ∷ []

abbrev pub each {ℓ} : {A : Type ℓ} → List A → (A → WireField) → List WireField
each [] field = []
each (a ∷ items) field = field a ∷ each items field

-- Counts and enumerations are written modulo 2 ^ 32.
abbrev pub count_field : ℕ → ℕ → WireField
count_field number n = varint_field number (n % 2 ^ 32)

abbrev pub time_field : ℕ → ℤ → WireField
time_field number t = fixed64_field number (push_fixed64 t)

abbrev pub flags_field : ℕ → ℕ → WireField
flags_field number n = fixed32_field number (push_fixed32 n)

abbrev pub id_field : ℕ → List ℕ → WireField
id_field number id = len_field number (hex_to_bytes id)

module _ (rt : Runtime) where
  abbrev pub text_field : ℕ → String → WireField
  text_field number s = len_field number (rt.utf8 s)

  abbrev pub any_value_fields : AnyValue → List WireField
  any_value_fields (string_value s) = text_field 1 s ∷ []
  any_value_fields (bool_value b) = varint_field 2 (if b then 1 else 0) ∷ []
  any_value_fields (int_value n) = varint_field 3 (to_u64 n) ∷ []
  any_value_fields (double_value bits) = fixed64_field 4 (push_double bits) ∷ []
  any_value_fields (array_value a) = len_field 5 (encode_array_value rt a) ∷ []
  any_value_fields (kvlist_value k) = len_field 6 (encode_kv_list rt k) ∷ []
  any_value_fields (bytes_value bytes) = len_field 7 bytes ∷ []
  any_value_fields no_value = []

  abbrev pub key_value_fields : KeyValue → List WireField
  key_value_fields (key_only key) = opt key (text_field 1)
  key_value_fields (key_value key value) =
      opt key (text_field 1) ++ len_field 2 (encode_any_value rt value) ∷ []

  abbrev pub attribute_fields : ℕ → KeyValues → List WireField
  attribute_fields number no_pairs = []
  attribute_fields number (and_pair kv kvs) =
      len_field number (encode_key_value rt kv) ∷ attribute_fields number kvs

  abbrev pub resource_fields : Resource → List WireField
  resource_fields r =
      concat (attribute_fields 1 r.attributes ∷ opt r.dropped_attributes_count (count_field 2) ∷ [])

  abbrev pub scope_fields : Scope → List WireField
  scope_fields s = concat (
      opt s.name (text_field 1)
      ∷ opt s.version (text_field 2)
      ∷ attribute_fields 3 s.attributes
      ∷ opt s.dropped_attributes_count (count_field 4)
      ∷ [])

  abbrev pub status_fields : Status → List WireField
  status_fields s = concat (
      opt s.message (text_field 2)
      ∷ opt s.code (λ code. count_field 3 (enum_int rt code status_codes))
      ∷ [])

  abbrev pub event_fields : Event → List WireField
  event_fields e = concat (
      opt e.time_unix_nano (time_field 1)
      ∷ opt e.name (text_field 2)
      ∷ attribute_fields 3 e.attributes
      ∷ opt e.dropped_attributes_count (count_field 4)
      ∷ [])

  abbrev pub link_fields : Link → List WireField
  link_fields l = concat (
      opt l.trace_id (id_field 1)
      ∷ opt l.span_id (id_field 2)
      ∷ opt l.trace_state (text_field 3)
      ∷ attribute_fields 4 l.attributes
      ∷ opt l.dropped_attributes_count (count_field 5)
      ∷ opt l.flags (flags_field 6)
      ∷ [])

  abbrev pub scope_item_fields : {R : Type 0} → (R → List ℕ) → ScopeItem R → List WireField
  scope_item_fields encode_record item = concat (
      opt item.scope (λ s. len_field 1 (encode_scope rt s))
      ∷ each item.records (λ r. len_field 2 (encode_record r))
      ∷ opt item.schema_url (text_field 3)
      ∷ [])

  abbrev pub resource_item_fields : {R : Type 0} → (R → List ℕ) → ResourceItem R → List WireField
  resource_item_fields encode_record item = concat (
      opt item.resource (λ r. len_field 1 (encode_resource rt r))
      ∷ each item.scopes (λ s. len_field 2 (encode_scope_item rt encode_record s))
      ∷ opt item.schema_url (text_field 3)
      ∷ [])
