-- ===== src/Otlp/Trees.antt =====
-- What the messages of opentelemetry-proto mean, independently of the encoder: the fields of each, with
-- the values of the record that was given, nested to any depth.
use agent_sessions_backup.Otlp.Wire.{Runtime}
use agent_sessions_backup.Otlp.Values.{
  AnyValue, string_value, bool_value, int_value, double_value, array_value, kvlist_value,
  bytes_value, no_value, Values, no_values, and_value, KeyValue, key_only, key_value, KeyValues,
  no_pairs, and_pair, EnumValue, enum_number, enum_name, enum_other, LogRecord, Status, Event, Link,
  Span,
}
use agent_sessions_backup.Otlp.Decode.{
  WireField, varint_field, fixed64_field, len_field, fixed32_field, read_message, from_le,
}
use agent_sessions_backup.Otlp.Hex.{to_hex}
use agent_sessions_backup.Otlp.Varints.{to_u64}
use Prim.Native.String
use Prim.Native.String.{String}
use text.Mathlib.Text.{◌==◌ as str_eq}
use agent_sessions_backup.Prelude.{
  ℕ, ◌+◌, ◌%◌, ◌^◌, ◌≡◌, true, false, Option, none, some, List, [], ◌∷◌, if◌then◌else◌, ℤ,
}

-- The fields of a message, in order, with their numbers.
pub data Fields : Type 0 where
  no_fields : Fields
  and_varint : ℕ → ℕ → Fields → Fields
  and_fixed64 : ℕ → ℕ → Fields → Fields
  and_fixed32 : ℕ → ℕ → Fields → Fields
  and_bytes : ℕ → List ℕ → Fields → Fields
  and_id : ℕ → List ℕ → Fields → Fields
  and_message : ℕ → Fields → Fields → Fields

infixr 5 ◌then◌
abbrev pub ◌then◌ : Fields → Fields → Fields
no_fields then more = more
and_varint n v rest then more = and_varint n v (rest then more)
and_fixed64 n v rest then more = and_fixed64 n v (rest then more)
and_fixed32 n v rest then more = and_fixed32 n v (rest then more)
and_bytes n v rest then more = and_bytes n v (rest then more)
and_id n v rest then more = and_id n v (rest then more)
and_message n v rest then more = and_message n v (rest then more)

-- What was read off the wire has this meaning: a fixed number is spelled with its lowest byte first,
-- an id is the hexadecimal text of its payload, and a nested message is read from its payload.
abbrev pub Means : List WireField → Fields → Type 0
Means wire no_fields = wire ≡ []
Means wire (and_varint n v rest) =
    (after : List WireField) × (wire ≡ varint_field n v ∷ after) × Means after rest
Means wire (and_fixed64 n v rest) =
    (after : List WireField) × (payload : List ℕ) × (wire ≡ fixed64_field n payload ∷ after)
    × (from_le payload ≡ v)
    × Means after rest
Means wire (and_fixed32 n v rest) =
    (after : List WireField) × (payload : List ℕ) × (wire ≡ fixed32_field n payload ∷ after)
    × (from_le payload ≡ v)
    × Means after rest
Means wire (and_bytes n bytes rest) =
    (after : List WireField) × (wire ≡ len_field n bytes ∷ after) × Means after rest
Means wire (and_id n id rest) =
    (after : List WireField) × (payload : List ℕ) × (wire ≡ len_field n payload ∷ after)
    × (to_hex payload ≡ id)
    × Means after rest
Means wire (and_message n inner rest) =
    (after : List WireField) × (payload : List ℕ) × (wire ≡ len_field n payload ∷ after)
    × ((nested : List WireField) × (read_message payload ≡ some nested) × Means nested inner)
    × Means after rest

-- A reader of the wire format finds this meaning in the bytes.
pub record IsReadAs (bytes : List ℕ) (fields : Fields) : Type 0 where
  pub wire : List WireField
  pub is_read : read_message bytes ≡ some wire
  pub means : Means wire fields

abbrev pub field_of {ℓ} : {A : Type ℓ} → Option A → (A → Fields) → Fields
field_of none field = no_fields
field_of (some a) field = field a

abbrev pub fields_of {ℓ} : {A : Type ℓ} → List A → (A → Fields) → Fields
fields_of [] field = no_fields
fields_of (a ∷ items) field = field a then fields_of items field

abbrev pub varint : ℕ → ℕ → Fields
varint n v = and_varint n v no_fields

abbrev pub count : ℕ → ℕ → Fields
count n v = varint n (v % 2 ^ 32)

abbrev pub time : ℕ → ℤ → Fields
time n t = and_fixed64 n (to_u64 t) no_fields

abbrev pub flags_of : ℕ → ℕ → Fields
flags_of n v = and_fixed32 n (v % 2 ^ 32) no_fields

abbrev pub id_of : ℕ → List ℕ → Fields
id_of n id = and_id n id no_fields

abbrev pub message : ℕ → Fields → Fields
message n inner = and_message n inner no_fields

-- The names of an enumeration are numbered from 0, in the order of the schema.
abbrev pub numbered : ℕ → String → List String → List (String × ℕ)
numbered n prefix [] = []
numbered n prefix (name ∷ names) = (String.◌++◌ prefix name, n) ∷ numbered (n + 1) prefix names

abbrev pub severities : List (String × ℕ)
severities = numbered 0 "SEVERITY_NUMBER_" (
    "UNSPECIFIED" ∷ "TRACE" ∷ "TRACE2" ∷ "TRACE3" ∷ "TRACE4" ∷ "DEBUG" ∷ "DEBUG2" ∷ "DEBUG3"
    ∷ "DEBUG4" ∷ "INFO" ∷ "INFO2" ∷ "INFO3" ∷ "INFO4" ∷ "WARN" ∷ "WARN2" ∷ "WARN3" ∷ "WARN4"
    ∷ "ERROR" ∷ "ERROR2" ∷ "ERROR3" ∷ "ERROR4" ∷ "FATAL" ∷ "FATAL2" ∷ "FATAL3" ∷ "FATAL4" ∷ [])

abbrev pub kinds : List (String × ℕ)
kinds =
    numbered 0 "SPAN_KIND_"
      ("UNSPECIFIED" ∷ "INTERNAL" ∷ "SERVER" ∷ "CLIENT" ∷ "PRODUCER" ∷ "CONSUMER" ∷ [])

abbrev pub codes_of_status : List (String × ℕ)
codes_of_status = numbered 0 "STATUS_CODE_" ("UNSET" ∷ "OK" ∷ "ERROR" ∷ [])

abbrev pub number_named : String → List (String × ℕ) → Option ℕ
number_named key [] = none
number_named key (entry ∷ table) =
    if str_eq entry.0 key then some entry.1 else number_named key table

-- A name of the table, or else a number in text, or else 0.
abbrev pub or_parsed : Option ℕ → Option ℕ → ℕ
or_parsed (some n) parsed = n
or_parsed none (some n) = n
or_parsed none none = 0

module _ (rt : Runtime) where
  abbrev pub enum_value : List (String × ℕ) → EnumValue → ℕ
  enum_value table (enum_number n) = n
  enum_value table (enum_name s) = or_parsed (number_named s table) (rt.number_of s)
  enum_value table enum_other = 0

  abbrev pub plain : ℕ → String → Fields
  plain n s = and_bytes n (rt.utf8 s) no_fields

  unfoldable mutual
    pub value_fields : AnyValue → Fields
    value_fields (string_value s) = plain 1 s
    value_fields (bool_value true) = varint 2 1
    value_fields (bool_value false) = varint 2 0
    value_fields (int_value n) = varint 3 (to_u64 n)
    value_fields (double_value bits) = and_fixed64 4 bits no_fields
    value_fields (array_value a) = message 5 (item_fields a)
    value_fields (kvlist_value k) = message 6 (pair_fields 1 k)
    value_fields (bytes_value bytes) = and_bytes 7 bytes no_fields
    value_fields no_value = no_fields

    pub item_fields : Values → Fields
    item_fields no_values = no_fields
    item_fields (and_value v vs) = message 1 (value_fields v) then item_fields vs

    pub one_pair : KeyValue → Fields
    one_pair (key_only key) = field_of key (plain 1)
    one_pair (key_value key value) = field_of key (plain 1) then message 2 (value_fields value)

    pub pair_fields : ℕ → KeyValues → Fields
    pair_fields n no_pairs = no_fields
    pair_fields n (and_pair kv kvs) = message n (one_pair kv) then pair_fields n kvs

  abbrev pub log_record : LogRecord → Fields
  log_record lr =
      field_of lr.time_unix_nano (time 1)
      then field_of lr.severity_number (λ n. count 2 (enum_value severities n))
      then field_of lr.severity_text (plain 3)
      then field_of lr.body (λ body. message 5 (value_fields body))
      then pair_fields 6 lr.attributes
      then field_of lr.dropped_attributes_count (count 7)
      then field_of lr.flags (flags_of 8)
      then field_of lr.trace_id (id_of 9)
      then field_of lr.span_id (id_of 10)
      then field_of lr.observed_time_unix_nano (time 11)
      then no_fields

  abbrev pub status : Status → Fields
  status s =
      field_of s.message (plain 2)
      then field_of s.code (λ code. count 3 (enum_value codes_of_status code))
      then no_fields

  abbrev pub event : Event → Fields
  event e =
      field_of e.time_unix_nano (time 1)
      then field_of e.name (plain 2)
      then pair_fields 3 e.attributes
      then field_of e.dropped_attributes_count (count 4)
      then no_fields

  abbrev pub link : Link → Fields
  link l =
      field_of l.trace_id (id_of 1)
      then field_of l.span_id (id_of 2)
      then field_of l.trace_state (plain 3)
      then pair_fields 4 l.attributes
      then field_of l.dropped_attributes_count (count 5)
      then field_of l.flags (flags_of 6)
      then no_fields

  abbrev pub span : Span → Fields
  span sp =
      field_of sp.trace_id (id_of 1)
      then field_of sp.span_id (id_of 2)
      then field_of sp.trace_state (plain 3)
      then field_of sp.parent_span_id (id_of 4)
      then field_of sp.name (plain 5)
      then field_of sp.kind (λ kind. count 6 (enum_value kinds kind))
      then field_of sp.start_time_unix_nano (time 7)
      then field_of sp.end_time_unix_nano (time 8)
      then pair_fields 9 sp.attributes
      then field_of sp.dropped_attributes_count (count 10)
      then fields_of sp.events (λ e. message 11 (event e))
      then field_of sp.dropped_events_count (count 12)
      then fields_of sp.links (λ l. message 13 (link l))
      then field_of sp.dropped_links_count (count 14)
      then field_of sp.status (λ s. message 15 (status s))
      then field_of sp.flags (flags_of 16)
      then no_fields
