-- ===== src/Otlp/Records.antt =====
-- The encoder of hub/gateway/otlp-protobuf.ts: what its log records and spans mean.
use agent_sessions_backup.Otlp.Wire.{
  Runtime, push_varint_field, push_fixed64_field, push_len_field, push_string_field,
  push_message_field, hex_to_bytes,
}
use agent_sessions_backup.Otlp.Values.{
  AnyValue, string_value, bool_value, int_value, double_value, array_value, kvlist_value,
  bytes_value, no_value, Values, no_values, and_value, KeyValue, key_only, key_value, KeyValues,
  no_pairs, and_pair, EnumValue, LogRecord, Status, Event, Link, Span,
}
use agent_sessions_backup.Otlp.Encode.{
  when, for_each, enum_int, push_fixed32_field, severity_numbers, span_kinds, status_codes,
  encode_any_value, encode_array_value, encode_kv_list, encode_key_value, encode_attributes,
  encode_log_record, encode_status, encode_event, encode_link, encode_span,
}
use agent_sessions_backup.Otlp.Varints.{IsInt64}
use agent_sessions_backup.Otlp.Trees.{
  IsReadAs, field_of, fields_of, count, time, flags_of, id_of, message, plain, value_fields,
  item_fields, one_pair, pair_fields, log_record, status, event, link, span, severities, kinds,
  codes_of_status, enum_value,
}
use agent_sessions_backup.Otlp.Readback.{
  Encodes, Encodes-nil, Encodes-IsReadAs, ◌&&&◌, IsId, IsShortPayload, count-Encodes, time-Encodes,
  flags-Encodes, big-Encodes, double-Encodes, bytes-Encodes, text-Encodes, id-Encodes,
  message-Encodes, enum-Encodes,
}
use Prim.Native.String.{String}
use agent_sessions_backup.Prelude.{
  ℕ, ◌^◌, ◌<◌, ◌≡◌, refl, true, false, Option, none, some, List, [], ◌∷◌, arith, ℤ,
}

abbrev IsGiven {ℓ} : {A : Type ℓ} → (A → Type 0) → Option A → Type 0
IsGiven P none = Unit {0}
IsGiven P (some a) = P a

abbrev AreGiven {ℓ} : {A : Type ℓ} → (A → Type 0) → List A → Type 0
AreGiven P [] = Unit {0}
AreGiven P (a ∷ items) = P a × AreGiven P items

module _ (rt : Runtime) where
  abbrev IsShortText : String → Type 0
  IsShortText s = IsShortPayload (rt.utf8 s)

  -- What 64 bits and the length prefixes of the format can hold, at any depth.
  unfoldable mutual
    pub FitsValue : AnyValue → Type 0
    FitsValue (string_value s) = IsShortPayload (rt.utf8 s)
    FitsValue (bool_value b) = Unit {0}
    FitsValue (int_value n) = IsInt64 n
    FitsValue (double_value bits) = bits < 2 ^ 64
    FitsValue (array_value a) = IsShortPayload (encode_array_value rt a) × FitItems a
    FitsValue (kvlist_value k) = IsShortPayload (encode_kv_list rt k) × FitPairs k
    FitsValue (bytes_value bytes) = IsShortPayload bytes
    FitsValue no_value = Unit {0}

    pub FitItems : Values → Type 0
    FitItems no_values = Unit {0}
    FitItems (and_value v vs) = IsShortPayload (encode_any_value rt v) × FitsValue v × FitItems vs

    pub FitsPair : KeyValue → Type 0
    FitsPair (key_only key) = IsGiven IsShortText key
    FitsPair (key_value key value) =
        IsGiven IsShortText key × IsShortPayload (encode_any_value rt value) × FitsValue value

    pub FitPairs : KeyValues → Type 0
    FitPairs no_pairs = Unit {0}
    FitPairs (and_pair kv kvs) =
        IsShortPayload (encode_key_value rt kv) × FitsPair kv × FitPairs kvs

  pub record FitsLogRecord (lr : LogRecord) : Type 0 where
    pub time_fits : IsGiven IsInt64 lr.time_unix_nano
    pub severity_fits : IsGiven IsShortText lr.severity_text
    pub body_fits : IsGiven (λ v. IsShortPayload (encode_any_value rt v) × FitsValue v) lr.body
    pub attributes_fit : FitPairs lr.attributes
    pub trace_fits : IsGiven IsId lr.trace_id
    pub span_fits : IsGiven IsId lr.span_id
    pub observed_fits : IsGiven IsInt64 lr.observed_time_unix_nano

  pub record FitsEvent (e : Event) : Type 0 where
    pub payload_fits : IsShortPayload (encode_event rt e)
    pub time_fits : IsGiven IsInt64 e.time_unix_nano
    pub name_fits : IsGiven IsShortText e.name
    pub attributes_fit : FitPairs e.attributes

  pub record FitsLink (l : Link) : Type 0 where
    pub payload_fits : IsShortPayload (encode_link rt l)
    pub trace_fits : IsGiven IsId l.trace_id
    pub span_fits : IsGiven IsId l.span_id
    pub state_fits : IsGiven IsShortText l.trace_state
    pub attributes_fit : FitPairs l.attributes

  abbrev FitsStatus : Status → Type 0
  FitsStatus s = IsShortPayload (encode_status rt s) × IsGiven IsShortText s.message

  pub record FitsSpan (sp : Span) : Type 0 where
    pub trace_fits : IsGiven IsId sp.trace_id
    pub span_fits : IsGiven IsId sp.span_id
    pub state_fits : IsGiven IsShortText sp.trace_state
    pub parent_fits : IsGiven IsId sp.parent_span_id
    pub name_fits : IsGiven IsShortText sp.name
    pub start_fits : IsGiven IsInt64 sp.start_time_unix_nano
    pub end_fits : IsGiven IsInt64 sp.end_time_unix_nano
    pub attributes_fit : FitPairs sp.attributes
    pub events_fit : AreGiven FitsEvent sp.events
    pub links_fit : AreGiven FitsLink sp.links
    pub status_fits : IsGiven FitsStatus sp.status

  module _ (number : ℕ) (small : number < 2 ^ 28) where
    texts :
        (o : Option String)
        → IsGiven IsShortText o
        → Encodes (when o (push_string_field rt number)) (field_of o (plain rt number))
    texts none h = Encodes-nil
    texts (some s) h = text-Encodes number small rt s h

    times :
        (o : Option ℤ)
        → IsGiven IsInt64 o
        → Encodes (when o (push_fixed64_field number)) (field_of o (time number))
    times none h = Encodes-nil
    times (some t) h = time-Encodes number small t h

    counts :
        (o : Option ℕ) → Encodes (when o (push_varint_field number)) (field_of o (count number))
    counts none = Encodes-nil
    counts (some n) = count-Encodes number small n

    flags :
        (o : Option ℕ) → Encodes (when o (push_fixed32_field number)) (field_of o (flags_of number))
    flags none = Encodes-nil
    flags (some n) = flags-Encodes number small n

    ids :
        (o : Option (List ℕ))
        → IsGiven IsId o
        → Encodes
            (when o (λ id. push_len_field number (hex_to_bytes id)))
            (field_of o (id_of number))
    ids none h = Encodes-nil
    ids (some id) h = id-Encodes number small id h

    enums :
        (ours table : List (String × ℕ))
        → ours ≡ table
        → (o : Option EnumValue)
        → Encodes
            (when o (λ e. push_varint_field number (enum_int rt e ours)))
            (field_of o (λ e. count number (enum_value rt table e)))
    enums ours table same none = Encodes-nil
    enums ours table same (some e) = enum-Encodes rt number small ours table same e

  mutual
    unfolding encode_any_value value_fields FitsValue

    value-Encodes :
        (v : AnyValue) → FitsValue v → Encodes (encode_any_value rt v) (value_fields rt v)
    value-Encodes (string_value s) h = text-Encodes 1 (omega arith) rt s h
    value-Encodes (bool_value true) h = count-Encodes 2 (omega arith) 1
    value-Encodes (bool_value false) h = count-Encodes 2 (omega arith) 0
    value-Encodes (int_value n) h = big-Encodes 3 (omega arith) n h
    value-Encodes (double_value bits) h = double-Encodes 4 (omega arith) bits h
    value-Encodes (array_value a) (h, hs) = message-Encodes 5 (omega arith) h (items-Encodes a hs)
    value-Encodes (kvlist_value k) (h, hs) =
        message-Encodes 6 (omega arith) h (kv_list-Encodes k hs)
    value-Encodes (bytes_value bytes) h = bytes-Encodes 7 (omega arith) bytes h
    value-Encodes no_value h = Encodes-nil

    items-Encodes :
        (vs : Values) → FitItems vs → Encodes (encode_array_value rt vs) (item_fields rt vs)
    items-Encodes no_values h = Encodes-nil
    items-Encodes (and_value v vs) (h, hv, hs) =
        message-Encodes 1 (omega arith) h (value-Encodes v hv) &&& items-Encodes vs hs

    pair-Encodes : (kv : KeyValue) → FitsPair kv → Encodes (encode_key_value rt kv) (one_pair rt kv)
    pair-Encodes (key_only key) h = texts 1 (omega arith) key h
    pair-Encodes (key_value key value) (hk, h, hv) =
        texts 1 (omega arith) key hk &&& message-Encodes 2 (omega arith) h (value-Encodes value hv)

    kv_list-Encodes :
        (kvs : KeyValues) → FitPairs kvs → Encodes (encode_kv_list rt kvs) (pair_fields rt 1 kvs)
    kv_list-Encodes no_pairs h = Encodes-nil
    kv_list-Encodes (and_pair kv kvs) (h, hk, hs) =
        message-Encodes 1 (omega arith) h (pair-Encodes kv hk) &&& kv_list-Encodes kvs hs

  attributes-Encodes :
      (number : ℕ) (small : number < 2 ^ 28) (kvs : KeyValues)
      → FitPairs kvs
      → Encodes (encode_attributes rt number kvs) (pair_fields rt number kvs)
  unfolding encode_attributes value_fields FitsValue
  attributes-Encodes number small no_pairs h = Encodes-nil
  attributes-Encodes number small (and_pair kv kvs) (h, hk, hs) =
      message-Encodes number small h (pair-Encodes kv hk) &&& attributes-Encodes number small kvs hs

  same_severities : severity_numbers ≡ severities
  unfolding severity_numbers
  same_severities = refl

  same_kinds : span_kinds ≡ kinds
  unfolding span_kinds
  same_kinds = refl

  same_codes : status_codes ≡ codes_of_status
  unfolding status_codes
  same_codes = refl

  bodies :
      (o : Option AnyValue)
      → IsGiven (λ v. IsShortPayload (encode_any_value rt v) × FitsValue v) o
      → Encodes
          (when o (λ body. push_message_field 5 (encode_any_value rt body)))
          (field_of o (λ body. message 5 (value_fields rt body)))
  bodies none h = Encodes-nil
  bodies (some v) (h, hv) = message-Encodes 5 (omega arith) h (value-Encodes v hv)

  -- A reader of the wire format finds in an encoded log record its fields, with the numbers and types
  -- of the schema: its times as two's complement, the number of its severity, its texts, its ids as the
  -- bytes that they spell, and its body and attributes, nested to any depth, with their values;
  -- provided that the times and integers take 64 bits, the ids are lower-case hexadecimal, and no
  -- payload reaches 2 ^ 32 bytes.
  pub encode_log_record-IsReadAs :
      (lr : LogRecord) → FitsLogRecord lr → IsReadAs (encode_log_record rt lr) (log_record rt lr)
  unfolding encode_log_record
  encode_log_record-IsReadAs lr h = Encodes-IsReadAs (
      times 1 (omega arith) lr.time_unix_nano h.time_fits
      &&& enums 2 (omega arith) severity_numbers severities same_severities lr.severity_number
      &&& texts 3 (omega arith) lr.severity_text h.severity_fits
      &&& bodies lr.body h.body_fits
      &&& attributes-Encodes 6 (omega arith) lr.attributes h.attributes_fit
      &&& counts 7 (omega arith) lr.dropped_attributes_count
      &&& flags 8 (omega arith) lr.flags
      &&& ids 9 (omega arith) lr.trace_id h.trace_fits
      &&& ids 10 (omega arith) lr.span_id h.span_fits
      &&& times 11 (omega arith) lr.observed_time_unix_nano h.observed_fits
      &&& Encodes-nil)

  event-Encodes : (e : Event) → FitsEvent e → Encodes (encode_event rt e) (event rt e)
  unfolding encode_event
  event-Encodes e h =
      times 1 (omega arith) e.time_unix_nano h.time_fits
      &&& texts 2 (omega arith) e.name h.name_fits
      &&& attributes-Encodes 3 (omega arith) e.attributes h.attributes_fit
      &&& counts 4 (omega arith) e.dropped_attributes_count
      &&& Encodes-nil

  link-Encodes : (l : Link) → FitsLink l → Encodes (encode_link rt l) (link rt l)
  unfolding encode_link
  link-Encodes l h =
      ids 1 (omega arith) l.trace_id h.trace_fits
      &&& ids 2 (omega arith) l.span_id h.span_fits
      &&& texts 3 (omega arith) l.trace_state h.state_fits
      &&& attributes-Encodes 4 (omega arith) l.attributes h.attributes_fit
      &&& counts 5 (omega arith) l.dropped_attributes_count
      &&& flags 6 (omega arith) l.flags
      &&& Encodes-nil

  events :
      (es : List Event)
      → AreGiven FitsEvent es
      → Encodes
          (for_each es (λ e. push_message_field 11 (encode_event rt e)))
          (fields_of es (λ e. message 11 (event rt e)))
  events [] h = Encodes-nil
  events (e ∷ es) (h, hs) =
      message-Encodes 11 (omega arith) h.payload_fits (event-Encodes e h) &&& events es hs

  links :
      (ls : List Link)
      → AreGiven FitsLink ls
      → Encodes
          (for_each ls (λ l. push_message_field 13 (encode_link rt l)))
          (fields_of ls (λ l. message 13 (link rt l)))
  links [] h = Encodes-nil
  links (l ∷ ls) (h, hs) =
      message-Encodes 13 (omega arith) h.payload_fits (link-Encodes l h) &&& links ls hs

  statuses :
      (o : Option Status)
      → IsGiven FitsStatus o
      → Encodes
          (when o (λ s. push_message_field 15 (encode_status rt s)))
          (field_of o (λ s. message 15 (status rt s)))
  unfolding encode_status
  statuses none h = Encodes-nil
  statuses (some s) (h, hm) = message-Encodes 15 (omega arith) h (
      texts 2 (omega arith) s.message hm
      &&& enums 3 (omega arith) status_codes codes_of_status same_codes s.code
      &&& Encodes-nil)

  -- A reader of the wire format finds in an encoded span its fields, with the numbers and types of the
  -- schema: its ids, texts, kind, times, attributes, counts and flags, and its events, links and
  -- status, with all that these hold; under the conditions of a log record.
  pub encode_span-IsReadAs : (sp : Span) → FitsSpan sp → IsReadAs (encode_span rt sp) (span rt sp)
  unfolding encode_span
  encode_span-IsReadAs sp h = Encodes-IsReadAs (
      ids 1 (omega arith) sp.trace_id h.trace_fits
      &&& ids 2 (omega arith) sp.span_id h.span_fits
      &&& texts 3 (omega arith) sp.trace_state h.state_fits
      &&& ids 4 (omega arith) sp.parent_span_id h.parent_fits
      &&& texts 5 (omega arith) sp.name h.name_fits
      &&& enums 6 (omega arith) span_kinds kinds same_kinds sp.kind
      &&& times 7 (omega arith) sp.start_time_unix_nano h.start_fits
      &&& times 8 (omega arith) sp.end_time_unix_nano h.end_fits
      &&& attributes-Encodes 9 (omega arith) sp.attributes h.attributes_fit
      &&& counts 10 (omega arith) sp.dropped_attributes_count
      &&& events sp.events h.events_fit
      &&& counts 12 (omega arith) sp.dropped_events_count
      &&& links sp.links h.links_fit
      &&& counts 14 (omega arith) sp.dropped_links_count
      &&& statuses sp.status h.status_fits
      &&& flags 16 (omega arith) sp.flags
      &&& Encodes-nil)
