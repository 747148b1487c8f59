-- ===== src/Otlp/Tests.antt =====
-- The encoder and the chunker at small inputs, and the theorems at them.
use agent_sessions_backup.Otlp.Wire.{
  Runtime, varint_bytes, push_varint, push_tag, push_varint_big, le_bytes, push_fixed64,
  push_fixed32, push_len_field, push_string_field, push_message_field, push_varint_field,
  push_fixed64_field, hex_digit, parse_pair, hex_pairs, hex_to_bytes,
}
use agent_sessions_backup.Otlp.Values.{
  Resource, Status, Event, Link, string_value, bool_value, key_value, no_pairs, and_pair, enum_name,
  Scope, LogRecord, Span, ScopeItem, ResourceItem,
}
use agent_sessions_backup.Otlp.Encode.{
  encode_event, encode_link, encode_any_value, encode_log_record, encode_span, encode_resource,
  encode_scope, encode_status, encode_resource_item, enum_int, severity_numbers, encode_attributes,
  push_fixed32_field, span_kinds, status_codes, encode_scope_item,
}
use agent_sessions_backup.Otlp.Chunks.{
  Batch, chunk_scope, chunk_signal, degrade_log_record, truncate_utf8, is_continuation,
  varint_size_from, varint_size, record_field_size, build_request, encode_logs_chunks,
  scope_builder, fit_record,
}
use agent_sessions_backup.Otlp.Decode.{read_varint}
use agent_sessions_backup.Otlp.Varints.{read_varint-push_varint}
use agent_sessions_backup.Otlp.Hex.{to_hex}
use agent_sessions_backup.Otlp.Trees.{IsReadAs, log_record, span}
use agent_sessions_backup.Otlp.Readback.{IsId}
use agent_sessions_backup.Otlp.Records.{
  FitsLogRecord, FitsSpan, FitsEvent, FitsLink, FitsValue, encode_log_record-IsReadAs,
  encode_span-IsReadAs,
}
use agent_sessions_backup.Otlp.Splits.{Splits, chunk_scope-Splits, chunk_signal-le}
use agent_sessions_backup.Otlp.Truncation.{truncate_utf8-take, without_mark, IsBoundary}
use Prim.Native.Char.{code}
use Prim.Native.String.{String}
use agent_sessions_backup.Prelude.{
  ℕ, ◌+◌, ◌≤◌, ◌<◌, ◌≡◌, refl, ◌⊎◌, true, none, some, List, [], ◌∷◌, ◌++◌, arith, length, take, All,
  pos,
}

-- ASCII text.
abbrev codes : String → List ℕ
codes String.[] = []
codes (String.◌∷◌ c s) = code c ∷ codes s

abbrev ascii : Runtime
ascii = record { utf8 = codes; number_of = λ s. none; text_of = λ bytes. "" }

abbrev error_log : LogRecord
error_log = record {
  time_unix_nano = some (pos 1_700_000_000_000_000_000);
  severity_number = some (enum_name "SEVERITY_NUMBER_ERROR");
  severity_text = some "ERROR";
  body = some (string_value "boom");
  attributes = and_pair (key_value (some "retry") (bool_value true)) no_pairs;
  dropped_attributes_count = none;
  flags = some 1;
  trace_id = some (codes "0af7");
  span_id = none;
  observed_time_unix_nano = none;
}

abbrev child_span : Span
child_span = record {
  trace_id = some (codes "0af7");
  span_id = some (codes "b7ad");
  trace_state = none;
  parent_span_id = none;
  name = some "GET";
  kind = some (enum_name "SPAN_KIND_SERVER");
  start_time_unix_nano = some (pos 5);
  end_time_unix_nano = some (pos 9);
  attributes = no_pairs;
  dropped_attributes_count = none;
  events = [];
  dropped_events_count = some 300;
  links = [];
  dropped_links_count = none;
  status = some (record { message = none; code = some (enum_name "STATUS_CODE_OK") });
  flags = none;
}

-- What a run of the encoder computes with.
encoder : Unit {0}
unfolding varint_bytes push_varint push_tag push_varint_big push_fixed64 push_fixed32 le_bytes
    push_len_field push_string_field push_message_field push_varint_field push_fixed64_field
    push_fixed32_field hex_digit parse_pair hex_pairs hex_to_bytes enum_int severity_numbers
    span_kinds status_codes encode_any_value encode_attributes encode_log_record encode_span
    encode_status encode_scope encode_resource encode_scope_item encode_resource_item
    varint_size_from varint_size record_field_size build_request scope_builder chunk_signal
    fit_record degrade_log_record truncate_utf8 encode_logs_chunks
encoder = tt

varint_bytes_run : push_varint 300 ≡ 172 ∷ 2 ∷ []
unfolding encoder
varint_bytes_run = refl

severity_run : enum_int ascii (enum_name "SEVERITY_NUMBER_ERROR") severity_numbers ≡ 17
unfolding encoder
severity_run = refl

hex_run : hex_to_bytes (codes "fA0") ≡ 15 ∷ 160 ∷ []
unfolding encoder
hex_run = refl

log_run :
    encode_log_record ascii
      (record error_log { body = none; attributes = no_pairs; time_unix_nano = none })
    ≡ 16 ∷ 17 ∷ 26 ∷ 5 ∷ 69 ∷ 82 ∷ 82 ∷ 79 ∷ 82 ∷ 69 ∷ 1 ∷ 0 ∷ 0 ∷ 0 ∷ 74 ∷ 2 ∷ 10 ∷ 247 ∷ []
unfolding encoder
log_run = refl

read_varint-push_varint_example : read_varint (push_varint 300 ++ 7 ∷ []) ≡ some (300, 7 ∷ [])
read_varint-push_varint_example = read_varint-push_varint 300 (7 ∷ [])

abbrev a_scope : Scope
a_scope = record {
  name = some "lib";
  version = none;
  attributes = no_pairs;
  dropped_attributes_count = some 2;
}

abbrev logs : ResourceItem LogRecord
logs = record {
  resource = some (record { attributes = no_pairs; dropped_attributes_count = some 1 });
  scopes =
      record { scope = some a_scope; records = error_log ∷ error_log ∷ []; schema_url = none } ∷ [];
  schema_url = some "u";
}

-- Two log records that do not share a chunk of 120 bytes.
chunks_run : (encode_logs_chunks ascii (logs ∷ []) 100).1 ≡ 0
unfolding encoder
chunks_run = refl

two_chunks : length (encode_logs_chunks ascii (logs ∷ []) 100).0 ≡ 2
unfolding encoder
two_chunks = refl

chunk_signal-le_example :
    All
      (λ c. length c ≤ 100 + 8)
      (chunk_signal (encode_log_record ascii) (degrade_log_record ascii) ascii 100 (logs ∷ [])).0
chunk_signal-le_example =
    chunk_signal-le (encode_log_record ascii) (degrade_log_record ascii) ascii 100 (logs ∷ [])

abbrev nothing_yet : Batch
nothing_yet = record { chunks = []; dropped = 0; recs = []; size = 0 }

abbrev log_scope : ScopeItem LogRecord
log_scope = record { scope = some a_scope; records = error_log ∷ error_log ∷ []; schema_url = none }

chunk_scope-Splits_example :
    Splits
      (encode_log_record ascii)
      (degrade_log_record ascii)
      ascii
      100
      logs
      log_scope
      nothing_yet
      (chunk_scope
        (encode_log_record ascii)
        (degrade_log_record ascii)
        ascii
        100
        logs
        log_scope
        nothing_yet)
chunk_scope-Splits_example =
    chunk_scope-Splits (encode_log_record ascii) (degrade_log_record ascii) ascii 100 logs log_scope
      nothing_yet

-- "é€" in UTF-8, as its bytes.
abbrev accents : List ℕ
accents = 195 ∷ 169 ∷ 226 ∷ 130 ∷ 172 ∷ []

cut_run : truncate_utf8 (λ (s : List ℕ). s) (λ s. s) accents 4 ≡ 195 ∷ 169 ∷ []
unfolding truncate_utf8 is_continuation
cut_run = refl

-- A decoder of texts that are their bytes drops a byte order mark.
cut_without_mark :
    truncate_utf8 (λ (s : List ℕ). s) without_mark (239 ∷ 187 ∷ 191 ∷ accents) 6 ≡ 195 ∷ 169 ∷ []
unfolding truncate_utf8 is_continuation
cut_without_mark = refl

truncate_utf8-take_example :
    ((length accents ≤ 4) × (truncate_utf8 (λ (s : List ℕ). s) without_mark accents 4 ≡ accents))
    ⊎ ((4 < length accents)
        × ((n : ℕ) × (n ≤ 4)
            × IsBoundary accents n
            × ((m : ℕ) → m ≤ 4 → IsBoundary accents m → m ≤ n)
            × (truncate_utf8 (λ (s : List ℕ). s) without_mark accents 4
                ≡ without_mark (take n accents))))
truncate_utf8-take_example =
    truncate_utf8-take (λ (s : List ℕ). s) without_mark (λ s n b. refl) accents 4

abbrev a_link : Link
a_link = record {
  trace_id = some (codes "0af7");
  span_id = none;
  trace_state = some "s";
  attributes = no_pairs;
  dropped_attributes_count = none;
  flags = some 1;
}

abbrev an_event : Event
an_event = record {
  time_unix_nano = some (pos 3);
  name = some "retry";
  attributes = no_pairs;
  dropped_attributes_count = some 2;
}

abbrev ok_status : Status
ok_status = record { message = some "fine"; code = some (enum_name "STATUS_CODE_OK") }

abbrev a_resource : Resource
a_resource = record { attributes = no_pairs; dropped_attributes_count = some 1 }

abbrev trace_is_id : IsId (codes "0af7")
unfolding to_hex
trace_is_id = (10 ∷ 247 ∷ [], refl, (omega arith, (omega arith, tt)), omega arith)

abbrev span_is_id : IsId (codes "b7ad")
unfolding to_hex
span_is_id = (183 ∷ 173 ∷ [], refl, (omega arith, (omega arith, tt)), omega arith)

error_log-FitsLogRecord : FitsLogRecord ascii error_log
unfolding encoder FitsValue
error_log-FitsLogRecord = record {
  time_fits = omega arith;
  severity_fits = omega arith;
  body_fits = (omega arith, omega arith);
  attributes_fit = (omega arith, (omega arith, omega arith, tt), tt);
  trace_fits = trace_is_id;
  span_fits = tt;
  observed_fits = tt;
}

encode_log_record-IsReadAs_example :
    IsReadAs (encode_log_record ascii error_log) (log_record ascii error_log)
encode_log_record-IsReadAs_example =
    encode_log_record-IsReadAs ascii error_log error_log-FitsLogRecord

abbrev busy_span : Span
busy_span = record child_span { events = an_event ∷ []; links = a_link ∷ [] }

an_event-FitsEvent : FitsEvent ascii an_event
unfolding encoder FitsValue encode_event
an_event-FitsEvent = record {
  payload_fits = omega arith;
  time_fits = omega arith;
  name_fits = omega arith;
  attributes_fit = tt;
}

a_link-FitsLink : FitsLink ascii a_link
unfolding encoder FitsValue encode_link
a_link-FitsLink = record {
  payload_fits = omega arith;
  trace_fits = trace_is_id;
  span_fits = tt;
  state_fits = omega arith;
  attributes_fit = tt;
}

busy_span-FitsSpan : FitsSpan ascii busy_span
unfolding encoder FitsValue
busy_span-FitsSpan = record {
  trace_fits = trace_is_id;
  span_fits = span_is_id;
  state_fits = tt;
  parent_fits = tt;
  name_fits = omega arith;
  start_fits = omega arith;
  end_fits = omega arith;
  attributes_fit = tt;
  events_fit = (an_event-FitsEvent, tt);
  links_fit = (a_link-FitsLink, tt);
  status_fits = (omega arith, tt);
}

encode_span-IsReadAs_example : IsReadAs (encode_span ascii busy_span) (span ascii busy_span)
encode_span-IsReadAs_example = encode_span-IsReadAs ascii busy_span busy_span-FitsSpan
