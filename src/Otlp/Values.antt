-- ===== src/Otlp/Values.antt =====
-- The OTLP JSON that hub/gateway/otlp-protobuf.ts reads. `none` in a field means that the source's
-- test on it fails (`!== undefined`, or truthiness where the source tests that). Numbers are those
-- that `Number(…)` and `BigInt(…)` yield, ids the code units of their text, a double its 64 bits,
-- a `bytesValue` what `atob` yields. `AnyValue` is the first alternative that the else-ifs find.
use agent_sessions_backup.Prelude.{ℕ, Bool, Option, List, ℤ}
use Prim.Native.String.{String}

mutual
  pub data AnyValue : Type 0 where
    string_value : String → AnyValue
    bool_value : Bool → AnyValue
    int_value : ℤ → AnyValue
    double_value : ℕ → AnyValue
    array_value : Values → AnyValue
    kvlist_value : KeyValues → AnyValue
    bytes_value : List ℕ → AnyValue
    no_value : AnyValue

  pub data Values : Type 0 where
    no_values : Values
    and_value : AnyValue → Values → Values

  pub data KeyValue : Type 0 where
    key_only : Option String → KeyValue
    key_value : Option String → AnyValue → KeyValue

  pub data KeyValues : Type 0 where
    no_pairs : KeyValues
    and_pair : KeyValue → KeyValues → KeyValues

-- An enumeration arrives as a number, as a name, or as something else. A number here is a natural
-- one: OTLP has no other.
pub data EnumValue : Type 0 where
  enum_number : ℕ → EnumValue
  enum_name : String → EnumValue
  enum_other : EnumValue

pub record Resource : Type 0 where
  pub attributes : KeyValues
  pub dropped_attributes_count : Option ℕ

pub record Scope : Type 0 where
  pub name : Option String
  pub version : Option String
  pub attributes : KeyValues
  pub dropped_attributes_count : Option ℕ

pub record LogRecord : Type 0 where
  pub time_unix_nano : Option ℤ
  pub severity_number : Option EnumValue
  pub severity_text : Option String
  pub body : Option AnyValue
  pub attributes : KeyValues
  pub dropped_attributes_count : Option ℕ
  pub flags : Option ℕ
  pub trace_id : Option (List ℕ)
  pub span_id : Option (List ℕ)
  pub observed_time_unix_nano : Option ℤ

pub record Status : Type 0 where
  pub message : Option String
  pub code : Option EnumValue

pub record Event : Type 0 where
  pub time_unix_nano : Option ℤ
  pub name : Option String
  pub attributes : KeyValues
  pub dropped_attributes_count : Option ℕ

pub record Link : Type 0 where
  pub trace_id : Option (List ℕ)
  pub span_id : Option (List ℕ)
  pub trace_state : Option String
  pub attributes : KeyValues
  pub dropped_attributes_count : Option ℕ
  pub flags : Option ℕ

pub record Span : Type 0 where
  pub trace_id : Option (List ℕ)
  pub span_id : Option (List ℕ)
  pub trace_state : Option String
  pub parent_span_id : Option (List ℕ)
  pub name : Option String
  pub kind : Option EnumValue
  pub start_time_unix_nano : Option ℤ
  pub end_time_unix_nano : Option ℤ
  pub attributes : KeyValues
  pub dropped_attributes_count : Option ℕ
  pub events : List Event
  pub dropped_events_count : Option ℕ
  pub links : List Link
  pub dropped_links_count : Option ℕ
  pub status : Option Status
  pub flags : Option ℕ

-- A `ScopeLogs` or `ScopeSpans`, and a `ResourceLogs` or `ResourceSpans`, over their records.
pub record ScopeItem (R : Type 0) : Type 0 where
  pub scope : Option Scope
  pub records : List R
  pub schema_url : Option String

pub record ResourceItem (R : Type 0) : Type 0 where
  pub resource : Option Resource
  pub scopes : List (ScopeItem R)
  pub schema_url : Option String
