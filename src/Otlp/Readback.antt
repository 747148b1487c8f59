-- ===== src/Otlp/Readback.antt =====
-- The encoder of hub/gateway/otlp-protobuf.ts: rules for what its pieces mean.
use agent_sessions_backup.Otlp.Wire.{
  Runtime, push_varint_field, push_fixed64_field, push_fixed64, push_double, push_len_field,
  push_string_field, push_message_field, push_fixed32, hex_to_bytes, push_varint_big, push_tag,
}
use agent_sessions_backup.Otlp.Values.{EnumValue, enum_number, enum_name, enum_other}
use agent_sessions_backup.Otlp.Encode.{enum_int, name_or, push_fixed32_field}
use agent_sessions_backup.Otlp.Decode.{
  WireField, len_field, fixed64_field, fixed32_field, varint_field,
}
use agent_sessions_backup.Otlp.Hex.{to_hex, hex_to_bytes-to_hex}
use agent_sessions_backup.Otlp.Varints.{
  to_u64, IsInt64, from_le-push_fixed64, from_le-push_fixed32, push_fixed32-length,
  read_varint-push_varint_big, from_le-push_double, push_double-length,
}
use agent_sessions_backup.Otlp.Fields.{
  IsShort, IsEncoding, IsEncoding-nil, ◌&◌, IsEncoding-read_message, push_varint_field-IsEncoding,
  varint_field-IsEncoding, fixed64_field-IsEncoding, fixed32_field-IsEncoding,
  push_len_field-IsEncoding,
}
use agent_sessions_backup.Otlp.Trees.{
  Fields, no_fields, and_varint, and_fixed64, and_fixed32, and_bytes, and_id, and_message, ◌then◌,
  Means, IsReadAs, varint, count, time, flags_of, id_of, message, plain, enum_value, number_named,
  or_parsed,
}
use Prim.Native.String.{String}
use text.Mathlib.Text.{◌==◌ as str_eq}
use agent_sessions_backup.Prelude.{
  ℕ, ◌%◌, ◌^◌, ◌<◌, ◌≡◌, refl, sym, ap, ◌∙◌, subst, inl, inr, Option, none, some, List, [], ◌∷◌,
  ◌++◌, if◌then◌else◌, Bool-cases, Option-cases, length, All, All-append, ℤ,
}

-- The bytes are read as fields with this meaning, whatever fields follow.
pub record Encodes (bytes : List ℕ) (fields : Fields) : Type 0 where
  pub wire : List WireField
  pub encoding : IsEncoding bytes wire
  pub short : All IsShort wire
  pub means : Means wire fields

pub Encodes-IsReadAs :
    {bytes : List ℕ} {fields : Fields} → Encodes bytes fields → IsReadAs bytes fields
Encodes-IsReadAs {bytes} e = record {
  wire = e.wire;
  is_read = IsEncoding-read_message bytes e.wire e.encoding e.short;
  means = e.means;
}

pub Encodes-nil : Encodes [] no_fields
Encodes-nil = record { wire = []; encoding = IsEncoding-nil; short = tt; means = refl }

Means-then :
    (ws vs : List WireField) (t u : Fields) → Means ws t → Means vs u → Means (ws ++ vs) (t then u)
Means-then ws vs no_fields u e m = rw e m
Means-then ws vs (and_varint n v rest) u (after, e, m) k =
    (after ++ vs, ap (λ xs. xs ++ vs) e, Means-then after vs rest u m k)
Means-then ws vs (and_fixed64 n v rest) u (after, payload, e, p, m) k =
    (after ++ vs, payload, ap (λ xs. xs ++ vs) e, p, Means-then after vs rest u m k)
Means-then ws vs (and_fixed32 n v rest) u (after, payload, e, p, m) k =
    (after ++ vs, payload, ap (λ xs. xs ++ vs) e, p, Means-then after vs rest u m k)
Means-then ws vs (and_bytes n v rest) u (after, e, m) k =
    (after ++ vs, ap (λ xs. xs ++ vs) e, Means-then after vs rest u m k)
Means-then ws vs (and_id n v rest) u (after, payload, e, p, m) k =
    (after ++ vs, payload, ap (λ xs. xs ++ vs) e, p, Means-then after vs rest u m k)
Means-then ws vs (and_message n inner rest) u (after, payload, e, p, m) k =
    (after ++ vs, payload, ap (λ xs. xs ++ vs) e, p, Means-then after vs rest u m k)

infixr 6 ◌&&&◌
pub ◌&&&◌ :
    {xs ys : List ℕ} {t u : Fields} → Encodes xs t → Encodes ys u → Encodes (xs ++ ys) (t then u)
◌&&&◌ {t} {u} a b = record {
  wire = a.wire ++ b.wire;
  encoding = a.encoding & b.encoding;
  short = All-append IsShort a.wire b.wire a.short b.short;
  means = Means-then a.wire b.wire t u a.means b.means;
}

-- An id is the hexadecimal text, in lower case, of bytes.
abbrev pub IsId : List ℕ → Type 0
IsId id =
    (bytes : List ℕ) × (id ≡ to_hex bytes) × All (λ b. b < 256) bytes × (length bytes < 2 ^ 32)

-- A payload of these bytes has a length that a 32-bit varint can carry.
abbrev pub IsShortPayload : List ℕ → Type 0
IsShortPayload bytes = length bytes < 2 ^ 32

module _ (number : ℕ) (small : number < 2 ^ 28) where
  pub count-Encodes : (n : ℕ) → Encodes (push_varint_field number n) (count number n)
  count-Encodes n = record {
    wire = varint_field number (n % 2 ^ 32) ∷ [];
    encoding = push_varint_field-IsEncoding number small n;
    short = (tt, tt);
    means = ([], refl, refl);
  }

  pub time-Encodes : (t : ℤ) → IsInt64 t → Encodes (push_fixed64_field number t) (time number t)
  unfolding push_fixed64_field
  time-Encodes t h =
      let (len, spelled) = from_le-push_fixed64 t h in
      record {
        wire = fixed64_field number (push_fixed64 t) ∷ [];
        encoding = fixed64_field-IsEncoding number small (push_fixed64 t) len;
        short = (tt, tt);
        means = ([], push_fixed64 t, refl, spelled, refl);
      }

  pub flags-Encodes : (n : ℕ) → Encodes (push_fixed32_field number n) (flags_of number n)
  unfolding push_fixed32_field
  flags-Encodes n = record {
    wire = fixed32_field number (push_fixed32 n) ∷ [];
    encoding = fixed32_field-IsEncoding number small (push_fixed32 n) (push_fixed32-length n);
    short = (tt, tt);
    means = ([], push_fixed32 n, refl, from_le-push_fixed32 n, refl);
  }

  pub big-Encodes :
      (n : ℤ)
      → IsInt64 n
      → Encodes (push_tag number 0 ++ push_varint_big n) (varint number (to_u64 n))
  big-Encodes n h = record {
    wire = varint_field number (to_u64 n) ∷ [];
    encoding =
        varint_field-IsEncoding number small (push_varint_big n) (to_u64 n)
          (λ rest. read_varint-push_varint_big n rest h);
    short = (tt, tt);
    means = ([], refl, refl);
  }

  pub double-Encodes :
      (bits : ℕ)
      → bits < 2 ^ 64
      → Encodes (push_tag number 1 ++ push_double bits) (and_fixed64 number bits no_fields)
  double-Encodes bits h = record {
    wire = fixed64_field number (push_double bits) ∷ [];
    encoding = fixed64_field-IsEncoding number small (push_double bits) (push_double-length bits);
    short = (tt, tt);
    means = ([], push_double bits, refl, from_le-push_double bits h, refl);
  }

  pub bytes-Encodes :
      (bytes : List ℕ)
      → IsShortPayload bytes
      → Encodes (push_len_field number bytes) (and_bytes number bytes no_fields)
  bytes-Encodes bytes h = record {
    wire = len_field number bytes ∷ [];
    encoding = push_len_field-IsEncoding number small bytes;
    short = (h, tt);
    means = ([], refl, refl);
  }

  pub text-Encodes :
      (rt : Runtime) (s : String)
      → IsShortPayload (rt.utf8 s)
      → Encodes (push_string_field rt number s) (plain rt number s)
  unfolding push_string_field
  text-Encodes rt s h = bytes-Encodes (rt.utf8 s) h

  pub id-Encodes :
      (id : List ℕ) → IsId id → Encodes (push_len_field number (hex_to_bytes id)) (id_of number id)
  id-Encodes id (bytes, e, small_bytes, few) =
      let same : hex_to_bytes id ≡ bytes =
        ap hex_to_bytes e ∙ hex_to_bytes-to_hex bytes small_bytes in
      record {
        wire = len_field number (hex_to_bytes id) ∷ [];
        encoding = push_len_field-IsEncoding number small (hex_to_bytes id);
        short = (subst IsShortPayload (sym same) few, tt);
        means = ([], hex_to_bytes id, refl, ap to_hex same ∙ sym e, refl);
      }

  pub message-Encodes :
      {bytes : List ℕ} {fields : Fields}
      → IsShortPayload bytes
      → Encodes bytes fields
      → Encodes (push_message_field number bytes) (message number fields)
  unfolding push_message_field
  message-Encodes {bytes} h e = record {
    wire = len_field number bytes ∷ [];
    encoding = push_len_field-IsEncoding number small bytes;
    short = (h, tt);
    means = (
      [],
      bytes,
      refl,
      (e.wire, IsEncoding-read_message bytes e.wire e.encoding e.short, e.means),
      refl,
    );
  }

name_or-number_named :
    (rt : Runtime) (s : String) (table : List (String × ℕ)) (default : ℕ)
    → ((parsed : Option ℕ)
        → or_parsed none parsed ≡ default
        → name_or s table default ≡ or_parsed (number_named s table) parsed)
unfolding name_or
name_or-number_named rt s [] default parsed e = sym e
name_or-number_named rt s ((name, n) ∷ table) default parsed e = elim (Bool-cases (str_eq name s)) [
  | inl t ↦ rw (t, name_or) refl
  | inr t ↦ rw (t, name_or) (name_or-number_named rt s table default parsed e)
]

pub enum_int-enum_value :
    (rt : Runtime) (table : List (String × ℕ)) (e : EnumValue)
    → enum_int rt e table ≡ enum_value rt table e
unfolding enum_int
enum_int-enum_value rt table (enum_number n) = refl
enum_int-enum_value rt table (enum_name s) = elim (Option-cases (rt.number_of s)) [
  | inl n ↦ rw (n, enum_int) (name_or-number_named rt s table 0 none refl)
  | inr (k, n) ↦ rw (n, enum_int) (name_or-number_named rt s table k (some k) refl)
]
enum_int-enum_value rt table enum_other = refl

pub enum-Encodes :
    (rt : Runtime) (number : ℕ) (small : number < 2 ^ 28) (ours table : List (String × ℕ))
    (same : ours ≡ table) (e : EnumValue)
    → Encodes (push_varint_field number (enum_int rt e ours)) (count number (enum_value rt table e))
enum-Encodes rt number small ours table same e =
    subst (λ v. Encodes (push_varint_field number (enum_int rt e ours)) (count number v))
      (enum_int-enum_value rt ours e ∙ ap (λ t. enum_value rt t e) same)
      (count-Encodes number small (enum_int rt e ours))
