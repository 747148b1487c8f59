-- ===== src/Otlp/Decode.antt =====
-- A reader of the protobuf wire format, written from the format's definition: the independent
-- description that the encoder of hub/gateway/otlp-protobuf.ts is held against.
use agent_sessions_backup.Prelude.{
  ℕ, zero, suc, ◌+◌, ◌-◌, ◌*◌, ◌/◌, ◌%◌, Option, none, some, List, [], ◌∷◌, ltb, leb, ◌==◌,
  if◌then◌else◌, length, take, drop,
}
use mathlib.Core.Option

-- A field of a message: its number, and the value that its wire type carries.
pub data WireField : Type 0 where
  varint_field : ℕ → ℕ → WireField
  fixed64_field : ℕ → List ℕ → WireField
  len_field : ℕ → List ℕ → WireField
  fixed32_field : ℕ → List ℕ → WireField

abbrev more_digits : ℕ → ℕ × List ℕ → ℕ × List ℕ
more_digits b (v, rest) = (b - 128 + 128 * v, rest)

-- Base 128, least significant digit first; the high bit says that more digits follow.
unfoldable pub read_varint : List ℕ → Option (ℕ × List ℕ)
read_varint [] = none
read_varint (b ∷ bytes) =
    if ltb b 128 then some (b, bytes) else Option.map (more_digits b) (read_varint bytes)

-- The first n bytes and the rest.
unfoldable pub read_bytes : ℕ → List ℕ → Option (List ℕ × List ℕ)
read_bytes n bytes = if leb n (length bytes) then some (take n bytes, drop n bytes) else none

infixl 5 ◌>>=◌
abbrev pub ◌>>=◌ {ℓ κ} : {A : Type ℓ} {B : Type κ} → Option A → (A → Option B) → Option B
none >>= k = none
some a >>= k = k a

unfoldable pub read_payload : ℕ → ℕ → List ℕ → Option (WireField × List ℕ)
read_payload number wire bytes =
    let as_varint = read_varint bytes >>= λ (v, rest). some (varint_field number v, rest) in
    let as_fixed64 = read_bytes 8 bytes >>= λ (b, rest). some (fixed64_field number b, rest) in
    let as_fixed32 = read_bytes 4 bytes >>= λ (b, rest). some (fixed32_field number b, rest) in
    let as_len = read_varint bytes >>= λ (n, after).
    read_bytes n after >>= λ (b, rest). some (len_field number b, rest) in
    if wire == 0
    then as_varint
    else (if wire == 1
        then as_fixed64
        else (if wire == 2 then as_len else (if wire == 5 then as_fixed32 else none)))

unfoldable pub read_field : List ℕ → Option (WireField × List ℕ)
read_field bytes = read_varint bytes >>= λ (tag, rest). read_payload (tag / 8) (tag % 8) rest

-- All fields of a message. Each takes at least a byte, so the fuel is the number of bytes.
unfoldable pub read_fields : ℕ → List ℕ → Option (List WireField)
read_fields fuel [] = some []
read_fields zero (b ∷ bytes) = none
read_fields (suc fuel) (b ∷ bytes) = elim (read_field (b ∷ bytes)) [
  | none ↦ none
  | some (field, rest) ↦ Option.map (◌∷◌ field) (read_fields fuel rest)
]

unfoldable pub read_message : List ℕ → Option (List WireField)
unfolding read_fields read_field read_payload read_varint read_bytes
read_message bytes = read_fields (length bytes) bytes

-- The number that little-endian bytes spell.
unfoldable pub from_le : List ℕ → ℕ
from_le [] = 0
from_le (b ∷ bytes) = b + 256 * from_le bytes
