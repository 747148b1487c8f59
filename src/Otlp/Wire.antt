-- ===== src/Otlp/Wire.antt =====
-- hub/gateway/otlp-protobuf.ts, lines 19-109: tags, varints, fixed-width numbers, length-delimited
-- fields and hexadecimal ids. The source appends to `out`; here each function returns what it
-- appends. A byte is a number below 256. A string is a native string, and `Runtime` holds the two
-- conversions of the JavaScript runtime that the encoder calls on strings: `utf8` for
-- `TextEncoder.encode`, `number_of` for `Number`, with `none` for NaN.
use agent_sessions_backup.Prelude.{
  ℕ, zero, suc, ◌+◌, ◌-◌, ◌*◌, ◌/◌, ◌%◌, ◌^◌, Bool, ◌&&◌, ◌||◌, Option, none, some, List, [], ◌∷◌,
  ◌++◌, ltb, leb, ◌==◌, if◌then◌else◌, length, ℤ, pos, negsuc,
}
use Prim.Native.String.{String}

pub record Runtime : Type 0 where
  pub utf8 : String → List ℕ
  pub number_of : String → Option ℕ
  pub text_of : List ℕ → String

abbrev pub wire_varint : ℕ
wire_varint = 0

abbrev pub wire_fixed64 : ℕ
wire_fixed64 = 1

abbrev pub wire_len : ℕ
wire_len = 2

abbrev pub wire_fixed32 : ℕ
wire_fixed32 = 5

-- The loop that both varint writers run; the fuel is above the value.
unfoldable pub varint_bytes : ℕ → ℕ → List ℕ
varint_bytes zero v = []
varint_bytes (suc fuel) v =
    let rest = varint_bytes fuel (v / 128) in if ltb 0x7f v then (v % 128 + 0x80) ∷ rest else v ∷ []

-- `value >>> 0` is the remainder modulo 2 ^ 32.
unfoldable pub push_varint : ℕ → List ℕ
push_varint value = let v = value % 2 ^ 32 in varint_bytes (suc v) v

unfoldable pub push_tag : ℕ → ℕ → List ℕ
push_tag field wire = push_varint (field * 8 + wire)

-- `value < 0n ? value + (1n << 64n) : value`.
unfoldable pub wrap_big : ℤ → ℤ
wrap_big (pos n) = pos n
wrap_big (negsuc n) = if ltb n (2 ^ 64) then pos (2 ^ 64 - suc n) else negsuc (n - 2 ^ 64)

-- A value that is still negative is pushed as it is, and becomes a byte modulo 256.
unfoldable pub varint_of_big : ℤ → List ℕ
varint_of_big (pos v) = varint_bytes (suc v) v
varint_of_big (negsuc n) = (255 - n % 256) ∷ []

unfoldable pub push_varint_big : ℤ → List ℕ
unfolding varint_of_big wrap_big
push_varint_big value = varint_of_big (wrap_big value)

-- Rounds of `push(v & 0xff); v >>= 8`, on two's complement below 0.
unfoldable pub le_bytes : ℕ → ℕ → List ℕ
le_bytes zero v = []
le_bytes (suc rounds) v = (v % 256) ∷ le_bytes rounds (v / 256)

unfoldable pub le_bytes_neg : ℕ → ℕ → List ℕ
le_bytes_neg zero n = []
le_bytes_neg (suc rounds) n = (255 - n % 256) ∷ le_bytes_neg rounds (n / 256)

unfoldable pub fixed64_of_big : ℤ → List ℕ
fixed64_of_big (pos v) = le_bytes 8 v
fixed64_of_big (negsuc n) = le_bytes_neg 8 n

unfoldable pub push_fixed64 : ℤ → List ℕ
unfolding fixed64_of_big le_bytes_neg wrap_big
push_fixed64 value = fixed64_of_big (wrap_big value)

unfoldable pub push_fixed32 : ℕ → List ℕ
push_fixed32 value = le_bytes 4 (value % 2 ^ 32)

-- A double is the number that its 64 bits spell.
unfoldable pub push_double : ℕ → List ℕ
push_double bits = le_bytes 8 bits

unfoldable pub push_len_field : ℕ → List ℕ → List ℕ
push_len_field field bytes = push_tag field wire_len ++ (push_varint (length bytes) ++ bytes)

unfoldable pub push_string_field : Runtime → ℕ → String → List ℕ
push_string_field rt field value = push_len_field field (rt.utf8 value)

unfoldable pub push_message_field : ℕ → List ℕ → List ℕ
push_message_field field msg = push_len_field field msg

unfoldable pub push_varint_field : ℕ → ℕ → List ℕ
push_varint_field field value = push_tag field wire_varint ++ push_varint value

unfoldable pub push_fixed64_field : ℕ → ℤ → List ℕ
push_fixed64_field field value = push_tag field wire_fixed64 ++ push_fixed64 value

-- The digit of a code unit under `parseInt(…, 16)`.
unfoldable pub hex_digit : ℕ → Option ℕ
hex_digit c =
    if leb b'0' c && leb c b'9'
    then some (c - b'0')
    else (if leb b'a' c && leb c b'f'
        then some (c - b'a' + 10)
        else (if leb b'A' c && leb c b'F' then some (c - b'A' + 10) else none))

-- The code units that `parseInt` skips.
is_space : ℕ → Bool
is_space c =
    (leb 9 c && leb c 13)
    || c == 32
    || c == 160
    || c == 5760
    || (leb 8192 c && leb c 8202)
    || c == 8232
    || c == 8233
    || c == 8239
    || c == 8287
    || c == 12288
    || c == 65279

or_zero : Option ℕ → ℕ
or_zero none = 0
or_zero (some n) = n

-- What `bytes[i] = parseInt(two code units, 16)` stores: NaN becomes 0, -d becomes 256 - d.
parse_after : ℕ → Option ℕ → ℕ
parse_after c second =
    if c == b'-'
    then (256 - or_zero second) % 256
    else (if c == b'+' || is_space c then or_zero second else 0)

two_digits : Option ℕ → Option ℕ → ℕ → ℕ
two_digits (some h) (some l) c = h * 16 + l
two_digits (some h) none c = h
two_digits none second c = parse_after c second

unfoldable pub parse_pair : ℕ → ℕ → ℕ
unfolding two_digits parse_after or_zero is_space
parse_pair c d = two_digits (hex_digit c) (hex_digit d) c

unfoldable pub hex_pairs : List ℕ → List ℕ
hex_pairs (c ∷ d ∷ rest) = parse_pair c d ∷ hex_pairs rest
hex_pairs _ = []

unfoldable pub hex_to_bytes : List ℕ → List ℕ
hex_to_bytes hex = hex_pairs (if length hex % 2 == 1 then b'0' ∷ hex else hex)
