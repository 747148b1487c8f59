-- ===== src/Otlp/Varints.antt =====
-- Numbers on the wire: what is read back, and how many bytes they take.
use agent_sessions_backup.Otlp.Wire.{
  varint_bytes, push_double, le_bytes_neg, fixed64_of_big, push_varint, push_varint_big, wrap_big,
  push_fixed64, push_fixed32, le_bytes,
}
use agent_sessions_backup.Otlp.Decode.{read_varint, from_le}
use agent_sessions_backup.Prelude.{
  ℕ, zero, suc, ◌-◌, ◌*◌, ◌/◌, ◌%◌, ◌^◌, ◌≤◌, ◌<◌, ◌≡◌, refl, ap, inl, inr, some, List, ◌++◌, arith,
  ltb, lt→ltb, Bool-cases, length, ℤ, pos, negsuc,
}
use native.Mathlib.Nat.{pow-suc}

varint_bytes-read :
    (fuel v : ℕ) (rest : List ℕ)
    → v < fuel
    → read_varint (varint_bytes fuel v ++ rest) ≡ some (v, rest)
unfolding varint_bytes read_varint
varint_bytes-read zero v rest h = elim h [ ]
varint_bytes-read (suc fuel) v rest h = elim (Bool-cases (ltb 0x7f v)) [
  | inl long ↦
      rw (long, ◌++◌) (ground (arith, varint_bytes-read fuel (v / 128) rest (ground arith)))
  | inr short ↦ rw short (ground arith)
]

-- A varint is read back as the value modulo 2 ^ 32, whatever follows it.
pub read_varint-push_varint :
    (value : ℕ) (rest : List ℕ)
    → read_varint (push_varint value ++ rest) ≡ some (value % 2 ^ 32, rest)
unfolding push_varint
read_varint-push_varint value rest =
    varint_bytes-read (suc (value % 2 ^ 32)) (value % 2 ^ 32) rest (omega arith)

-- The unsigned 64-bit pattern of a signed integer.
abbrev pub to_u64 : ℤ → ℕ
to_u64 (pos n) = n
to_u64 (negsuc n) = 2 ^ 64 - suc n

abbrev pub IsInt64 : ℤ → Type 0
IsInt64 (pos n) = n < 2 ^ 63
IsInt64 (negsuc n) = n < 2 ^ 63

-- The varint of a 64-bit integer is read back as its two's complement.
pub read_varint-push_varint_big :
    (value : ℤ) (rest : List ℕ)
    → IsInt64 value
    → read_varint (push_varint_big value ++ rest) ≡ some (to_u64 value, rest)
unfolding push_varint_big wrap_big
read_varint-push_varint_big (pos n) rest h = varint_bytes-read (suc n) n rest (omega arith)
read_varint-push_varint_big (negsuc n) rest h =
    let m = 2 ^ 64 - suc n in
    rw (lt→ltb n (2 ^ 64) (omega arith)) (varint_bytes-read (suc m) m rest (omega arith))

varint_bytes-pos : (fuel v : ℕ) → 0 < length (varint_bytes (suc fuel) v)
unfolding varint_bytes
varint_bytes-pos fuel v = ground arith

varint_bytes-length :
    (digits fuel v : ℕ) → v < 128 ^ suc digits → length (varint_bytes fuel v) ≤ suc digits
unfolding varint_bytes
varint_bytes-length digits zero v h = omega arith
varint_bytes-length zero (suc fuel) v h = ground arith
varint_bytes-length (suc digits) (suc fuel) v h =
    let bound : v < 128 ^ suc digits * 128 = rw (← pow-suc 128 (suc digits)) h in
    ground (arith, varint_bytes-length digits fuel (v / 128) (omega arith))

le_bytes-length : (rounds v : ℕ) → length (le_bytes rounds v) ≡ rounds
unfolding le_bytes
le_bytes-length zero v = refl
le_bytes-length (suc rounds) v = ap suc (le_bytes-length rounds (v / 256))

from_le-le_bytes : (rounds v : ℕ) → v < 256 ^ rounds → from_le (le_bytes rounds v) ≡ v
unfolding from_le le_bytes
from_le-le_bytes zero v h = omega arith
from_le-le_bytes (suc rounds) v h =
    let bound : v < 256 ^ rounds * 256 = rw (← pow-suc 256 rounds) h in
    omega (arith, from_le-le_bytes rounds (v / 256) (omega arith))

-- Five bytes hold any varint of 32 bits, and one byte at least is written.
pub push_varint-length :
    (value : ℕ) → (0 < length (push_varint value)) × (length (push_varint value) ≤ 5)
unfolding push_varint
push_varint-length value = (
  varint_bytes-pos (value % 2 ^ 32) (value % 2 ^ 32),
  varint_bytes-length 4 (suc (value % 2 ^ 32)) (value % 2 ^ 32) (omega arith),
)

-- The eight bytes of a nanosecond timestamp spell it, and those of a negative one its two's
-- complement.
pub from_le-push_fixed64 :
    (value : ℤ)
    → IsInt64 value
    → (length (push_fixed64 value) ≡ 8) × (from_le (push_fixed64 value) ≡ to_u64 value)
unfolding push_fixed64 wrap_big
from_le-push_fixed64 (pos n) h = (le_bytes-length 8 n, from_le-le_bytes 8 n (omega arith))
from_le-push_fixed64 (negsuc n) h =
    let m = 2 ^ 64 - suc n in
    rw (lt→ltb n (2 ^ 64) (omega arith)) (le_bytes-length 8 m, from_le-le_bytes 8 m (omega arith))

pub push_fixed32-length : (value : ℕ) → length (push_fixed32 value) ≡ 4
unfolding push_fixed32
push_fixed32-length value = le_bytes-length 4 (value % 2 ^ 32)

le_bytes_neg-length : (rounds n : ℕ) → length (le_bytes_neg rounds n) ≡ rounds
unfolding le_bytes_neg
le_bytes_neg-length zero n = refl
le_bytes_neg-length (suc rounds) n = ap suc (le_bytes_neg-length rounds (n / 256))

fixed64_of_big-length : (value : ℤ) → length (fixed64_of_big value) ≡ 8
unfolding fixed64_of_big
fixed64_of_big-length (pos n) = le_bytes-length 8 n
fixed64_of_big-length (negsuc n) = le_bytes_neg-length 8 n

pub push_fixed64-length : (value : ℤ) → length (push_fixed64 value) ≡ 8
unfolding push_fixed64
push_fixed64-length value = fixed64_of_big-length (wrap_big value)

pub push_double-length : (bits : ℕ) → length (push_double bits) ≡ 8
unfolding push_double
push_double-length bits = le_bytes-length 8 bits

pub from_le-push_fixed32 : (value : ℕ) → from_le (push_fixed32 value) ≡ value % 2 ^ 32
unfolding push_fixed32
from_le-push_fixed32 value = from_le-le_bytes 4 (value % 2 ^ 32) (omega arith)

pub from_le-push_double : (bits : ℕ) → bits < 2 ^ 64 → from_le (push_double bits) ≡ bits
unfolding push_double
from_le-push_double bits h = from_le-le_bytes 8 bits (omega arith)
