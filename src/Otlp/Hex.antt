-- ===== src/Otlp/Hex.antt =====
-- Trace and span ids of hub/gateway/otlp-protobuf.ts: hexadecimal text to bytes.
use agent_sessions_backup.Otlp.Wire.{parse_pair, hex_digit, hex_pairs, hex_to_bytes}
use agent_sessions_backup.Prelude.{
  ℕ, ◌+◌, ◌-◌, ◌*◌, ◌/◌, ◌%◌, ◌<◌, ◌≡◌, refl, inl, inr, false, some, List, [], ◌∷◌, arith, ltb,
  ◌==◌, if◌then◌else◌, Bool-cases, length, All,
}

-- Lower-case hexadecimal text, written independently of the parser.
abbrev pub digit_code : ℕ → ℕ
digit_code d = if ltb d 10 then b'0' + d else b'a' + (d - 10)

unfoldable pub to_hex : List ℕ → List ℕ
to_hex [] = []
to_hex (b ∷ bytes) = digit_code (b / 16) ∷ digit_code (b % 16) ∷ to_hex bytes

hex_digit-digit_code : (d : ℕ) → d < 16 → hex_digit (digit_code d) ≡ some d
unfolding hex_digit
hex_digit-digit_code d h = ground arith

parse_pair-digits : (b : ℕ) → b < 256 → parse_pair (digit_code (b / 16)) (digit_code (b % 16)) ≡ b
unfolding parse_pair
parse_pair-digits b h =
    rw (hex_digit-digit_code (b / 16) (omega arith), hex_digit-digit_code (b % 16) (omega arith))
      (omega arith)

hex_pairs-to_hex : (bytes : List ℕ) → All (λ b. b < 256) bytes → hex_pairs (to_hex bytes) ≡ bytes
unfolding hex_pairs to_hex
hex_pairs-to_hex [] h = refl
hex_pairs-to_hex (b ∷ bytes) (hb, h) = cc (parse_pair-digits b hb, hex_pairs-to_hex bytes h)

to_hex-length : (bytes : List ℕ) → length (to_hex bytes) ≡ 2 * length bytes
unfolding to_hex
to_hex-length [] = omega arith
to_hex-length (b ∷ bytes) = omega (arith, to_hex-length bytes)

-- An id survives: the bytes of its hexadecimal text are the bytes that were printed.
pub hex_to_bytes-to_hex :
    (bytes : List ℕ) → All (λ b. b < 256) bytes → hex_to_bytes (to_hex bytes) ≡ bytes
unfolding hex_to_bytes
hex_to_bytes-to_hex bytes h =
    let even : (length (to_hex bytes) % 2 == 1) ≡ false = ground (arith, to_hex-length bytes) in
    rw even (hex_pairs-to_hex bytes h)

hex_pairs-length : (hex : List ℕ) → length (hex_pairs hex) ≡ length hex / 2
unfolding hex_pairs
hex_pairs-length [] = omega arith
hex_pairs-length (c ∷ []) = omega arith
hex_pairs-length (c ∷ d ∷ rest) = omega (arith, hex_pairs-length rest)

-- Any text of n code units, valid or not, yields n / 2 bytes, rounded up.
pub hex_to_bytes-length : (hex : List ℕ) → length (hex_to_bytes hex) ≡ (length hex + 1) / 2
unfolding hex_to_bytes
hex_to_bytes-length hex = elim (Bool-cases (length hex % 2 == 1)) [
  | inl odd ↦ rw odd (omega (arith, hex_pairs-length (b'0' ∷ hex)))
  | inr even ↦ rw even (ground (arith, hex_pairs-length hex))
]
