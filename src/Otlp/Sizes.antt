-- ===== src/Otlp/Sizes.antt =====
-- The size that the chunker of hub/gateway/otlp-protobuf.ts reckons with, against the bytes that
-- are written.
use agent_sessions_backup.Otlp.Wire.{
  Runtime, varint_bytes, push_varint, push_tag, push_len_field, push_message_field,
  push_string_field,
}
use agent_sessions_backup.Otlp.Encode.{when, for_each}
use agent_sessions_backup.Otlp.Chunks.{
  varint_size_from, varint_size, record_field_size, record_field, build_request,
}
use agent_sessions_backup.Otlp.Varints.{push_varint-length}
use Prim.Native.String.{String}
use agent_sessions_backup.Prelude.{
  ℕ, zero, suc, ◌+◌, ◌/◌, ◌%◌, ◌^◌, ◌≤◌, ◌<◌, ◌≡◌, refl, Option, List, [], ◌∷◌, ◌++◌, map, arith,
  length, concat, length-append,
}

varint_size_from-length :
    (fuel v size : ℕ)
    → v < fuel
    → varint_size_from fuel v (suc size) ≡ size + length (varint_bytes fuel v)
unfolding varint_size_from varint_bytes
varint_size_from-length zero v size h = elim h [ ]
varint_size_from-length (suc fuel) v size h =
    let next : suc size + 1 ≡ suc (size + 1) = omega arith in
    rw next (ground (arith, varint_size_from-length fuel (v / 128) (size + 1)))

-- `varintSize` is the length of the varint that `pushVarint` writes.
pub varint_size-length : (value : ℕ) → varint_size value ≡ length (push_varint value)
unfolding varint_size push_varint
varint_size-length value =
    omega (arith, varint_size_from-length (suc (value % 2 ^ 32)) (value % 2 ^ 32) 0 (omega arith))

varint_size_bounds : (value : ℕ) → (0 < varint_size value) × (varint_size value ≤ 5)
varint_size_bounds value = omega (arith, varint_size-length value, push_varint-length value)

-- The message fields that the chunker writes have one byte of tag.
small_tag : (number : ℕ) → number < 16 → length (push_tag number 2) ≡ 1
unfolding push_tag push_varint varint_bytes
small_tag number h = ground arith

-- `recordFieldSize` is the number of bytes that a record of this length adds to its scope.
pub record_field_size-length :
    (number : ℕ) (msg : List ℕ)
    → number < 16
    → length (push_message_field number msg) ≡ record_field_size (length msg)
unfolding record_field_size push_message_field push_len_field
record_field_size-length number msg h = omega (
  arith,
  length-append (push_tag number 2) (push_varint (length msg) ++ msg),
  length-append (push_varint (length msg)) msg,
  small_tag number h,
  varint_size-length (length msg),
)

-- What these records add to their scope.
unfoldable pub total_size : List (List ℕ) → ℕ
total_size [] = 0
total_size (r ∷ rs) = record_field_size (length r) + total_size rs

for_each-length :
    (records : List (List ℕ))
    → length (for_each records (push_message_field record_field)) ≡ total_size records
unfolding total_size
for_each-length [] = refl
for_each-length (r ∷ rs) = omega (
  arith,
  length-append (push_message_field 2 r) (for_each rs (push_message_field 2)),
  record_field_size-length 2 r (omega arith),
  for_each-length rs,
)

-- The same, record by record.
pub written_size :
    (records : List (List ℕ))
    → length (concat (map (push_message_field 2) records)) ≡ total_size records
unfolding total_size
written_size [] = refl
written_size (r ∷ rs) = omega (
  arith,
  length-append (push_message_field 2 r) (concat (map (push_message_field 2) rs)),
  record_field_size-length 2 r (omega arith),
  written_size rs,
)

framed_bounds :
    (number : ℕ) (msg : List ℕ)
    → number < 16
    → (2 + length msg ≤ length (push_message_field number msg))
      × (length (push_message_field number msg) ≤ 6 + length msg)
unfolding record_field_size
framed_bounds number msg h =
    omega (arith, record_field_size-length number msg h, varint_size_bounds (length msg))

three-length :
    (xs ys zs : List ℕ) → length (concat (xs ∷ ys ∷ zs ∷ [])) ≡ length xs + length ys + length zs
three-length xs ys zs =
    omega
      (arith, length-append xs (ys ++ (zs ++ [])), length-append ys (zs ++ []), length-append zs [])

frame_slack :
    (before after left right items : List ℕ)
    → let inner = λ (xs : List ℕ). concat (left ∷ xs ∷ right ∷ []) in
      let outer = λ (xs : List ℕ).
        push_message_field 1 (concat (before ∷ push_message_field 2 (inner xs) ∷ after ∷ [])) in
      length (outer items) ≤ length (outer []) + length items + 8
frame_slack before after left right items =
    let inner = λ (xs : List ℕ). concat (left ∷ xs ∷ right ∷ []) in
    let middle = λ (xs : List ℕ). concat (before ∷ push_message_field 2 (inner xs) ∷ after ∷ []) in
    omega (
      arith,
      framed_bounds 1 (middle items) (omega arith),
      framed_bounds 1 (middle []) (omega arith),
      three-length before (push_message_field 2 (inner items)) after,
      three-length before (push_message_field 2 (inner [])) after,
      framed_bounds 2 (inner items) (omega arith),
      framed_bounds 2 (inner []) (omega arith),
      three-length left items right,
      three-length left [] right,
    )

-- A request is at most eight bytes longer than the empty request and what its records add: the two
-- enclosing length prefixes may grow by four bytes each.
pub build_request-length :
    (rt : Runtime) (res scope : Option (List ℕ)) (res_schema scope_schema : Option String)
    (records : List (List ℕ))
    → length (build_request rt res scope res_schema scope_schema records)
      ≤ length (build_request rt res scope res_schema scope_schema []) + total_size records + 8
unfolding build_request
build_request-length rt res scope res_schema scope_schema records =
    let slack =
      frame_slack (when res (push_message_field 1)) (when res_schema (push_string_field rt 3))
        (when scope (push_message_field 1)) (when scope_schema (push_string_field rt 3))
        (for_each records (push_message_field record_field)) in
    rw (for_each-length records) at slack
