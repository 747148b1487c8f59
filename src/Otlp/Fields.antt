-- ===== src/Otlp/Fields.antt =====
-- Reading a message back, field by field: rules for the pieces that the encoder appends.
use agent_sessions_backup.Otlp.Wire.{push_varint, push_tag, push_len_field, push_varint_field}
use agent_sessions_backup.Otlp.Encode.{when, for_each}
use agent_sessions_backup.Otlp.Decode.{
  WireField, varint_field, fixed64_field, len_field, fixed32_field, read_varint, read_bytes,
  read_payload, read_field, read_fields, read_message,
}
use agent_sessions_backup.Otlp.Schema.{opt, each}
use agent_sessions_backup.Otlp.Varints.{read_varint-push_varint, push_varint-length}
use mathlib.Core.Option
use agent_sessions_backup.Prelude.{
  ℕ, zero, suc, ◌+◌, ◌*◌, ◌/◌, ◌%◌, ◌^◌, ◌≤◌, ◌<◌, ◌≡◌, refl, ap, Option, none, some, List, [], ◌∷◌,
  ◌++◌, append-nil, append_assoc, arith, length, All, length-append, take-append, drop-append,
}

-- The bytes are these fields, one after the other.
pub data Reads : List ℕ → List WireField → Type 0 where
  done : Reads [] []
  next :
      {bytes rest : List ℕ} {field : WireField} {fields : List WireField}
      → read_field bytes ≡ some (field, rest)
      → length rest < length bytes
      → Reads rest fields
      → Reads bytes (field ∷ fields)

Reads-read_fields :
    (fuel : ℕ) {bytes : List ℕ} {fields : List WireField}
    → length bytes ≤ fuel
    → Reads bytes fields
    → read_fields fuel bytes ≡ some fields
unfolding read_fields
Reads-read_fields fuel h done = refl
Reads-read_fields zero h (next {bytes} e shorter r) = absurd (omega arith)
Reads-read_fields (suc fuel) h (next {bytes = []} e shorter r) = elim shorter [ ]
Reads-read_fields (suc fuel) h (next {bytes = b ∷ bytes} e shorter r) =
    rw (e, read_fields) (ap (Option.map (◌∷◌ _)) (Reads-read_fields fuel (omega arith) r))

-- A payload whose length a 32-bit varint can carry.
abbrev pub IsShort : WireField → Type 0
IsShort (len_field number bytes) = length bytes < 2 ^ 32
IsShort (varint_field number v) = Unit {0}
IsShort (fixed64_field number bytes) = Unit {0}
IsShort (fixed32_field number bytes) = Unit {0}

-- The bytes are read as these fields, whatever fields follow.
pub record IsEncoding (bytes : List ℕ) (fields : List WireField) : Type 0 where
  pub reads :
      All IsShort fields
      → (rest : List ℕ) (more : List WireField) → Reads rest more
      → Reads (bytes ++ rest) (fields ++ more)

All-split :
    (P : WireField → Type 0) (fs gs : List WireField) → All P (fs ++ gs) → All P fs × All P gs
All-split P [] gs h = (tt, h)
All-split P (f ∷ fs) gs (p, h) = let (hf, hg) = All-split P fs gs h in ((p, hf), hg)

pub IsEncoding-nil : IsEncoding [] []
IsEncoding-nil = record { reads = λ short rest more r. r }

infixr 6 ◌&◌
pub ◌&◌ :
    {xs ys : List ℕ} {fs gs : List WireField}
    → IsEncoding xs fs
    → IsEncoding ys gs
    → IsEncoding (xs ++ ys) (fs ++ gs)
◌&◌ {xs} {ys} {fs} {gs} ex ey = record {
  reads = λ short rest more r.
      let (sf, sg) = All-split IsShort fs gs short in
      rw (append_assoc xs ys rest, append_assoc fs gs more)
        (ex.reads sf (ys ++ rest) (gs ++ more) (ey.reads sg rest more r));
}

one-IsEncoding :
    (bytes : List ℕ) (field : WireField)
    → (IsShort field → (rest : List ℕ) → read_field (bytes ++ rest) ≡ some (field, rest))
    → 0 < length bytes
    → IsEncoding bytes (field ∷ [])
one-IsEncoding bytes field reads nonempty = record {
  reads =
      λ short rest more r. next (reads short.0 rest) (omega (arith, length-append bytes rest)) r;
}

read_bytes-append :
    (n : ℕ) (bytes rest : List ℕ)
    → length bytes ≡ n
    → read_bytes n (bytes ++ rest) ≡ some (bytes, rest)
unfolding read_bytes
read_bytes-append n bytes rest e =
    rw (← e, take-append bytes rest, drop-append bytes rest)
      (ground (arith, length-append bytes rest))

module _ (number : ℕ) (small : number < 2 ^ 28) where
  read_field-tagged :
      (wire : ℕ) (after : List ℕ)
      → wire < 8
      → read_field (push_tag number wire ++ after) ≡ read_payload number wire after
  unfolding read_field push_tag
  read_field-tagged wire after h =
      let same : (number * 8 + wire) % 2 ^ 32 ≡ number * 8 + wire = omega arith in
      let high : (number * 8 + wire) / 8 ≡ number = omega arith in
      let low : (number * 8 + wire) % 8 ≡ wire = omega arith in
      rw (read_varint-push_varint (number * 8 + wire) after, same, high, low)

  tag-pos : (wire : ℕ) (after : List ℕ) → 0 < length (push_tag number wire ++ after)
  unfolding push_tag
  tag-pos wire after = omega (
    arith,
    (push_varint-length (number * 8 + wire)).0,
    length-append (push_varint (number * 8 + wire)) after,
  )

  pub varint_field-IsEncoding :
      (bytes : List ℕ) (v : ℕ)
      → ((rest : List ℕ) → read_varint (bytes ++ rest) ≡ some (v, rest))
      → IsEncoding (push_tag number 0 ++ bytes) (varint_field number v ∷ [])
  unfolding read_payload
  varint_field-IsEncoding bytes v reads =
      one-IsEncoding _ _
        (λ _ rest.
          rw
            (
              append_assoc (push_tag number 0) bytes rest,
              read_field-tagged 0 (bytes ++ rest) (omega arith),
            )
            (rw (reads rest, read_payload)))
        (tag-pos 0 bytes)

  pub push_varint_field-IsEncoding :
      (n : ℕ) → IsEncoding (push_varint_field number n) (varint_field number (n % 2 ^ 32) ∷ [])
  unfolding push_varint_field
  push_varint_field-IsEncoding n =
      varint_field-IsEncoding (push_varint n) (n % 2 ^ 32) (read_varint-push_varint n)

  pub fixed64_field-IsEncoding :
      (bytes : List ℕ)
      → length bytes ≡ 8
      → IsEncoding (push_tag number 1 ++ bytes) (fixed64_field number bytes ∷ [])
  unfolding read_payload
  fixed64_field-IsEncoding bytes e =
      one-IsEncoding _ _
        (λ _ rest.
          rw
            (
              append_assoc (push_tag number 1) bytes rest,
              read_field-tagged 1 (bytes ++ rest) (omega arith),
            )
            (rw (read_bytes-append 8 bytes rest e, read_payload)))
        (tag-pos 1 bytes)

  pub fixed32_field-IsEncoding :
      (bytes : List ℕ)
      → length bytes ≡ 4
      → IsEncoding (push_tag number 5 ++ bytes) (fixed32_field number bytes ∷ [])
  unfolding read_payload
  fixed32_field-IsEncoding bytes e =
      one-IsEncoding _ _
        (λ _ rest.
          rw
            (
              append_assoc (push_tag number 5) bytes rest,
              read_field-tagged 5 (bytes ++ rest) (omega arith),
            )
            (rw (read_bytes-append 4 bytes rest e, read_payload)))
        (tag-pos 5 bytes)

  push_len_field-read :
      (bytes : List ℕ)
      → length bytes < 2 ^ 32
      → (rest : List ℕ)
      → read_field (push_len_field number bytes ++ rest) ≡ some (len_field number bytes, rest)
  unfolding push_len_field read_payload
  push_len_field-read bytes short rest =
      let same : length bytes % 2 ^ 32 ≡ length bytes = omega arith in
      rw
        (
          append_assoc (push_tag number 2) (push_varint (length bytes) ++ bytes) rest,
          read_field-tagged 2 ((push_varint (length bytes) ++ bytes) ++ rest) (omega arith),
          append_assoc (push_varint (length bytes)) bytes rest,
        )
        (rw (read_varint-push_varint (length bytes) (bytes ++ rest), read_payload)
          (rw (same, read_bytes-append (length bytes) bytes rest refl)))

  pub push_len_field-IsEncoding :
      (bytes : List ℕ) → IsEncoding (push_len_field number bytes) (len_field number bytes ∷ [])
  unfolding push_len_field
  push_len_field-IsEncoding bytes =
      one-IsEncoding _ _ (push_len_field-read bytes)
        (tag-pos 2 (push_varint (length bytes) ++ bytes))

-- A bytes sequence that encodes its fields is read back as them.
pub IsEncoding-read_message :
    (bytes : List ℕ) (fields : List WireField)
    → IsEncoding bytes fields
    → All IsShort fields
    → read_message bytes ≡ some fields
unfolding read_message
IsEncoding-read_message bytes fields e short =
    Reads-read_fields (length bytes) (omega arith)
      (rw (append-nil bytes, append-nil fields) at (e.reads short [] [] done))

module _ {ℓ} {A : Type ℓ} (push : A → List ℕ) (field : A → WireField)
    (each_one : (a : A) → IsEncoding (push a) (field a ∷ [])) where
  pub when-IsEncoding : (o : Option A) → IsEncoding (when o push) (opt o field)
  when-IsEncoding none = IsEncoding-nil
  when-IsEncoding (some a) = each_one a

  pub for_each-IsEncoding : (items : List A) → IsEncoding (for_each items push) (each items field)
  for_each-IsEncoding [] = IsEncoding-nil
  for_each-IsEncoding (a ∷ items) = each_one a & for_each-IsEncoding items
