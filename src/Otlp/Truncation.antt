-- ===== src/Otlp/Truncation.antt =====
-- `truncateUtf8` of hub/gateway/otlp-protobuf.ts: the cut respects the byte budget and the code
-- points.
use agent_sessions_backup.Otlp.Chunks.{is_continuation, back_off, truncate_utf8}
use agent_sessions_backup.Prelude.{
  ℕ, zero, suc, ◌%◌, ◌≤◌, ◌<◌, ◌≡◌, refl, ◌⊎◌, inl, inr, true, false, ◌&&◌, Option, none, some,
  List, ◌∷◌, arith, ltb, leb, ◌==◌, if◌then◌else◌, ltb→lt, leb→le, ==_iff, Bool-cases, length, take,
  get_elem?,
}

-- No byte `10xxxxxx` stands there: it is the start of a code point or the end of the text.
abbrev StartsPoint : Option ℕ → Type 0
StartsPoint none = Unit {0}
StartsPoint (some b) = (b % 256 < 128) ⊎ (192 ≤ b % 256)

-- The start of a code point, or the start or the end of the text.
abbrev pub IsBoundary : List ℕ → ℕ → Type 0
IsBoundary enc n = (n ≡ 0) ⊎ StartsPoint (get_elem? enc n)

-- What decoding drops: the byte order mark at the start, if there is one.
abbrev pub without_mark : List ℕ → List ℕ
without_mark (a ∷ b ∷ c ∷ bytes) =
    if a == 239 && b == 187 && c == 191 then bytes else a ∷ b ∷ c ∷ bytes
without_mark bytes = bytes

is_continuation-StartsPoint : (byte : Option ℕ) → is_continuation byte ≡ false → StartsPoint byte
unfolding is_continuation
is_continuation-StartsPoint none h = tt
is_continuation-StartsPoint (some b) h = elim (Bool-cases (ltb (b % 256) 128)) [
  | inl t ↦ inl (ground arith)
  | inr t ↦ inr (ground arith)
]

StartsPoint-is_continuation : (byte : Option ℕ) → StartsPoint byte → is_continuation byte ≡ false
unfolding is_continuation
StartsPoint-is_continuation none h = refl
StartsPoint-is_continuation (some b) (inl h) = ground arith
StartsPoint-is_continuation (some b) (inr h) = ground arith

back_off-IsBoundary : (enc : List ℕ) (end : ℕ) → IsBoundary enc (back_off enc end)
unfolding back_off
back_off-IsBoundary enc zero = inl refl
back_off-IsBoundary enc (suc end) = elim (Bool-cases (is_continuation (get_elem? enc (suc end)))) [
  | inl inside ↦ rw inside (back_off-IsBoundary enc end)
  | inr start ↦ rw start (inr (is_continuation-StartsPoint (get_elem? enc (suc end)) start))
]

back_off-le : (enc : List ℕ) (end : ℕ) → back_off enc end ≤ end
unfolding back_off
back_off-le enc zero = omega arith
back_off-le enc (suc end) = ground (arith, back_off-le enc end)

-- The cut backs off no further than it must: every position that it gives up lies inside a code
-- point.
pub back_off_maximal :
    (enc : List ℕ) (end m : ℕ)
    → back_off enc end < m
    → m ≤ end
    → is_continuation (get_elem? enc m) ≡ true
unfolding back_off
back_off_maximal enc zero m h k = absurd (omega arith)
back_off_maximal enc (suc end) m h k =
    elim (Bool-cases (is_continuation (get_elem? enc (suc end)))) [
      | inl inside ↦
          let lower : back_off enc end < m = rw (inside, back_off) at h in
          elim (Bool-cases (m == suc end)) [
            | inl here ↦ rw ((==_iff m (suc end)).0 here) inside
            | inr below ↦ back_off_maximal enc end m lower (ground arith)
          ]
      | inr start ↦ let no : suc end < m = rw (start, back_off) at h in absurd (omega arith)
    ]

-- No boundary within the budget is after the cut.
back_off-largest : (enc : List ℕ) (end m : ℕ) → m ≤ end → IsBoundary enc m → m ≤ back_off enc end
back_off-largest enc end m h b = elim (Bool-cases (ltb (back_off enc end) m)) [
  | inr t ↦ ground arith
  | inl t ↦
      let inside = back_off_maximal enc end m (ltb→lt (back_off enc end) m t) h in
      elim b [
        | inl z ↦ omega arith
        | inr start ↦ let outside = StartsPoint-is_continuation (get_elem? enc m) start in absurd cc
      ]
]

-- A text within the budget is kept. A longer one is cut to a text whose bytes are the first n of its
-- own, less a byte order mark at its start, where n is the last boundary of code points within the
-- budget; provided that decoding a text's bytes up to a boundary and encoding them again drops the
-- mark and changes nothing else.
pub truncate_utf8-take :
    {T : Type 0} (utf8 : T → List ℕ) (text_of : List ℕ → T)
    → ((s : T) (n : ℕ)
        → IsBoundary (utf8 s) n
        → utf8 (text_of (take n (utf8 s))) ≡ without_mark (take n (utf8 s)))
    → (str : T) (max_bytes : ℕ)
    → ((length (utf8 str) ≤ max_bytes) × (truncate_utf8 utf8 text_of str max_bytes ≡ str))
      ⊎ ((max_bytes < length (utf8 str))
          × ((n : ℕ) × (n ≤ max_bytes)
              × IsBoundary (utf8 str) n
              × ((m : ℕ) → m ≤ max_bytes → IsBoundary (utf8 str) m → m ≤ n)
              × (utf8 (truncate_utf8 utf8 text_of str max_bytes)
                  ≡ without_mark (take n (utf8 str)))))
unfolding truncate_utf8
truncate_utf8-take utf8 text_of again str max_bytes =
    elim (Bool-cases (leb (length (utf8 str)) max_bytes)) [
      | inl short ↦ inl (leb→le _ _ short, rw short refl)
      | inr long ↦
          let n = back_off (utf8 str) max_bytes in
          inr (
            ground arith,
            (
              n,
              back_off-le (utf8 str) max_bytes,
              back_off-IsBoundary (utf8 str) max_bytes,
              back_off-largest (utf8 str) max_bytes,
              rw long (again str n (back_off-IsBoundary (utf8 str) max_bytes)),
            ),
          )
    ]
