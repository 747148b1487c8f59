-- ===== src/Jsonl/Tiling.antt =====
-- The byte ranges of the lines: they tile the stream, and the size limit decides which have text.
use agent_sessions_backup.Jsonl.{
  JsonlLine, decoded, oversized, line_start, line_len, newline, read_jsonl_lines,
}
use agent_sessions_backup.Jsonl.Reference.{line_of, lines_from}
use agent_sessions_backup.Jsonl.Reading.{read_jsonl_lines-lines_from}
use agent_sessions_backup.Prelude.{
  ℕ, ◌+◌, ◌≤◌, ◌<◌, ◌≡◌, inl, inr, List, [], ◌∷◌, ◌++◌, arith, ltb, ◌==◌, Bool-cases, length,
  concat, All, length-append,
}

-- The lines follow one another without a gap from `start` to `stop`, and none is empty.
abbrev pub Tiles : {T : Type 0} → ℕ → List (JsonlLine T) → ℕ → Type 0
Tiles start [] stop = start ≡ stop
Tiles start (line ∷ lines) stop =
    (line_start line ≡ start) × (0 < line_len line) × Tiles (start + line_len line) lines stop

-- A line has text unless its range is longer than the limit allows; the newline counts only if
-- the range exceeds the limit by one.
abbrev pub Fits : {T : Type 0} → ℕ → JsonlLine T → Type 0
Fits limit (decoded text byte_start byte_len) = byte_len ≤ limit + 1
Fits limit (oversized byte_start byte_len) = limit < byte_len

module _ {T : Type 0} (decode : List ℕ → T) (limit : ℕ) where
  line_of-start :
      (start : ℕ) (content : List ℕ) (len : ℕ)
      → line_start (line_of decode limit start content len) ≡ start
  line_of-start start content len = ground arith

  line_of-len :
      (start : ℕ) (content : List ℕ) (len : ℕ)
      → line_len (line_of decode limit start content len) ≡ len
  line_of-len start content len = ground arith

  line_of-Fits :
      (start : ℕ) (content : List ℕ) (len : ℕ)
      → length content ≤ len
      → len ≤ length content + 1
      → Fits limit (line_of decode limit start content len)
  line_of-Fits start content len h k = elim (Bool-cases (ltb limit (length content))) [
    | inl big ↦ rw big (ground arith)
    | inr small ↦ rw small (ground arith)
  ]

  lines_from-Tiles :
      (start : ℕ) (current bytes : List ℕ) (stop : ℕ)
      → stop ≡ start + (length current + length bytes)
      → Tiles start (lines_from decode limit start current bytes) stop
  unfolding lines_from
  lines_from-Tiles start [] [] stop e = omega arith
  lines_from-Tiles start (c ∷ current) [] stop e =
      let len = length (c ∷ current) in
      (
        line_of-start start (c ∷ current) len,
        omega (arith, line_of-len start (c ∷ current) len),
        omega (arith, line_of-len start (c ∷ current) len),
      )
  lines_from-Tiles start current (b ∷ bytes) stop e = elim (Bool-cases (b == newline)) [
    | inl here ↦
        let len = length current + 1 in
        rw here (
          line_of-start start current len,
          omega (arith, line_of-len start current len),
          rw (line_of-len start current len)
              (lines_from-Tiles (start + len) [] bytes stop (omega arith)),
        )
    | inr later ↦ rw later (
        lines_from-Tiles start (current ++ b ∷ []) bytes stop
          (omega (arith, length-append current (b ∷ []))))
  ]

  lines_from-Fits :
      (start : ℕ) (current bytes : List ℕ)
      → All (Fits limit) (lines_from decode limit start current bytes)
  unfolding lines_from
  lines_from-Fits start [] [] = tt
  lines_from-Fits start (c ∷ current) [] =
      (line_of-Fits start (c ∷ current) (length (c ∷ current)) (omega arith) (omega arith), tt)
  lines_from-Fits start current (b ∷ bytes) = elim (Bool-cases (b == newline)) [
    | inl here ↦ rw here (
      line_of-Fits start current (length current + 1) (omega arith) (omega arith),
      lines_from-Fits (start + (length current + 1)) [] bytes,
    )
    | inr later ↦ rw later (lines_from-Fits start (current ++ b ∷ []) bytes)
  ]

-- The byte ranges of the yielded lines tile the stream exactly: they begin at the base offset,
-- each begins where the one before it ends, none is empty, and the last ends with the last byte.
pub read_jsonl_lines-Tiles :
    {T : Type 0} (decode : List ℕ → T) (chunks : List (List ℕ)) (base limit : ℕ)
    → Tiles base (read_jsonl_lines decode chunks base limit) (base + length (concat chunks))
read_jsonl_lines-Tiles decode chunks base limit =
    rw (read_jsonl_lines-lines_from decode chunks base limit)
      (lines_from-Tiles decode limit base [] (concat chunks) _ (omega arith))

-- No decoded line spans more than the limit and its newline, and every line that is given up as
-- oversized spans more than the limit.
pub read_jsonl_lines-Fits :
    {T : Type 0} (decode : List ℕ → T) (chunks : List (List ℕ)) (base limit : ℕ)
    → All (Fits limit) (read_jsonl_lines decode chunks base limit)
read_jsonl_lines-Fits decode chunks base limit =
    rw (read_jsonl_lines-lines_from decode chunks base limit)
      (lines_from-Fits decode limit base [] (concat chunks))
