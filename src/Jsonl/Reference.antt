-- ===== src/Jsonl/Reference.antt =====
-- The lines of a byte sequence, one byte at a time: what the reader must yield however the stream
-- is cut into chunks. `current` is the content of the line that is being read.
use agent_sessions_backup.Jsonl.{JsonlLine, decoded, oversized, newline}
use agent_sessions_backup.Prelude.{ℕ, ◌+◌, List, [], ◌∷◌, ◌++◌, ltb, ◌==◌, if◌then◌else◌, length}

module _ {T : Type 0} (decode : List ℕ → T) (max_line_bytes : ℕ) where
  abbrev pub line_of : ℕ → List ℕ → ℕ → JsonlLine T
  line_of start content byte_len =
      if ltb max_line_bytes (length content)
      then oversized start byte_len
      else decoded (decode content) start byte_len

  abbrev pub last_line : ℕ → List ℕ → List (JsonlLine T)
  last_line start [] = []
  last_line start (c ∷ current) = line_of start (c ∷ current) (length (c ∷ current)) ∷ []

  unfoldable pub lines_from : ℕ → List ℕ → List ℕ → List (JsonlLine T)
  lines_from start current [] = last_line start current
  lines_from start current (b ∷ bytes) =
      let ended =
        line_of start current (length current + 1)
        ∷ lines_from (start + (length current + 1)) [] bytes in
      let longer = lines_from start (current ++ b ∷ []) bytes in
      if b == newline then ended else longer
