-- ===== src/Jsonl/Tests.antt =====
-- Runs of the reader at small streams, and the theorems at them.
use agent_sessions_backup.Jsonl.{
  decoded, oversized, jsonl_line_limit, max_codex_jsonl_line_bytes, max_jsonl_line_bytes,
  read_jsonl_lines,
}
use agent_sessions_backup.Jsonl.Reference.{lines_from}
use agent_sessions_backup.Jsonl.Reading.{read_jsonl_lines-lines_from}
use agent_sessions_backup.Jsonl.Tiling.{Tiles, Fits, read_jsonl_lines-Tiles, read_jsonl_lines-Fits}
use agent_sessions_backup.Prelude.{ℕ, ◌≡◌, refl, List, [], ◌∷◌, ◌++◌, concat, All}

-- "ab\ncdefgh\n" and an unfinished "i", cut inside the lines.
abbrev stream : List (List ℕ)
stream =
    (97 ∷ []) ∷ (98 ∷ 10 ∷ 99 ∷ []) ∷ (100 ∷ 101 ∷ 102 ∷ 103 ∷ []) ∷ []
    ++ (104 ∷ 10 ∷ 105 ∷ []) ∷ []

-- The text is kept as its bytes.
abbrev as_bytes : List ℕ → List ℕ
as_bytes bytes = bytes

read_run :
    read_jsonl_lines as_bytes stream 5 4
    ≡ decoded (97 ∷ 98 ∷ []) 5 3 ∷ oversized 8 7 ∷ decoded (105 ∷ []) 15 1 ∷ []
unfolding read_jsonl_lines
read_run = refl

limits :
    (jsonl_line_limit "codex" ≡ max_codex_jsonl_line_bytes)
    × (jsonl_line_limit "omp" ≡ max_jsonl_line_bytes)
unfolding jsonl_line_limit
limits = (refl, refl)

read_jsonl_lines-lines_from_example :
    read_jsonl_lines as_bytes stream 5 4 ≡ lines_from as_bytes 4 5 [] (concat stream)
read_jsonl_lines-lines_from_example = read_jsonl_lines-lines_from as_bytes stream 5 4

read_jsonl_lines-Tiles_example : Tiles 5 (read_jsonl_lines as_bytes stream 5 4) 16
read_jsonl_lines-Tiles_example = read_jsonl_lines-Tiles as_bytes stream 5 4

read_jsonl_lines-Fits_example : All (Fits 4) (read_jsonl_lines as_bytes stream 5 4)
read_jsonl_lines-Fits_example = read_jsonl_lines-Fits as_bytes stream 5 4
