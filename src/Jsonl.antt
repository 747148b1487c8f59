-- ===== src/Jsonl.antt =====
-- hub/src/ingest/jsonl.ts: the byte-offset-exact line reader. A byte is a number below 256, a
-- chunk of the stream a list of bytes. `TextDecoder.decode` is the parameter `decode`, the stream
-- the list of the chunks that `reader.read()` hands over, the generator's output a list.
pub mod Reference
pub mod Buffers
pub mod Reading
pub mod Tiling
pub mod Tests
use agent_sessions_backup.Prelude.{
  ℕ, zero, suc, ◌+◌, ◌-◌, ◌*◌, ◌/◌, ◌%◌, ◌^◌, ◌≤◌, ◌<◌, min, max, ◌≡◌, refl, sym, ap, ◌∙◌, subst,
  ◌≡⟨◌⟩◌, ◌∎, ◌≢◌, ◌↔◌, ◌⊎◌, inl, inr, Bool, true, false, not, ◌&&◌, ◌||◌, Option, none, some, List,
  [], ◌∷◌, ◌++◌, map, append-nil, append_assoc, arith, dec_lt, ℕ_discrete, ltb, leb, ◌==◌,
  if◌then◌else◌, ltb→lt, lt→ltb, leb→le, ==_iff, tests, Bool-cases, Option-cases, length, take,
  drop, replicate, concat, get_elem?, All, length-append, take-append-drop, length-take,
  length-drop, take-append, drop-append, concat-append, All-append, ℤ, pos, negsuc,
}
use Prim.Native.String.{String}
use text.Mathlib.Text.{◌==◌ as str_eq}
use mathlib.Core.Option

pub data JsonlLine (T : Type 0) : Type 0 where
  decoded : T → ℕ → ℕ → JsonlLine T
  oversized : ℕ → ℕ → JsonlLine T

abbrev pub line_start : {T : Type 0} → JsonlLine T → ℕ
line_start (decoded text byte_start byte_len) = byte_start
line_start (oversized byte_start byte_len) = byte_start

abbrev pub line_len : {T : Type 0} → JsonlLine T → ℕ
line_len (decoded text byte_start byte_len) = byte_len
line_len (oversized byte_start byte_len) = byte_len

abbrev pub max_jsonl_line_bytes : ℕ
max_jsonl_line_bytes = 2 * 1024 * 1024

abbrev pub max_codex_jsonl_line_bytes : ℕ
max_codex_jsonl_line_bytes = 16 * 1024 * 1024

unfoldable pub jsonl_line_limit : String → ℕ
jsonl_line_limit harness =
    if str_eq harness "codex" then max_codex_jsonl_line_bytes else max_jsonl_line_bytes

abbrev pub newline : ℕ
newline = 0x0a

-- The local variables of the generator.
pub record Reader : Type 0 where
  pub pending : List (List ℕ)
  pub pending_bytes : ℕ
  pub is_oversized : Bool
  pub offset : ℕ

abbrev pub open_reader : ℕ → Reader
open_reader base_offset = record {
  pending = [];
  pending_bytes = 0;
  is_oversized = false;
  offset = base_offset;
}

-- `chunk.indexOf(byte)`, with `none` for -1.
pub index_of : ℕ → List ℕ → Option ℕ
index_of byte [] = none
index_of byte (b ∷ bs) = if b == byte then some 0 else Option.map suc (index_of byte bs)

-- `buf.set(chunk, pos)`.
pub set_bytes : List ℕ → ℕ → List ℕ → List ℕ
set_bytes buf at chunk = take at buf ++ (chunk ++ drop (at + length chunk) buf)

pub copy_chunks : List ℕ → ℕ → List (List ℕ) → List ℕ
copy_chunks buf at [] = buf
copy_chunks buf at (chunk ∷ chunks) =
    copy_chunks (set_bytes buf at chunk) (at + length chunk) chunks

pub append : ℕ → List ℕ → Reader → Reader
append max_line_bytes chunk s =
    let total = s.pending_bytes + length chunk in
    if s.is_oversized
    then record s { pending_bytes = total }
    else (if ltb max_line_bytes total
        then record s { pending_bytes = total; is_oversized = true; pending = [] }
        else (if ltb 0 (length chunk)
            then record s { pending_bytes = total; pending = s.pending ++ chunk ∷ [] }
            else record s { pending_bytes = total }))

module _ {T : Type 0} (decode : List ℕ → T) where
  -- The text of a line that is not oversized: one pending chunk is decoded where it stands, any
  -- other number of them is copied into one buffer first.
  pub pending_text : List (List ℕ) → ℕ → T
  pending_text (chunk ∷ []) total = decode chunk
  pending_text chunks total = decode (copy_chunks (replicate total 0) 0 chunks)

  pub flush : Bool → Reader → JsonlLine T × Reader
  flush has_newline s =
      let byte_len = s.pending_bytes + (if has_newline then 1 else 0) in
      (
        if s.is_oversized
            then oversized s.offset byte_len
            else decoded (pending_text s.pending s.pending_bytes) s.offset byte_len,
        record {
          pending = [];
          pending_bytes = 0;
          is_oversized = false;
          offset = s.offset + byte_len;
        },
      )

  -- The inner loop over one chunk; the fuel is one more than the bytes of the chunk.
  pub scan : ℕ → ℕ → List ℕ → Reader → List (JsonlLine T) × Reader
  scan max_line_bytes zero chunk s = ([], s)
  scan max_line_bytes (suc fuel) chunk s = elim (index_of newline chunk) [
    | none ↦ ([], append max_line_bytes chunk s)
    | some nl ↦
        let (line, flushed) = flush true (append max_line_bytes (take nl chunk) s) in
        let (lines, final) = scan max_line_bytes fuel (drop (suc nl) chunk) flushed in
        (line ∷ lines, final)
  ]

  -- The outer loop, and the unfinished last line.
  pub read_chunks : ℕ → List (List ℕ) → Reader → List (JsonlLine T)
  read_chunks max_line_bytes [] s = if ltb 0 s.pending_bytes then (flush false s).0 ∷ [] else []
  read_chunks max_line_bytes (chunk ∷ chunks) s =
      let (lines, next) = scan max_line_bytes (suc (length chunk)) chunk s in
      lines ++ read_chunks max_line_bytes chunks next

  unfoldable pub read_jsonl_lines : List (List ℕ) → ℕ → ℕ → List (JsonlLine T)
  unfolding read_chunks scan flush append pending_text copy_chunks set_bytes index_of
  read_jsonl_lines stream base_offset max_line_bytes =
      read_chunks max_line_bytes stream (open_reader base_offset)
