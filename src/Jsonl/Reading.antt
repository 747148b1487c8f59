-- ===== src/Jsonl/Reading.antt =====
-- The reader against the reference: the same lines, however the stream is cut into chunks.
use agent_sessions_backup.Jsonl.{
  JsonlLine, Reader, newline, index_of, append, flush, scan, read_chunks, read_jsonl_lines,
  open_reader,
}
use agent_sessions_backup.Jsonl.Reference.{line_of, lines_from}
use agent_sessions_backup.Jsonl.Buffers.{pending_text-concat}
use mathlib.Core.Option
use agent_sessions_backup.Prelude.{
  ℕ, zero, suc, ◌+◌, ◌<◌, ◌≡◌, refl, sym, ap, ◌∙◌, inl, inr, Bool, true, false, Option, none, some,
  List, [], ◌∷◌, ◌++◌, append-nil, append_assoc, arith, ltb, ◌==◌, if◌then◌else◌, Bool-cases,
  Option-cases, length, take, drop, concat, length-append, length-drop, concat-append,
}

-- The reader stands in the line that begins at `start`, of which it has seen `current`.
record Holds (max_line_bytes : ℕ) (s : Reader) (start : ℕ) (current : List ℕ) : Type 0 where
  at : s.offset ≡ start
  seen : s.pending_bytes ≡ length current
  over : s.is_oversized ≡ ltb max_line_bytes (length current)
  kept : s.is_oversized ≡ false → concat s.pending ≡ current

open_reader-Holds : (limit base : ℕ) → Holds limit (open_reader base) base []
open_reader-Holds limit base = record {
  at = refl;
  seen = refl;
  over = ground arith;
  kept = λ _. refl;
}

concat-snoc : (chunks : List (List ℕ)) (c : List ℕ) → concat (chunks ++ c ∷ []) ≡ concat chunks ++ c
concat-snoc chunks c = concat-append chunks (c ∷ []) ∙ ap (◌++◌ (concat chunks)) (append-nil c)

append_kept :
    (limit : ℕ) (current chunk : List ℕ) (s : Reader)
    → (s.is_oversized ≡ false → concat s.pending ≡ current)
    → (append limit chunk s).is_oversized ≡ false
    → concat (append limit chunk s).pending ≡ current ++ chunk
unfolding append
append_kept limit current [] s kept ok =
    ground (arith, kept, concat-snoc s.pending [], append-nil current)
append_kept limit current (c ∷ chunk) s kept ok =
    ground (arith, kept, concat-snoc s.pending (c ∷ chunk))

append-Holds :
    (limit start : ℕ) (current chunk : List ℕ) (s : Reader)
    → Holds limit s start current
    → Holds limit (append limit chunk s) start (current ++ chunk)
unfolding append
append-Holds limit start current chunk s h = record {
  at = ground (arith, h.at);
  seen = ground (arith, h.seen, length-append current chunk);
  over = ground (arith, h.seen, h.over, length-append current chunk);
  kept = append_kept limit current chunk s h.kept;
}

Option-map-none : (o : Option ℕ) → Option.map suc o ≡ none → o ≡ none
Option-map-none none h = refl
Option-map-none (some n) h = cc

Option-map-some :
    (o : Option ℕ) (n : ℕ) → Option.map suc o ≡ some n → (m : ℕ) × (o ≡ some m) × (n ≡ suc m)
Option-map-some none n h = cc
Option-map-some (some m) n h = (m, refl, cc)

module _ {T : Type 0} (decode : List ℕ → T) (limit : ℕ) where
  flush-Holds :
      (ended : Bool) (start : ℕ) (current : List ℕ) (s : Reader)
      → Holds limit s start current
      → Holds limit
          (flush decode ended s).1
          (start + (length current + (if ended then 1 else 0)))
          []
  unfolding flush
  flush-Holds ended start current s h = record {
    at = ground (arith, h.at, h.seen);
    seen = refl;
    over = ground arith;
    kept = λ _. refl;
  }

  flush-line_of :
      (ended : Bool) (start : ℕ) (current : List ℕ) (s : Reader)
      → Holds limit s start current
      → (flush decode ended s).0
        ≡ line_of decode limit start current (length current + (if ended then 1 else 0))
  unfolding flush
  flush-line_of ended start current s h = elim (Bool-cases s.is_oversized) [
    | inl big ↦ ground (arith, h.at, h.seen, h.over)
    | inr small ↦
        let same : concat s.pending ≡ current = h.kept small in
        let size : s.pending_bytes ≡ length (concat s.pending) = rw same h.seen in
        rw (small, size, pending_text-concat decode s.pending, same, h.at) (ground (arith, h.over))
  ]

  index_of-none :
      (start : ℕ) (current chunk rest : List ℕ)
      → index_of newline chunk ≡ none
      → lines_from decode limit start current (chunk ++ rest)
        ≡ lines_from decode limit start (current ++ chunk) rest
  unfolding index_of lines_from
  index_of-none start current [] rest h =
      ap (λ c. lines_from decode limit start c rest) (sym (append-nil current))
  index_of-none start current (b ∷ chunk) rest h = elim (Bool-cases (b == newline)) [
    | inl here ↦ ground arith
    | inr later ↦
        let missing : Option.map suc (index_of newline chunk) ≡ none = rw (later, index_of) at h in
        rw later (
          index_of-none start (current ++ b ∷ []) chunk rest (Option-map-none _ missing)
          ∙ ap (λ c. lines_from decode limit start c rest) (append_assoc current (b ∷ []) chunk))
  ]

  -- A line of this content, and what the reference yields after it.
  abbrev line_then : ℕ → List ℕ → List ℕ → List (JsonlLine T)
  line_then start content bytes =
      line_of decode limit start content (length content + 1)
      ∷ lines_from decode limit (start + (length content + 1)) [] bytes

  index_of-some :
      (start : ℕ) (current chunk rest : List ℕ) (nl : ℕ)
      → index_of newline chunk ≡ some nl
      → (nl < length chunk)
        × (lines_from decode limit start current (chunk ++ rest)
            ≡ line_then start (current ++ take nl chunk) (drop (suc nl) chunk ++ rest))
  unfolding index_of lines_from
  index_of-some start current [] rest nl h = cc
  index_of-some start current (b ∷ chunk) rest nl h = elim (Bool-cases (b == newline)) [
    | inl here ↦
        let first : some 0 ≡ some nl = rw (here, index_of) at h in
        let e : nl ≡ 0 = ground arith in rw e (omega arith, rw (here, append-nil current))
    | inr later ↦
        let found : Option.map suc (index_of newline chunk) ≡ some nl = rw (later, index_of) at h in
        let (m, at, e) = Option-map-some _ nl found in
        let (inside, eq) = index_of-some start (current ++ b ∷ []) chunk rest m at in
        rw e (
          omega arith,
          rw later (
              eq
              ∙ ap (λ c. line_then start c (drop (suc m) chunk ++ rest))
                  (append_assoc current (b ∷ []) (take m chunk))),
        )
  ]

  -- One chunk: the fuel is enough, and the reader goes on where the reference does.
  record Scanned (chunk : List ℕ) (start : ℕ) (current : List ℕ)
      (result : List (JsonlLine T) × Reader) : Type 0 where
    next_start : ℕ
    next_current : List ℕ
    holds : Holds limit result.1 next_start next_current
    agrees :
        (rest : List ℕ)
        → lines_from decode limit start current (chunk ++ rest)
          ≡ result.0 ++ lines_from decode limit next_start next_current rest

  scan-Scanned :
      (fuel start : ℕ) (current chunk : List ℕ) (s : Reader)
      → length chunk < fuel
      → Holds limit s start current
      → Scanned chunk start current (scan decode limit fuel chunk s)
  unfolding scan
  scan-Scanned zero start current chunk s enough h = elim enough [ ]
  scan-Scanned (suc fuel) start current chunk s enough h =
      elim (Option-cases (index_of newline chunk)) [
        | inl missing ↦
            rw (missing, scan)
              (record {
                next_start = start;
                next_current = current ++ chunk;
                holds = append-Holds limit start current chunk s h;
                agrees = λ rest. index_of-none start current chunk rest missing;
              })
        | inr (nl, found) ↦
            let content = current ++ take nl chunk in
            let upto = append-Holds limit start current (take nl chunk) s h in
            let inside = (index_of-some start current chunk [] nl found).0 in
            let shorter : length (drop (suc nl) chunk) < fuel =
              omega (arith, length-drop (suc nl) chunk) in
            let after =
              scan-Scanned fuel (start + (length content + 1)) [] (drop (suc nl) chunk) _ shorter
                (flush-Holds true start content _ upto) in
            rw (found, scan)
              (record {
                next_start = after.next_start;
                next_current = after.next_current;
                holds = after.holds;
                agrees = λ rest. cc (
                  (index_of-some start current chunk rest nl found).1,
                  flush-line_of true start content _ upto,
                  after.agrees rest,
                );
              })
      ]

  read_chunks-lines_from :
      (start : ℕ) (current : List ℕ) (chunks : List (List ℕ)) (s : Reader)
      → Holds limit s start current
      → read_chunks decode limit chunks s ≡ lines_from decode limit start current (concat chunks)
  unfolding read_chunks lines_from
  read_chunks-lines_from start [] [] s h = ground (arith, h.seen)
  read_chunks-lines_from start (c ∷ current) [] s h =
      ground (arith, h.seen, flush-line_of false start (c ∷ current) s h)
  read_chunks-lines_from start current (chunk ∷ chunks) s h =
      let done = scan-Scanned (suc (length chunk)) start current chunk s (omega arith) h in
      let later = read_chunks-lines_from done.next_start done.next_current chunks _ done.holds in
      cc (done.agrees (concat chunks), later)

-- However the stream is cut into chunks, the reader yields the lines of its bytes: each with its
-- start, its length with the newline, and its text, or no text where the content exceeds the limit.
pub read_jsonl_lines-lines_from :
    {T : Type 0} (decode : List ℕ → T) (chunks : List (List ℕ)) (base limit : ℕ)
    → read_jsonl_lines decode chunks base limit ≡ lines_from decode limit base [] (concat chunks)
unfolding read_jsonl_lines
read_jsonl_lines-lines_from decode chunks base limit =
    read_chunks-lines_from decode limit base [] chunks (open_reader base)
      (open_reader-Holds limit base)
