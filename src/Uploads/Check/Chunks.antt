-- ===== src/Uploads/Check/Chunks.antt =====
-- hub/src/api/upload.ts: the chunks of a batch, which keep a statement within D1's 100 variables.
use agent_sessions_backup.Uploads.Check.{chunks, file_check_chunk_size, chunks_from, CheckItem}
use agent_sessions_backup.Prelude.{
  ℕ, zero, suc, ◌+◌, ◌*◌, ◌≤◌, ◌≡◌, refl, List, [], ◌∷◌, arith, length, take, drop, concat, All,
  take-append-drop,
}

-- The variables that the statement of a chunk binds.
abbrev pub binds : List CheckItem → ℕ
binds chunk = 1 + length chunk * 3

drop-shorter : (n : ℕ) (items : List CheckItem) → length (drop n items) ≤ length items
drop-shorter zero items = omega arith
drop-shorter (suc n) [] = omega arith
drop-shorter (suc n) (x ∷ items) = let h = drop-shorter n items in omega arith

take-short : (n : ℕ) (items : List CheckItem) → length (take n items) ≤ n
take-short zero items = omega arith
take-short (suc n) [] = omega arith
take-short (suc n) (x ∷ items) = let h = take-short n items in omega arith

chunks_from-concat :
    (fuel n : ℕ) (items : List CheckItem)
    → length items ≤ fuel
    → (concat (chunks_from fuel (suc n) items) ≡ items)
      × All (λ chunk. length chunk ≤ suc n) (chunks_from fuel (suc n) items)
unfolding chunks_from
chunks_from-concat zero n [] h = (refl, tt)
chunks_from-concat zero n (x ∷ items) h = absurd (ground arith)
chunks_from-concat (suc fuel) n [] h = (refl, tt)
chunks_from-concat (suc fuel) n (x ∷ items) h =
    let shorter : length (drop n items) ≤ fuel = let d = drop-shorter n items in omega arith in
    let (joined, small) = chunks_from-concat fuel n (drop n items) shorter in
    let short = take-short n items in (cc (joined, take-append-drop n items), (omega arith, small))

within_binds :
    (chunks : List (List CheckItem))
    → All (λ chunk. length chunk ≤ file_check_chunk_size) chunks
    → All (λ chunk. binds chunk ≤ 100) chunks
within_binds [] h = tt
within_binds (chunk ∷ chunks) (short, h) = (omega arith, within_binds chunks h)

-- The chunks of a batch are its items in order, each item in one chunk, and the statement of no chunk
-- binds more than 100 variables.
pub chunks-binds :
    (items : List CheckItem)
    → (concat (chunks file_check_chunk_size items) ≡ items)
      × All (λ chunk. binds chunk ≤ 100) (chunks file_check_chunk_size items)
unfolding chunks
chunks-binds items =
    let (joined, small) = chunks_from-concat (length items) 32 items (omega arith) in
    (joined, within_binds (chunks_from (length items) 33 items) small)
