-- ===== src/Uploads/Check/Replies.antt =====
-- hub/src/api/upload.ts: the answer of `files/check` over all chunks of the batch.
use agent_sessions_backup.Uploads.Check.Chunks.{chunks-binds}
use agent_sessions_backup.Uploads.Check.Missing.{
  SameFiles-absent, check_item-is_none, check_item-SameFiles, absent_paths, SameFiles, is_stored,
  absent_paths-cons,
}
use agent_sessions_backup.Uploads.Check.{
  max_check_items, file_check_chunk_size, chunks, missing_paths, machine_identity, heads_fail,
  check_item, CheckItem, check_files, check_chunks, checked_chunk, check_chunk, World,
}
use agent_sessions_backup.Detect.{Detection}
use agent_sessions_backup.Prelude.{
  ℕ, ◌≡◌, refl, sym, ap, ◌∙◌, inl, inr, Bool, true, false, Option, some, List, [], ◌∷◌, ◌++◌, ltb,
  if◌then◌else◌, Bool-cases, Option-cases, length, concat,
}

SameFiles-trans : (u v w : World) → SameFiles u v → SameFiles v w → SameFiles u w
SameFiles-trans u v w f g path = let (h, b) = f path in let (h', b') = g path in (h' ∙ h, b' ∙ b)

-- What a part of the request has changed, and what it answers if it does.
abbrev IsChecked : World → List CheckItem → World × Option (List ℕ) → Type 0
IsChecked start items (after, result) =
    SameFiles start after
    × ((missing : List ℕ) → result ≡ some missing → missing ≡ absent_paths start items)

check_chunk-IsChecked :
    (detect : ℕ → Detection) (start seen : World) (items : List CheckItem) (world : World)
    → SameFiles start seen
    → SameFiles start world
    → IsChecked start items (check_chunk detect seen items world)
unfolding check_chunk
check_chunk-IsChecked detect start seen [] world f g = (g, λ missing e. cc)
check_chunk-IsChecked detect start seen (item ∷ items) world f g =
    let next : World = (check_item detect seen item world).0 in
    let stays : SameFiles start next =
      SameFiles-trans start world next g (check_item-SameFiles detect seen item world) in
    let (kept, answered) = check_chunk-IsChecked detect start seen items next f stays in
    elim (Option-cases (check_item detect seen item world).1) [
      | inl n ↦ rw (check_chunk, n) (stays, λ missing e. absurd cc)
      | inr (t, n) ↦ elim (Option-cases (check_chunk detect seen items next).1) [
        | inl r ↦ rw (check_chunk, n, r) (kept, λ missing e. absurd cc)
        | inr (rest, r) ↦
            rw (check_chunk, n, r)
              (
                kept,
                λ missing e.
                    let rests : rest ≡ absent_paths start items = answered rest r in
                    let one = check_item-is_none detect seen item world t n in
                    let same = SameFiles-absent start seen item.hash item.path f in
                    let listed = absent_paths-cons start item items in cc,
              )
      ]
    ]

checked_chunk-IsChecked :
    (detect : ℕ → Detection) (start : World) (items : List CheckItem) (world : World)
    → SameFiles start world
    → IsChecked start items (checked_chunk detect items world)
unfolding checked_chunk
checked_chunk-IsChecked detect start items world g = elim (Bool-cases (heads_fail world items)) [
  | inl t ↦ rw (checked_chunk, t) (g, λ missing e. absurd cc)
  | inr t ↦ rw (checked_chunk, t) (check_chunk-IsChecked detect start world items world g g)
]

listed-append :
    (t : Bool) (path : ℕ) (xs ys : List ℕ)
    → (if t then xs ++ ys else path ∷ xs ++ ys) ≡ (if t then xs else path ∷ xs) ++ ys
listed-append true path xs ys = refl
listed-append false path xs ys = refl

absent_paths-append :
    (world : World) (items more : List CheckItem)
    → absent_paths world (items ++ more) ≡ absent_paths world items ++ absent_paths world more
absent_paths-append world [] more = refl
absent_paths-append world (item ∷ items) more = rw (absent_paths-append world items more) (
    listed-append (is_stored item.hash (world item.path)) item.path (absent_paths world items)
      (absent_paths world more))

check_chunks-IsChecked :
    (detect : ℕ → Detection) (start : World) (chunks : List (List CheckItem)) (world : World)
    → SameFiles start world
    → IsChecked start (concat chunks) (check_chunks detect chunks world)
unfolding check_chunks
check_chunks-IsChecked detect start [] world g = (g, λ missing e. cc)
check_chunks-IsChecked detect start (chunk ∷ chunks) world g =
    let next : World = (checked_chunk detect chunk world).0 in
    let (stays, found) = checked_chunk-IsChecked detect start chunk world g in
    let (kept, answered) = check_chunks-IsChecked detect start chunks next stays in
    elim (Option-cases (checked_chunk detect chunk world).1) [
      | inl n ↦ rw (check_chunks, n) (stays, λ missing e. absurd cc)
      | inr (first, n) ↦ elim (Option-cases (check_chunks detect chunks next).1) [
        | inl r ↦ rw (check_chunks, n, r) (kept, λ missing e. absurd cc)
        | inr (rest, r) ↦
            rw (check_chunks, n, r)
              (
                kept,
                λ missing e.
                    let firsts : first ≡ absent_paths start chunk = found first n in
                    let rests : rest ≡ absent_paths start (concat chunks) = answered rest r in
                    let both = absent_paths-append start chunk (concat chunks) in cc,
              )
      ]
    ]

-- If `files/check` answers a machine with the missing paths, these are, in the order of the batch,
-- those of the items for which there was no row with the hash or no object with that checksum when
-- the request began, although the request changes rows as it goes. So a file that is not listed was
-- stored then.
pub check_files-missing :
    (detect : ℕ → Detection) (own : ℕ) (is_admin : Bool) (items : List CheckItem) (world : World)
    (missing : List ℕ)
    → (check_files detect (machine_identity own is_admin) items world).1
      ≡ some (missing_paths missing)
    → missing ≡ absent_paths world items
unfolding check_files
check_files-missing detect own is_admin items world missing =
    let chunked = chunks file_check_chunk_size items in
    let (joined, bound) = chunks-binds items in
    let (kept, answered) =
      check_chunks-IsChecked detect world chunked world (λ path. (refl, refl)) in
    elim (Bool-cases (ltb max_check_items (length items))) [
      | inl t ↦ rw (check_files, t) (λ e. absurd cc)
      | inr t ↦ elim (Option-cases (check_chunks detect chunked world).1) [
        | inl n ↦ rw (check_files, t, n) (λ e. absurd cc)
        | inr (found, n) ↦
            rw (check_files, t, n)
              λ e.
                let same : found ≡ missing = cc in
                sym same ∙ answered found n ∙ ap (absent_paths world) joined
      ]
    ]
