-- ===== src/Uploads/Check.antt =====
-- hub/src/api/upload.ts: the batch of `files/check`. The world is the hub's state of each path; what R2
-- and the queue do may differ from one item to the next. The rows and the objects of a chunk are read
-- before its first item is handled.
pub mod Chunks
pub mod Fixed
pub mod Missing
pub mod Replies
use agent_sessions_backup.Uploads.Objects.{object_sha256, has_hash}
use agent_sessions_backup.Uploads.Rows.{restamp_if_stale}
use agent_sessions_backup.Uploads.Put.{resync, same_as}
use agent_sessions_backup.Uploads.State.{
  FilesRow, machine_identity, Identity, pure, Action, Hub, Outside, ◌>>=◌, ◌>>◌, other_identity,
}
use agent_sessions_backup.Detect.{Detection}
use agent_sessions_backup.Prelude.{
  ℕ, zero, suc, ◌+◌, ◌-◌, ◌*◌, ◌/◌, ◌%◌, ◌^◌, ◌≤◌, ◌<◌, min, max, ◌≡◌, refl, sym, ap, ◌∙◌, subst,
  ◌≡⟨◌⟩◌, ◌∎, ◌≢◌, ◌↔◌, ◌⊎◌, inl, inr, Bool, true, false, not, ◌&&◌, ◌||◌, Option, none, some, List,
  [], ◌∷◌, ◌++◌, map, append-nil, append_assoc, arith, dec_lt, ℕ_discrete, ltb, leb, ◌==◌,
  if◌then◌else◌, ltb→lt, lt→ltb, leb→le, ==_iff, tests, Bool-cases, Option-cases, length, take,
  drop, replicate, concat, get_elem?, All, length-append, take-append-drop, length-take,
  length-drop, take-append, drop-append, concat-append, All-append, All-map, ℤ, pos, negsuc, Result,
  ok, err, Result-cases, Call, done, lost_before, lost_after, call, text_eq, starts_with, find,
  lower,
}

-- A path is a number; the hash is the number that the text spells, its `sha256:` dropped.
pub record CheckItem : Type 0 where
  pub path : ℕ
  pub hash : ℕ
  pub outside : Outside

abbrev pub World : Type 0
World = ℕ → Hub

unfoldable pub at_path : {A : Type 0} → ℕ → Action A → World → World × Option A
at_path path run world =
    (λ other. if other == path then (run (world path)).0 else world other, (run (world path)).1)

-- The row of the item's path, if it and the object have the item's hash.
unfoldable pub verified_row : ℕ → Hub → Option FilesRow
unfolding same_as has_hash object_sha256
verified_row hash hub =
    if has_hash (object_sha256 hub.bucket.canonical) hash then same_as hash hub.row else none

unfoldable pub resync_present : Outside → Detection → FilesRow → Action (Unit {0})
unfolding restamp_if_stale resync
resync_present out detection row = restamp_if_stale detection row >>= λ restamped.
    resync out detection row row.queue.content_hash restamped false >> pure tt

-- Whether the item is missing; a row that is present is seen to.
unfoldable pub present_or_missing : Outside → Detection → Option FilesRow → Action Bool
unfolding resync_present
present_or_missing out detection none = pure true
present_or_missing out detection (some row) = resync_present out detection row >> pure false

-- `seen` is the world as the chunk's reads saw it.
unfoldable pub check_item : (ℕ → Detection) → World → CheckItem → World → World × Option Bool
unfolding at_path verified_row present_or_missing
check_item detect seen item =
    at_path item.path
      (present_or_missing item.outside (detect item.path) (verified_row item.hash (seen item.path)))

abbrev pub if_missing : Bool → ℕ → List ℕ → List ℕ
if_missing true path missing = path ∷ missing
if_missing false path missing = missing

-- The missing paths, in order; an error ends the request.
unfoldable pub check_chunk :
    (ℕ → Detection) → World → List CheckItem → World → World × Option (List ℕ)
unfolding check_item
check_chunk detect seen [] world = (world, some [])
check_chunk detect seen (item ∷ items) world =
    let (next, is_missing) = check_item detect seen item world in
    let (last, rest) = check_chunk detect seen items next in
    elim is_missing [
      | none ↦ (next, none)
      | some is_missing ↦ (
        last,
        elim rest [ none ↦ none | some rest ↦ some (if_missing is_missing item.path rest) ],
      )
    ]

abbrev pub file_check_chunk_size : ℕ
file_check_chunk_size = 33

-- `chunks(arr, n)`, with fuel: as many steps as there are items.
unfoldable pub chunks_from : ℕ → ℕ → List CheckItem → List (List CheckItem)
chunks_from zero n items = []
chunks_from (suc fuel) n [] = []
chunks_from (suc fuel) n (item ∷ items) =
    take n (item ∷ items) ∷ chunks_from fuel n (drop n (item ∷ items))

unfoldable pub chunks : ℕ → List CheckItem → List (List CheckItem)
unfolding chunks_from
chunks n items = chunks_from (length items) n items

unfoldable pub head_fails : World → CheckItem → Bool
unfolding same_as
head_fails world item = elim (same_as item.hash (world item.path).row) [
  | none ↦ false
  | some row ↦ not item.outside.head_reads
]

-- `head` is asked of each row that matched an item of the chunk, before any item is handled.
unfoldable pub heads_fail : World → List CheckItem → Bool
unfolding head_fails
heads_fail world [] = false
heads_fail world (item ∷ items) = head_fails world item || heads_fail world items

unfoldable pub checked_chunk : (ℕ → Detection) → List CheckItem → World → World × Option (List ℕ)
unfolding heads_fail check_chunk
checked_chunk detect chunk world =
    if heads_fail world chunk then (world, none) else check_chunk detect world chunk world

unfoldable pub check_chunks :
    (ℕ → Detection) → List (List CheckItem) → World → World × Option (List ℕ)
unfolding checked_chunk
check_chunks detect [] world = (world, some [])
check_chunks detect (chunk ∷ rest) world =
    let (next, missing) = checked_chunk detect chunk world in
    let (last, later) = check_chunks detect rest next in
    elim missing [
      | none ↦ (next, none)
      | some missing ↦ (last, elim later [ none ↦ none | some later ↦ some (missing ++ later) ])
    ]

pub data CheckReply : Type 0 where
  check_unauthorized : CheckReply
  batch_too_large : CheckReply
  missing_paths : List ℕ → CheckReply

abbrev pub max_check_items : ℕ
max_check_items = 1000

unfoldable pub check_files :
    (ℕ → Detection) → Identity → List CheckItem → World → World × Option CheckReply
unfolding check_chunks chunks
check_files detect other_identity items world = (world, some check_unauthorized)
check_files detect (machine_identity own is_admin) items world =
    if ltb max_check_items (length items) then (world, some batch_too_large) else (
      (check_chunks detect (chunks file_check_chunk_size items) world).0,
      elim (check_chunks detect (chunks file_check_chunk_size items) world).1 [
        | none ↦ none
        | some missing ↦ some (missing_paths missing)
      ],
    )
