-- ===== src/Uploads/Check/Missing.antt =====
-- hub/src/api/upload.ts: what `files/check` answers, though it changes rows on the way.
use agent_sessions_backup.Uploads.Keeping.{bind-Keeps, pure-Keeps, Frames}
use agent_sessions_backup.Uploads.Check.Fixed.{resync_present-IsFixed, IsFixed, hash_of}
use agent_sessions_backup.Uploads.Put.{same_as}
use agent_sessions_backup.Uploads.Objects.{object_sha256, has_hash}
use agent_sessions_backup.Uploads.Check.{
  at_path, check_item, present_or_missing, if_missing, CheckItem, resync_present, verified_row,
  World,
}
use agent_sessions_backup.Uploads.State.{StoredObject, pure, FilesRow, Bucket, Outside, Hub, ◌>>=◌}
use agent_sessions_backup.Detect.{Detection}
use agent_sessions_backup.Prelude.{
  ℕ, ◌≡◌, refl, sym, ap, ◌∙◌, inl, inr, Bool, true, false, not, ◌&&◌, Option, none, some, List, [],
  ◌∷◌, arith, ◌==◌, if◌then◌else◌, Bool-cases, Option-cases,
}

abbrev pub is_none : {A : Type 0} → Option A → Bool
is_none none = true
is_none (some a) = false

-- The hub has no verified row: none with the hash, or no object with it.
abbrev pub is_absent : ℕ → Hub → Bool
is_absent hash hub = is_none (verified_row hash hub)

-- The row of a file has the hash.
abbrev pub row_has : ℕ → Option FilesRow → Bool
row_has hash none = false
row_has hash (some row) = row.queue.content_hash == hash

-- The object is there, and R2 has this checksum for it.
abbrev pub object_has : ℕ → Option StoredObject → Bool
object_has hash none = false
object_has hash (some object) = elim object.checksum [ none ↦ false | some c ↦ c == hash ]

abbrev pub is_stored : ℕ → Hub → Bool
is_stored hash hub = row_has hash hub.row && object_has hash hub.bucket.canonical

-- The paths of the items whose hash is not stored, in their order.
abbrev pub absent_paths : World → List CheckItem → List ℕ
absent_paths world [] = []
absent_paths world (item ∷ items) =
    let later : List ℕ = absent_paths world items in
    if is_stored item.hash (world item.path) then later else item.path ∷ later

-- The same hashes and objects at every path.
abbrev pub SameFiles : World → World → Type 0
SameFiles before after =
    (path : ℕ)
    → (hash_of (after path).row ≡ hash_of (before path).row)
      × ((after path).bucket ≡ (before path).bucket)

-- Whether a hub is without a hash is read off its row's hash and its object.
absent_of : ℕ → Option ℕ → Bucket → Bool
unfolding has_hash object_sha256
absent_of hash stored b =
    if has_hash (object_sha256 b.canonical) hash then not (has_hash stored hash) else true

same_as-none :
    (hash : ℕ) (row : Option FilesRow)
    → is_none (same_as hash row) ≡ not (has_hash (hash_of row) hash)
unfolding same_as has_hash
same_as-none hash none = refl
same_as-none hash (some row) = elim (Bool-cases (row.queue.content_hash == hash)) [
  | inl t ↦ rw (same_as, t) refl
  | inr t ↦ rw (same_as, t) refl
]

is_absent-absent_of :
    (hash : ℕ) (hub : Hub) → is_absent hash hub ≡ absent_of hash (hash_of hub.row) hub.bucket
unfolding absent_of verified_row
is_absent-absent_of hash hub =
    elim (Bool-cases (has_hash (object_sha256 hub.bucket.canonical) hash)) [
      | inr t ↦ rw (verified_row, absent_of, t) refl
      | inl t ↦ rw (verified_row, absent_of, t) (same_as-none hash hub.row)
    ]

pub SameFiles-absent :
    (before after : World) (hash path : ℕ)
    → SameFiles before after
    → is_absent hash (after path) ≡ is_absent hash (before path)
SameFiles-absent before after hash path same =
    let (h, b) = same path in
    is_absent-absent_of hash (after path)
    ∙ ap (λ c. absent_of hash c (after path).bucket) h
    ∙ ap (absent_of hash (hash_of (before path).row)) b
    ∙ sym (is_absent-absent_of hash (before path))

same_as-row_has :
    (hash : ℕ) (row : Option FilesRow) → is_none (same_as hash row) ≡ not (row_has hash row)
unfolding same_as
same_as-row_has hash none = refl
same_as-row_has hash (some row) = elim (Bool-cases (row.queue.content_hash == hash)) [
  | inl t ↦ rw (same_as, t) refl
  | inr t ↦ rw (same_as, t) refl
]

has_hash-object_has :
    (hash : ℕ) (object : Option StoredObject)
    → has_hash (object_sha256 object) hash ≡ object_has hash object
unfolding has_hash object_sha256
has_hash-object_has hash none = refl
has_hash-object_has hash (some object) = elim (Option-cases object.checksum) [
  | inl n ↦ rw (n, has_hash) refl
  | inr (c, n) ↦ rw (n, has_hash) refl
]

and_false : (t : Bool) → true ≡ not (t && false)
and_false true = refl
and_false false = refl

and_true : (t : Bool) → not t ≡ not (t && true)
and_true true = refl
and_true false = refl

-- What the hub finds absent is what is not stored.
pub is_absent-is_stored : (hash : ℕ) (hub : Hub) → is_absent hash hub ≡ not (is_stored hash hub)
unfolding verified_row
is_absent-is_stored hash hub =
    let object = has_hash-object_has hash hub.bucket.canonical in
    elim (Bool-cases (object_has hash hub.bucket.canonical)) [
      | inr t ↦ rw (verified_row, object, t) (and_false (row_has hash hub.row))
      | inl t ↦
          rw (verified_row, object, t)
            (same_as-row_has hash hub.row ∙ and_true (row_has hash hub.row))
    ]

if_missing-is_stored :
    (t : Bool) (path : ℕ) (later : List ℕ)
    → if_missing (not t) path later ≡ (if t then later else path ∷ later)
if_missing-is_stored true path later = refl
if_missing-is_stored false path later = refl

-- An item is listed as the hub finds it absent.
pub absent_paths-cons :
    (world : World) (item : CheckItem) (items : List CheckItem)
    → if_missing (is_absent item.hash (world item.path)) item.path (absent_paths world items)
      ≡ absent_paths world (item ∷ items)
absent_paths-cons world item items =
    ap (λ t. if_missing t item.path (absent_paths world items))
      (is_absent-is_stored item.hash (world item.path))
    ∙ if_missing-is_stored (is_stored item.hash (world item.path)) item.path
        (absent_paths world items)

present_or_missing-IsFixed :
    (c : Option ℕ) (b0 : Bucket) (out : Outside) (d : Detection) (row : Option FilesRow)
    → Frames (IsFixed c b0) (present_or_missing out d row)
unfolding present_or_missing
present_or_missing-IsFixed c b0 out d none = pure-Keeps true
present_or_missing-IsFixed c b0 out d (some row) =
    bind-Keeps (resync_present-IsFixed c b0 out d row) (λ u. pure-Keeps false)

-- What is answered of one item.
present_or_missing-is_none :
    (out : Outside) (d : Detection) (row : Option FilesRow) (hub : Hub) (t : Bool)
    → (present_or_missing out d row hub).1 ≡ some t
    → t ≡ is_none row
unfolding present_or_missing pure ◌>>=◌
present_or_missing-is_none out d none hub t = λ e. cc
present_or_missing-is_none out d (some row) hub t =
    elim (Option-cases (resync_present out d row hub).1) [
      | inl n ↦ rw (present_or_missing, ◌>>=◌, n) (λ e. absurd cc)
      | inr (u, n) ↦ rw (present_or_missing, ◌>>=◌, n) (λ e. cc)
    ]

pub check_item-is_none :
    (detect : ℕ → Detection) (seen : World) (item : CheckItem) (world : World) (t : Bool)
    → (check_item detect seen item world).1 ≡ some t
    → t ≡ is_absent item.hash (seen item.path)
unfolding check_item at_path
check_item-is_none detect seen item world t e =
    present_or_missing-is_none item.outside (detect item.path)
      (verified_row item.hash (seen item.path)) (world item.path) t e

pub check_item-SameFiles :
    (detect : ℕ → Detection) (seen : World) (item : CheckItem) (world : World)
    → SameFiles world (check_item detect seen item world).0
unfolding check_item at_path
check_item-SameFiles detect seen item world path = elim (Bool-cases (path == item.path)) [
  | inr t ↦ rw (check_item, at_path, t) (refl, refl)
  | inl t ↦
      let here : path ≡ item.path = ground arith in
      rw (check_item, at_path, t, here)
        ((present_or_missing-IsFixed (hash_of (world item.path).row) (world item.path).bucket
            item.outside (detect item.path) (verified_row item.hash (seen item.path))).kept
          (world item.path) (refl, refl))
]
