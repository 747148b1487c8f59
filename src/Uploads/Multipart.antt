-- ===== src/Uploads/Multipart.antt =====
-- hub/src/api/multipart.ts: a file stored in parts. The parts are assembled by R2, which is a
-- parameter; the staging objects of a path are told apart by the nonce of the upload.
use agent_sessions_backup.Uploads.Objects.{object_sha256, has_hash}
use agent_sessions_backup.Uploads.Rows.{restamp_if_stale}
use agent_sessions_backup.Uploads.Multipart.Tokens.{parse_upload_token, UploadToken, upload_token}
use agent_sessions_backup.Uploads.Put.{
  ensure_preview_upload_machine, resync, refused, same_as, parse_content_hash,
}
use agent_sessions_backup.Uploads.State.{
  created, bad_part_number, file_too_large, create_multipart_failed, FilesRow, bad_x_file_size,
  upload_part_failed, bad_upload_id, missing_body, non_uniform_part, pure, Hub, missing_x_file_size,
  part_stored, bad_or_small_part_size, bad_last_part, Action, Outside, missing_or_bad_content_hash,
  UploadReply, Identity, ◌>>=◌, ◌>>◌,
}
use agent_sessions_backup.Detect.{Detection}
pub mod Tokens
pub mod Parts
use agent_sessions_backup.Prelude.{
  ℕ, zero, suc, ◌+◌, ◌-◌, ◌*◌, ◌/◌, ◌%◌, ◌^◌, ◌≤◌, ◌<◌, min, max, ◌≡◌, refl, sym, ap, ◌∙◌, subst,
  ◌≡⟨◌⟩◌, ◌∎, ◌≢◌, ◌↔◌, ◌⊎◌, inl, inr, Bool, true, false, not, ◌&&◌, ◌||◌, Option, none, some, List,
  [], ◌∷◌, ◌++◌, map, append-nil, append_assoc, arith, dec_lt, ℕ_discrete, ltb, leb, ◌==◌,
  if◌then◌else◌, ltb→lt, lt→ltb, leb→le, ==_iff, tests, Bool-cases, Option-cases, length, take,
  drop, replicate, concat, get_elem?, All, length-append, take-append-drop, length-take,
  length-drop, take-append, drop-append, concat-append, All-append, All-map, ℤ, pos, negsuc, Result,
  ok, err, Result-cases, Call, done, lost_before, lost_after, call, text_eq, starts_with, find,
  lower,
}

pub record PartsRequest : Type 0 where
  pub identity : Identity
  pub machine_id : ℕ
  pub upload_id : List ℕ
  pub content_hash : List ℕ
  pub mtime : Option ℕ
  pub x_file_size : Option (Option ℕ)

abbrev pub min_part_size : ℕ
min_part_size = 5 * 1024 * 1024

abbrev pub max_part_number : ℕ
max_part_number = 10000

abbrev pub max_single_put_bytes : ℕ
max_single_put_bytes = 5 * 1024 * 1024 * 1024

-- `parseObjectHeaders`: the hash and the size.
unfoldable pub parse_object_headers : PartsRequest → Result UploadReply (ℕ × ℕ)
unfolding parse_content_hash
parse_object_headers q = elim (parse_content_hash q.content_hash) [
  | none ↦ err missing_or_bad_content_hash
  | some hash ↦ elim q.x_file_size [
    | none ↦ err missing_x_file_size
    | some none ↦ err bad_x_file_size
    | some (some size) ↦ ok (hash, size)
  ]
]

-- A row whose object has its hash needs no upload.
unfoldable pub present_row : ℕ → Hub → Option FilesRow
unfolding same_as has_hash object_sha256
present_row hash hub = elim (same_as hash hub.row) [
  | none ↦ none
  | some row ↦ if has_hash (object_sha256 hub.bucket.canonical) hash then some row else none
]

-- `head` is asked only where the row has the hash.
present_head_fails : Outside → ℕ → Hub → Bool
unfolding same_as
present_head_fails out hash hub = elim (same_as hash hub.row) [
  | none ↦ false
  | some row ↦ not out.head_reads
]

-- The upload that R2 opened under a fresh nonce, or its error.
pub data Opened : Type 0 where
  opened : List ℕ → List ℕ → Opened
  not_opened : Opened

open_upload : Opened → Action UploadReply
unfolding upload_token
open_upload not_opened = pure create_multipart_failed
open_upload (opened nonce r2_upload_id) = pure (created (upload_token nonce r2_upload_id))

resync_or_open : Outside → Detection → Opened → ℕ → Action UploadReply
unfolding present_head_fails present_row restamp_if_stale resync open_upload
resync_or_open out detection upload hash hub =
    if present_head_fails out hash hub then (hub, none) else elim (present_row hash hub) [
      | none ↦ open_upload upload hub
      | some row ↦
          (restamp_if_stale detection row >>= λ restamped.
          resync out detection row hash restamped false)
            hub
    ]

unfoldable pub create_multipart : Outside → Detection → Opened → PartsRequest → Action UploadReply
unfolding refused ensure_preview_upload_machine parse_object_headers resync_or_open
create_multipart out detection upload q = elim (refused q.identity q.machine_id) [
  | some reply ↦ pure reply
  | none ↦ ensure_preview_upload_machine out q.identity >> elim (parse_object_headers q) [
    | err reply ↦ pure reply
    | ok (hash, size) ↦
        if ltb max_single_put_bytes size
        then pure file_too_large
        else resync_or_open out detection upload hash
  ]
]

-- `Number(…)` of a parameter or a header: a safe integer of at least 0, or anything else.
pub record PartRequest : Type 0 where
  pub identity : Identity
  pub machine_id : ℕ
  pub upload_id : List ℕ
  pub part_number : Option ℕ
  pub part_size : Option ℕ
  pub is_last : Bool
  pub body : Option (List ℕ)

unfoldable pub part_number_refused : Option ℕ → Bool
part_number_refused none = true
part_number_refused (some number) = (number == 0) || ltb max_part_number number

abbrev pub part_number_of : Option ℕ → ℕ
part_number_of none = 0
part_number_of (some number) = number

-- What the part's own rules refuse, given its declared size.
unfoldable pub part_refused : Bool → ℕ → ℕ → Option UploadReply
part_refused true declared len = if (len == 0) || ltb declared len then some bad_last_part else none
part_refused false declared len = if len == declared then none else some non_uniform_part

unfoldable pub checked_body : Bool → Option ℕ → Option (List ℕ) → Result UploadReply (List ℕ)
unfolding part_refused
checked_body is_last none body = err bad_or_small_part_size
checked_body is_last (some declared) body =
    if ltb declared min_part_size then err bad_or_small_part_size else elim body [
      | none ↦ err missing_body
      | some body ↦ elim (part_refused is_last declared (length body)) [
        | none ↦ ok body
        | some reply ↦ err reply
      ]
    ]

unfoldable pub checked_part : PartRequest → Result UploadReply (UploadToken × ℕ × List ℕ)
unfolding refused parse_upload_token part_number_refused checked_body
checked_part q = elim (refused q.identity q.machine_id) [
  | some reply ↦ err reply
  | none ↦ elim (parse_upload_token q.upload_id) [
    | none ↦ err bad_upload_id
    | some token ↦
        if part_number_refused q.part_number
        then err bad_part_number
        else elim (checked_body q.is_last q.part_size q.body) [
          | err reply ↦ err reply
          | ok body ↦ ok (token, part_number_of q.part_number, body)
        ]
  ]
]

-- `r2_part` is whether R2 takes the part.
unfoldable pub upload_part : (UploadToken → ℕ → List ℕ → Bool) → PartRequest → UploadReply
unfolding checked_part
upload_part r2_part q = elim (checked_part q) [
  | err reply ↦ reply
  | ok (token, number, body) ↦
      if r2_part token number body then part_stored number else upload_part_failed
]
