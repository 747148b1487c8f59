-- ===== src/Uploads/Put.antt =====
-- hub/src/api/upload.ts: the PUT of a whole file. A header that gives a size is absent, or a number
-- that is a safe integer of at least 0, or anything else (`some none`).
use agent_sessions_backup.Uploads.Finish.{record_uploaded_object, converge_r2_with_row}
use agent_sessions_backup.Uploads.Objects.{
  preserve_displaced_object, put_canonical, body_extends_stored,
}
use agent_sessions_backup.Uploads.Rows.{
  Landed, is_terminal_state, is_other, requeue, restamp_if_stale, mark_known_other_skipped,
}
use agent_sessions_backup.Uploads.State.{
  unchanged, unchanged_requeued, checksum_or_write_failure, missing_content_length, preserve_failed,
  on_bucket, body_read_failure, unchanged_skipped, modify, machine_mismatch, missing_body, throw,
  caught, pure, machine_identity, missing_or_bad_content_hash, Action, unauthorized, UploadReply,
  FilesRow, Outside, Identity, ◌>>=◌, ◌>>◌,
}
use agent_sessions_backup.Uploads.State.{other_identity}
use agent_sessions_backup.Detect.{Detection}
use agent_sessions_backup.Prelude.{
  ℕ, ◌+◌, ◌-◌, ◌*◌, Bool, true, false, not, ◌&&◌, ◌||◌, Option, none, some, List, [], ◌∷◌, map, leb,
  ◌==◌, if◌then◌else◌, length, drop, Result, ok, err, starts_with, lower,
}

pub record PutRequest : Type 0 where
  pub identity : Identity
  pub machine_id : ℕ
  pub content_hash : List ℕ
  pub mtime : Option ℕ
  pub content_length : Option (Option ℕ)
  pub x_file_size : Option (Option ℕ)
  pub body : Option (List ℕ)

abbrev hash_digit : ℕ → Option ℕ
hash_digit c =
    if leb b'0' c && leb c b'9'
    then some (c - b'0')
    else (if leb b'a' c && leb c b'f' then some (c - b'a' + 10) else none)

unfoldable pub hex_number : ℕ → List ℕ → Option ℕ
hex_number total [] = some total
hex_number total (c ∷ cs) = elim (hash_digit c) [
  | none ↦ none
  | some digit ↦ hex_number (total * 16 + digit) cs
]

-- `sha256:`.
abbrev pub hash_prefix : List ℕ
hash_prefix = b's' ∷ b'h' ∷ b'a' ∷ b'2' ∷ b'5' ∷ b'6' ∷ b':' ∷ []

-- `/^sha256:([0-9a-f]{64})$/i`; the number that the digits spell stands for their text.
unfoldable pub parse_content_hash : List ℕ → Option ℕ
unfolding hex_number starts_with lower
parse_content_hash header =
    let digits : List ℕ = drop 7 (map lower header) in
    if starts_with (map lower header) hash_prefix && (length digits == 64)
    then hex_number 0 digits
    else none

-- Whether the identity may store under the machine, or the reply that refuses it.
unfoldable pub refused : Identity → ℕ → Option UploadReply
refused other_identity machine_id = some unauthorized
refused (machine_identity own is_admin) machine_id =
    if not (own == machine_id) && not is_admin then some machine_mismatch else none

abbrev pub enrolled : Option (Option ℕ) → Option (Option ℕ)
enrolled none = some none
enrolled (some last) = some last

unfoldable pub ensure_preview_upload_machine : Outside → Identity → Action (Unit {0})
ensure_preview_upload_machine out other_identity = pure tt
ensure_preview_upload_machine out (machine_identity own is_admin) =
    if out.is_preview && is_admin
    then modify (λ hub. record hub { machine = enrolled hub.machine })
    else pure tt

unfoldable pub skip_if_other : Outside → Detection → FilesRow → ℕ → Action Bool
unfolding mark_known_other_skipped
skip_if_other out detection existing hash =
    if is_other detection.kind then mark_known_other_skipped out existing.id hash else pure false

unfoldable pub requeue_if : Bool → Outside → FilesRow → Action UploadReply
unfolding requeue
requeue_if false out existing = pure (unchanged existing.id)
requeue_if true out existing = requeue out existing.queue.content_hash >>= λ requeued.
    pure (unchanged_requeued existing.id requeued)

-- A row whose identity was restamped, whose object was restored or whose parse has not ended is sent
-- again; a file that is not to be parsed is finished at once.
unfoldable pub resync : Outside → Detection → FilesRow → ℕ → Bool → Bool → Action UploadReply
unfolding skip_if_other requeue_if
resync out detection existing hash restamped restored = do
  was_skipped ← skip_if_other out detection existing hash
  let needed = restamped || restored || not (is_terminal_state existing.queue.parse_state)
  (if was_skipped then pure (unchanged_skipped existing.id) else requeue_if needed out existing)

unfoldable pub resync_restored :
    Outside → Detection → FilesRow → ℕ → Bool → Option Bool → Action UploadReply
unfolding resync
resync_restored out detection existing hash restamped none = pure checksum_or_write_failure
resync_restored out detection existing hash restamped (some restored) =
    resync out detection existing hash restamped restored

unfoldable pub put_same_hash :
    (List ℕ → ℕ) → Outside → Detection → FilesRow → ℕ → List ℕ → Action UploadReply
unfolding restamp_if_stale converge_r2_with_row resync_restored
put_same_hash sha256 out detection existing hash body = do
  restamped ← restamp_if_stale detection existing
  (if not out.body_is_read
      then pure body_read_failure
      else caught (converge_r2_with_row sha256 out existing.id existing.queue.content_hash body)
        >>= resync_restored out detection existing hash restamped)

-- Where the bytes do not extend the stored file, its object is copied aside first.
unfoldable pub preserve_first :
    (List ℕ → ℕ) → Outside → List ℕ → Option FilesRow → Action (Unit {0})
unfolding body_extends_stored preserve_displaced_object
preserve_first sha256 out body none = pure tt
preserve_first sha256 out body (some row) =
    if body_extends_stored sha256 body row.size row.queue.content_hash
    then pure tt
    else on_bucket
        (preserve_displaced_object out.preserve_reads out.preserve_put row.queue.content_hash)
      >> pure tt

unfoldable pub recorded_put :
    (List ℕ → ℕ) → Outside → Detection → Landed → List ℕ → Option (Unit {0}) → Action UploadReply
unfolding record_uploaded_object
recorded_put sha256 out detection landed body none = pure checksum_or_write_failure
recorded_put sha256 out detection landed body (some put) =
    record_uploaded_object sha256 out detection landed (some body) false

unfoldable pub store_canonical :
    (List ℕ → ℕ) → Outside → Detection → ℕ → Option ℕ → List ℕ → Action UploadReply
unfolding put_canonical recorded_put
store_canonical sha256 out detection hash mtime body =
    caught (on_bucket (put_canonical sha256 out.canonical_put body hash mtime))
    >>= recorded_put sha256 out detection
        (record { size = length body; mtime = mtime; hash = hash }) body

unfoldable pub store_if_preserved :
    (List ℕ → ℕ)
    → Outside
    → Detection
    → ℕ
    → Option ℕ
    → List ℕ
    → Option (Unit {0})
    → Action UploadReply
unfolding store_canonical
store_if_preserved sha256 out detection hash mtime body none = pure preserve_failed
store_if_preserved sha256 out detection hash mtime body (some preserved) =
    store_canonical sha256 out detection hash mtime body

unfoldable pub put_changed :
    (List ℕ → ℕ)
    → Outside
    → Detection
    → Option FilesRow
    → ℕ
    → Option ℕ
    → List ℕ
    → Action UploadReply
unfolding preserve_first store_if_preserved
put_changed sha256 out detection existing hash mtime body =
    if not out.body_is_read
    then throw
    else caught (preserve_first sha256 out body existing)
      >>= store_if_preserved sha256 out detection hash mtime body

unfoldable pub same_as : ℕ → Option FilesRow → Option FilesRow
same_as hash none = none
same_as hash (some row) = if row.queue.content_hash == hash then some row else none

unfoldable pub put_body :
    (List ℕ → ℕ) → Outside → Detection → ℕ → Option ℕ → List ℕ → Action UploadReply
unfolding same_as put_same_hash put_changed
put_body sha256 out detection hash mtime body hub = elim (same_as hash hub.row) [
  | some row ↦ put_same_hash sha256 out detection row hash body hub
  | none ↦ put_changed sha256 out detection hub.row hash mtime body hub
]

abbrev size_header : PutRequest → Option (Option ℕ)
size_header q = elim q.content_length [ none ↦ q.x_file_size | some size ↦ some size ]

-- What the headers and the body give, or the reply that refuses them.
unfoldable pub checked_request : PutRequest → Result UploadReply (ℕ × List ℕ)
unfolding parse_content_hash
checked_request q = elim (parse_content_hash q.content_hash) [
  | none ↦ err missing_or_bad_content_hash
  | some hash ↦ elim (size_header q) [
    | some (some size) ↦ elim q.body [ none ↦ err missing_body | some body ↦ ok (hash, body) ]
    | _ ↦ err missing_content_length
  ]
]

unfoldable pub put_checked :
    (List ℕ → ℕ)
    → Outside
    → Detection
    → Option ℕ
    → Result UploadReply (ℕ × List ℕ)
    → Action UploadReply
unfolding put_body
put_checked sha256 out detection mtime (err reply) = pure reply
put_checked sha256 out detection mtime (ok (hash, body)) =
    put_body sha256 out detection hash mtime body

unfoldable pub put_file : (List ℕ → ℕ) → Outside → Detection → PutRequest → Action UploadReply
unfolding refused ensure_preview_upload_machine checked_request put_checked
put_file sha256 out detection q = elim (refused q.identity q.machine_id) [
  | some reply ↦ pure reply
  | none ↦
      ensure_preview_upload_machine out q.identity
      >> put_checked sha256 out detection q.mtime (checked_request q)
]
