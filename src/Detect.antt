-- ===== src/Detect.antt =====
-- hub/src/ingest/detect.ts and the type `Harness` of hub/src/ingest/normalize.ts: what a stored file
-- is by its path. A text is the list of its code units. The regular expressions are written out; a
-- session id of fixed length is told by its place.
pub mod PromptLogs
pub mod Tests
use agent_sessions_backup.Prelude.{
  ℕ, zero, suc, ◌+◌, ◌-◌, ◌*◌, ◌/◌, ◌%◌, ◌^◌, ◌≤◌, ◌<◌, min, max, ◌≡◌, refl, sym, ap, ◌∙◌, subst,
  ◌≡⟨◌⟩◌, ◌∎, ◌≢◌, ◌↔◌, ◌⊎◌, inl, inr, Bool, true, false, not, ◌&&◌, ◌||◌, Option, none, some, List,
  [], ◌∷◌, ◌++◌, map, append-nil, append_assoc, arith, dec_lt, ℕ_discrete, ltb, leb, ◌==◌,
  if◌then◌else◌, ltb→lt, lt→ltb, leb→le, ==_iff, tests, Bool-cases, Option-cases, length, take,
  drop, replicate, concat, get_elem?, All, length-append, take-append-drop, length-take,
  length-drop, take-append, drop-append, concat-append, All-append, All-map, ℤ, pos, negsuc, Result,
  ok, err, Result-cases, Call, done, lost_before, lost_after, call, call-kept, text_eq, units,
  starts_with, find, lower,
}

pub data Harness : Type 0 where
  claude_code codex chatgpt_web claude_web claude_cowork prompt_log omp unknown : Harness

pub data Kind : Type 0 where
  session subagent subagent_meta prompt_log_file export_archive other : Kind

pub record Detection : Type 0 where
  pub harness : Harness
  pub session_id : Option (List ℕ)
  pub parent_session_id : Option (List ℕ)
  pub kind : Kind

-- `text.split('/')`, with the part that is being read.
split_slash : List ℕ → List (List ℕ) × List ℕ
split_slash [] = ([], [])
split_slash (c ∷ cs) =
    let (parts, part) = split_slash cs in
    if c == b'/' then (part ∷ parts, []) else (parts, c ∷ part)

unfoldable pub split : List ℕ → List (List ℕ)
unfolding split_slash
split text = (split_slash text).1 ∷ (split_slash text).0

unfoldable pub last_part : List (List ℕ) → List ℕ
last_part [] = []
last_part (part ∷ []) = part
last_part (part ∷ next ∷ parts) = last_part (next ∷ parts)

unfoldable pub join : List (List ℕ) → List ℕ
join [] = []
join (part ∷ []) = part
join (part ∷ next ∷ parts) = part ++ b'/' ∷ join (next ∷ parts)

unfoldable pub ends_with : List ℕ → List ℕ → Bool
unfolding text_eq
ends_with text suffix =
    leb (length suffix) (length text) && text_eq (drop (length text - length suffix) text) suffix

-- `text.slice(0, -n)`.
abbrev pub drop_last : ℕ → List ℕ → List ℕ
drop_last n text = take (length text - n) text

-- The part before the first `subagents`, if that is not the first part: `some` of it or `none`.
unfoldable pub before_subagents : List (List ℕ) → Option (List ℕ)
unfolding text_eq
before_subagents [] = none
before_subagents (part ∷ []) = none
before_subagents (part ∷ next ∷ parts) =
    let later : Option (List ℕ) = before_subagents (next ∷ parts) in
    if text_eq part (units "subagents")
    then none
    else (if text_eq next (units "subagents") then some part else later)

unfoldable pub has_subagents : List (List ℕ) → Bool
unfolding text_eq
has_subagents [] = false
has_subagents (part ∷ parts) = text_eq part (units "subagents") || has_subagents parts

abbrev is_hex_code : ℕ → Bool
is_hex_code c = (leb b'0' c && leb c b'9') || (leb b'a' (lower c) && leb (lower c) b'f')

-- Hexadecimal digits only.
all_hex : List ℕ → Bool
unfolding lower
all_hex [] = true
all_hex (c ∷ cs) = is_hex_code c && all_hex cs

-- `UUID_RE`.
unfoldable pub is_uuid : List ℕ → Bool
unfolding all_hex text_eq
is_uuid text =
    (length text == 36)
    && all_hex (take 8 text)
    && text_eq (take 1 (drop 8 text)) (units "-")
    && all_hex (take 4 (drop 9 text))
    && text_eq (take 1 (drop 13 text)) (units "-")
    && all_hex (take 4 (drop 14 text))
    && text_eq (take 1 (drop 18 text)) (units "-")
    && all_hex (take 4 (drop 19 text))
    && text_eq (take 1 (drop 23 text)) (units "-")
    && all_hex (drop 24 text)

-- `.` of a regular expression takes no line terminator.
unfoldable pub is_one_line : List ℕ → Bool
is_one_line [] = true
is_one_line (c ∷ cs) = not ((c == 10) || (c == 13) || (c == 8232) || (c == 8233)) && is_one_line cs

-- `/^rollout-.*-(…)\.jsonl$/i`: the id, in lower case.
unfoldable pub rollout_id : List ℕ → Option (List ℕ)
unfolding starts_with ends_with is_uuid is_one_line lower
rollout_id base =
    let stem : List ℕ = drop_last 6 base in
    let middle : List ℕ = drop 8 (drop_last 36 stem) in
    let id : List ℕ = drop (length stem - 36) stem in
    if leb 51 (length base)
      && starts_with (map lower base) (units "rollout-")
      && ends_with (map lower base) (units ".jsonl")
      && is_uuid id
      && ends_with middle (units "-")
      && is_one_line (drop_last 1 middle)
    then some (map lower id)
    else none

abbrev is_number : ℕ → Bool
is_number c = leb b'0' c && leb c b'9'

unfoldable pub all_numbers : List ℕ → Bool
all_numbers [] = true
all_numbers (c ∷ cs) = is_number c && all_numbers cs

abbrev is_separator : List ℕ → Bool
is_separator text = text_eq text (units "-") || text_eq text (units "_")

-- `^\d{4}[-_]\d{2}[-_]\d{2}`.
unfoldable pub has_date : List ℕ → Bool
unfolding all_numbers text_eq
has_date text =
    leb 10 (length text)
    && all_numbers (take 4 text)
    && is_separator (take 1 (drop 4 text))
    && all_numbers (take 2 (drop 5 text))
    && is_separator (take 1 (drop 7 text))
    && all_numbers (take 2 (drop 8 text))

-- What follows the last underscore.
unfoldable pub after_underscore : List ℕ → Option (List ℕ)
after_underscore [] = none
after_underscore (c ∷ cs) =
    let later : Option (List ℕ) = after_underscore cs in
    elim later [ some id ↦ some id | none ↦ if c == b'_' then some cs else none ]

abbrev non_empty : Option (List ℕ) → Option (List ℕ)
non_empty (some (c ∷ id)) = some (c ∷ id)
non_empty _ = none

-- `OMP_MAIN_DIR_RE` on a part of a path, which has no slash.
unfoldable pub omp_dir_id : List ℕ → Option (List ℕ)
unfolding has_date after_underscore
omp_dir_id part = if has_date part then non_empty (after_underscore (drop 10 part)) else none

-- `OMP_MAIN_FILE_RE`.
unfoldable pub omp_file_id : List ℕ → Option (List ℕ)
unfolding ends_with omp_dir_id
omp_file_id part = if ends_with part (units ".jsonl") then omp_dir_id (drop_last 6 part) else none

unfoldable pub omp_id : List ℕ → Option (List ℕ)
unfolding omp_file_id
omp_id part = elim (omp_file_id part) [ some id ↦ some id | none ↦ omp_dir_id part ]

-- The last part before the file that names a main session, and the path below it.
unfoldable pub omp_parent : List (List ℕ) → Option (List ℕ × List (List ℕ))
unfolding omp_id
omp_parent [] = none
omp_parent (part ∷ []) = none
omp_parent (part ∷ next ∷ parts) =
    let later : Option (List ℕ × List (List ℕ)) = omp_parent (next ∷ parts) in
    elim later [
      | some found ↦ some found
      | none ↦ elim (omp_id part) [ none ↦ none | some id ↦ some (id, next ∷ parts) ]
    ]

abbrev pub detected : Harness → Kind → Option (List ℕ) → Option (List ℕ) → Detection
detected harness kind id parent = record {
  harness = harness;
  session_id = id;
  parent_session_id = parent;
  kind = kind;
}

abbrev pub unknown_file : Detection
unknown_file = detected unknown other none none

unfoldable pub detect_omp : List (List ℕ) → Detection
unfolding omp_parent join
detect_omp parts = elim (omp_parent parts) [
  | some (parent, below) ↦
      detected omp subagent (some (units "omp:" ++ parent ++ b':' ∷ join below)) (some parent)
  | none ↦ elim (omp_file_id (last_part parts)) [
    | some id ↦ detected omp session (some id) none
    | none ↦ detected omp session (some (drop_last 6 (last_part parts))) none
  ]
]

-- A machine id that is absent or empty gives no session id.
unfoldable pub prompt_log_file_of : List ℕ → Option (List ℕ) → Detection
prompt_log_file_of store (some (c ∷ machine)) =
    detected prompt_log prompt_log_file (some (units "promptlog:" ++ (c ∷ machine) ++ b':' ∷ store))
      none
prompt_log_file_of store _ = detected prompt_log prompt_log_file none none

abbrev uuid_parent : List ℕ → Option (List ℕ)
uuid_parent parent = if is_uuid parent then some parent else none

-- A transcript below `subagents`, or one that is named by its id.
unfoldable pub claude_transcript : List (List ℕ) → List ℕ → Option Detection
unfolding before_subagents starts_with is_uuid
claude_transcript parts stem =
    let main : Option Detection =
      if is_uuid stem then some (detected claude_code session (some stem) none) else none in
    elim (before_subagents parts) [
      | none ↦ main
      | some parent ↦
          if starts_with stem (units "agent-")
          then some (detected claude_code subagent (some (drop 6 stem)) (uuid_parent parent))
          else main
    ]

unfoldable pub claude_other : List ℕ → Option (List ℕ) → List (List ℕ) → List ℕ → Detection
unfolding ends_with has_subagents text_eq prompt_log_file_of
claude_other store machine parts base =
    if ends_with base (units ".meta.json") && has_subagents parts
    then detected claude_code subagent_meta none none
    else (if text_eq base (units "history.jsonl")
        then prompt_log_file_of store machine
        else unknown_file)

unfoldable pub detect_claude : List ℕ → Option (List ℕ) → List (List ℕ) → List ℕ → Detection
unfolding claude_transcript claude_other
detect_claude store machine parts base =
    if ends_with base (units ".jsonl")
    then elim (claude_transcript parts (drop_last 6 base)) [
      | some found ↦ found
      | none ↦ claude_other store machine parts base
    ]
    else claude_other store machine parts base

unfoldable pub detect_codex : List ℕ → Option (List ℕ) → List ℕ → Detection
unfolding rollout_id text_eq prompt_log_file_of
detect_codex store machine base = elim (rollout_id base) [
  | some id ↦ detected codex session (some id) none
  | none ↦
      if text_eq base (units "history.jsonl")
      then prompt_log_file_of store machine
      else unknown_file
]

-- The stores that do not depend on the machine.
unfoldable pub detect_rest : List ℕ → List (List ℕ) → List ℕ → Detection
unfolding text_eq ends_with detect_omp
detect_rest store parts base =
    if text_eq store (units "omp") && ends_with base (units ".jsonl")
    then detect_omp parts
    else (if text_eq store (units "chatgpt-web") && ends_with base (units ".json")
        then detected chatgpt_web session (some (drop_last 5 base)) none
        else (if text_eq store (units "claude-web") && ends_with base (units ".json")
            then detected claude_web session (some (drop_last 5 base)) none
            else unknown_file))

unfoldable pub detect : List ℕ → List ℕ → Option (List ℕ) → Detection
unfolding split last_part text_eq ends_with detect_claude detect_codex detect_rest
detect store relpath machine =
    let parts : List (List ℕ) = split relpath in
    let base : List ℕ = last_part parts in
    if text_eq store (units "export-inbox")
    then (if ends_with base (units ".zip")
        then detected unknown export_archive none none
        else unknown_file)
    else (if text_eq store (units "claude-projects") || text_eq store (units "claude")
        then detect_claude store machine parts base
        else (if text_eq store (units "codex-sessions") || text_eq store (units "codex")
            then detect_codex store machine base
            else detect_rest store parts base))
