-- ===== src/Detect/PromptLogs.antt =====
-- hub/src/ingest/detect.ts: which files depend on the machine.
use agent_sessions_backup.Detect.{
  split, last_part, drop_last, ends_with, detect, detect_claude, detect_codex, detect_rest,
  detect_omp, claude_other, claude_transcript, has_subagents, before_subagents, is_uuid, rollout_id,
  omp_parent, omp_file_id, unknown_file, detected, prompt_log_file_of, Detection, prompt_log, codex,
  session,
}
use agent_sessions_backup.Prelude.{
  ℕ, ◌≡◌, refl, sym, ap, ◌∙◌, ◌≢◌, ◌⊎◌, inl, inr, Bool, true, false, ◌&&◌, ◌||◌, Option, none, some,
  List, [], ◌∷◌, ◌++◌, arith, if◌then◌else◌, Bool-cases, Option-cases, length, length-append,
  text_eq, units, starts_with,
}

-- The machine is not looked at and the file is no prompt log, or it is the prompt log of the store.
abbrev DependsOn : List ℕ → (Option (List ℕ) → Detection) → Type 0
DependsOn store found =
    (((machine other : Option (List ℕ)) → found machine ≡ found other)
      × ((machine : Option (List ℕ)) → (found machine).harness ≢ prompt_log))
    ⊎ ((machine : Option (List ℕ)) → found machine ≡ prompt_log_file_of store machine)

if-DependsOn :
    (store : List ℕ) (t : Bool) (f g : Option (List ℕ) → Detection)
    → DependsOn store f
    → DependsOn store g
    → DependsOn store (λ machine. if t then f machine else g machine)
if-DependsOn store true f g hf hg = hf
if-DependsOn store false f g hf hg = hg

fixed-DependsOn :
    (store : List ℕ) (d : Detection) → d.harness ≢ prompt_log → DependsOn store (λ machine. d)
fixed-DependsOn store d h = inl ((λ m o. refl), (λ m. h))

unknown_file-DependsOn : (store : List ℕ) → DependsOn store (λ machine. unknown_file)
unknown_file-DependsOn store = fixed-DependsOn store unknown_file (λ e. absurd cc)

claude_other-DependsOn :
    (store : List ℕ) (parts : List (List ℕ)) (base : List ℕ)
    → DependsOn store (λ machine. claude_other store machine parts base)
unfolding claude_other
claude_other-DependsOn store parts base =
    if-DependsOn store (ends_with base (units ".meta.json") && has_subagents parts) _ _
      (fixed-DependsOn store _ (λ e. absurd cc))
      (if-DependsOn store (text_eq base (units "history.jsonl")) _ _ (inr (λ m. refl))
        (unknown_file-DependsOn store))

found-DependsOn :
    (store : List ℕ) (found : Option Detection) (f : Option (List ℕ) → Detection)
    → ((d : Detection) → found ≡ some d → d.harness ≢ prompt_log)
    → DependsOn store f
    → DependsOn store (λ machine. elim found [ some d ↦ d | none ↦ f machine ])
found-DependsOn store none f _ h = h
found-DependsOn store (some d) f named h = fixed-DependsOn store d (named d refl)

claude_transcript-harness :
    (parts : List (List ℕ)) (stem : List ℕ) (d : Detection)
    → claude_transcript parts stem ≡ some d
    → d.harness ≢ prompt_log
unfolding claude_transcript
claude_transcript-harness parts stem d = elim (Option-cases (before_subagents parts)) [
  | inl n ↦ elim (Bool-cases (is_uuid stem)) [
    | inl u ↦ rw (claude_transcript, n, u) (λ e h. absurd cc)
    | inr u ↦ rw (claude_transcript, n, u) (λ e h. absurd cc)
  ]
  | inr (parent, n) ↦ elim (Bool-cases (starts_with stem (units "agent-"))) [
    | inl a ↦ rw (claude_transcript, n, a) (λ e h. absurd cc)
    | inr a ↦ elim (Bool-cases (is_uuid stem)) [
      | inl u ↦ rw (claude_transcript, n, a, u) (λ e h. absurd cc)
      | inr u ↦ rw (claude_transcript, n, a, u) (λ e h. absurd cc)
    ]
  ]
]

detect_claude-DependsOn :
    (store : List ℕ) (parts : List (List ℕ)) (base : List ℕ)
    → DependsOn store (λ machine. detect_claude store machine parts base)
unfolding detect_claude
detect_claude-DependsOn store parts base =
    if-DependsOn store (ends_with base (units ".jsonl")) _ _
      (found-DependsOn store (claude_transcript parts (drop_last 6 base)) _
        (claude_transcript-harness parts (drop_last 6 base))
        (claude_other-DependsOn store parts base))
      (claude_other-DependsOn store parts base)

codex_named-DependsOn :
    (store : List ℕ) (id : Option (List ℕ)) (f : Option (List ℕ) → Detection)
    → DependsOn store f
    → DependsOn store
        (λ machine. elim id [ some i ↦ detected codex session (some i) none | none ↦ f machine ])
codex_named-DependsOn store none f h = h
codex_named-DependsOn store (some i) f h = fixed-DependsOn store _ (λ e. absurd cc)

detect_codex-DependsOn :
    (store base : List ℕ) → DependsOn store (λ machine. detect_codex store machine base)
unfolding detect_codex
detect_codex-DependsOn store base = codex_named-DependsOn store (rollout_id base) _ (
    if-DependsOn store (text_eq base (units "history.jsonl")) _ _ (inr (λ m. refl))
      (unknown_file-DependsOn store))

detect_omp-harness : (parts : List (List ℕ)) → (detect_omp parts).harness ≢ prompt_log
unfolding detect_omp
detect_omp-harness parts = elim (Option-cases (omp_parent parts)) [
  | inr ((parent, below), n) ↦ rw (detect_omp, n) (λ h. absurd cc)
  | inl n ↦ elim (Option-cases (omp_file_id (last_part parts))) [
    | inl u ↦ rw (detect_omp, n, u) (λ h. absurd cc)
    | inr (id, u) ↦ rw (detect_omp, n, u) (λ h. absurd cc)
  ]
]

detect_rest-DependsOn :
    (store : List ℕ) (parts : List (List ℕ)) (base : List ℕ)
    → DependsOn store (λ machine. detect_rest store parts base)
unfolding detect_rest
detect_rest-DependsOn store parts base =
    if-DependsOn store (text_eq store (units "omp") && ends_with base (units ".jsonl")) _ _
      (fixed-DependsOn store _ (detect_omp-harness parts))
      (if-DependsOn store (text_eq store (units "chatgpt-web") && ends_with base (units ".json")) _
        _ (fixed-DependsOn store _ (λ e. absurd cc))
        (if-DependsOn store (text_eq store (units "claude-web") && ends_with base (units ".json")) _
          _ (fixed-DependsOn store _ (λ e. absurd cc)) (unknown_file-DependsOn store)))

detect-DependsOn : (store relpath : List ℕ) → DependsOn store (detect store relpath)
unfolding detect
detect-DependsOn store relpath =
    if-DependsOn store (text_eq store (units "export-inbox")) _ _
      (if-DependsOn store (ends_with (last_part (split relpath)) (units ".zip")) _ _
        (fixed-DependsOn store _ (λ e. absurd cc)) (unknown_file-DependsOn store))
      (if-DependsOn store
        (text_eq store (units "claude-projects") || text_eq store (units "claude")) _ _
        (detect_claude-DependsOn store (split relpath) (last_part (split relpath)))
        (if-DependsOn store
          (text_eq store (units "codex-sessions") || text_eq store (units "codex")) _ _
          (detect_codex-DependsOn store (last_part (split relpath)))
          (detect_rest-DependsOn store (split relpath) (last_part (split relpath)))))

same_tail :
    (xs ys : List ℕ) (c : ℕ) (tail : List ℕ)
    → length xs ≡ length ys
    → xs ++ c ∷ tail ≡ ys ++ c ∷ tail
    → xs ≡ ys
same_tail [] [] c tail l e = refl
same_tail [] (y ∷ ys) c tail l e = absurd (ground arith)
same_tail (x ∷ xs) [] c tail l e = absurd (ground arith)
same_tail (x ∷ xs) (y ∷ ys) c tail l e =
    let rest : xs ≡ ys = same_tail xs ys c tail (omega (arith, l)) cc in cc

same_length : (xs ys tail : List ℕ) → xs ++ tail ≡ ys ++ tail → length xs ≡ length ys
same_length xs ys tail e =
    let l : length (xs ++ tail) ≡ length (ys ++ tail) = ap length e in
    let a = length-append xs tail in let b = length-append ys tail in omega (arith, l, a, b)

prompt_log_file_of-harness :
    (store : List ℕ) (machine : Option (List ℕ))
    → (prompt_log_file_of store machine).harness ≡ prompt_log
unfolding prompt_log_file_of
prompt_log_file_of-harness store none = refl
prompt_log_file_of-harness store (some []) = refl
prompt_log_file_of-harness store (some (c ∷ m)) = refl

prompt_log_file_of-machine :
    (store : List ℕ) (c d : ℕ) (m n : List ℕ)
    → (prompt_log_file_of store (some (c ∷ m))).session_id
      ≡ (prompt_log_file_of store (some (d ∷ n))).session_id
    → (c ∷ m) ≡ (d ∷ n)
unfolding prompt_log_file_of
prompt_log_file_of-machine store c d m n e =
    let same : (c ∷ m) ++ b':' ∷ store ≡ (d ∷ n) ++ b':' ∷ store = cc in
    same_tail (c ∷ m) (d ∷ n) b':' store (same_length (c ∷ m) (d ∷ n) (b':' ∷ store) same) same

-- For two machines whose ids differ and are not empty, a path of a store is no prompt log and is
-- detected as the same file for both, or it is detected as the prompt log of each, and then the two
-- have different session ids.
pub detect-machines :
    (store relpath : List ℕ) (c d : ℕ) (m n : List ℕ)
    → (c ∷ m) ≢ (d ∷ n)
    → (((detect store relpath (some (c ∷ m))).harness ≢ prompt_log)
        × (detect store relpath (some (c ∷ m)) ≡ detect store relpath (some (d ∷ n))))
      ⊎ (((detect store relpath (some (c ∷ m))).harness ≡ prompt_log)
          × ((detect store relpath (some (d ∷ n))).harness ≡ prompt_log)
          × ((detect store relpath (some (c ∷ m))).session_id
              ≢ (detect store relpath (some (d ∷ n))).session_id))
detect-machines store relpath c d m n differ = elim (detect-DependsOn store relpath) [
  | inl (same, other) ↦ inl (other (some (c ∷ m)), same (some (c ∷ m)) (some (d ∷ n)))
  | inr found ↦ inr (
    ap (λ x. x.harness) (found (some (c ∷ m))) ∙ prompt_log_file_of-harness store (some (c ∷ m)),
    ap (λ x. x.harness) (found (some (d ∷ n))) ∙ prompt_log_file_of-harness store (some (d ∷ n)),
    λ e. differ (
        prompt_log_file_of-machine store c d m n (
          ap (λ x. x.session_id) (sym (found (some (c ∷ m))))
          ∙ e
          ∙ ap (λ x. x.session_id) (found (some (d ∷ n))))),
  )
]
