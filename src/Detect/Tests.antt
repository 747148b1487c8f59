-- ===== src/Detect/Tests.antt =====
-- hub/src/ingest/detect.ts: paths of each store.
use agent_sessions_backup.Detect.PromptLogs.{detect-machines}
use agent_sessions_backup.Detect.{
  join, after_underscore, all_numbers, has_date, omp_dir_id, omp_file_id, is_one_line,
  before_subagents, omp_id, is_uuid, claude_transcript, omp_parent, rollout_id, detect_claude,
  detect_omp, detect_codex, ends_with, last_part, split, prompt_log, detect, claude_code, codex,
  session, subagent,
}
use agent_sessions_backup.Prelude.{
  ℕ, ◌≡◌, refl, ◌≢◌, ◌⊎◌, none, some, List, [], ◌∷◌, arith, text_eq, units, starts_with, lower,
}

abbrev history : List ℕ
history = units "history.jsonl"

head_of : {x y : ℕ} → (x ∷ []) ≡ (y ∷ []) → x ≡ y
head_of e = cc

detect-machines_example :
    (((detect (units "claude") history (some (b'a' ∷ []))).harness ≢ prompt_log)
      × (detect (units "claude") history (some (b'a' ∷ []))
          ≡ detect (units "claude") history (some (b'b' ∷ []))))
    ⊎ (((detect (units "claude") history (some (b'a' ∷ []))).harness ≡ prompt_log)
        × ((detect (units "claude") history (some (b'b' ∷ []))).harness ≡ prompt_log)
        × ((detect (units "claude") history (some (b'a' ∷ []))).session_id
            ≢ (detect (units "claude") history (some (b'b' ∷ []))).session_id))
detect-machines_example =
    detect-machines (units "claude") history b'a' b'b' [] []
      (λ e. let same : b'a' ≡ b'b' = head_of e in ground arith)

codex_file :
    detect
      (units "codex")
      (units "2026/01/02/rollout-2026-01-02T03-04-05-0199A213-81c0-7800-8aa1-bbab2a035a53.jsonl")
      none
    ≡ record {
      harness = codex;
      session_id = some (units "0199a213-81c0-7800-8aa1-bbab2a035a53");
      parent_session_id = none;
      kind = session;
    }
unfolding detect split last_part text_eq ends_with detect_codex rollout_id starts_with is_uuid
    is_one_line lower
codex_file = refl

omp_sidecar :
    (detect (units "omp") (units "2026-02-16T10-20-30-000Z_abc/agents/x.jsonl") none).session_id
    ≡ some (units "omp:abc:agents/x.jsonl")
unfolding detect split last_part text_eq ends_with detect_omp omp_parent omp_id omp_file_id
    omp_dir_id has_date all_numbers after_underscore join
omp_sidecar = refl

claude_sidecar :
    (detect
      (units "claude")
      (units "p/0199a213-81c0-7800-8aa1-bbab2a035a53/subagents/agent-7.jsonl")
      none)
    ≡ record {
      harness = claude_code;
      session_id = some (units "7");
      parent_session_id = some (units "0199a213-81c0-7800-8aa1-bbab2a035a53");
      kind = subagent;
    }
unfolding detect split last_part text_eq ends_with detect_claude claude_transcript before_subagents
    starts_with is_uuid lower
claude_sidecar = refl
