-- ===== src/Uploads/Multipart/Parts.antt =====
-- hub/src/api/multipart.ts: the rules for one part.
use agent_sessions_backup.Uploads.Put.{refused}
use agent_sessions_backup.Uploads.Multipart.Tokens.{parse_upload_token, UploadToken}
use agent_sessions_backup.Uploads.Multipart.{
  part_number_of, part_number_refused, checked_body, checked_part, non_uniform_part, bad_last_part,
  max_part_number, min_part_size, part_refused, PartRequest,
}
use agent_sessions_backup.Prelude.{
  ℕ, ◌≤◌, ◌≡◌, refl, subst, ◌⊎◌, inl, inr, Bool, true, false, ◌||◌, Option, none, some, List, arith,
  ltb, ◌==◌, if◌then◌else◌, Bool-cases, Option-cases, length, ok, Result-cases,
}

-- A part that may be given to R2.
abbrev pub IsFit : PartRequest → ℕ → List ℕ → Type 0
IsFit q number body =
    (declared : ℕ) × (q.part_size ≡ some declared)
    × (q.body ≡ some body)
    × (min_part_size ≤ declared)
    × (1 ≤ number)
    × (number ≤ max_part_number)
    × (1 ≤ length body)
    × (length body ≤ declared)
    × (q.is_last ≡ false → length body ≡ declared)

last_refused :
    (empty long : Bool)
    → (empty ≡ true) ⊎ (long ≡ true)
    → (if empty || long then some bad_last_part else none) ≡ none
    → ⊥
last_refused true long h e = cc
last_refused false true h e = cc
last_refused false false (inl h) e = cc
last_refused false false (inr h) e = cc

number_refused : (low large : Bool) → (low ≡ true) ⊎ (large ≡ true) → (low || large) ≡ false → ⊥
number_refused true large h e = cc
number_refused false true h e = cc
number_refused false false (inl h) e = cc
number_refused false false (inr h) e = cc

inner_refused :
    (same : Bool) → same ≡ false → (if same then none else some non_uniform_part) ≡ none → ⊥
inner_refused true h e = cc
inner_refused false h e = cc

part_refused-none :
    (is_last : Bool) (declared len : ℕ)
    → min_part_size ≤ declared
    → part_refused is_last declared len ≡ none
    → (1 ≤ len) × (len ≤ declared) × (is_last ≡ false → len ≡ declared)
unfolding part_refused
part_refused-none true declared len m e = elim (Bool-cases (len == 0)) [
  | inl z ↦ absurd (last_refused (len == 0) (ltb declared len) (inl z) e)
  | inr z ↦ elim (Bool-cases (ltb declared len)) [
    | inl t ↦ absurd (last_refused (len == 0) (ltb declared len) (inr t) e)
    | inr t ↦ (ground arith, ground arith, λ h. absurd cc)
  ]
]
part_refused-none false declared len m e = elim (Bool-cases (len == declared)) [
  | inl t ↦ let same : len ≡ declared = ground arith in (omega arith, omega arith, λ h. same)
  | inr t ↦ absurd (inner_refused (len == declared) t e)
]

-- What the rules for the body and its declared size let through.
abbrev IsFitBody : Bool → Option ℕ → Option (List ℕ) → List ℕ → Type 0
IsFitBody is_last part_size given body =
    (declared : ℕ) × (part_size ≡ some declared)
    × (given ≡ some body)
    × (min_part_size ≤ declared)
    × (1 ≤ length body)
    × (length body ≤ declared)
    × (is_last ≡ false → length body ≡ declared)

checked_body-IsFitBody :
    (is_last : Bool) (part_size : Option ℕ) (given : Option (List ℕ)) (body : List ℕ)
    → checked_body is_last part_size given ≡ ok body
    → IsFitBody is_last part_size given body
unfolding checked_body
checked_body-IsFitBody is_last none given body = λ e. absurd cc
checked_body-IsFitBody is_last (some declared) none body =
    elim (Bool-cases (ltb declared min_part_size)) [
      | inl t ↦ rw (checked_body, t) (λ e. absurd cc)
      | inr t ↦ rw (checked_body, t) (λ e. absurd cc)
    ]
checked_body-IsFitBody is_last (some declared) (some given) body =
    elim (Bool-cases (ltb declared min_part_size)) [
      | inl t ↦ rw (checked_body, t) (λ e. absurd cc)
      | inr t ↦ elim (Option-cases (part_refused is_last declared (length given))) [
        | inr (reply, r) ↦ rw (checked_body, t, r) (λ e. absurd cc)
        | inl r ↦
            rw (checked_body, t, r)
              λ e.
                let same : given ≡ body = cc in
                let large : min_part_size ≤ declared = ground arith in
                let (filled, fits, whole) =
                  part_refused-none is_last declared (length given) large r in
                subst (IsFitBody is_last (some declared) (some given)) same
                  (declared, refl, refl, large, filled, fits, whole)
      ]
    ]

part_number-bounds :
    (given : Option ℕ)
    → part_number_refused given ≡ false
    → (1 ≤ part_number_of given) × (part_number_of given ≤ max_part_number)
unfolding part_number_refused
part_number-bounds none e = absurd cc
part_number-bounds (some number) e = elim (Bool-cases (number == 0)) [
  | inl z ↦ absurd (number_refused (number == 0) (ltb max_part_number number) (inl z) e)
  | inr z ↦ elim (Bool-cases (ltb max_part_number number)) [
    | inl t ↦ absurd (number_refused (number == 0) (ltb max_part_number number) (inr t) e)
    | inr t ↦ (ground arith, ground arith)
  ]
]

-- A request whose part is passed on to R2 has named a part number from 1 to 10000 and a part size of
-- at least 5 MiB, and its bytes are not empty, not more than that size, and just as many for any part
-- but the last.
pub checked_part-IsFit :
    (q : PartRequest) (token : UploadToken) (number : ℕ) (body : List ℕ)
    → checked_part q ≡ ok (token, number, body)
    → IsFit q number body
unfolding checked_part
checked_part-IsFit q token number body = elim (Option-cases (refused q.identity q.machine_id)) [
  | inr (reply, r) ↦ rw (checked_part, r) (λ e. absurd cc)
  | inl r ↦ elim (Option-cases (parse_upload_token q.upload_id)) [
    | inl t ↦ rw (checked_part, r, t) (λ e. absurd cc)
    | inr (parsed, t) ↦ elim (Bool-cases (part_number_refused q.part_number)) [
      | inl n ↦ rw (checked_part, r, t, n) (λ e. absurd cc)
      | inr n ↦ elim (Result-cases (checked_body q.is_last q.part_size q.body)) [
        | inr (reply, b) ↦ rw (checked_part, r, t, n, b) (λ e. absurd cc)
        | inl (bytes, b) ↦
            rw (checked_part, r, t, n, b)
              λ e.
                let same : bytes ≡ body = cc in
                let numbered : part_number_of q.part_number ≡ number = cc in
                let (low, high) = part_number-bounds q.part_number n in
                let (declared, size, given, large, filled, fits, whole) =
                  checked_body-IsFitBody q.is_last q.part_size q.body bytes b in
                subst (λ x. IsFit q x body) numbered
                  (subst (IsFit q (part_number_of q.part_number)) same
                    (declared, size, given, large, low, high, filled, fits, whole))
      ]
    ]
  ]
]
