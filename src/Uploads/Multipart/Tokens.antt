-- ===== src/Uploads/Multipart/Tokens.antt =====
-- hub/src/api/multipart.ts: the opaque upload id, which is the nonce of the staging key and R2's own id.
use agent_sessions_backup.Prelude.{
  ℕ, suc, ◌+◌, ◌<◌, ◌≡◌, refl, false, ◌||◌, Option, none, some, List, [], ◌∷◌, ◌++◌, arith, ◌==◌,
  if◌then◌else◌, length, take, drop, All, length-append, take-append, starts_with, find,
}

pub record UploadToken : Type 0 where
  pub nonce : List ℕ
  pub r2_upload_id : List ℕ

abbrev pub dot : ℕ
dot = b'.'

unfoldable pub upload_token : List ℕ → List ℕ → List ℕ
upload_token nonce r2_upload_id = nonce ++ dot ∷ r2_upload_id

-- A dot that is the first or the last code unit is refused.
unfoldable pub parse_upload_token : List ℕ → Option UploadToken
unfolding find
parse_upload_token token = elim (find token (dot ∷ [])) [
  | none ↦ none
  | some at ↦
      if (at == 0) || (suc at == length token)
      then none
      else some (record { nonce = take at token; r2_upload_id = drop (suc at) token })
]

find-append :
    (nonce id : List ℕ)
    → All (λ c. (c == dot) ≡ false) nonce
    → find (nonce ++ dot ∷ id) (dot ∷ []) ≡ some (length nonce)
unfolding find starts_with
find-append [] id h = refl
find-append (c ∷ nonce) id (hc, h) = rw (hc, find-append nonce id h) refl

drop_past :
    (nonce : List ℕ) (c : ℕ) (id : List ℕ) → drop (suc (length nonce)) (nonce ++ c ∷ id) ≡ id
drop_past [] c id = refl
drop_past (d ∷ nonce) c id = drop_past nonce c id

inner_dot : (n m : ℕ) → 0 < n → 0 < m → ((n == 0) || (suc n == n + suc m)) ≡ false
inner_dot n m hn hm = ground arith

-- A nonce without a dot and any id of R2's, neither of them empty, come back from the token that they
-- were packed into, whatever dots the id has.
pub parse_upload_token-upload_token :
    (nonce id : List ℕ)
    → All (λ c. (c == dot) ≡ false) nonce
    → 0 < length nonce
    → 0 < length id
    → parse_upload_token (upload_token nonce id)
      ≡ some (record { nonce = nonce; r2_upload_id = id })
unfolding parse_upload_token upload_token
parse_upload_token-upload_token nonce id h n i =
    rw
      (
        parse_upload_token,
        upload_token,
        find-append nonce id h,
        length-append nonce (dot ∷ id),
        take-append nonce (dot ∷ id),
        drop_past nonce dot id,
        inner_dot (length nonce) (length id) n i,
      )
      refl
