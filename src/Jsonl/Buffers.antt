-- ===== src/Jsonl/Buffers.antt =====
-- The buffer that joins the pending chunks of a line.
use agent_sessions_backup.Jsonl.{set_bytes, copy_chunks, pending_text}
use agent_sessions_backup.Prelude.{
  length-append, ℕ, zero, suc, ◌+◌, ◌≡◌, refl, sym, ap, ◌∙◌, List, [], ◌∷◌, ◌++◌, append-nil,
  append_assoc, arith, length, drop, replicate, concat, length-append, take-append, drop-append,
}

suc-add : (a b : ℕ) → suc a + b ≡ suc (a + b)
suc-add a b = omega arith

drop-nil : (n : ℕ) → drop {A = ℕ} n [] ≡ []
drop-nil zero = refl
drop-nil (suc n) = refl

drop-add : (a b : ℕ) (xs : List ℕ) → drop (a + b) xs ≡ drop b (drop a xs)
drop-add zero b xs = ground arith
drop-add (suc a) b [] = rw (suc-add a b) (sym (drop-nil b))
drop-add (suc a) b (x ∷ xs) = rw (suc-add a b) (drop-add a b xs)

drop-replicate : (n k : ℕ) → drop n (replicate {A = ℕ} (n + k) 0) ≡ replicate k 0
drop-replicate zero k = ground arith
drop-replicate (suc n) k = rw (suc-add n k) (drop-replicate n k)

set_bytes-zeros :
    (done chunk : List ℕ) (k : ℕ)
    → set_bytes (done ++ replicate (length chunk + k) 0) (length done) chunk
      ≡ (done ++ chunk) ++ replicate k 0
unfolding set_bytes
set_bytes-zeros done chunk k =
    rw
      (
        take-append done (replicate (length chunk + k) 0),
        drop-add (length done) (length chunk) (done ++ replicate (length chunk + k) 0),
        drop-append done (replicate (length chunk + k) 0),
        drop-replicate (length chunk) k,
      )
      (sym (append_assoc done chunk (replicate k 0)))

copy_chunks-zeros :
    (done : List ℕ) (chunks : List (List ℕ))
    → copy_chunks (done ++ replicate (length (concat chunks)) 0) (length done) chunks
      ≡ done ++ concat chunks
unfolding copy_chunks
copy_chunks-zeros done [] = refl
copy_chunks-zeros done (c ∷ chunks) =
    rw
      (
        length-append c (concat chunks),
        set_bytes-zeros done c (length (concat chunks)),
        ← length-append done c,
      )
      (copy_chunks-zeros (done ++ c) chunks ∙ append_assoc done c (concat chunks))

-- Whatever the number of pending chunks, their concatenation is decoded.
pub pending_text-concat :
    {T : Type 0} (decode : List ℕ → T) (chunks : List (List ℕ))
    → pending_text decode chunks (length (concat chunks)) ≡ decode (concat chunks)
unfolding pending_text
pending_text-concat decode [] = ap decode (copy_chunks-zeros [] [])
pending_text-concat decode (c ∷ []) = ap decode (sym (append-nil c))
pending_text-concat decode (c ∷ d ∷ chunks) = ap decode (copy_chunks-zeros [] (c ∷ d ∷ chunks))
