-- ===== src/Shards/Fences.antt =====
-- hub/src/index-shards.ts: the write fence of a session, as `claimIndexWrite` moves it.
use agent_sessions_backup.Prelude.{
  ℕ, ◌≤◌, max, ◌≡◌, refl, ◌∙◌, ◌↔◌, Bool, true, ◌&&◌, Option, none, some, List, [], ◌∷◌, arith, leb,
  ◌==◌, All, ok,
}
use agent_sessions_backup.Shards.{claim_index_write, index_write_fence, max_safe_integer}

-- The fence after writers claimed it in this order.
unfoldable pub claim_all : List ℕ → Option ℕ → Option ℕ
claim_all [] held = held
claim_all (version ∷ versions) held = claim_all versions (claim_index_write version held).0

-- The version held, 0 for none.
abbrev pub version_of : Option ℕ → ℕ
version_of none = 0
version_of (some version) = version

abbrev pub IsVersion : ℕ → Type 0
IsVersion version = (1 ≤ version) × (version ≤ max_safe_integer)

abbrev pub newest : List ℕ → ℕ
newest [] = 0
newest (v ∷ vs) = max v (newest vs)

abbrev pub not_above : ℕ → List ℕ → Bool
not_above version [] = true
not_above version (v ∷ vs) = leb v version && not_above version vs

claim-version_of :
    (version : ℕ) (held : Option ℕ)
    → IsVersion version
    → version_of (claim_index_write version held).0 ≡ max (version_of held) version
unfolding claim_index_write
claim-version_of version none h = ground arith
claim-version_of version (some v) h = ground arith

-- However claims are ordered, the fence stands at the newest version claimed or held before.
pub claim_all-newest :
    (versions : List ℕ) (held : Option ℕ)
    → All IsVersion versions
    → version_of (claim_all versions held) ≡ max (version_of held) (newest versions)
unfolding claim_all
claim_all-newest [] held h = omega arith
claim_all-newest (v ∷ vs) held h =
    omega (arith, claim-version_of v held h.0, claim_all-newest vs (claim_index_write v held).0 h.1)

fence-version_of :
    (version : ℕ) (held : Option ℕ)
    → 1 ≤ version
    → index_write_fence version held ≡ (version_of held == version)
unfolding index_write_fence
fence-version_of version none h = ground arith
fence-version_of version (some v) h = refl

not_above-newest :
    (version : ℕ) (versions : List ℕ) → leb (newest versions) version ≡ not_above version versions
not_above-newest version [] = ground arith
not_above-newest version (v ∷ vs) = ground (arith, not_above-newest version vs)

claim-ok :
    (version : ℕ) (held : Option ℕ)
    → IsVersion version
    → ((claim_index_write version held).1 ≡ ok tt) ↔ (version_of held ≤ version)
unfolding claim_index_write
claim-ok version none h = ground arith
claim-ok version (some v) h = ground arith

-- A claim succeeds exactly when no newer version is held, and what it then holds it keeps until a
-- newer version is claimed: after any later claims the fence of the claimed version is open just
-- when none of them is newer.
pub claim_index_write-fence :
    (version : ℕ) (held : Option ℕ) (later : List ℕ)
    → IsVersion version
    → All IsVersion later
    → (((claim_index_write version held).1 ≡ ok tt) ↔ (version_of held ≤ version))
      × (version_of held ≤ version
          → index_write_fence version (claim_all later (claim_index_write version held).0)
            ≡ not_above version later)
claim_index_write-fence version held later h hs = (
  claim-ok version held h,
  λ le.
      let after = claim_index_write version held in
      fence-version_of version (claim_all later after.0) h.0
      ∙ (ground (
        arith,
        claim_all-newest later after.0 hs,
        claim-version_of version held h,
        not_above-newest version later,
      )),
)
