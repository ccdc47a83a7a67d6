-- ===== src/Ngram/Table/Balance.antt =====
-- The pages that `NgramPrefetcher` hints are released again.
use sabah_mo_e_accelerator.Base.{ℕ, ◌+◌, ◌≡◌, Bool, true, List, [], ◌∷◌}
use sabah_mo_e_accelerator.Ngram.Table.{NgramPrefetcher, taken_bytes, table_runs, step}

-- The steps of a sequence of token lists.
unfoldable pub feed :
    ℕ → (ℕ → ℕ → Bool) → (ℕ → ℕ → Bool) → NgramPrefetcher → List (List ℕ) → NgramPrefetcher
unfolding step
feed page hint drop p [] = p
feed page hint drop p (ts ∷ tss) = feed page hint drop (step page hint drop p ts).0 tss

module _ (page : ℕ) (hint drop : ℕ → ℕ → Bool) (alike : (a l : ℕ) → hint a l ≡ drop a l) where
  -- What is hinted and not yet released is what the last step hinted.
  pub record IsBalanced (p : NgramPrefetcher) : Type 0 where
    pub mapped : p.table.mapped ≡ true
    pub enabled : p.enabled ≡ true
    pub releasing : p.release_previous ≡ true
    pub bytes :
        p.table.hinted_bytes
        ≡ p.table.released_bytes + taken_bytes drop (table_runs page p.table p.prev)
