-- ===== src/Ngram/Runs.antt =====
-- `_runs` of sabah/runtime/ngram_prefetch.py: row indices merged into page-aligned byte runs. `page`
-- is `mmap.PAGESIZE`; a run is an address and a length.
pub mod Cover
use sabah_mo_e_accelerator.Base.{
  ℕ, ◌+◌, ◌-◌, ◌*◌, ◌/◌, ◌%◌, min, List, [], ◌∷◌, Option, none, some, leb, sorted_set, ◌==◌,
  if◌then◌else◌,
}

-- The loop that merges consecutive indices: the first row and the number of rows of each group.
unfoldable pub group : ℕ → ℕ → List ℕ → List (ℕ × ℕ)
group start prev [] = (start, prev - start + 1) ∷ []
group start prev (i ∷ is) =
    let extended = group start i is in
    let closed = group i i is in
    if i == prev + 1 then extended else (start, prev - start + 1) ∷ closed

unfoldable pub groups : List ℕ → List (ℕ × ℕ)
unfolding group
groups [] = []
groups (i ∷ is) = group i i is

-- The bytes of a group of rows, aligned outward to pages.
unfoldable pub low : ℕ → ℕ → ℕ → ℕ → ℕ
low page row_bytes base s = let lo = base + s * row_bytes in lo - lo % page

unfoldable pub high : ℕ → ℕ → ℕ → ℕ → ℕ
high page row_bytes base e = (base + e * row_bytes + page - 1) / page * page

-- A group's run, put before the others: without a limit, or clamped to one.
unfoldable pub add_run : Option ℕ → ℕ → ℕ → List (ℕ × ℕ) → List (ℕ × ℕ)
add_run none lo hi runs = (lo, hi - lo) ∷ runs
add_run (some limit) lo hi runs = if leb limit lo then runs else (lo, min hi limit - lo) ∷ runs

unfoldable pub spans : ℕ → ℕ → ℕ → Option ℕ → List (ℕ × ℕ) → List (ℕ × ℕ)
unfolding low high add_run
spans page row_bytes base limit [] = []
spans page row_bytes base limit (g ∷ gs) =
    add_run limit (low page row_bytes base g.0) (high page row_bytes base (g.0 + g.1))
      (spans page row_bytes base limit gs)

-- `_runs`
unfoldable pub runs : ℕ → List ℕ → ℕ → ℕ → Option ℕ → List (ℕ × ℕ)
unfolding sorted_set groups spans
runs page indices row_bytes base limit =
    spans page row_bytes base limit (groups (sorted_set indices))
