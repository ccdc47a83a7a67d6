-- ===== src/Planner/Warm.antt =====
-- `_select_warm_blocks`: the blocks whose experts are pinned in RAM.
pub mod Greedy
pub mod Best
use sabah_mo_e_accelerator.Base.{ℕ, ◌+◌, ◌*◌, List, [], ◌∷◌, keys, leb, ◌==◌, if◌then◌else◌, sort}

-- `sorted(per, key=lambda b: per[b])`, on the items.
unfoldable pub insert_smallest : ℕ × ℕ → List (ℕ × ℕ) → List (ℕ × ℕ)
insert_smallest x [] = x ∷ []
insert_smallest x (y ∷ ys) =
    let rest = insert_smallest x ys in if leb x.1 y.1 then x ∷ y ∷ ys else y ∷ rest

unfoldable pub by_size : List (ℕ × ℕ) → List (ℕ × ℕ)
unfolding insert_smallest
by_size [] = []
by_size (x ∷ xs) = insert_smallest x (by_size xs)

-- The loop, from the bytes used so far.
unfoldable pub pick : ℕ → ℕ → ℕ → List (ℕ × ℕ) → List (ℕ × ℕ)
pick n_experts warm_bytes used [] = []
pick n_experts warm_bytes used (x ∷ xs) =
    let nbytes = x.1 * n_experts in
    let taken = pick n_experts warm_bytes (used + nbytes) xs in
    let left = pick n_experts warm_bytes used xs in
    if leb (used + nbytes) warm_bytes then x ∷ taken else left

-- No item and no budget give no block.
unfoldable pub select_warm_blocks : ℕ → List (ℕ × ℕ) → ℕ → List ℕ
unfolding by_size pick
select_warm_blocks n_experts per warm_bytes =
    if warm_bytes == 0 then [] else sort (keys (pick n_experts warm_bytes 0 (by_size per)))
