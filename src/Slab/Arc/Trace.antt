-- ===== src/Slab/Arc/Trace.antt =====
-- The replay of a trace by `ARC`.
use sabah_mo_e_accelerator.Base.{ℕ, ◌≤◌, ◌≡◌, ◌||◌, List, length, has, ok}
use sabah_mo_e_accelerator.Slab.Arc.{init, access}
use sabah_mo_e_accelerator.Slab.Arc.Valid.{IsValid}
use sabah_mo_e_accelerator.Slab.Arc.Safety.{access-Accessed, init-IsValid}
use sabah_mo_e_accelerator.Slab.Replay.{misses, misses-length}

-- The replay of any trace by `ARC` returns, whatever the capacity, with at most one miss for each
-- access: no `popitem` is ever on an empty dictionary.
pub arc-misses {ℓ} :
    {K : Type ℓ} (dec : Discrete K) (cap : ℕ) (ks : List K)
    → (n : ℕ) × (misses (access dec) (init {K = K} cap) ks ≡ ok n) × (n ≤ length ks)
arc-misses {K} dec cap ks =
    misses-length (access dec) (IsValid dec)
      (λ a k v.
        let (r, e, m) = access-Accessed dec k a v in
        (r, has dec k a.t1 || has dec k a.t2, e, m.valid))
      (init {K = K} cap) ks (init-IsValid dec cap)
