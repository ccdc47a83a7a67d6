-- ===== src/Slab/Replay.antt =====
-- The loop of `main` in tools/slab_replay.py that counts the misses of a policy on a trace, for any
-- policy: `S` is the simulator and `access` its method.
use sabah_mo_e_accelerator.Base.{
  ℕ, ◌+◌, ◌≤◌, ◌≡◌, refl, Bool, true, false, List, [], ◌∷◌, length, Result, ok, ◌>>=◌,
  if◌then◌else◌, arith,
}

module _ {ℓ κ} {S : Type ℓ} {K : Type κ} (access : S → K → Result (S × Bool)) where
  unfoldable pub misses : S → List K → Result ℕ
  misses s [] = ok 0
  misses s (k ∷ ks) = access s k >>= λ r. misses r.0 ks >>= λ n. ok ((if r.1 then 0 else 1) + n)

  -- A policy whose invariant makes every access return has at most one miss for each access.
  pub misses-length {ι} :
      (I : S → Type ι)
      → ((s : S) (k : K) → I s → (t : S) × (hit : Bool) × (access s k ≡ ok (t, hit)) × I t)
      → (s : S) (ks : List K) → I s
      → (n : ℕ) × (misses s ks ≡ ok n) × (n ≤ length ks)
  unfolding misses
  misses-length I step s [] i = (0, refl, omega arith)
  misses-length I step s (k ∷ ks) i =
      let (t, hit, accessed, j) = step s k i in
      let (n, rest, few) = misses-length I step t ks j in
      ((if hit then 0 else 1) + n, rw (accessed, rest), at_most hit n few)
    where
      at_most : (hit : Bool) (n : ℕ) → n ≤ length ks → (if hit then 0 else 1) + n ≤ length (k ∷ ks)
      at_most true n h = omega arith
      at_most false n h = omega arith
