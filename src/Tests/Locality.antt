-- ===== src/Tests/Locality.antt =====
-- The analysis of a small trace.
use sabah_mo_e_accelerator.Base.{
  ℕ, ◌+◌, ◌≡◌, ◌≤◌, refl, List, [], ◌∷◌, none, some, ok, raise, Error, ℕ_discrete, has, push,
  delete, move_to_end, lookup, insert, arith,
}
use sabah_mo_e_accelerator.Slab.Lru.{init, access}
use sabah_mo_e_accelerator.Locality.{Tally, rate, lru_hits, reuse_distances}
use sabah_mo_e_accelerator.Locality.Policy.{charge, lru_hits-charge}
use sabah_mo_e_accelerator.Locality.Distance.{cold, far, total, lru_hits-reuse_distances}

abbrev trace : List ℕ
trace = 1 ∷ 2 ∷ 1 ∷ 3 ∷ 2 ∷ 2 ∷ []

abbrev weight : ℕ → ℕ
weight k = k + 10

-- The third access and the last are hits.
lru_run : lru_hits ℕ_discrete weight 2 trace ≡ ok ((23, 71), 48)
unfolding lru_hits has push delete move_to_end ℕ_discrete
lru_run = refl

distances_run :
    reuse_distances ℕ_discrete trace ≡ none ∷ none ∷ some 1 ∷ none ∷ some 2 ∷ some 0 ∷ []
unfolding reuse_distances lookup insert ℕ_discrete
distances_run = refl

empty_run : lru_hits ℕ_discrete weight 2 [] ≡ raise Error.zero_division_error
unfolding lru_hits
empty_run = refl

lru_hits-charge_example :
    (t : Tally) × (charge (access ℕ_discrete) weight (init 2) trace ≡ ok t)
    × (lru_hits ℕ_discrete weight 2 trace ≡ rate t)
lru_hits-charge_example = lru_hits-charge ℕ_discrete weight 2 (omega arith) trace

lru_hits-reuse_distances_example :
    (t : Tally) × (lru_hits ℕ_discrete weight 2 trace ≡ rate t)
    × (cold weight trace (reuse_distances ℕ_discrete trace) ≤ t.miss_b)
    × (t.miss_b ≤ far weight 2 trace (reuse_distances ℕ_discrete trace))
    × (t.hit_b + t.miss_b ≡ total weight trace)
lru_hits-reuse_distances_example = lru_hits-reuse_distances ℕ_discrete 2 (omega arith) weight trace
