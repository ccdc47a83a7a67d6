-- ===== src/Tests/Slab.antt =====
-- Traces of the replacement policies.
use sabah_mo_e_accelerator.Base.{
  ltb, remove, false, ℕ, ◌≡◌, ◌≤◌, ◌<◌, ◌⊎◌, refl, Bool, List, [], ◌∷◌, ◌||◌, has, ok, raise, Error,
  ℕ_discrete, arith, length, push, move_to_end, delete, popitem, lookup, insert, ◌%◌,
}
use sabah_mo_e_accelerator.Slab.Arc
use sabah_mo_e_accelerator.Slab.Arc.Access.{Accessed}
use sabah_mo_e_accelerator.Slab.Arc.Safety.{access-Accessed, init-IsValid}
use sabah_mo_e_accelerator.Slab.Arc.Trace.{arc-misses}
use sabah_mo_e_accelerator.Slab.Lru
use sabah_mo_e_accelerator.Slab.Lru.Inclusion.{misses-inclusion}
use sabah_mo_e_accelerator.Slab.Lfu
use sabah_mo_e_accelerator.Slab.Lfu.Least.{LeastUsed, access-LeastUsed}
use sabah_mo_e_accelerator.Slab.TwoQ
use sabah_mo_e_accelerator.Slab.TwoQ.Outcome.{misses-outcome}
use sabah_mo_e_accelerator.Slab.PerLayer
use sabah_mo_e_accelerator.Slab.PerLayer.Layers.{Layered, access-Layered}
use sabah_mo_e_accelerator.Slab.Replay.{misses}

program : Unit {0}
unfolding Arc.access Arc.init Lru.access TwoQ.access TwoQ.init PerLayer.access PerLayer.init misses
    has push delete move_to_end ℕ_discrete popitem lookup insert
program = tt

abbrev trace : List ℕ
trace = 1 ∷ 2 ∷ 1 ∷ 3 ∷ 2 ∷ 1 ∷ []

lru_misses : misses (Lru.access ℕ_discrete) (Lru.init 2) trace ≡ ok 5
unfolding program
lru_misses = refl

arc_run : misses (Arc.access ℕ_discrete) (Arc.init 2) trace ≡ ok 5
unfolding program Arc.make_room Arc.replace Arc.access_b1 Arc.access_b2
arc_run = refl

access-Accessed_example :
    (r : Arc.Arc ℕ) × (Arc.access ℕ_discrete (Arc.init 2) 7
      ≡ ok
          (r, has ℕ_discrete 7 (Arc.init {K = ℕ} 2).t1 || has ℕ_discrete 7 (Arc.init {K = ℕ} 2).t2))
    × Accessed ℕ_discrete (Arc.init 2) 7 r
access-Accessed_example = access-Accessed ℕ_discrete 7 (Arc.init 2) (init-IsValid ℕ_discrete 2)

arc-misses_example :
    (n : ℕ) × (misses (Arc.access ℕ_discrete) (Arc.init {K = ℕ} 3) trace ≡ ok n)
    × (n ≤ length trace)
arc-misses_example = arc-misses ℕ_discrete 3 trace

misses-inclusion_example :
    (m n : ℕ) × (misses (Lru.access ℕ_discrete) (Lru.init 2) trace ≡ ok m)
    × (misses (Lru.access ℕ_discrete) (Lru.init 3) trace ≡ ok n)
    × (n ≤ m)
misses-inclusion_example = misses-inclusion ℕ_discrete 2 3 trace (omega arith) (omega arith)

misses-outcome_example :
    ((3 < 4) × (misses (TwoQ.access ℕ_discrete) (TwoQ.init 3) trace ≡ raise Error.index_error))
    ⊎ ((4 ≤ 3)
        × ((n : ℕ) × (misses (TwoQ.access ℕ_discrete) (TwoQ.init 3) trace ≡ ok n)
            × (n ≤ length trace)))
misses-outcome_example = misses-outcome ℕ_discrete 3 1 (2 ∷ 1 ∷ 3 ∷ 2 ∷ 1 ∷ [])

abbrev parity : ℕ → ℕ
parity k = k % 2

access-Layered_example :
    (p' : PerLayer.PerLayer ℕ) × (d : List ℕ) × (hit : Bool) × (PerLayer.access ℕ_discrete parity
        (PerLayer.init 4 2)
        5
      ≡ ok (p', hit))
    × (Lru.access ℕ_discrete (record { cap = 2; d = [] }) 5 ≡ ok (record { cap = 2; d = d }, hit))
    × Layered (PerLayer.init 4 2) p' 1 d
unfolding program
access-Layered_example = access-Layered ℕ_discrete parity (PerLayer.init 4 2) 5 (omega arith)

abbrev used : Lfu.Lfu ℕ
used = record { cap = 2; d = 4 ∷ 9 ∷ []; f = (4, 3) ∷ (9, 2) ∷ [] }

lfu_run :
    Lfu.access ℕ_discrete ltb used 5
    ≡ ok (record { cap = 2; d = 4 ∷ 5 ∷ []; f = (4, 3) ∷ (5, 1) ∷ [] }, false)
unfolding program Lfu.access remove
lfu_run = refl

access-LeastUsed_example :
    (r : Lfu.Lfu ℕ) × (Lfu.access ℕ_discrete ltb used 5 ≡ ok (r, has ℕ_discrete 5 used.d))
    × LeastUsed ℕ_discrete ltb used 5 r
unfolding has ℕ_discrete
access-LeastUsed_example =
    access-LeastUsed ℕ_discrete ltb used 5 (omega arith) (omega arith) (refl, (refl, tt))
