-- ===== src/Tier/Prefetch.antt =====
-- `HotTier.prefetch` of sabah/runtime/hot_tier.py on one block.
pub mod Advice
use sabah_mo_e_accelerator.Base.{
  Option, none, some, ℕ, ◌+◌, ◌||◌, true, false, List, [], ◌∷◌, has, fromkeys, move_to_end, insert,
  ◌==◌, Result, ok, raise, key_error, ◌>>=◌, if◌then◌else◌, ℕ_discrete, keys,
}
use sabah_mo_e_accelerator.Tier.Types.{Shared, Bank, Pool}
use sabah_mo_e_accelerator.Tier.Streams.{start_copy}
use sabah_mo_e_accelerator.Tier.Pool.{place}
use sabah_mo_e_accelerator.Tier.Ensure.{State, count, resident}

-- A resident expert that is not in flight becomes the most recent one.
unfoldable pub refresh : ℕ → Pool → Result Pool
refresh e p =
    if has ℕ_discrete e (keys p.inflight)
    then ok p
    else (if has ℕ_discrete e p.lru
        then ok (record p { lru = move_to_end ℕ_discrete e p.lru })
        else raise key_error)

-- The state after the expert is placed in a slot, with its copy in flight.
unfoldable pub enqueued : ℕ → ℕ → List ℕ → State → Shared × ℕ → State
unfolding place
enqueued e slot free s c = record {
  pool = record (place e slot s.pool) {
    free_slots = free;
    inflight = insert ℕ_discrete e c.1 s.pool.inflight;
  };
  shared = c.0;
}

-- The first free slot is used, if there is one.
unfoldable pub enqueue : Bank → ℕ → List ℕ → State → Result (Option State)
unfolding start_copy enqueued
enqueue bank e [] s = ok none
enqueue bank e (slot ∷ free) s =
    start_copy bank s.pool.block e slot s.shared >>= λ c. ok (some (enqueued e slot free s c))

-- The loop: the state and the number of experts queued.
unfoldable pub queue : Bank → List ℕ → State → Result (State × ℕ)
unfolding refresh enqueue
queue bank [] s = ok (s, 0)
queue bank (e ∷ es) s = elim (resident e s.pool) [
  | true ↦ (refresh e s.pool >>= λ p. queue bank es (record s { pool = p }))
  | false ↦
      (enqueue bank e s.pool.free_slots s
        >>= elim [ none ↦ ok (s, 0) | some t ↦ (queue bank es t >>= λ r. ok (r.0, r.1 + 1)) ])
]

-- `prefetch`
unfoldable pub prefetch : Bank → ℕ → List ℕ → State → Result (State × ℕ)
unfolding queue
prefetch bank prefetch_slots experts s =
    if s.pool.n_slots == 0 || prefetch_slots == 0
    then ok (s, 0)
    else (queue bank (fromkeys ℕ_discrete experts) s >>= λ r. ok (
      record r.0 {
        shared = count (λ t. record t { prefetch_issued = t.prefetch_issued + r.1 }) r.0.shared;
      },
      r.1,
    ))
