-- ===== src/Tier/Ensure.antt =====
-- `HotTier.ensure` of sabah/runtime/hot_tier.py on one block: `pool` is the block's pool and
-- `shared` the rest of the tier, which a call changes in place. The lock serialises the calls.
-- When a call raises, its exception is the result.
pub mod Admit
pub mod Request
pub mod Shed
pub mod Finish
pub mod Enter
pub mod Exact
pub mod Errors
use sabah_mo_e_accelerator.Base.{
  ℕ, zero, suc, ◌+◌, ◌-◌, ◌*◌, min, Bool, true, false, List, [], ◌∷◌, Option, none, some, has,
  fromkeys, move_to_end, lookup, insert, remove, keys, length, leb, ltb, ◌==◌, Result, ok, raise,
  key_error, runtime_error, Error, ◌>>=◌, if◌then◌else◌, ℕ_discrete, popitem,
}
use sabah_mo_e_accelerator.Tier.Types.{
  Bank, block_expert_bytes, gpu_resident, pooled, compute_wait, Pool, Shared, Telemetry,
  update_counts, BlockCounts,
}
use sabah_mo_e_accelerator.Tier.Streams.{issue, ev_put, start_copy, stall}
use sabah_mo_e_accelerator.Tier.Pool.{place, evict}

pub record State : Type 0 where
  pub pool : Pool
  pub shared : Shared

-- The update of the telemetry.
abbrev pub count : (Telemetry → Telemetry) → Shared → Shared
count f s = record s { tel = f s.tel }

-- A hit on a prefetched expert: the compute stream waits for its copy.
unfoldable pub land : ℕ → Option ℕ → State → State
unfolding issue ev_put
land e none s = s
land e (some ev) s = record {
  pool = record s.pool {
    inflight = remove ℕ_discrete e s.pool.inflight;
    state = insert ℕ_discrete e gpu_resident s.pool.state;
  };
  shared =
      count (λ t. record t { prefetch_hits = t.prefetch_hits + 1 })
        (ev_put ev (issue (compute_wait (pooled ev)) s.shared));
}

-- The counts of a hit and of a miss.
unfoldable pub count_hit : ℕ → Telemetry → Telemetry
unfolding update_counts
count_hit b t =
    update_counts b (λ c. record c { hits = c.hits + 1 }) (record t { hits = t.hits + 1 })

unfoldable pub count_miss : ℕ → Telemetry → Telemetry
unfolding update_counts
count_miss b t =
    update_counts b (λ c. record c { misses = c.misses + 1 }) (record t { misses = t.misses + 1 })

-- One round of the first loop of `_ensure_locked`, for an expert that is resident.
unfoldable pub hit : ℕ → State → Result State
unfolding land count_hit
hit e s =
    let s' = land e (lookup ℕ_discrete e s.pool.inflight) s in
    if has ℕ_discrete e s'.pool.lru
    then ok (record {
      pool = record s'.pool { lru = move_to_end ℕ_discrete e s'.pool.lru };
      shared = count (count_hit s.pool.block) s'.shared;
    })
    else raise key_error

abbrev pub resident : ℕ → Pool → Bool
resident e p = has ℕ_discrete e (keys p.slot_of)

-- The first loop: the state afterwards, and the misses in the order of the request.
unfoldable pub request : List ℕ → State → Result (State × List ℕ)
unfolding hit count_miss
request [] s = ok (s, [])
request (e ∷ want) s = elim (resident e s.pool) [
  | true ↦ (hit e s >>= λ s'. request want s')
  | false ↦
      (request want (record s { shared = count (count_miss s.pool.block) s.shared }) >>= λ r.
      ok (r.0, e ∷ r.1))
]

-- How many of the experts are in the pool, one by one.
abbrev pub count_resident : Pool → List ℕ → ℕ
count_resident p [] = 0
count_resident p (e ∷ es) = (if resident e p then 1 else 0) + count_resident p es

-- The totals that are counted once for the call.
unfoldable pub count_request : Bank → List ℕ → List ℕ → State → State
unfolding update_counts
count_request bank want misses s =
    let b = s.pool.block in
    let bytes = block_expert_bytes bank b in
    record s {
      shared =
          count
            (λ t.
              record (update_counts b (λ c. record c { requests = c.requests + length want }) t) {
                requests = t.requests + length want;
                byte_hits = t.byte_hits + count_resident s.pool want * bytes;
                byte_misses = t.byte_misses + length misses * bytes;
              })
            s.shared;
    }

-- A free slot, or that of the oldest expert that is not protected.
unfoldable pub take_slot_from : List ℕ → List ℕ → State → Result (State × ℕ)
unfolding evict
take_slot_from (slot ∷ free) protected s =
    ok (record s { pool = record s.pool { free_slots = free } }, slot)
take_slot_from [] protected s =
    evict protected s.pool s.shared >>= λ r. ok (record { pool = r.0; shared = r.1 }, r.2)

abbrev pub take_slot : List ℕ → State → Result (State × ℕ)
take_slot protected s = take_slot_from s.pool.free_slots protected s

-- The expert is placed, and its bytes are counted.
unfoldable pub book : Bank → ℕ → ℕ → Pool → Shared → State
unfolding place update_counts
book bank e slot p s = record {
  pool = place e slot p;
  shared =
      count
        (update_counts p.block
          (λ n. record n { bytes_fetched = n.bytes_fetched + block_expert_bytes bank p.block }))
        s;
}

-- One round of the second loop.
unfoldable pub admit : Bank → List ℕ → ℕ → State → Result (State × ℕ)
unfolding take_slot_from start_copy book
admit bank protected e s = take_slot protected s >>= λ r.
    start_copy bank r.0.pool.block e r.1 r.0.shared >>= λ c. ok (book bank e r.1 r.0.pool c.0, c.1)

unfoldable pub admit_all : Bank → List ℕ → List ℕ → State → Result (State × List ℕ)
unfolding admit
admit_all bank protected [] s = ok (s, [])
admit_all bank protected (e ∷ es) s =
    admit bank protected e s >>= λ r. admit_all bank protected es r.0 >>= λ t. ok (t.0, r.1 ∷ t.1)

-- `except RuntimeError: break`
abbrev pub or_break {ℓ} : {A : Type ℓ} → Result A → Result (Option A)
or_break (ok a) = ok (some a)
or_break (raise Error.runtime_error) = ok none
or_break (raise Error.key_error) = raise key_error
or_break (raise Error.index_error) = raise Error.index_error
or_break (raise Error.value_error) = raise Error.value_error
or_break (raise Error.io_error) = raise Error.io_error
or_break (raise Error.cuda_error) = raise Error.cuda_error
or_break (raise Error.zero_division_error) = raise Error.zero_division_error

-- The third loop: while the pool holds more than `soft_cap` experts, the oldest unprotected one is
-- evicted. The slot that `_evict` returns is dropped. Each round removes an expert, so the
-- excess is enough fuel.
unfoldable pub shed : ℕ → ℕ → List ℕ → State → Result State
unfolding evict
shed zero soft_cap protected s = ok s
shed (suc fuel) soft_cap protected s =
    if ltb soft_cap (length s.pool.slot_of)
    then (or_break (evict protected s.pool s.shared) >>= elim [
      | none ↦ ok s
      | some r ↦ shed fuel soft_cap protected (record { pool = r.0; shared = r.1 })
    ])
    else ok s

-- `p.state[e] = GPU_RESIDENT` for every miss.
unfoldable pub mark_resident : List ℕ → Pool → Pool
mark_resident [] p = p
mark_resident (e ∷ es) p =
    mark_resident es (record p { state = insert ℕ_discrete e gpu_resident p.state })

-- The waits after the copies, if there was a miss.
unfoldable pub finish : List ℕ → List ℕ → State → State
unfolding stall mark_resident
finish [] events s = s
finish (e ∷ es) events s = record {
  pool = mark_resident (e ∷ es) s.pool;
  shared = stall events s.shared;
}

-- `[p.slot_of[e] for e in want]`
unfoldable pub slots_of : List ℕ → Pool → Result (List ℕ)
slots_of [] p = ok []
slots_of (e ∷ want) p = elim (lookup ℕ_discrete e p.slot_of) [
  | none ↦ raise key_error
  | some slot ↦ (slots_of want p >>= λ slots. ok (slot ∷ slots))
]

-- The number of experts that the pool keeps after a call that needs `protected`.
unfoldable pub soft_cap : ℕ → List ℕ → Pool → ℕ
soft_cap prefetch_slots protected p = p.n_slots - min prefetch_slots (p.n_slots - length protected)

-- `_ensure_locked` once its checks have passed.
unfoldable pub serve : Bank → ℕ → List ℕ → State → Result (State × List ℕ)
unfolding request count_request admit_all soft_cap shed finish slots_of
serve bank prefetch_slots want s =
    let protected = fromkeys ℕ_discrete want in
    request want s >>= λ r.
    admit_all bank protected (fromkeys ℕ_discrete r.1) (count_request bank want r.1 r.0) >>= λ a.
    shed (length a.0.pool.slot_of) (soft_cap prefetch_slots protected a.0.pool) protected a.0
    >>= λ t. let u = finish r.1 a.1 t in (slots_of want u.pool >>= λ slots. ok (u, slots))

-- The experts that are asked for more than once.
abbrev pub count_duplicates : List ℕ → State → State
count_duplicates want s = record s {
  shared =
      count
        (λ t. record t {
          duplicate_transfers_suppressed =
              t.duplicate_transfers_suppressed + (length want - length (fromkeys ℕ_discrete want));
        })
        s.shared;
}

-- `ensure`: the slots of the requested experts, in the order of the request.
unfoldable pub ensure : Bank → ℕ → List ℕ → State → Result (State × List ℕ)
unfolding serve
ensure bank prefetch_slots want s =
    if s.pool.n_slots == 0
    then raise runtime_error
    else (if ltb s.pool.n_slots (length (fromkeys ℕ_discrete want))
        then raise runtime_error
        else serve bank prefetch_slots want (count_duplicates want s))
