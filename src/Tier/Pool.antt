-- ===== src/Tier/Pool.antt =====
-- `BlockPool` of sabah/runtime/hot_tier.py, and the placement and eviction of an expert.
pub mod Valid
pub mod Evict
use sabah_mo_e_accelerator.Base.{
  ℕ, zero, ◌+◌, ◌*◌, Bool, true, false, List, [], ◌∷◌, Option, none, some, has, push, delete,
  lookup, insert, remove, keys, length, Result, ok, raise, key_error, runtime_error, ◌>>=◌,
  if◌then◌else◌, ite, ℕ_discrete,
}
use sabah_mo_e_accelerator.Tier.Types.{
  Role, Residence, ram_only, transferring, evict_pending, Pool, Shared, Telemetry,
}
use sabah_mo_e_accelerator.Tier.Streams.{ev_put}

abbrev pub range_from : ℕ → ℕ → List ℕ
range_from start zero = []
range_from start (ℕ.suc n) = start ∷ range_from (start + 1) n

-- `BlockPool.__init__`
unfoldable pub new : ℕ → ℕ → ℕ → (Role → ℕ) → ℕ → Pool
new block slot_bytes n_slots offsets base = record {
  block = block;
  slot_bytes = slot_bytes;
  n_slots = n_slots;
  role_offsets = offsets;
  base = base;
  free_slots = range_from 0 n_slots;
  slot_of = [];
  expert_of = [];
  state = [];
  lru = [];
  inflight = [];
}

-- `slot_ptr`
unfoldable pub slot_ptr : Pool → ℕ → Role → ℕ
slot_ptr p slot role = p.base + slot * p.slot_bytes + p.role_offsets role

-- `bytes_used`
unfoldable pub bytes_used : Pool → ℕ
bytes_used p = p.slot_bytes * p.n_slots

-- `state_of`
unfoldable pub state_of : Pool → ℕ → Residence
state_of p e = elim (lookup ℕ_discrete e p.state) [ some s ↦ s | none ↦ ram_only ]

-- The bookkeeping for an expert that is being brought into a slot.
unfoldable pub place : ℕ → ℕ → Pool → Pool
place e slot p = record p {
  slot_of = insert ℕ_discrete e slot p.slot_of;
  expert_of = insert ℕ_discrete slot e p.expert_of;
  state = insert ℕ_discrete e transferring p.state;
  lru = push ℕ_discrete e p.lru;
}

-- The bookkeeping of `_evict` for the victim `e` in `slot`.
unfoldable pub unplace : ℕ → ℕ → Pool → Pool
unplace e slot p = record p {
  slot_of = remove ℕ_discrete e p.slot_of;
  expert_of = remove ℕ_discrete slot p.expert_of;
  state = insert ℕ_discrete e ram_only (insert ℕ_discrete e evict_pending p.state);
  lru = delete ℕ_discrete e p.lru;
  inflight = remove ℕ_discrete e p.inflight;
}

-- The first expert of `list(p.lru)` that is not protected.
unfoldable pub victim : List ℕ → List ℕ → Option ℕ
victim protected [] = none
victim protected (e ∷ es) = if has ℕ_discrete e protected then victim protected es else some e

-- A prefetch of the victim that is still in flight gives its event back.
unfoldable pub put_inflight : Option ℕ → Shared → Shared
unfolding ev_put
put_inflight none s = s
put_inflight (some ev) s = ev_put ev s

-- `_evict`: the slot of the oldest expert that is not protected.
unfoldable pub evict : List ℕ → Pool → Shared → Result (Pool × Shared × ℕ)
unfolding victim put_inflight unplace
evict protected p s = elim (victim protected p.lru) [
  | none ↦ raise runtime_error
  | some e ↦ elim (lookup ℕ_discrete e p.slot_of) [
    | none ↦ raise key_error
    | some slot ↦
        let s' = put_inflight (lookup ℕ_discrete e p.inflight) s in
        ok (
          unplace e slot p,
          record s' { tel = record s'.tel { evictions = s'.tel.evictions + 1 } },
          slot,
        )
  ]
]
