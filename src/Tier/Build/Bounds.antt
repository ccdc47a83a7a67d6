-- ===== src/Tier/Build/Bounds.antt =====
-- The tier fits its capacity, its slots do not overlap, and its pools start out sound.
use sabah_mo_e_accelerator.Base.{
  ℕ, zero, suc, ◌+◌, ◌*◌, ◌/◌, ◌≤◌, ◌<◌, ◌≡◌, min, max, refl, List, [], ◌∷◌, lookup, insert, length,
  ok, ℕ_discrete, ◌==◌, arith, true, ◌⊎◌, inl, inr, false, none, some, lookup-insert, has, Distinct,
  Bool-cases, All, if◌then◌else◌,
}
use native.Mathlib.Nat.{mul-le-mul_left, mul-le-mul_right, div-mul-le_self}
use sabah_mo_e_accelerator.Tier.Types.{Role, gate, up, down, Bank, block_expert_bytes, Pool}
use sabah_mo_e_accelerator.Tier.Pool.{new, bytes_used, slot_ptr, range_from}
use sabah_mo_e_accelerator.Tier.Pool.Valid.{IsValid}
use sabah_mo_e_accelerator.Tier.Ensure.Admit.{IsSound, usable}
use sabah_mo_e_accelerator.Tier.Build.{
  HotTier, largest_from, largest, block_sizes, slots_each, role_offsets, new_pool, new_pools,
  total_bytes, reserve, assemble, build,
}

pub largest_from-le : (m : ℕ) (xs : List ℕ) → m ≤ largest_from m xs
largest_from-le m [] = omega arith
largest_from-le m (x ∷ xs) = omega (arith, largest_from-le (max m x) xs)

largest_from-All : (m : ℕ) (xs : List ℕ) → All (λ x. x ≤ largest_from m xs) xs
largest_from-All m [] = tt
largest_from-All m (x ∷ xs) =
    (omega (arith, largest_from-le (max m x) xs), largest_from-All (max m x) xs)

-- A role of a slot.
abbrev pub region_end : Bank → Pool → ℕ → Role → ℕ
region_end bank p slot r = slot_ptr p slot r + bank.expert_bytes p.block r

-- The slots of a new pool.
module _ (bank : Bank) (bases : ℕ → ℕ) (slots b : ℕ) where
  next_slot : (i j : ℕ) → i < j → suc i * block_expert_bytes bank b ≤ j * block_expert_bytes bank b
  next_slot i j h = mul-le-mul_right (block_expert_bytes bank b) h

  -- Every role of every slot is inside the memory of the pool.
  pub slot_ptr-bounds :
      (slot : ℕ) (r : Role)
      → slot < slots
      → region_end bank (new_pool bank bases slots b) slot r
        ≤ bases b + bytes_used (new_pool bank bases slots b)
  unfolding new_pool new slot_ptr bytes_used role_offsets
  slot_ptr-bounds slot gate h = omega (arith, next_slot slot slots h)
  slot_ptr-bounds slot up h = omega (arith, next_slot slot slots h)
  slot_ptr-bounds slot down h = omega (arith, next_slot slot slots h)

  -- In the memory of a new pool, each role of a slot ends before any role of a later slot begins.
  pub slot_ptr-apart :
      (i j : ℕ) (r r' : Role)
      → i < j
      → region_end bank (new_pool bank bases slots b) i r
        ≤ slot_ptr (new_pool bank bases slots b) j r'
  unfolding new_pool new slot_ptr role_offsets
  slot_ptr-apart i j gate gate h = omega (arith, next_slot i j h)
  slot_ptr-apart i j gate up h = omega (arith, next_slot i j h)
  slot_ptr-apart i j gate down h = omega (arith, next_slot i j h)
  slot_ptr-apart i j up gate h = omega (arith, next_slot i j h)
  slot_ptr-apart i j up up h = omega (arith, next_slot i j h)
  slot_ptr-apart i j up down h = omega (arith, next_slot i j h)
  slot_ptr-apart i j down gate h = omega (arith, next_slot i j h)
  slot_ptr-apart i j down up h = omega (arith, next_slot i j h)
  slot_ptr-apart i j down down h = omega (arith, next_slot i j h)

total_bytes-insert :
    (b : ℕ) (p : Pool) (pools : List (ℕ × Pool))
    → total_bytes (insert ℕ_discrete b p pools) ≤ bytes_used p + total_bytes pools
unfolding total_bytes insert
total_bytes-insert b p [] = omega arith
total_bytes-insert b p (e ∷ pools) = ground (arith, total_bytes-insert b p pools)

-- Pools of at most `biggest` bytes in each slot.
module _ (bank : Bank) (bases : ℕ → ℕ) (slots biggest : ℕ) where
  total_bytes-new_pools :
      (blocks : List ℕ) (pools : List (ℕ × Pool))
      → All (λ x. x ≤ biggest) (block_sizes bank blocks)
      → total_bytes (new_pools bank bases slots blocks pools)
        ≤ total_bytes pools + biggest * length blocks * slots
  unfolding new_pools new_pool new bytes_used
  total_bytes-new_pools [] pools h = omega arith
  total_bytes-new_pools (b ∷ bs) pools h = omega (
    arith,
    total_bytes-new_pools bs (insert ℕ_discrete b (new_pool bank bases slots b) pools) h.1,
    total_bytes-insert b (new_pool bank bases slots b) pools,
    mul-le-mul_right slots h.0,
  )

-- A slot of a block of positive size.
slots_each-fits :
    (capacity biggest n experts : ℕ)
    → 0 < biggest * n
    → (slots : ℕ) × (slots_each capacity biggest n experts ≡ ok slots)
      × (biggest * n * slots ≤ capacity)
      × (slots ≤ experts)
unfolding slots_each
slots_each-fits capacity biggest n experts h =
    let some_bytes : (biggest * n == 0) ≡ false = ground arith in
    let q = capacity / (biggest * n) in
    (
      min q experts,
      rw some_bytes,
      omega (
        arith,
        div-mul-le_self capacity (biggest * n),
        mul-le-mul_left {m = min q experts} {n = q} (biggest * n) (omega arith),
      ),
      omega arith,
    )

range_from-has :
    (start n j : ℕ) → has ℕ_discrete j (range_from start n) ≡ true → (start ≤ j) × (j < start + n)
unfolding has
range_from-has start zero j h = absurd (cc)
range_from-has start (suc n) j h = elim (ℕ_discrete j start) [
  | yes e ↦ omega arith
  | no ne ↦ let (a, b) = range_from-has (start + 1) n j (ground arith) in omega arith
]

range_from-Distinct : (start n : ℕ) → Distinct ℕ_discrete (range_from start n)
range_from-Distinct start zero = tt
range_from-Distinct start (suc n) = (
  elim (Bool-cases (has ℕ_discrete start (range_from (start + 1) n))) [
    | inl t ↦ absurd (let (a, b) = range_from-has (start + 1) n start t in omega arith)
    | inr f ↦ f
  ],
  range_from-Distinct (start + 1) n,
)

length-range_from : (start n : ℕ) → length (range_from start n) ≡ n
length-range_from start zero = refl
length-range_from start (suc n) = omega (arith, length-range_from (start + 1) n)

-- A new pool is sound, whatever the device holds, and all its slots are usable.
module _ (bank : Bank) (bases : ℕ → ℕ) (slots b : ℕ) where
  new_pool-IsValid : IsValid (new_pool bank bases slots b)
  unfolding new_pool new lookup has
  new_pool-IsValid = record {
    slots = λ e s h. absurd (cc);
    experts = λ e s h. absurd (cc);
    order = λ e. refl;
    bounds = λ e s h. absurd (cc);
    unused = λ s h. refl;
    in_range = λ s h. let (a, b) = range_from-has 0 slots s h in omega arith;
    pending = λ e h. absurd (cc);
    distinct_free = range_from-Distinct 0 slots;
    distinct_slots = tt;
    distinct_experts = tt;
    distinct_lru = tt;
    distinct_inflight = tt;
  }

  pub new_pool-IsSound :
      (shared : _) → IsSound bank (record { pool = new_pool bank bases slots b; shared = shared })
  unfolding new_pool new lookup
  new_pool-IsSound shared = record { valid = new_pool-IsValid; loaded = λ e s h. absurd (cc) }

  pub new_pool-usable : usable (new_pool bank bases slots b) ≡ slots
  unfolding new_pool new
  new_pool-usable = omega (arith, length-range_from 0 slots)

-- Each block has a new pool of its own, and no other pool is there.
module _ (bank : Bank) (bases : ℕ → ℕ) (slots : ℕ) where
  pub new_pools-lookup :
      (blocks : List ℕ) (pools : List (ℕ × Pool)) (b : ℕ)
      → lookup ℕ_discrete b (new_pools bank bases slots blocks pools) ≡ (
          if has ℕ_discrete b blocks
          then some (new_pool bank bases slots b)
          else lookup ℕ_discrete b pools)
  unfolding new_pools has
  new_pools-lookup [] pools b = refl
  new_pools-lookup (x ∷ xs) pools b = ground (
    arith,
    new_pools-lookup xs (insert ℕ_discrete x (new_pool bank bases slots x) pools) b,
    lookup-insert ℕ_discrete x b (new_pool bank bases slots x) pools,
  )

-- What `__init__` leaves for a capacity.
pub record Built (bank : Bank) (bases : ℕ → ℕ) (capacity prefetch_slots : ℕ) (blocks : List ℕ)
    (t : HotTier) : Type 0 where
  pub fits : t.capacity_bytes ≤ capacity
  pub slots : t.slots_per_block ≤ bank.n_experts
  pub pools :
      (b : ℕ)
      → lookup ℕ_discrete b t.pools
        ≡ (if has ℕ_discrete b blocks then some (new_pool bank bases t.slots_per_block b) else none)
  pub live : (t.prefetch_slots + bank.n_experts_used ≤ t.slots_per_block) ⊎ (t.prefetch_slots ≡ 0)
  pub reserved : t.prefetch_slots ≤ prefetch_slots

-- For at least one block, the first of which has experts of positive size, the constructor returns.
-- The pools fit the capacity in total; a block has at most `n_experts` slots; exactly the given
-- blocks have pools, each the new pool of its block; the reserve is at most what was asked for, and
-- together with the experts of a token it fits the slots of a block, or there is none.
pub build-Built :
    (bank : Bank) (bases : ℕ → ℕ) (capacity prefetch_slots b : ℕ) (bs : List ℕ)
    → 0 < block_expert_bytes bank b
    → (t : HotTier) × (build bank bases capacity prefetch_slots (b ∷ bs) ≡ ok t)
      × Built bank bases capacity prefetch_slots (b ∷ bs) t
unfolding build largest assemble reserve lookup
build-Built bank bases capacity prefetch_slots b bs h =
    let sizes = block_sizes bank bs in
    let size = block_expert_bytes bank b in
    let biggest = largest_from size sizes in
    let low = largest_from-le size sizes in
    let (slots, counted, fits, few) =
      slots_each-fits capacity biggest (length (b ∷ bs)) bank.n_experts
        (omega (arith, mul-le-mul_left {m = 1} {n = length (b ∷ bs)} biggest (omega arith))) in
    (
      assemble bank bases prefetch_slots (b ∷ bs) slots,
      rw counted,
      record {
        fits = omega (
          arith,
          fits,
          total_bytes-new_pools bank bases slots biggest (b ∷ bs) []
              (low, largest_from-All size sizes),
        );
        slots = few;
        pools = λ j. new_pools-lookup bank bases slots (b ∷ bs) [] j;
        live = ground arith;
        reserved = omega arith;
      },
    )
