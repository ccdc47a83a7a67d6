-- ===== src/Bank/Slice.antt =====
-- The reads of `ExpertBank`: `slice` takes an expert from the pinned part, from the copy in RAM, or
-- from its shard.
pub mod Exact
use sabah_mo_e_accelerator.Base.{
  ℕ, ◌+◌, ◌*◌, ◌&&◌, Bool, true, false, List, [], ◌∷◌, Option, none, some, slice, nth, has, lookup,
  keys, ltb, if◌then◌else◌, ℕ_discrete, Result, ok, raise, Error, key_error, ◌>>=◌,
}
use sabah_mo_e_accelerator.Tier.Types.{Role, gate, up, down, Bytes}
use sabah_mo_e_accelerator.Bank.Types.{
  Mode, Descriptor, ExpertId, ExpertRange, ExpertBank, expert_key, key_discrete, range_discrete,
}
use sabah_mo_e_accelerator.Bank.Files.{or_key_error, or_index_error, read_exact}

-- `expert_bytes`
unfoldable pub expert_bytes : ExpertBank → ℕ → Role → Result ℕ
expert_bytes bank b r =
    or_key_error (lookup key_discrete (b, r) bank.desc) >>= λ t. ok t.per_expert_bytes

-- `block_expert_bytes`
unfoldable pub block_bytes : ExpertBank → ℕ → Result ℕ
unfolding expert_bytes
block_bytes bank b = expert_bytes bank b gate >>= λ g.
    expert_bytes bank b up >>= λ u. expert_bytes bank b down >>= λ d. ok (g + u + d)

-- `bank_bytes`
unfoldable pub bank_bytes : ExpertBank → List ℕ → Result ℕ
unfolding block_bytes
bank_bytes bank [] = ok 0
bank_bytes bank (b ∷ bs) =
    block_bytes bank b >>= λ n. bank_bytes bank bs >>= λ m. ok (n * bank.n_experts + m)

abbrev pub in_ram : ExpertBank → ℕ → Role → Bool
in_ram bank b r = has key_discrete (b, r) (keys bank.ram_of)

abbrev pub in_warm : ExpertBank → ℕ → Role → Bool
in_warm bank b r = has key_discrete (b, r) (keys bank.warm_of)

-- `pinned_block`
unfoldable pub pinned_block : ExpertBank → ℕ → Bool
pinned_block bank b = elim bank.mode [
  | Mode.ram ↦ in_ram bank b gate && in_ram bank b up && in_ram bank b down
  | other ↦ in_warm bank b gate && in_warm bank b up && in_warm bank b down
]

-- The branch of `slice` that reads the shard.
unfoldable pub read_range : ExpertBank → ℕ → ℕ → Role → Result Bytes
read_range bank b e r = or_key_error (lookup range_discrete (expert_key b e r) bank.ranges) >>= λ g.
    or_key_error (lookup ℕ_discrete g.shard bank.file_handles) >>= λ f. read_exact f g.offset g.size

-- The branch for `mode == "ram"`.
unfoldable pub read_ram : ExpertBank → ℕ → ℕ → Role → Result Bytes
unfolding expert_bytes slice
read_ram bank b e r = or_key_error (lookup key_discrete (b, r) bank.ram_of) >>= λ buf.
    expert_bytes bank b r >>= λ n. ok (slice (e * n) n buf)

unfoldable pub read_cold : ExpertBank → ℕ → ℕ → Role → Result Bytes
unfolding read_range read_ram
read_cold bank b e r = elim bank.mode [
  | Mode.ram ↦ read_ram bank b e r
  | other ↦ read_range bank b e r
]

-- The lookup of `slice`: a pinned expert comes first.
unfoldable pub read_from : ExpertBank → Option (List Bytes) → ℕ → ℕ → Role → Result Bytes
unfolding read_cold
read_from bank (some bufs) b e r = or_index_error (nth bufs e)
read_from bank none b e r = read_cold bank b e r

-- `slice`
unfoldable pub expert_slice : ExpertBank → ℕ → ℕ → Role → Result Bytes
unfolding read_from
expert_slice bank b e r =
    if ltb e bank.n_experts
    then (if has ℕ_discrete b bank.blocks
        then read_from bank (lookup key_discrete (b, r) bank.warm_of) b e r
        else raise key_error)
    else raise Error.index_error

-- `range`
unfoldable pub expert_range : ExpertBank → ℕ → ℕ → Role → Result ExpertRange
expert_range bank b e r =
    if ltb e bank.n_experts
    then or_key_error (lookup range_discrete (expert_key b e r) bank.ranges)
    else raise Error.index_error

-- `expert_ptr_bytes`
unfoldable pub expert_roles : ExpertBank → ℕ → ℕ → Result (List (Role × Bytes))
unfolding expert_slice
expert_roles bank b e = expert_slice bank b e gate >>= λ g. expert_slice bank b e up >>= λ u.
    expert_slice bank b e down >>= λ d. ok ((gate, g) ∷ (up, u) ∷ (down, d) ∷ [])
