-- ===== src/Bank/Slice/Exact.antt =====
-- The three ways to read an expert give the same bytes: those of its range in the shard.
use sabah_mo_e_accelerator.Base.{
  has-keys, ℕ, ◌*◌, ◌<◌, ◌≡◌, refl, sym, ap, ◌∙◌, inl, inr, true, List, some, slice, has, lookup,
  ltb, ltb→lt, if◌then◌else◌, ℕ_discrete, ok, raise, Error, key_error, arith, Bool-cases,
  Option-cases,
}
use sabah_mo_e_accelerator.Tier.Types.{Role, Bytes}
use sabah_mo_e_accelerator.Bank.Types.{
  Mode, Descriptor, ExpertBank, range_of, expert_key, key_discrete, range_discrete,
}
use sabah_mo_e_accelerator.Bank.Files.{read_chunks, concat, IsChunk, read_chunks-IsChunk}
use sabah_mo_e_accelerator.Bank.Slice.{
  in_ram, expert_bytes, read_range, read_ram, read_cold, read_from, expert_slice,
}

-- The buffers are what the shard has for a block in one role.
pub record IsLoaded (bank : ExpertBank) (b : ℕ) (r : Role) (bufs : List Bytes) : Type 0 where
  pub tensor : Descriptor
  pub file : Bytes
  pub described : lookup key_discrete (b, r) bank.desc ≡ some tensor
  pub opened : lookup ℕ_discrete tensor.shard bank.file_handles ≡ some file
  pub chunks : read_chunks file tensor.offset tensor.per_expert_bytes bank.n_experts ≡ ok bufs

-- Every expert of the bank has its range, and what is copied is what the shards have.
pub record IsIndexed (bank : ExpertBank) : Type 0 where
  pub ranges :
      (b e : ℕ) (r : Role)
      → has ℕ_discrete b bank.blocks ≡ true
      → e < bank.n_experts
      → (t : Descriptor) × (lookup key_discrete (b, r) bank.desc ≡ some t)
        × (lookup range_discrete (expert_key b e r) bank.ranges ≡ some (range_of t b e r))
  pub warm :
      (b : ℕ) (r : Role) (bufs : List Bytes)
      → lookup key_discrete (b, r) bank.warm_of ≡ some bufs
      → IsLoaded bank b r bufs
  pub copied :
      (b : ℕ) (r : Role) (buf : Bytes)
      → lookup key_discrete (b, r) bank.ram_of ≡ some buf
      → (bufs : List Bytes) × IsLoaded bank b r bufs × (buf ≡ concat bufs)

-- In the mode that copies all blocks, they are all copied.
pub record IsExact (bank : ExpertBank) : Type 0 where
  pub indexed : IsIndexed bank
  pub all_ram :
      (b : ℕ) (r : Role)
      → bank.mode ≡ Mode.ram
      → has ℕ_discrete b bank.blocks ≡ true
      → in_ram bank b r ≡ true

some-inj : {A : Type 0} (x y : A) → some x ≡ some y → x ≡ y
some-inj x y h = cc

module _ (bank : ExpertBank) (exact : IsExact bank) (b e : ℕ) (r : Role)
    (here : has ℕ_discrete b bank.blocks ≡ true) (low : e < bank.n_experts) where
  -- The range of a loaded expert has the bytes of its buffer.
  range-IsChunk :
      (bufs : List Bytes) (l : IsLoaded bank b r bufs)
      → (k : IsChunk l.file l.tensor.offset l.tensor.per_expert_bytes bufs e) × (read_range bank b e
            r
          ≡ ok k.chunk)
  unfolding read_range
  range-IsChunk bufs l =
      let k =
        read_chunks-IsChunk l.file l.tensor.offset l.tensor.per_expert_bytes bank.n_experts bufs e
          l.chunks low in
      let (t, d, g) = exact.indexed.ranges b e r here low in
      let same : t ≡ l.tensor = some-inj t l.tensor (sym d ∙ l.described) in
      let g' : lookup range_discrete (expert_key b e r) bank.ranges
          ≡ some (range_of l.tensor b e r) =
        g ∙ ap (λ x. some (range_of x b e r)) same in
      (k, rw (g', l.opened, k.filed))

  read_ram-read_range : bank.mode ≡ Mode.ram → read_ram bank b e r ≡ read_range bank b e r
  unfolding read_ram expert_bytes
  read_ram-read_range m = elim (Option-cases (lookup key_discrete (b, r) bank.ram_of)) [
    | inl n ↦ absurd (
        let p = exact.all_ram b r m here in
        ground (arith, has-keys key_discrete (b, r) bank.ram_of))
    | inr (buf, q) ↦
        let (bufs, l, joined) = exact.indexed.copied b r buf q in
        let (k, same) = range-IsChunk bufs l in
        rw (q, l.described, same)
          (ap ok (
            ap (slice (e * l.tensor.per_expert_bytes) l.tensor.per_expert_bytes) joined ∙ k.joined))
  ]

  read_cold-read_range : read_cold bank b e r ≡ read_range bank b e r
  unfolding read_cold
  read_cold-read_range = by_mode bank.mode refl
    where
      by_mode :
          (m : Mode)
          → bank.mode ≡ m
          → (elim m [ Mode.ram ↦ read_ram bank b e r | other ↦ read_range bank b e r ])
            ≡ read_range bank b e r
      by_mode Mode.mmap q = refl
      by_mode Mode.ram q = read_ram-read_range q
      by_mode Mode.other_mode q = refl

  read_from-read_range :
      read_from bank (lookup key_discrete (b, r) bank.warm_of) b e r ≡ read_range bank b e r
  unfolding read_from
  read_from-read_range = elim (Option-cases (lookup key_discrete (b, r) bank.warm_of)) [
    | inl n ↦ rw n read_cold-read_range
    | inr (bufs, q) ↦
        let (k, same) = range-IsChunk bufs (exact.indexed.warm b r bufs q) in rw (q, k.listed, same)
  ]

-- In every mode and with any blocks pinned, `slice` gives what the range of the expert has in its
-- shard, a short read included; it raises `IndexError` for an expert out of range and then
-- `KeyError` for a block that the bank does not have.
pub expert_slice-read_range :
    (bank : ExpertBank) (b e : ℕ) (r : Role)
    → IsExact bank
    → expert_slice bank b e r ≡ (
        if ltb e bank.n_experts
        then (if has ℕ_discrete b bank.blocks then read_range bank b e r else raise key_error)
        else raise Error.index_error)
unfolding expert_slice
expert_slice-read_range bank b e r exact = elim (Bool-cases (ltb e bank.n_experts)) [
  | inr high ↦ rw high
  | inl low ↦ elim (Bool-cases (has ℕ_discrete b bank.blocks)) [
    | inr away ↦ rw (low, away)
    | inl here ↦ rw (low, here) (read_from-read_range bank exact b e r here (ltb→lt _ _ low))
  ]
]
