-- ===== src/Bank/Warm.antt =====
-- The parts of the bank that are copied: `_load_ram` for all blocks, `load_warm` for chosen ones.
pub mod Loads
pub mod Pins
use sabah_mo_e_accelerator.Base.{
  ℕ, ◌+◌, ◌*◌, ◌||◌, Bool, true, false, List, [], ◌∷◌, has, lookup, insert, if◌then◌else◌,
  ℕ_discrete, sort, Result, ok, ◌>>=◌,
}
use sabah_mo_e_accelerator.Tier.Types.{Role, gate, up, down, Bytes}
use sabah_mo_e_accelerator.Bank.Types.{ExpertBank, key_discrete}
use sabah_mo_e_accelerator.Bank.Files.{or_key_error, read_chunks, concat}
use sabah_mo_e_accelerator.Bank.Slice.{in_ram, in_warm}

abbrev pub roles : List Role
roles = gate ∷ up ∷ down ∷ []

-- The reads of all experts of a block in one role.
unfoldable pub read_role : ExpertBank → ℕ → Role → Result (List Bytes × ℕ)
unfolding read_chunks
read_role bank b r = or_key_error (lookup key_discrete (b, r) bank.desc) >>= λ t.
    or_key_error (lookup ℕ_discrete t.shard bank.file_handles) >>= λ f.
    read_chunks f t.offset t.per_expert_bytes bank.n_experts >>= λ cs.
    ok (cs, bank.n_experts * t.per_expert_bytes)

-- The body of the loops of `_load_ram`.
unfoldable pub load_role : ℕ → Role → ExpertBank → Result ExpertBank
unfolding read_role
load_role b r bank = read_role bank b r >>= λ c.
    ok (record bank { ram_of = insert key_discrete (b, r) (concat c.0) bank.ram_of })

unfoldable pub load_roles : ℕ → List Role → ExpertBank → Result ExpertBank
unfolding load_role
load_roles b [] bank = ok bank
load_roles b (r ∷ rs) bank = load_role b r bank >>= λ t. load_roles b rs t

unfoldable pub load_ram : List ℕ → ExpertBank → Result ExpertBank
unfolding load_roles
load_ram [] bank = ok bank
load_ram (b ∷ bs) bank = load_roles b roles bank >>= λ t. load_ram bs t

-- The body of the loops of `load_warm`: a key that is in RAM already is skipped.
unfoldable pub warm_role : ℕ → Role → ExpertBank → Result (ExpertBank × ℕ)
unfolding read_role
warm_role b r bank =
    if in_warm bank b r || in_ram bank b r
    then ok (bank, 0)
    else (read_role bank b r >>= λ c.
        ok (record bank { warm_of = insert key_discrete (b, r) c.0 bank.warm_of }, c.1))

unfoldable pub warm_roles : ℕ → List Role → ExpertBank → Result (ExpertBank × ℕ)
unfolding warm_role
warm_roles b [] bank = ok (bank, 0)
warm_roles b (r ∷ rs) bank =
    warm_role b r bank >>= λ t. warm_roles b rs t.0 >>= λ u. ok (u.0, t.1 + u.1)

unfoldable pub warm_all : List ℕ → ExpertBank → Result (ExpertBank × ℕ)
unfolding warm_roles
warm_all [] bank = ok (bank, 0)
warm_all (b ∷ bs) bank =
    (if has ℕ_discrete b bank.blocks then warm_roles b roles bank else ok (bank, 0)) >>= λ t.
    warm_all bs t.0 >>= λ u. ok (u.0, t.1 + u.1)

-- `a or b` of two lists.
abbrev pub or_else {ℓ} : {A : Type ℓ} → List A → List A → List A
or_else [] ys = ys
or_else (x ∷ xs) ys = x ∷ xs

-- `load_warm`: the bank, and the bytes pinned by this call. No argument is an empty list.
unfoldable pub load_warm : List ℕ → ExpertBank → Result (ExpertBank × ℕ)
unfolding warm_all
load_warm blocks bank =
    warm_all (sort (or_else blocks (or_else bank.warm_blocks bank.blocks))) bank >>= λ t.
    ok (record t.0 { warm_loaded_bytes = t.0.warm_loaded_bytes + t.1 }, t.1)
