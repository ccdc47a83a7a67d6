-- ===== src/Bank/Build.antt =====
-- `ExpertBank.__init__`. The shards are the contents of the files that `shard_paths` names; the first
-- is number 0.
pub mod Ranges
pub mod Built
use sabah_mo_e_accelerator.Base.{
  ℕ, zero, suc, ◌+◌, ◌*◌, not, Bool, true, false, List, [], ◌∷◌, Option, none, some, nth, has,
  lookup, insert, keys, map, if◌then◌else◌, ℕ_discrete, sorted_set, Result, ok, raise, Error, ◌>>=◌,
}
use sabah_mo_e_accelerator.Tier.Types.{Role, Bytes}
use sabah_mo_e_accelerator.Bank.Types.{
  Mode, Descriptor, Profile, ExpertId, ExpertRange, ExpertBank, make_range, range_of, expert_key,
  key_discrete, range_discrete,
}
use sabah_mo_e_accelerator.Bank.Files.{or_key_error}
use sabah_mo_e_accelerator.Bank.Warm.{roles, load_ram, load_warm}

-- `self.desc`
unfoldable pub index_tensors :
    List Descriptor → List ((ℕ × Role) × Descriptor) → List ((ℕ × Role) × Descriptor)
index_tensors [] desc = desc
index_tensors (t ∷ ts) desc = index_tensors ts (insert key_discrete (t.block, t.role) t desc)

abbrev pub blocks_of : List ((ℕ × Role) × Descriptor) → List ℕ
blocks_of [] = []
blocks_of (d ∷ ds) = d.0.0 ∷ blocks_of ds

-- `keep - set(self.blocks)` is empty.
unfoldable pub all_in : List ℕ → List ℕ → Bool
all_in [] known = true
all_in (b ∷ bs) known = let rest = all_in bs known in if has ℕ_discrete b known then rest else false

-- `self.blocks`
unfoldable pub choose_blocks : Option (List ℕ) → List ℕ → Result (List ℕ)
unfolding all_in sorted_set
choose_blocks none known = ok known
choose_blocks (some keep) known =
    if all_in keep known then ok (sorted_set keep) else raise Error.value_error

-- `self._file_handles`: a shard past the end of `paths` is left out.
abbrev pub open_shard : ℕ → Option Bytes → List (ℕ × Bytes) → List (ℕ × Bytes)
open_shard si none handles = handles
open_shard si (some f) handles = insert ℕ_discrete si f handles

unfoldable pub open_files :
    List Bytes → List ((ℕ × Role) × Descriptor) → List (ℕ × Bytes) → List (ℕ × Bytes)
open_files shards [] handles = handles
open_files shards (d ∷ ds) handles = open_files shards ds (
    if has ℕ_discrete d.1.shard (keys handles)
    then handles
    else open_shard d.1.shard (nth shards d.1.shard) handles)

-- The body of the loops that fill `self._ranges`.
unfoldable pub add_range : ℕ → ℕ → Role → ExpertBank → Result ExpertBank
unfolding make_range
add_range b e r bank = or_key_error (lookup key_discrete (b, r) bank.desc) >>= λ t.
    make_range (range_of t b e r) >>= λ g.
    ok (record bank { ranges = insert range_discrete (expert_key b e r) g bank.ranges })

unfoldable pub add_roles : ℕ → ℕ → List Role → ExpertBank → Result ExpertBank
unfolding add_range
add_roles b e [] bank = ok bank
add_roles b e (r ∷ rs) bank = add_range b e r bank >>= λ t. add_roles b e rs t

-- The experts from `e` on, of which there are `n`.
unfoldable pub add_experts : ℕ → ℕ → ℕ → ExpertBank → Result ExpertBank
unfolding add_roles
add_experts b e zero bank = ok bank
add_experts b e (suc n) bank = add_roles b e roles bank >>= λ t. add_experts b (e + 1) n t

unfoldable pub add_blocks : List ℕ → ExpertBank → Result ExpertBank
unfolding add_experts
add_blocks [] bank = ok bank
add_blocks (b ∷ bs) bank = add_experts b 0 bank.n_experts bank >>= λ t. add_blocks bs t

-- The bank before its ranges are known.
unfoldable pub empty_bank :
    Profile
    → Mode
    → Bool
    → List ℕ
    → List ((ℕ × Role) × Descriptor)
    → List ℕ
    → List Bytes
    → ExpertBank
unfolding open_files
empty_bank model mode pinned warm desc blocks shards = record {
  mode = mode;
  pinned = pinned;
  n_experts = model.n_experts;
  n_experts_used = model.n_experts_used;
  warm_blocks = sorted_set warm;
  desc = desc;
  blocks = blocks;
  ram_of = [];
  warm_of = [];
  warm_loaded_bytes = 0;
  ranges = [];
  file_handles = open_files shards desc [];
}

-- What the mode asks for.
unfoldable pub load_mode : ExpertBank → Result ExpertBank
unfolding load_ram
load_mode bank = elim bank.mode [
  | Mode.mmap ↦ ok bank
  | Mode.ram ↦ load_ram bank.blocks bank
  | Mode.other_mode ↦ raise Error.value_error
]

-- `if self.warm_blocks: self.load_warm()`
abbrev pub load_chosen : List ℕ → ExpertBank → Result ExpertBank
load_chosen [] bank = ok bank
load_chosen (b ∷ bs) bank = load_warm [] bank >>= λ t. ok t.0

-- `__init__`
unfoldable pub build_bank :
    Profile → Mode → Option (List ℕ) → Bool → List ℕ → List Bytes → Result ExpertBank
unfolding index_tensors choose_blocks add_blocks empty_bank load_mode
build_bank model mode blocks pinned warm shards =
    if model.supported
    then (if model.experts_contiguous
        then (let desc = index_tensors model.expert_tensors [] in
            choose_blocks blocks (sorted_set (blocks_of desc)) >>= λ bs.
            add_blocks bs (empty_bank model mode pinned warm desc bs shards) >>= λ b.
            load_mode b >>= λ c. load_chosen c.warm_blocks c)
        else raise Error.value_error)
    else raise Error.value_error
