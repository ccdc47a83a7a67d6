-- ===== src/Bank/Types.antt =====
-- The state of `ExpertBank`, and the identities of sabah/runtime/identity.py.
use sabah_mo_e_accelerator.Base.{
  ℕ, ◌+◌, ◌*◌, Bool, List, ℕ_discrete, pair_discrete, ◌==◌, if◌then◌else◌, Result, ok, raise, Error,
}
use sabah_mo_e_accelerator.Tier.Types.{Role, Bytes}

unfoldable pub Role-discrete : Discrete Role
Role-discrete = hlevel

-- `mode`, of which only two values are accepted.
pub data Mode : Type 0 where
  mmap ram other_mode : Mode

-- An entry of `expert_tensors`: the fields that the bank reads.
pub record Descriptor : Type 0 where
  pub block : ℕ
  pub role : Role
  pub qtype : ℕ
  pub per_expert_bytes : ℕ
  pub shard : ℕ
  pub offset : ℕ

-- What the bank reads of the model profile.
pub record Profile : Type 0 where
  pub supported : Bool
  pub experts_contiguous : Bool
  pub n_experts : ℕ
  pub n_experts_used : ℕ
  pub expert_tensors : List Descriptor

-- `ExpertId`; the numbers are natural here, so `__post_init__` never raises.
pub record ExpertId : Type 0 where
  pub block : ℕ
  pub expert : ℕ

unfoldable pub ExpertId-discrete : Discrete ExpertId
ExpertId-discrete = hlevel (ℕ_discrete)

-- `ExpertRange`
pub record ExpertRange : Type 0 where
  pub identity : ExpertId
  pub role : Role
  pub shard : ℕ
  pub offset : ℕ
  pub size : ℕ
  pub qtype : ℕ

-- `ExpertRange.__post_init__`
unfoldable pub make_range : ExpertRange → Result ExpertRange
make_range r = if r.size == 0 then raise Error.value_error else ok r

-- `end`
abbrev pub range_end : ExpertRange → ℕ
range_end r = r.offset + r.size

-- The keys `(block, role)` and `(identity, role)`.
unfoldable pub key_discrete : Discrete (ℕ × Role)
unfolding Role-discrete pair_discrete
key_discrete = pair_discrete ℕ_discrete Role-discrete

unfoldable pub range_discrete : Discrete (ExpertId × Role)
unfolding ExpertId-discrete Role-discrete pair_discrete
range_discrete = pair_discrete ExpertId-discrete Role-discrete

-- The range of an expert.
abbrev pub range_of : Descriptor → ℕ → ℕ → Role → ExpertRange
range_of t b e r = record {
  identity = record { block = b; expert = e };
  role = r;
  shard = t.shard;
  offset = t.offset + e * t.per_expert_bytes;
  size = t.per_expert_bytes;
  qtype = t.qtype;
}

abbrev pub expert_key : ℕ → ℕ → Role → ExpertId × Role
expert_key b e r = (record { block = b; expert = e }, r)

-- `ExpertBank`. A file handle is the content of its file; reads at a position follow from `seek`.
pub record ExpertBank : Type 0 where
  pub mode : Mode
  pub pinned : Bool
  pub n_experts : ℕ
  pub n_experts_used : ℕ
  pub warm_blocks : List ℕ
  pub desc : List ((ℕ × Role) × Descriptor)
  pub blocks : List ℕ
  pub ram_of : List ((ℕ × Role) × Bytes)
  pub warm_of : List ((ℕ × Role) × List Bytes)
  pub warm_loaded_bytes : ℕ
  pub ranges : List ((ExpertId × Role) × ExpertRange)
  pub file_handles : List (ℕ × Bytes)
