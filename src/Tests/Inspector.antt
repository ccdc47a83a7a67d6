-- ===== src/Tests/Inspector.antt =====
-- A model of one block with two experts and a lookup table, in one shard.
use sabah_mo_e_accelerator.Base.{
  ℕ, zero, suc, ◌+◌, ◌≡◌, refl, true, List, [], ◌∷◌, Option, none, some, has, insert, lookup,
  ℕ_discrete, ◌==◌,
}
use sabah_mo_e_accelerator.Tier.Types.{Role, gate, up, down}
use sabah_mo_e_accelerator.Inspector.Types.{q8_0, f32, Patterns, Tensor, Header}
use sabah_mo_e_accelerator.Inspector.Profile.{inspect_model}
use sabah_mo_e_accelerator.Inspector.Profile.Partition.{inspect_model-total}
use sabah_mo_e_accelerator.Inspector.Profile.Supported.{IsSupported, inspect_model-IsSupported}

abbrev name_of : ℕ → Option (ℕ × Role)
name_of zero = some (0, gate)
name_of (suc zero) = some (0, up)
name_of (suc (suc zero)) = some (0, down)
name_of (suc (suc (suc n))) = none

abbrev pats : Patterns
pats = record { expert_name = name_of; lookup_name = λ n. n == 3 }

abbrev expert_tensor : ℕ → Tensor
expert_tensor o = record {
  shard = 0;
  offset = o;
  bytes = 136;
  qtype = q8_0;
  shape = 32 ∷ 2 ∷ 2 ∷ [];
}

abbrev shards : List (List (ℕ × Tensor))
shards =
    ((0, expert_tensor 0)
      ∷ (1, expert_tensor 136)
      ∷ (2, expert_tensor 272)
      ∷ (3, record { shard = 0; offset = 408; bytes = 40; qtype = f32; shape = 10 ∷ [] })
      ∷ (4, record { shard = 0; offset = 448; bytes = 8; qtype = f32; shape = 2 ∷ [] })
      ∷ [])
    ∷ []

abbrev header : Header
header = record {
  registered = true;
  block_count = 1;
  embedding_length = 32;
  expert_count = 2;
  expert_used_count = 1;
  expert_feed_forward_length = 2;
  context_length = 64;
}

program : Unit {0}
unfolding inspect_model has insert lookup ℕ_discrete
program = tt

bank_bytes : (inspect_model pats header shards).expert_bank_bytes ≡ 408
unfolding program
bank_bytes = refl

costs : (inspect_model pats header shards).per_block_expert_bytes ≡ (0, 204) ∷ []
unfolding program
costs = refl

inspect_model-total_example :
    ((inspect_model pats header shards).expert_bank_bytes
        + (inspect_model pats header shards).lookup_bytes
        + (inspect_model pats header shards).fixed_bytes
      ≡ (inspect_model pats header shards).tensor_bytes)
    × ((inspect_model pats header shards).routed_bytes
        ≡ (inspect_model pats header shards).expert_bank_bytes)
inspect_model-total_example = inspect_model-total pats header shards refl refl

inspect_model-IsSupported_example : IsSupported pats (inspect_model pats header shards) 1
unfolding program
inspect_model-IsSupported_example = inspect_model-IsSupported pats header shards 1 refl refl
