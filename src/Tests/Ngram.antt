-- ===== src/Tests/Ngram.antt =====
-- An n-gram table of four rows of two bytes, at offset three of a shard of twelve bytes.
use sabah_mo_e_accelerator.Base.{
  has, ℕ_discrete, ℕ, ◌≡◌, refl, Bool, true, List, [], ◌∷◌, none, some, length, All, ok, arith,
  take, slice,
}
use sabah_mo_e_accelerator.Ngram.Runs.{runs}
use sabah_mo_e_accelerator.Ngram.Runs.Cover.{covered, runs-covered, runs-IsBounded, IsBounded}
use sabah_mo_e_accelerator.Ngram.Table.{
  Tensor, NgramTable, NgramPrefetcher, opened, open_table, rows, rolling_hash_indices, close,
}
use sabah_mo_e_accelerator.Ngram.Table.Reads.{rows-rolling_hash_indices}
use sabah_mo_e_accelerator.Ngram.Table.Balance.{feed}

abbrev tensor : Tensor
tensor = record { shape = 4 ∷ 4 ∷ []; bytes = 8; offset = 3 }

abbrev shard : List ℕ
shard = 0 ∷ 1 ∷ 2 ∷ 3 ∷ 4 ∷ 5 ∷ 6 ∷ 7 ∷ 8 ∷ 9 ∷ 10 ∷ 11 ∷ []

abbrev table : NgramTable
unfolding opened
table = opened tensor shard 100

program : Unit {0}
unfolding runs open_table opened rows rolling_hash_indices feed close take slice
program = tt

merged : runs 4 (2 ∷ 9 ∷ 1 ∷ 2 ∷ []) 2 103 (some 112) ≡ (104, 8) ∷ []
unfolding program
merged = refl

opened_table : open_table tensor shard 100 ≡ ok table
unfolding program
opened_table = refl

last_row : rows table (3 ∷ []) ≡ ok ((9 ∷ 10 ∷ []) ∷ [])
unfolding program
last_row = refl

runs-covered_example : covered 106 (runs 4 (2 ∷ 9 ∷ 1 ∷ []) 2 103 (some 112)) ≡ true
unfolding has ℕ_discrete
runs-covered_example =
    runs-covered 4 2 103 (omega arith) (2 ∷ 9 ∷ 1 ∷ []) (some 112) 1 106 refl (omega arith)
      (omega arith) refl

rows-rolling_hash_indices_example :
    (rs : List (List ℕ)) × (rows table (rolling_hash_indices 4 7 (5 ∷ 6 ∷ [])) ≡ ok rs)
    × (length rs ≡ 2)
    × All (λ r. length r ≡ 2) rs
unfolding program
rows-rolling_hash_indices_example =
    rows-rolling_hash_indices tensor shard 100 7 table (5 ∷ 6 ∷ []) opened_table (omega arith)

abbrev start : NgramPrefetcher
unfolding opened
start = record {
  table = table;
  index_fn = none;
  release_previous = true;
  enabled = true;
  prev = [];
  steps = 0;
  tokens = 0;
}

abbrev takes : ℕ → ℕ → Bool
takes a l = true

abbrev texts : List (List ℕ)
texts = (5 ∷ 6 ∷ []) ∷ (7 ∷ []) ∷ []

runs-IsBounded_example : All (IsBounded 4 (some 112)) (runs 4 (2 ∷ 9 ∷ 1 ∷ []) 2 103 (some 112))
runs-IsBounded_example = runs-IsBounded 4 2 103 (2 ∷ 9 ∷ 1 ∷ []) (some 112)
