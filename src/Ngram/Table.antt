-- ===== src/Ngram/Table.antt =====
-- `NgramTable` and `NgramPrefetcher` of sabah/runtime/ngram_prefetch.py. The mapping is the bytes of
-- the shard, `base` its address; the page hints are functions that say whether the system took them.
pub mod Reads
pub mod Balance
use Prim.Native.Nat.{bit_and, bit_xor}
use sabah_mo_e_accelerator.Base.{
  ℕ, ◌+◌, ◌*◌, ◌/◌, ◌%◌, Bool, true, false, ◌&&◌, not, List, [], ◌∷◌, Option, none, some, length,
  slice, ltb, ◌==◌, if◌then◌else◌, Result, ok, raise, Error, ◌>>=◌,
}
use sabah_mo_e_accelerator.Ngram.Runs.{runs}

-- The description of a tensor, as the fields that the table reads.
pub record Tensor : Type 0 where
  pub shape : List ℕ
  pub bytes : ℕ
  pub offset : ℕ

pub record NgramTable : Type 0 where
  pub n_rows : ℕ
  pub row_elems : ℕ
  pub row_bytes : ℕ
  pub base : ℕ
  pub t0 : ℕ
  pub shard : List ℕ
  pub mapped : Bool
  pub hinted_bytes : ℕ
  pub released_bytes : ℕ

-- `row_shape`: the rows, the elements of a row, and its bytes.
abbrev pub rows_of : List ℕ → ℕ
rows_of [] = 1
rows_of (e ∷ []) = 1
rows_of (e ∷ n ∷ rest) = n

abbrev pub elems_of : List ℕ → ℕ
elems_of [] = 0
elems_of (e ∷ rest) = e

unfoldable pub row_shape : Tensor → ℕ × ℕ × ℕ
row_shape t =
    let n = rows_of t.shape in (n, elems_of t.shape, if n == 0 then t.bytes else t.bytes / n)

-- The table of a tensor.
unfoldable pub opened : Tensor → List ℕ → ℕ → NgramTable
unfolding row_shape
opened t shard base = record {
  n_rows = (row_shape t).0;
  row_elems = (row_shape t).1;
  row_bytes = (row_shape t).2;
  base = base;
  t0 = t.offset;
  shard = shard;
  mapped = true;
  hinted_bytes = 0;
  released_bytes = 0;
}

-- `NgramTable.__init__`, once the tensor is chosen and its shard is mapped.
unfoldable pub open_table : Tensor → List ℕ → ℕ → Result NgramTable
unfolding opened
open_table t shard base =
    if ltb (length shard) (t.offset + t.bytes)
    then raise Error.io_error
    else ok (opened t shard base)

-- `row`
unfoldable pub row : NgramTable → ℕ → Result (List ℕ)
unfolding slice
row t index =
    if ltb index t.n_rows
    then ok (slice (t.t0 + index * t.row_bytes) t.row_bytes t.shard)
    else raise Error.index_error

-- `rows`, and the rows that `gather` copies.
unfoldable pub rows : NgramTable → List ℕ → Result (List (List ℕ))
unfolding row
rows t [] = ok []
rows t (i ∷ is) = row t i >>= λ r. rows t is >>= λ rs. ok (r ∷ rs)

-- `page_hint` and `page_release`: an empty range is refused, whatever the system says.
unfoldable pub page_call : (ℕ → ℕ → Bool) → ℕ → ℕ → Bool
page_call os addr len = not (len == 0) && os addr len

-- The bytes of the runs that the system takes.
unfoldable pub taken_bytes : (ℕ → ℕ → Bool) → List (ℕ × ℕ) → ℕ
unfolding page_call
taken_bytes os [] = 0
taken_bytes os (r ∷ rs) = (if page_call os r.0 r.1 then r.1 else 0) + taken_bytes os rs

abbrev pub table_runs : ℕ → NgramTable → List ℕ → List (ℕ × ℕ)
table_runs page t indices =
    runs page indices t.row_bytes (t.base + t.t0) (some (t.base + length t.shard))

-- `prefetch` and `release`; after `close` they do nothing.
unfoldable pub prefetch_rows : ℕ → (ℕ → ℕ → Bool) → NgramTable → List ℕ → NgramTable
unfolding taken_bytes
prefetch_rows page hint t indices =
    if t.mapped
    then record t { hinted_bytes = t.hinted_bytes + taken_bytes hint (table_runs page t indices) }
    else t

unfoldable pub release_rows : ℕ → (ℕ → ℕ → Bool) → NgramTable → List ℕ → NgramTable
unfolding taken_bytes
release_rows page drop t indices =
    if t.mapped
    then record t {
      released_bytes = t.released_bytes + taken_bytes drop (table_runs page t indices);
    }
    else t

abbrev pub close_table : NgramTable → NgramTable
close_table t = record t { mapped = false }

-- `rolling_hash_indices`; its parameter `n` is not used.
unfoldable pub hash_step : ℕ → ℕ → ℕ → ℕ
hash_step seed acc t =
    bit_and (bit_xor (bit_xor (acc * 1000003) (bit_and t 4294967295)) seed) 18446744073709551615

unfoldable pub hash_from : ℕ → ℕ → ℕ → List ℕ → List ℕ
unfolding hash_step
hash_from table_rows seed acc [] = []
hash_from table_rows seed acc (t ∷ ts) =
    let acc' = hash_step seed acc t in acc' % table_rows ∷ hash_from table_rows seed acc' ts

unfoldable pub rolling_hash_indices : ℕ → ℕ → List ℕ → List ℕ
unfolding hash_from
rolling_hash_indices table_rows seed tokens =
    if table_rows == 0 then [] else hash_from table_rows seed 0 tokens

pub record NgramPrefetcher : Type 0 where
  pub table : NgramTable
  pub index_fn : Option (List ℕ → List ℕ)
  pub release_previous : Bool
  pub enabled : Bool
  pub prev : List ℕ
  pub steps : ℕ
  pub tokens : ℕ

abbrev pub default_seed : ℕ
default_seed = 11400714819323198485

-- `indices`
unfoldable pub indices : NgramPrefetcher → List ℕ → List ℕ
unfolding rolling_hash_indices
indices p tokens = elim p.index_fn [
  | none ↦ rolling_hash_indices p.table.n_rows default_seed tokens
  | some f ↦ f tokens
]

-- `if self._prev`
abbrev pub non_empty {ℓ} : {A : Type ℓ} → List A → Bool
non_empty [] = false
non_empty (x ∷ xs) = true

-- `step`: the state afterwards, and the indices.
unfoldable pub step :
    ℕ → (ℕ → ℕ → Bool) → (ℕ → ℕ → Bool) → NgramPrefetcher → List ℕ → NgramPrefetcher × List ℕ
unfolding indices prefetch_rows release_rows
step page hint drop p tokens =
    let idx = indices p tokens in
    let released =
      if p.release_previous && non_empty p.prev
      then release_rows page drop p.table p.prev
      else p.table in
    if p.enabled
    then (
      record p {
        table = prefetch_rows page hint released idx;
        prev = idx;
        steps = p.steps + 1;
        tokens = p.tokens + length tokens;
      },
      idx,
    )
    else (p, idx)

-- `close`
unfoldable pub close : ℕ → (ℕ → ℕ → Bool) → NgramPrefetcher → NgramPrefetcher
unfolding release_rows
close page drop p =
    if non_empty p.prev
    then record p { table = close_table (release_rows page drop p.table p.prev); prev = [] }
    else record p { table = close_table p.table }
