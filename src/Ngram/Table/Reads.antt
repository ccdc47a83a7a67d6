-- ===== src/Ngram/Table/Reads.antt =====
-- Reads of an open n-gram table: `row`, `rows` and `gather`.
use sabah_mo_e_accelerator.Base.{
  ℕ, suc, ◌+◌, ◌*◌, ◌/◌, ◌≤◌, ◌<◌, ◌≡◌, refl, sym, subst, ◌∙◌, inl, inr, true, false, List, [], ◌∷◌,
  length, slice, length-slice, All, ltb, ltb→ge, ◌==◌, ok, Bool-cases, arith, Returns,
}
use native.Mathlib.Nat.{div-mul-le_self, mul-le-mul_right, mod-lt}
use sabah_mo_e_accelerator.Ngram.Table.{
  Tensor, NgramTable, rows_of, opened, row_shape, open_table, row, rows, hash_step, hash_from,
  rolling_hash_indices,
}

-- The rows of the table are inside the mapping.
pub record IsOpen (t : NgramTable) : Type 0 where
  pub inside : (i : ℕ) → i < t.n_rows → t.t0 + i * t.row_bytes + t.row_bytes ≤ length t.shard

pub open_table-IsOpen :
    (tensor : Tensor) (shard : List ℕ) (base : ℕ) (t : NgramTable)
    → open_table tensor shard base ≡ ok t
    → IsOpen t
unfolding open_table opened row_shape
open_table-IsOpen tensor shard base t q =
    elim (Bool-cases (ltb (length shard) (tensor.offset + tensor.bytes))) [
      | inl short ↦ absurd (ground arith)
      | inr long ↦
          let e : open_table tensor shard base ≡ ok (opened tensor shard base) =
            rw (long, open_table) in
          subst (Returns IsOpen) (sym e ∙ q) (record { inside = λ i h. fits i h (ltb→ge _ _ long) })
    ]
  where
    fits :
        (i : ℕ)
        → i < rows_of tensor.shape
        → tensor.offset + tensor.bytes ≤ length shard
        → tensor.offset + i * (row_shape tensor).2 + (row_shape tensor).2 ≤ length shard
    fits i h l =
        let n = rows_of tensor.shape in
        let some_row : (n == 0) ≡ false = ground arith in
        let p = mul-le-mul_right {m = suc i} {n = n} (tensor.bytes / n) h in
        let d = div-mul-le_self tensor.bytes n in rw some_row (omega arith)

row-IsOpen :
    (t : NgramTable) (i : ℕ)
    → IsOpen t
    → i < t.n_rows
    → (r : List ℕ) × (row t i ≡ ok r) × (length r ≡ t.row_bytes)
unfolding row
row-IsOpen t i o h =
    let here : ltb i t.n_rows ≡ true = ground arith in
    (
      slice (t.t0 + i * t.row_bytes) t.row_bytes t.shard,
      rw here,
      length-slice (t.t0 + i * t.row_bytes) t.row_bytes t.shard (o.inside i h),
    )

rows-IsOpen :
    (t : NgramTable) (is : List ℕ)
    → IsOpen t
    → All (λ i. i < t.n_rows) is
    → (rs : List (List ℕ)) × (rows t is ≡ ok rs)
      × (length rs ≡ length is)
      × All (λ r. length r ≡ t.row_bytes) rs
unfolding rows
rows-IsOpen t [] o h = ([], refl, refl, tt)
rows-IsOpen t (i ∷ is) o h =
    let (r, read, n) = row-IsOpen t i o h.0 in
    let (rs, rest, m, ns) = rows-IsOpen t is o h.1 in
    (r ∷ rs, rw (read, rest), omega arith, (n, ns))

hash_from-All :
    (table_rows seed acc : ℕ) (tokens : List ℕ)
    → 0 < table_rows
    → All (λ i. i < table_rows) (hash_from table_rows seed acc tokens)
unfolding hash_from
hash_from-All table_rows seed acc [] h = tt
hash_from-All table_rows seed acc (t ∷ ts) h =
    (mod-lt (hash_step seed acc t) h, hash_from-All table_rows seed (hash_step seed acc t) ts h)

length-hash_from :
    (table_rows seed acc : ℕ) (tokens : List ℕ)
    → length (hash_from table_rows seed acc tokens) ≡ length tokens
unfolding hash_from
length-hash_from table_rows seed acc [] = refl
length-hash_from table_rows seed acc (t ∷ ts) =
    omega (arith, length-hash_from table_rows seed (hash_step seed acc t) ts)

-- In a table that the constructor has opened with at least one row, the hashed indices of any
-- tokens are rows that it reads without an error: one row for each token, each of exactly
-- `row_bytes` bytes.
pub rows-rolling_hash_indices :
    (tensor : Tensor) (shard : List ℕ) (base seed : ℕ) (t : NgramTable) (tokens : List ℕ)
    → open_table tensor shard base ≡ ok t
    → 0 < t.n_rows
    → (rs : List (List ℕ)) × (rows t (rolling_hash_indices t.n_rows seed tokens) ≡ ok rs)
      × (length rs ≡ length tokens)
      × All (λ r. length r ≡ t.row_bytes) rs
unfolding rolling_hash_indices
rows-rolling_hash_indices tensor shard base seed t tokens opened some_rows =
    let some_row : (t.n_rows == 0) ≡ false = ground arith in
    let (rs, read, n, ns) =
      rows-IsOpen t (hash_from t.n_rows seed 0 tokens)
        (open_table-IsOpen tensor shard base t opened)
        (hash_from-All t.n_rows seed 0 tokens some_rows) in
    (rs, rw (some_row, read), omega (arith, length-hash_from t.n_rows seed 0 tokens), ns)
