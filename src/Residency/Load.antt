-- ===== src/Residency/Load.antt =====
-- `load` of `FixedPathResident` in sabah/runtime/residency.py: the copy of the fixed path into VRAM. A
-- shard is the list of its bytes, and an allocation on the device succeeds or fails by `allocate`; the
-- staging buffer is there, and device memory is what has been copied into it.
use sabah_mo_e_accelerator.Base.{
  ℕ, ◌+◌, Bool, true, List, [], ◌∷◌, ◌++◌, Option, none, some, length, slice, nth, replicate, has,
  insert, ◌==◌, if◌then◌else◌, Result, ok, raise, Error, ◌>>=◌,
}
use sabah_mo_e_accelerator.Bank.Files.{or_index_error}
use sabah_mo_e_accelerator.Residency.{Fixed, tensors, plan}

-- `_ptrs` with the bytes behind the pointers, `missing` and `resident_bytes`.
pub record Resident (K : Type 0) : Type 0 where
  pub held : List (K × List ℕ)
  pub missing : List K
  pub resident_bytes : ℕ

-- `__init__`
abbrev pub empty : {K : Type 0} → Resident K
empty = record { held = []; missing = []; resident_bytes = 0 }

-- What `sabah_dev_alloc` answers: a pointer, an error that says "out of memory", or another error.
pub data Allocation : Type 0 where
  granted out_of_memory failed : Allocation

-- `stage_arr[:nbytes] = src`: a single byte is repeated, and any other wrong length is refused.
unfoldable pub staged : ℕ → List ℕ → Result (List ℕ)
staged n src =
    if length src == n
    then ok src
    else if length src == 1
    then elim src [ [] ↦ ok [] | b ∷ bs ↦ ok (replicate n b) ]
    else raise Error.value_error

-- The bytes of a tensor, read from its shard into the staging buffer.
unfoldable pub stage : {K : Type 0} → List (List ℕ) → Fixed K → Result (List ℕ)
unfolding slice staged
stage shards t =
    or_index_error (nth shards t.shard) >>= λ f. staged t.bytes (slice t.offset t.bytes f)

module _ {K : Type 0} (dec : Discrete K) where
  -- `names is None or t["name"] in names`
  unfoldable pub is_wanted : Option (List K) → K → Bool
  unfolding has
  is_wanted none name = true
  is_wanted (some names) name = has dec name names

  abbrev pub left : Resident K → Fixed K → Resident K
  left r t = record r { missing = r.missing ++ t.name ∷ [] }

  unfoldable pub copied : Resident K → Fixed K → List ℕ → Resident K
  unfolding insert
  copied r t bytes = record r {
    held = insert dec t.name bytes r.held;
    resident_bytes = r.resident_bytes + t.bytes;
  }

  module _ (allocate : Resident K → Fixed K → Allocation) (shards : List (List ℕ)) where
    -- A tensor that is wanted: what the allocation decides.
    unfoldable pub bring : Resident K → Fixed K → Result (Resident K)
    unfolding stage copied
    bring r t = stage shards t >>= λ bytes. elim (allocate r t) [
      | granted ↦ ok (copied r t bytes)
      | out_of_memory ↦ ok (left r t)
      | failed ↦ raise Error.cuda_error
    ]

    -- The loop of `load`.
    unfoldable pub load_loop : Option (List K) → List (Fixed K) → Resident K → Result (Resident K)
    unfolding is_wanted bring
    load_loop names [] r = ok r
    load_loop names (t ∷ ts) r =
        (if is_wanted names t.name then bring r t else ok (left r t)) >>= load_loop names ts

    -- `names`
    abbrev pub names_for : Option ℕ → List (Fixed K) → Option (List K)
    names_for none ts = none
    names_for (some budget) ts = some (plan (some budget) ts).0

    -- `load`
    unfoldable pub load : Option ℕ → List (Fixed K) → Resident K → Result (Resident K)
    unfolding load_loop tensors plan
    load budget ts r = load_loop (names_for budget ts) (tensors ts) r
