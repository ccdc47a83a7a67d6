-- ===== src/Residency.antt =====
-- `FixedPathResident` of sabah/runtime/residency.py: which tensors of the fixed path are pinned into
-- VRAM for a budget. A tensor is its name, its size and its place in the shards; `total_bytes` and the other results of
-- `plan` that copy its input are left out.
pub mod Budget
pub mod Load
pub mod Loaded
use sabah_mo_e_accelerator.Base.{
  ℕ, ◌+◌, Bool, true, false, not, List, [], ◌∷◌, Option, none, some, leb, has, if◌then◌else◌,
}

pub record Fixed (K : Type 0) : Type 0 where
  pub name : K
  pub shard : ℕ
  pub offset : ℕ
  pub bytes : ℕ

-- `sorted(ts, key=lambda t: -t["bytes"])`, which is stable.
unfoldable pub insert_largest : {K : Type 0} → Fixed K → List (Fixed K) → List (Fixed K)
insert_largest t [] = t ∷ []
insert_largest t (u ∷ us) =
    let rest = insert_largest t us in if leb u.bytes t.bytes then t ∷ u ∷ us else u ∷ rest

-- `tensors`
unfoldable pub tensors : {K : Type 0} → List (Fixed K) → List (Fixed K)
unfolding insert_largest
tensors [] = []
tensors (t ∷ ts) = insert_largest t (tensors ts)

abbrev pub total : {K : Type 0} → List (Fixed K) → ℕ
total [] = 0
total (t ∷ ts) = t.bytes + total ts

-- The loop of `plan`: the names that are kept, and the bytes taken.
unfoldable pub fill : {K : Type 0} → ℕ → ℕ → List (Fixed K) → List K × ℕ
fill budget taken [] = ([], taken)
fill budget taken (t ∷ ts) = elim (leb (taken + t.bytes) budget) [
  | true ↦ let r = fill budget (taken + t.bytes) ts in (t.name ∷ r.0, r.1)
  | false ↦ fill budget taken ts
]

abbrev pub or_all : Option ℕ → ℕ → ℕ
or_all none all = all
or_all (some budget) all = budget

-- `plan`: the pinned names and the pinned bytes.
unfoldable pub plan : {K : Type 0} → Option ℕ → List (Fixed K) → List K × ℕ
unfolding tensors fill
plan budget ts = fill (or_all budget (total (tensors ts))) 0 (tensors ts)

-- `left_out`
unfoldable pub left_out : {K : Type 0} → Discrete K → List K → List (Fixed K) → List K
left_out dec keep [] = []
left_out dec keep (t ∷ ts) =
    let rest = left_out dec keep ts in if has dec t.name keep then rest else t.name ∷ rest
