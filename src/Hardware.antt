-- ===== src/Hardware.antt =====
-- `qualify` of sabah/hardware/profile.py, from the rows of `_nvidia_smi_gpus` and the report of the
-- CUDA qualifier on. What is measured or asked of the system is an argument, floating-point numbers are
-- the interface `Scalar`; the texts of the warnings and of the host are left out.
pub mod Reserved
use sabah_mo_e_accelerator.Base.{
  ℕ, zero, suc, ◌+◌, ◌-◌, max, min, Bool, true, false, not, ◌&&◌, List, [], ◌∷◌, ◌++◌, Option, none,
  some, ltb, ◌==◌, if◌then◌else◌, length, lookup, insert, ℕ_discrete,
}
use sabah_mo_e_accelerator.Base.Text.{String, str_eq}
use sabah_mo_e_accelerator.Planner.Types.{Scalar}

-- A row of `_nvidia_smi_gpus`.
pub record SmiRow : Type 0 where
  pub index : ℕ
  pub name : String
  pub vram_total : ℕ
  pub vram_free : ℕ
  pub pcie_gen_max : ℕ
  pub pcie_width_max : ℕ
  pub pcie_gen_cur : ℕ
  pub pcie_width_cur : ℕ

-- A device in the report of the qualifier; a missing number is zero.
pub record CudaDevice (S : Scalar) : Type 0 where
  pub index : ℕ
  pub name : Option String
  pub vram_total : ℕ
  pub cc : String
  pub async_engines : ℕ
  pub h2d_solo_gbps : S.F

-- What `qualify` reads: the rows, the report, and the probes of the RAM and the storage.
pub record Probes (S : Scalar) : Type 0 where
  pub rows : List SmiRow
  pub devices : List (CudaDevice S)
  pub h2d_sum_solo_gbps : S.F
  pub h2d_simultaneous_gbps : S.F
  pub h2d_contention_factor : S.F
  pub ram_total : ℕ
  pub ram_bandwidth_gbps : S.F
  pub storage_read_gbps : S.F

-- `GpuInfo`
pub record GpuInfo (S : Scalar) : Type 0 where
  pub index : ℕ
  pub name : String
  pub vram_total : ℕ
  pub vram_free : ℕ
  pub vram_usable : ℕ
  pub cc : String
  pub async_engines : ℕ
  pub pcie_gen_max : ℕ
  pub pcie_width_max : ℕ
  pub pcie_gen_cur : ℕ
  pub pcie_width_cur : ℕ
  pub h2d_solo_gbps : S.F

pub data Warning : Type 0 where
  root_complex : Warning
  idle_link : ℕ → Warning
  narrow_link : ℕ → Warning

-- `HardwareProfile`
pub record HardwareProfile (S : Scalar) : Type 0 where
  pub gpus : List (GpuInfo S)
  pub cuda_available : Bool
  pub h2d_sum_solo_gbps : S.F
  pub h2d_simultaneous_gbps : S.F
  pub h2d_contention_factor : S.F
  pub ram_total : ℕ
  pub ram_usable : ℕ
  pub ram_bandwidth_gbps : S.F
  pub storage_read_gbps : S.F
  pub warnings : List Warning

-- `{g["index"]: g for g in rows}`
unfoldable pub rows_by : List SmiRow → List (ℕ × SmiRow) → List (ℕ × SmiRow)
unfolding insert ℕ_discrete
rows_by [] d = d
rows_by (g ∷ gs) d = rows_by gs (insert ℕ_discrete g.index g d)

unfoldable pub devices_by :
    {S : Scalar} → List (CudaDevice S) → List (ℕ × CudaDevice S) → List (ℕ × CudaDevice S)
unfolding insert ℕ_discrete
devices_by [] d = d
devices_by (g ∷ gs) d = devices_by gs (insert ℕ_discrete g.index g d)

-- The empty dictionaries that stand for a missing row or device.
abbrev no_row : SmiRow
no_row = record {
  index = 0;
  name = "?";
  vram_total = 0;
  vram_free = 0;
  pcie_gen_max = 0;
  pcie_width_max = 0;
  pcie_gen_cur = 0;
  pcie_width_cur = 0;
}

abbrev no_device : (S : Scalar) → CudaDevice S
no_device S = record {
  index = 0;
  name = none;
  vram_total = 0;
  cc = "";
  async_engines = 0;
  h2d_solo_gbps = S.nat 0;
}

abbrev or_default {ℓ} : {A : Type ℓ} → Option A → A → A
or_default none a = a
or_default (some b) a = b

-- `c.get("vram_total") or s.get("vram_total", 0)`
unfoldable pub total_of : {S : Scalar} → Option SmiRow → Option (CudaDevice S) → ℕ
total_of {S} row device =
    let c = or_default device (no_device S) in
    if c.vram_total == 0 then (or_default row no_row).vram_total else c.vram_total

-- `s.get("vram_free", total)`
unfoldable pub free_of : Option SmiRow → ℕ → ℕ
free_of none total = total
free_of (some s) total = s.vram_free

-- `c.get("name") or s.get("name", "?")`
unfoldable pub name_of : Option String → String → String
name_of none name = name
name_of (some n) name = if str_eq n "" then name else n

module _ (S : Scalar) where
  -- `max(int(total * VRAM_RESERVE_FRAC), VRAM_RESERVE_MIN)`, with `512 << 20`.
  unfoldable pub vram_reserve : ℕ → ℕ
  vram_reserve total = max (S.trunc (S.mul (S.nat total) (S.lit 6 2))) 536870912

  -- `max(int(p.ram_total * RAM_RESERVE_FRAC), RAM_RESERVE_MIN)`, with `4 << 30`.
  unfoldable pub ram_reserve : ℕ → ℕ
  ram_reserve total = max (S.trunc (S.mul (S.nat total) (S.lit 12 2))) 4294967296

  -- The `GpuInfo` of an index, which either dictionary may lack.
  unfoldable pub gpu_info : ℕ → Option SmiRow → Option (CudaDevice S) → GpuInfo S
  unfolding total_of free_of name_of vram_reserve
  gpu_info i row device =
      let s = or_default row no_row in
      let c = or_default device (no_device S) in
      let total = total_of row device in
      let free = free_of row total in
      record {
        index = i;
        name = name_of c.name s.name;
        vram_total = total;
        vram_free = free;
        vram_usable = min free total - vram_reserve total;
        cc = c.cc;
        async_engines = c.async_engines;
        pcie_gen_max = s.pcie_gen_max;
        pcie_width_max = s.pcie_width_max;
        pcie_gen_cur = s.pcie_gen_cur;
        pcie_width_cur = s.pcie_width_cur;
        h2d_solo_gbps = c.h2d_solo_gbps;
      }

  -- `for i in range(n)`, with the rounds that are left.
  unfoldable pub gpu_infos : List (ℕ × SmiRow) → List (ℕ × CudaDevice S) → ℕ → ℕ → List (GpuInfo S)
  unfolding gpu_info lookup ℕ_discrete
  gpu_infos smi cu i zero = []
  gpu_infos smi cu i (suc n) =
      gpu_info i (lookup ℕ_discrete i smi) (lookup ℕ_discrete i cu) ∷ gpu_infos smi cu (suc i) n

  -- The warnings about the links of the devices.
  unfoldable pub link_warnings : List (GpuInfo S) → List Warning
  link_warnings [] = []
  link_warnings (g ∷ gs) =
      (if not (g.pcie_gen_cur == 0)
          && not (g.pcie_gen_max == 0)
          && ltb g.pcie_gen_cur g.pcie_gen_max
        then idle_link g.index ∷ []
        else [])
      ++ ((if not (g.pcie_width_max == 0)
              && not (g.pcie_width_cur == 0)
              && ltb g.pcie_width_cur g.pcie_width_max
            then narrow_link g.index ∷ []
            else [])
          ++ link_warnings gs)

  unfoldable pub all_warnings : List (GpuInfo S) → S.F → List Warning
  unfolding link_warnings
  all_warnings gpus factor =
      if ltb 1 (length gpus) && not (S.is_zero factor) && S.lt factor (S.lit 8 1)
      then root_complex ∷ link_warnings gpus
      else link_warnings gpus

  unfoldable pub qualified_gpus : Probes S → List (GpuInfo S)
  unfolding rows_by devices_by gpu_infos
  qualified_gpus p =
      let smi = rows_by p.rows [] in
      let cu = devices_by p.devices [] in gpu_infos smi cu 0 (max (length smi) (length cu))

  -- `qualify`
  unfoldable pub qualify : Probes S → HardwareProfile S
  unfolding qualified_gpus all_warnings ram_reserve
  qualify p =
      let gpus = qualified_gpus p in
      record {
        gpus = gpus;
        cuda_available = ltb 0 (length gpus);
        h2d_sum_solo_gbps = p.h2d_sum_solo_gbps;
        h2d_simultaneous_gbps = p.h2d_simultaneous_gbps;
        h2d_contention_factor = p.h2d_contention_factor;
        ram_total = p.ram_total;
        ram_usable = p.ram_total - ram_reserve p.ram_total;
        ram_bandwidth_gbps = p.ram_bandwidth_gbps;
        storage_read_gbps = p.storage_read_gbps;
        warnings = all_warnings gpus p.h2d_contention_factor;
      }

  -- `effective_h2d_gbps`
  unfoldable pub effective_h2d_gbps : HardwareProfile S → S.F
  effective_h2d_gbps p =
      if S.lt (S.nat 0) p.h2d_simultaneous_gbps
      then p.h2d_simultaneous_gbps
      else p.h2d_sum_solo_gbps
