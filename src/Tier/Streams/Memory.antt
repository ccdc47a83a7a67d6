-- ===== src/Tier/Streams/Memory.antt =====
-- What the copies of sabah/runtime/hot_tier.py leave in VRAM: the bytes of the last copy to each
-- role of each slot. The copy stream runs its commands in order.
use sabah_mo_e_accelerator.Base.{
  ℕ, ◌≡◌, Bool, true, false, ◌&&◌, List, [], ◌∷◌, Option, none, some, arith, ◌==◌, if◌then◌else◌,
  ok, Bool-cases, inl, inr, ◌||◌,
}
use sabah_mo_e_accelerator.Tier.Types.{
  Role, gate, up, down, Bytes, Bank, Command, h2d_direct, h2d_staged, record_copy, record_compute,
  compute_wait, copy_wait, event_sync, Shared, SameTotals,
}
use sabah_mo_e_accelerator.Tier.Streams.{
  issue, acquire_stage, ev_get, finish_copy, copy_direct, copy_staged, copy_bytes, start_copy,
}

abbrev pub by_role {ℓ} : {A : Type ℓ} → Role → A → A → A → A
by_role gate g u d = g
by_role up g u d = u
by_role down g u d = d

abbrev pub same_role : Role → Role → Bool
same_role gate r = by_role r true false false
same_role up r = by_role r false true false
same_role down r = by_role r false false true

-- The bytes in a role of a slot after the commands, the newest first.
unfoldable pub holds : List Command → ℕ → ℕ → Role → Option Bytes
holds [] b s r = none
holds (h2d_direct b' s' r' x ∷ cs) b s r =
    if (b == b') && (s == s') && same_role r' r then some x else holds cs b s r
holds (h2d_staged i b' s' g u d ∷ cs) b s r =
    if (b == b') && (s == s') then some (by_role r g u d) else holds cs b s r
holds (record_copy e ∷ cs) b s r = holds cs b s r
holds (record_compute e ∷ cs) b s r = holds cs b s r
holds (compute_wait e ∷ cs) b s r = holds cs b s r
holds (copy_wait e ∷ cs) b s r = holds cs b s r
holds (event_sync e ∷ cs) b s r = holds cs b s r

-- The bank can read an expert of a block.
abbrev pub IsReadable : Bank → ℕ → ℕ → Type 0
IsReadable bank b e = (r : Role) → (x : Bytes) × (bank.slice b e r ≡ ok x)

ev_get-commands : (s : Shared) → (ev_get s).0.commands ≡ s.commands
unfolding ev_get
ev_get-commands s = ground arith

finish_copy-holds :
    (n : ℕ) (s : Shared) (b slot : ℕ) (r : Role)
    → holds (finish_copy n s).0.commands b slot r ≡ holds s.commands b slot r
unfolding finish_copy issue holds
finish_copy-holds n s b slot r = rw (ev_get-commands s)

acquire_stage-holds :
    (s : Shared) (b slot : ℕ) (r : Role)
    → holds (acquire_stage s).0.commands b slot r ≡ holds s.commands b slot r
unfolding acquire_stage issue holds
acquire_stage-holds s b slot r = ground arith

copy_direct-holds :
    (b slot : ℕ) (g u d : Bytes) (s : Shared) (b' slot' : ℕ) (r : Role)
    → holds (copy_direct b slot g u d s).0.commands b' slot' r ≡ (
        if (b' == b) && (slot' == slot)
        then some (by_role r g u d)
        else holds s.commands b' slot' r)
unfolding copy_direct issue holds
copy_direct-holds b slot g u d s b' slot' gate = rw finish_copy-holds (ground arith)
copy_direct-holds b slot g u d s b' slot' r = rw finish_copy-holds (ground arith)

copy_staged-holds :
    (b slot : ℕ) (g u d : Bytes) (s : Shared) (b' slot' : ℕ) (r : Role)
    → holds (copy_staged b slot g u d s).0.commands b' slot' r ≡ (
        if (b' == b) && (slot' == slot)
        then some (by_role r g u d)
        else holds s.commands b' slot' r)
unfolding copy_staged issue holds
copy_staged-holds b slot g u d s b' slot' r =
    rw (finish_copy-holds, acquire_stage-holds s b' slot' r)

pub copy_bytes-holds :
    (bank : Bank) (b slot : ℕ) (g u d : Bytes) (s : Shared) (b' slot' : ℕ) (r : Role)
    → holds (copy_bytes bank b slot g u d s).0.commands b' slot' r ≡ (
        if (b' == b) && (slot' == slot)
        then some (by_role r g u d)
        else holds s.commands b' slot' r)
unfolding copy_bytes issue holds
copy_bytes-holds bank b slot g u d s b' slot' r =
    elim (Bool-cases (bank.direct || bank.pinned_block b)) [
      | inl direct ↦ rw (direct, copy_direct-holds) (ground arith)
      | inr staged ↦ rw (staged, copy_staged-holds) (ground arith)
    ]

-- The bytes of an expert are in a slot.
abbrev pub Loaded : Bank → List Command → ℕ → ℕ → ℕ → Type 0
Loaded bank cs b e slot =
    (r : Role) → (x : Bytes) × (bank.slice b e r ≡ ok x) × (holds cs b slot r ≡ some x)

-- A copy puts the bytes of the expert in its slot, and changes no other slot.
pub record Copied (bank : Bank) (b e slot : ℕ) (s s' : Shared) : Type 0 where
  pub loaded : Loaded bank s'.commands b e slot
  pub others :
      (b' slot' : ℕ) (r : Role)
      → ((b' == b) && (slot' == slot)) ≡ false
      → holds s'.commands b' slot' r ≡ holds s.commands b' slot' r
  pub totals : SameTotals s s'
  pub evictions : s'.tel.evictions ≡ s.tel.evictions
  pub issued : s'.tel.prefetch_issued ≡ s.tel.prefetch_issued

copy_bytes-totals :
    (bank : Bank) (b slot : ℕ) (g u d : Bytes) (s : Shared)
    → SameTotals s (copy_bytes bank b slot g u d s).0
      × ((copy_bytes bank b slot g u d s).0.tel.evictions ≡ s.tel.evictions)
      × ((copy_bytes bank b slot g u d s).0.tel.prefetch_issued ≡ s.tel.prefetch_issued)
unfolding copy_bytes copy_direct copy_staged finish_copy ev_get acquire_stage issue
copy_bytes-totals bank b slot g u d s = ground arith

pub start_copy-Copied :
    (bank : Bank) (b e slot : ℕ) (s : Shared)
    → IsReadable bank b e
    → (s' : Shared) × (ev : ℕ) × (start_copy bank b e slot s ≡ ok (s', ev))
      × Copied bank b e slot s s'
unfolding start_copy
start_copy-Copied bank b e slot s h =
    let (g, hg) = h gate in
    let (u, hu) = h up in
    let (d, hd) = h down in
    let c = copy_bytes bank b slot g u d s in
    let new = λ (r : Role). copy_bytes-holds bank b slot g u d s b slot r in
    (
      c.0,
      c.1,
      rw (hg, hu, hd),
      record {
        loaded = elim [
          | gate ↦ (g, hg, ground (arith, new gate))
          | up ↦ (u, hu, ground (arith, new up))
          | down ↦ (d, hd, ground (arith, new down))
        ];
        others = λ b' slot' r q. ground (arith, copy_bytes-holds bank b slot g u d s b' slot' r);
        totals = (copy_bytes-totals bank b slot g u d s).0;
        evictions = (copy_bytes-totals bank b slot g u d s).1;
        issued = (copy_bytes-totals bank b slot g u d s).2;
      },
    )
