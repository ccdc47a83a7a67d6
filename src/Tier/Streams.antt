-- ===== src/Tier/Streams.antt =====
-- The staging ring, the event pool and the copies of sabah/runtime/hot_tier.py. Device calls that
-- fail (`SabahCudaError`) are not modelled.
pub mod Memory
use sabah_mo_e_accelerator.Base.{
  ℕ, zero, suc, ◌+◌, ◌%◌, min, Bool, true, false, ◌||◌, List, [], ◌∷◌, Option, none, some, has,
  push, length, leb, Result, ok, ◌>>=◌, if◌then◌else◌, get_or, set, ℕ_discrete,
}
use sabah_mo_e_accelerator.Tier.Types.{
  Role, gate, up, down, Bytes, Bank, Event, stage, pooled, read, wait_begin, wait_end, Command,
  h2d_direct, h2d_staged, record_copy, record_compute, compute_wait, copy_wait, event_sync,
  Telemetry, Shared,
}

abbrev pub staging_slots : ℕ
staging_slots = 32

abbrev pub stall_ring : ℕ
stall_ring = 512

-- One call of the device.
unfoldable pub issue : Command → Shared → Shared
issue c s = record s { commands = c ∷ s.commands }

-- `_acquire_stage`: the next buffer of the ring, once its own transfer has landed.
unfoldable pub acquire_stage : Shared → Shared × ℕ
unfolding issue
acquire_stage s =
    let i = s.stage_i in
    let s' = record s { stage_i = (i + 1) % staging_slots } in
    (
      if get_or s.stage_inflight i false
          then record (issue (event_sync (stage i)) s') {
            stage_inflight = set s.stage_inflight i false;
          }
          else s',
      i,
    )

-- `_ev_get`
unfoldable pub ev_get : Shared → Shared × ℕ
ev_get s = elim s.ev_free [
  | [] ↦ (record s { ev_all = s.ev_all + 1 }, s.ev_all)
  | ev ∷ rest ↦ (record s { ev_free = rest }, ev)
]

-- `_ev_put`
unfoldable pub ev_put : ℕ → Shared → Shared
ev_put ev s = record s { ev_free = ev ∷ s.ev_free }

-- `mark_submitted`
unfoldable pub mark_submitted : ℕ → Shared → Shared
unfolding issue
mark_submitted b s =
    issue (record_compute (read b)) (record s { read_ev = push ℕ_discrete b s.read_ev })

-- The tail of `_start_copy`: the completion event and the byte count.
unfoldable pub finish_copy : ℕ → Shared → Shared × ℕ
unfolding ev_get issue
finish_copy n s =
    let (s', ev) = ev_get s in
    let s'' = issue (record_copy (pooled ev)) s' in
    (record s'' { tel = record s''.tel { bytes_fetched = s''.tel.bytes_fetched + n } }, ev)

-- The copies in place, and the copy through a staging buffer.
unfoldable pub copy_direct : ℕ → ℕ → Bytes → Bytes → Bytes → Shared → Shared × ℕ
unfolding issue finish_copy
copy_direct b slot g u d s = finish_copy (length g + length u + length d) (
    issue (h2d_direct b slot down d)
      (issue (h2d_direct b slot up u) (issue (h2d_direct b slot gate g) s)))

unfoldable pub copy_staged : ℕ → ℕ → Bytes → Bytes → Bytes → Shared → Shared × ℕ
unfolding acquire_stage issue finish_copy
copy_staged b slot g u d s =
    let (s', i) = acquire_stage s in
    let o = length g + length u + length d in
    let t = record s'.tel { host_stage_bytes = s'.tel.host_stage_bytes + o } in
    let s'' =
      issue (record_copy (stage i)) (issue (h2d_staged i b slot g u d) (record s' { tel = t })) in
    finish_copy o (record s'' { stage_inflight = set s''.stage_inflight i true })

-- The body of `_start_copy` once the bank has given the bytes of the three roles.
unfoldable pub copy_bytes : Bank → ℕ → ℕ → Bytes → Bytes → Bytes → Shared → Shared × ℕ
unfolding issue copy_direct copy_staged
copy_bytes bank b slot g u d s =
    let s' = if has ℕ_discrete b s.read_ev then issue (copy_wait (read b)) s else s in
    if bank.direct || bank.pinned_block b
    then copy_direct b slot g u d s'
    else copy_staged b slot g u d s'

-- `_start_copy`: the completion event of the copy of an expert into a slot.
unfoldable pub start_copy : Bank → ℕ → ℕ → ℕ → Shared → Result (Shared × ℕ)
unfolding copy_bytes
start_copy bank b e slot s = bank.slice b e gate >>= λ g.
    bank.slice b e up >>= λ u. bank.slice b e down >>= λ d. ok (copy_bytes bank b slot g u d s)

-- `drain_stalls`, without the times that it reads.
unfoldable pub drain_stalls : Shared → Shared
drain_stalls s = record s { stall_pending = 0; stall_i = 0 }

-- The waits of the compute stream for the copies of the misses, between the two events of a stall
-- interval.
unfoldable pub wait_all : List ℕ → Shared → Shared
unfolding issue ev_put
wait_all [] s = s
wait_all (ev ∷ evs) s = wait_all evs (ev_put ev (issue (compute_wait (pooled ev)) s))

unfoldable pub stall : List ℕ → Shared → Shared
unfolding issue wait_all drain_stalls
stall evs s =
    let s0 = if leb stall_ring s.stall_pending then drain_stalls s else s in
    let i = s0.stall_i in
    let s1 =
      issue (record_compute (wait_end i))
        (wait_all evs (issue (record_compute (wait_begin i)) s0)) in
    record s1 { stall_i = (s1.stall_i + 1) % stall_ring; stall_pending = s1.stall_pending + 1 }
