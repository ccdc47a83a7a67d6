-- ===== src/Tier/Ensure/Exact.antt =====
-- `HotTier.ensure` delivers exactly the experts that were asked for, and never raises within the
-- contract of the prefetch reserve.
use sabah_mo_e_accelerator.Base.{
  ℕ, min, ◌+◌, ◌-◌, ◌≤◌, ◌<◌, ◌≡◌, refl, ap, inl, inr, true, false, List, [], ◌∷◌, some, has,
  lookup, length, arith, ℕ_discrete, is_some, Option-cases, ok, ltb, ◌∙◌, All, has-All, fromkeys,
  has-fromkeys, ◌==◌,
}
use sabah_mo_e_accelerator.Tier.Types.{Bank}
use sabah_mo_e_accelerator.Tier.Streams.Memory.{Loaded, IsReadable}
use sabah_mo_e_accelerator.Tier.Ensure.{
  State, finish, slots_of, soft_cap, serve, count_duplicates, ensure,
}
use sabah_mo_e_accelerator.Tier.Ensure.Admit.{IsSound, usable}
use sabah_mo_e_accelerator.Tier.Ensure.Shed.{shed-Sheds}
use sabah_mo_e_accelerator.Tier.Ensure.Finish.{
  Finished, finish-Finished, IsSound-same, SameSlots-usable,
}
use sabah_mo_e_accelerator.Tier.Ensure.Enter.{enter}

-- Each slot of the answer is that of the expert asked for: the pool says so on both sides, the slot
-- is in range, and it holds exactly the bytes that the bank has for the expert.
abbrev pub Delivered : Bank → State → List ℕ → List ℕ → Type 0
Delivered bank s [] [] = Unit
Delivered bank s [] (slot ∷ slots) = ⊥
Delivered bank s (e ∷ want) [] = ⊥
Delivered bank s (e ∷ want) (slot ∷ slots) =
    (lookup ℕ_discrete e s.pool.slot_of ≡ some slot)
    × (lookup ℕ_discrete slot s.pool.expert_of ≡ some e)
    × (slot < s.pool.n_slots)
    × Loaded bank s.shared.commands s.pool.block e slot
    × Delivered bank s want slots

pub slots_of-Delivered :
    (bank : Bank) (want : List ℕ) (s : State)
    → IsSound bank s
    → All (λ e. is_some (lookup ℕ_discrete e s.pool.slot_of) ≡ true) want
    → (slots : List ℕ) × (slots_of want s.pool ≡ ok slots) × Delivered bank s want slots
unfolding slots_of
slots_of-Delivered bank [] s sound h = ([], refl, tt)
slots_of-Delivered bank (e ∷ want) s sound h =
    elim (Option-cases (lookup ℕ_discrete e s.pool.slot_of)) [
      | inl n ↦ absurd (ground arith)
      | inr (slot, l) ↦
          let (slots, rest, d) = slots_of-Delivered bank want s sound h.1 in
          (
            slot ∷ slots,
            rw (l, slots_of, rest),
            (l, sound.valid.slots e slot l, sound.valid.bounds e slot l, sound.loaded e slot l, d),
          )
    ]

-- What a call of `ensure` leaves.
pub record Served (bank : Bank) (prefetch_slots : ℕ) (want : List ℕ) (s s' : State) (slots : List ℕ)
    : Type 0 where
  pub sound : IsSound bank s'
  pub delivered : Delivered bank s' want slots
  pub same_block : s'.pool.block ≡ s.pool.block
  pub same_size : s'.pool.n_slots ≡ s.pool.n_slots
  pub kept :
      (j t : ℕ)
      → has ℕ_discrete j want ≡ true
      → lookup ℕ_discrete j s.pool.slot_of ≡ some t
      → lookup ℕ_discrete j s'.pool.slot_of ≡ some t
  pub room : min (usable s.pool) (s.pool.n_slots - prefetch_slots) ≤ usable s'.pool
  pub requests : s'.shared.tel.requests ≡ s.shared.tel.requests + length want
  pub total :
      s'.shared.tel.hits + s'.shared.tel.misses
      ≡ s.shared.tel.hits + s.shared.tel.misses + length want

-- Within the slots that the pool can use, `ensure` delivers the request.
module _ (bank : Bank) (prefetch_slots : ℕ) (want : List ℕ) where
  serve-Served :
      (s : State)
      → IsSound bank s
      → All (λ e. IsReadable bank s.pool.block e) want
      → length (fromkeys ℕ_discrete want) ≤ usable s.pool
      → (s' : State) × (slots : List ℕ) × (serve bank prefetch_slots want s ≡ ok (s', slots))
        × Served bank prefetch_slots want s s' slots
  unfolding serve soft_cap
  serve-Served s sound readable enough =
      let protected = fromkeys ℕ_discrete want in
      let (r, a, misses, evs, requested, admitted, ar) = enter bank want s sound readable enough in
      let (t, shedded, sh) =
        shed-Sheds bank protected (soft_cap prefetch_slots protected a.pool) (length a.pool.slot_of)
          a ar.sound (omega arith) in
      let f = finish-Finished misses evs t sh.sound.valid in
      let u = finish misses evs t in
      let (slots, answered, d) =
        slots_of-Delivered bank want u (IsSound-same bank t u sh.sound f.valid f.same f.bytes) (
          has-All ℕ_discrete (λ e. is_some (lookup ℕ_discrete e u.pool.slot_of) ≡ true) want
            λ j h.
              stays j t u a (ar.present j h) f (sh.keeps.kept j)
                (has-fromkeys ℕ_discrete j want ∙ h)) in
      (
        u,
        slots,
        rw (requested, admitted, shedded, answered),
        record {
          sound = IsSound-same bank t u sh.sound f.valid f.same f.bytes;
          delivered = d;
          same_block = f.same.block ∙ sh.keeps.same_block ∙ ar.keeps.same_block;
          same_size = f.same.n_slots ∙ sh.keeps.same_size ∙ ar.keeps.same_size;
          kept = λ j v h l.
              let w = has-fromkeys ℕ_discrete j want ∙ h in
              ap (lookup ℕ_discrete j) f.same.slot_of ∙ sh.keeps.kept j v w (ar.keeps.kept j v w l);
          room = omega (
            arith,
            SameSlots-usable t.pool u.pool f.same,
            sh.room (min (usable s.pool) (s.pool.n_slots - prefetch_slots))
                (omega (arith, ar.same_room)) (omega (arith, ar.keeps.same_size)),
          );
          requests = omega (arith, f.totals, sh.totals, ar.requests);
          total = omega (arith, f.totals, sh.totals, ar.total);
        },
      )
    where
      stays :
          (j : ℕ) (t u a : State)
          → is_some (lookup ℕ_discrete j a.pool.slot_of) ≡ true
          → Finished t u
          → ((v : ℕ)
              → has ℕ_discrete j (fromkeys ℕ_discrete want) ≡ true
              → lookup ℕ_discrete j a.pool.slot_of ≡ some v
              → lookup ℕ_discrete j t.pool.slot_of ≡ some v)
          → has ℕ_discrete j (fromkeys ℕ_discrete want) ≡ true
          → is_some (lookup ℕ_discrete j u.pool.slot_of) ≡ true
      stays j t u a here f kept h = elim (Option-cases (lookup ℕ_discrete j a.pool.slot_of)) [
        | inl n ↦ absurd (ground arith)
        | inr (v, l) ↦ ap is_some (ap (lookup ℕ_discrete j) f.same.slot_of ∙ kept v h l)
      ]

  -- In a sound state, for experts that the bank can read, of which the distinct ones are no more
  -- than the usable slots and than all slots, and with at least one slot, `ensure` returns. Its slots
  -- are those of the requested experts, in the order of the request, and hold exactly their bytes.
  -- The state stays sound; the block and the number of slots stay; requested experts that were
  -- resident keep their slots; as many slots as were usable outside the prefetch reserve still are;
  -- and the requests and the sum of hits and misses grow by the length of the request.
  pub ensure-Served :
      (s : State)
      → IsSound bank s
      → All (λ e. IsReadable bank s.pool.block e) want
      → length (fromkeys ℕ_discrete want) ≤ usable s.pool
      → length (fromkeys ℕ_discrete want) ≤ s.pool.n_slots
      → 0 < s.pool.n_slots
      → (s' : State) × (slots : List ℕ) × (ensure bank prefetch_slots want s ≡ ok (s', slots))
        × Served bank prefetch_slots want s s' slots
  unfolding ensure
  ensure-Served s sound readable enough fits positive =
      let c = count_duplicates want s in
      let (s', slots, served, r) =
        serve-Served c (record { valid = sound.valid; loaded = sound.loaded }) readable enough in
      let some_slots : (s.pool.n_slots == 0) ≡ false = ground arith in
      let enough_slots : ltb s.pool.n_slots (length (fromkeys ℕ_discrete want)) ≡ false =
        ground arith in
      (
        s',
        slots,
        rw (some_slots, enough_slots, served),
        record {
          sound = r.sound;
          delivered = r.delivered;
          same_block = r.same_block;
          same_size = r.same_size;
          kept = r.kept;
          room = r.room;
          requests = r.requests;
          total = r.total;
        },
      )
