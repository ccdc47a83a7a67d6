-- ===== src/Tier/Pool/Valid.antt =====
-- The invariant of a block's pool: slots and experts are in bijection, free slots are unused, and
-- the recency list and the copies in flight speak of resident experts.
use sabah_mo_e_accelerator.Base.{
  ℕ, ◌<◌, ◌≡◌, true, false, List, none, some, has, has-push, has-delete, lookup, insert, remove,
  keys, Distinct, arith, ℕ_discrete, lookup-insert, lookup-remove, is_some, Distinct-insert,
  Distinct-remove, Distinct-push, Distinct-delete, move_to_end, has-move_to_end,
  Distinct-move_to_end,
}
use sabah_mo_e_accelerator.Tier.Types.{Pool, Residence}
use sabah_mo_e_accelerator.Tier.Pool.{place, unplace}

pub record IsValid (p : Pool) : Type 0 where
  pub slots :
      (e s : ℕ) → lookup ℕ_discrete e p.slot_of ≡ some s → lookup ℕ_discrete s p.expert_of ≡ some e
  pub experts :
      (e s : ℕ) → lookup ℕ_discrete s p.expert_of ≡ some e → lookup ℕ_discrete e p.slot_of ≡ some s
  pub order : (e : ℕ) → has ℕ_discrete e p.lru ≡ is_some (lookup ℕ_discrete e p.slot_of)
  pub bounds : (e s : ℕ) → lookup ℕ_discrete e p.slot_of ≡ some s → s < p.n_slots
  pub unused :
      (s : ℕ) → has ℕ_discrete s p.free_slots ≡ true → lookup ℕ_discrete s p.expert_of ≡ none
  pub in_range : (s : ℕ) → has ℕ_discrete s p.free_slots ≡ true → s < p.n_slots
  pub pending :
      (e : ℕ)
      → is_some (lookup ℕ_discrete e p.inflight) ≡ true
      → is_some (lookup ℕ_discrete e p.slot_of) ≡ true
  pub distinct_free : Distinct ℕ_discrete p.free_slots
  pub distinct_slots : Distinct ℕ_discrete (keys p.slot_of)
  pub distinct_experts : Distinct ℕ_discrete (keys p.expert_of)
  pub distinct_lru : Distinct ℕ_discrete p.lru
  pub distinct_inflight : Distinct ℕ_discrete (keys p.inflight)

-- An expert that is not resident is placed in a slot that is neither used nor free.
pub place-IsValid :
    (e s : ℕ) (p : Pool)
    → IsValid p
    → lookup ℕ_discrete e p.slot_of ≡ none
    → lookup ℕ_discrete s p.expert_of ≡ none
    → has ℕ_discrete s p.free_slots ≡ false
    → s < p.n_slots
    → IsValid (place e s p)
unfolding place
place-IsValid e s p v absent empty taken bound = record {
  slots = λ e' s'. ground (
    arith,
    lookup-insert ℕ_discrete e e' s p.slot_of,
    lookup-insert ℕ_discrete s s' e p.expert_of,
    v.slots e' s',
  );
  experts = λ e' s'. ground (
    arith,
    lookup-insert ℕ_discrete e e' s p.slot_of,
    lookup-insert ℕ_discrete s s' e p.expert_of,
    v.experts e' s',
  );
  order = λ e'. ground (
    arith,
    lookup-insert ℕ_discrete e e' s p.slot_of,
    has-push ℕ_discrete e e' p.lru,
    v.order e',
  );
  bounds = λ e' s'. ground (arith, lookup-insert ℕ_discrete e e' s p.slot_of, v.bounds e' s');
  unused = λ s'. ground (arith, lookup-insert ℕ_discrete s s' e p.expert_of, v.unused s');
  in_range = v.in_range;
  pending = λ e'. ground (arith, lookup-insert ℕ_discrete e e' s p.slot_of, v.pending e');
  distinct_free = v.distinct_free;
  distinct_slots = Distinct-insert ℕ_discrete e s p.slot_of v.distinct_slots;
  distinct_experts = Distinct-insert ℕ_discrete s e p.expert_of v.distinct_experts;
  distinct_lru = Distinct-push ℕ_discrete e p.lru v.distinct_lru;
  distinct_inflight = v.distinct_inflight;
}

-- The eviction of a resident expert from its slot.
pub unplace-IsValid :
    (e s : ℕ) (p : Pool)
    → IsValid p
    → lookup ℕ_discrete e p.slot_of ≡ some s
    → IsValid (unplace e s p)
unfolding unplace
unplace-IsValid e s p v here = record {
  slots = λ e' s'. ground (
    arith,
    lookup-remove ℕ_discrete e e' p.slot_of v.distinct_slots,
    lookup-remove ℕ_discrete s s' p.expert_of v.distinct_experts,
    v.slots e' s',
    v.slots e s here,
  );
  experts = λ e' s'. ground (
    arith,
    lookup-remove ℕ_discrete e e' p.slot_of v.distinct_slots,
    lookup-remove ℕ_discrete s s' p.expert_of v.distinct_experts,
    v.experts e' s',
  );
  order = λ e'. ground (
    arith,
    lookup-remove ℕ_discrete e e' p.slot_of v.distinct_slots,
    has-delete ℕ_discrete e e' p.lru v.distinct_lru,
    v.order e',
  );
  bounds = λ e' s'.
      ground (arith, lookup-remove ℕ_discrete e e' p.slot_of v.distinct_slots, v.bounds e' s');
  unused = λ s'.
      ground (arith, lookup-remove ℕ_discrete s s' p.expert_of v.distinct_experts, v.unused s');
  in_range = v.in_range;
  pending = λ e'. ground (
    arith,
    lookup-remove ℕ_discrete e e' p.slot_of v.distinct_slots,
    lookup-remove ℕ_discrete e e' p.inflight v.distinct_inflight,
    v.pending e',
  );
  distinct_free = v.distinct_free;
  distinct_slots = Distinct-remove ℕ_discrete e p.slot_of v.distinct_slots;
  distinct_experts = Distinct-remove ℕ_discrete s p.expert_of v.distinct_experts;
  distinct_lru = Distinct-delete ℕ_discrete e p.lru v.distinct_lru;
  distinct_inflight = Distinct-remove ℕ_discrete e p.inflight v.distinct_inflight;
}

-- A resident expert becomes the most recent one.
pub touch-IsValid :
    (e : ℕ) (p : Pool)
    → IsValid p
    → has ℕ_discrete e p.lru ≡ true
    → IsValid (record p { lru = move_to_end ℕ_discrete e p.lru })
touch-IsValid e p v here = record {
  slots = v.slots;
  experts = v.experts;
  order = λ e'.
      ground (arith, has-move_to_end ℕ_discrete e e' p.lru v.distinct_lru, v.order e', v.order e);
  bounds = v.bounds;
  unused = v.unused;
  in_range = v.in_range;
  pending = v.pending;
  distinct_free = v.distinct_free;
  distinct_slots = v.distinct_slots;
  distinct_experts = v.distinct_experts;
  distinct_lru = Distinct-move_to_end ℕ_discrete e p.lru v.distinct_lru;
  distinct_inflight = v.distinct_inflight;
}

-- A copy in flight has landed; the states do not matter.
pub land-IsValid :
    (e : ℕ) (state : List (ℕ × Residence)) (p : Pool)
    → IsValid p
    → IsValid (record p { inflight = remove ℕ_discrete e p.inflight; state = state })
land-IsValid e state p v = record {
  slots = v.slots;
  experts = v.experts;
  order = v.order;
  bounds = v.bounds;
  unused = v.unused;
  in_range = v.in_range;
  pending = λ e'.
      ground (arith, lookup-remove ℕ_discrete e e' p.inflight v.distinct_inflight, v.pending e');
  distinct_free = v.distinct_free;
  distinct_slots = v.distinct_slots;
  distinct_experts = v.distinct_experts;
  distinct_lru = v.distinct_lru;
  distinct_inflight = Distinct-remove ℕ_discrete e p.inflight v.distinct_inflight;
}

-- The states of the experts do not matter.
pub state-IsValid :
    (state : List (ℕ × Residence)) (p : Pool) → IsValid p → IsValid (record p { state = state })
state-IsValid state p v = record {
  slots = v.slots;
  experts = v.experts;
  order = v.order;
  bounds = v.bounds;
  unused = v.unused;
  in_range = v.in_range;
  pending = v.pending;
  distinct_free = v.distinct_free;
  distinct_slots = v.distinct_slots;
  distinct_experts = v.distinct_experts;
  distinct_lru = v.distinct_lru;
  distinct_inflight = v.distinct_inflight;
}

-- A copy of a resident expert is in flight.
pub inflight-IsValid :
    (e ev : ℕ) (p : Pool)
    → IsValid p
    → is_some (lookup ℕ_discrete e p.slot_of) ≡ true
    → IsValid (record p { inflight = insert ℕ_discrete e ev p.inflight })
inflight-IsValid e ev p v here = record {
  slots = v.slots;
  experts = v.experts;
  order = v.order;
  bounds = v.bounds;
  unused = v.unused;
  in_range = v.in_range;
  pending = λ e'. ground (arith, lookup-insert ℕ_discrete e e' ev p.inflight, v.pending e');
  distinct_free = v.distinct_free;
  distinct_slots = v.distinct_slots;
  distinct_experts = v.distinct_experts;
  distinct_lru = v.distinct_lru;
  distinct_inflight = Distinct-insert ℕ_discrete e ev p.inflight v.distinct_inflight;
}
