-- ===== src/Tests/Tier.antt =====
-- The hot tier on a bank of sixteen experts of six bytes.
use sabah_mo_e_accelerator.Base.{
  ℕ, true, move_to_end, remove, runtime_error, ◌+◌, ◌≡◌, refl, List, [], ◌∷◌, false, ok, raise,
  Result, ◌>>=◌, ℕ_discrete, ltb, Error, if◌then◌else◌, arith, All, lookup, has, length, fromkeys,
  ◌≤◌, ◌⊎◌, fromkeys_from, insert, some, ◌<◌,
}
use sabah_mo_e_accelerator.Tier.Types.{Bank, gate, up, Pool}
use sabah_mo_e_accelerator.Tier.Streams.Memory.{IsReadable}
use sabah_mo_e_accelerator.Tier.Ensure.Shed.{Sheds, shed-Sheds}
use sabah_mo_e_accelerator.Tier.Pool.{slot_ptr}
use sabah_mo_e_accelerator.Tier.Ensure.{State, ensure, shed}
use sabah_mo_e_accelerator.Tier.Ensure.Admit.{IsSound}
use sabah_mo_e_accelerator.Tier.Ensure.Exact.{Served, ensure-Served}
use sabah_mo_e_accelerator.Tier.Ensure.Errors.{ensure-outcome}
use sabah_mo_e_accelerator.Tier.Prefetch.{prefetch}
use sabah_mo_e_accelerator.Tier.Prefetch.Advice.{Advised, prefetch-Advised}
use sabah_mo_e_accelerator.Tier.Build.{assemble, build, new_pools, new_pool, new_shared, HotTier}
use sabah_mo_e_accelerator.Tier.Build.Bounds.{
  new_pool-IsSound, build-Built, Built, slot_ptr-apart, region_end,
}
use sabah_mo_e_accelerator.Tier.Calls.{Call, ensure_call, prefetch_call, run, Allowed}
use sabah_mo_e_accelerator.Tier.Calls.Ready.{IsReady, run-IsReady, build-run}
use sabah_mo_e_accelerator.Tier.Calls.Starved.{starved-prefetch}

abbrev bank : Bank
bank = record {
  n_experts = 16;
  n_experts_used = 2;
  direct = false;
  pinned_block = λ b. false;
  expert_bytes = λ b r. 2;
  slice = λ b e r. if ltb e 16 then ok (e ∷ e ∷ []) else raise Error.index_error;
}

abbrev bases : ℕ → ℕ
bases b = 1000

abbrev fresh : State
unfolding new_pool new_shared
fresh = record { pool = new_pool bank bases 4 0; shared = new_shared }

program : Unit {0}
unfolding ensure prefetch new_pool new_shared ℕ_discrete fromkeys_from has insert lookup build run
program = tt

readable : (b e : ℕ) → ltb e 16 ≡ true → IsReadable bank b e
readable b e h r = (e ∷ e ∷ [], rw h)

abbrev want : List ℕ
want = 3 ∷ 5 ∷ 3 ∷ []

want-IsReadable : All (λ e. IsReadable bank 0 e) want
want-IsReadable = (readable 0 3 refl, (readable 0 5 refl, (readable 0 3 refl, tt)))

abbrev calls : List Call
calls = ensure_call want ∷ prefetch_call (7 ∷ []) ∷ ensure_call (7 ∷ 9 ∷ []) ∷ []

calls-Allowed : All (Allowed bank 0 2) calls
unfolding program
calls-Allowed = (
  (want-IsReadable, omega arith),
  ((readable 0 7 refl, tt), (((readable 0 7 refl, (readable 0 9 refl, tt)), omega arith), tt)),
)

first_slots : (ensure bank 2 want fresh >>= λ r. ok r.1) ≡ ok (0 ∷ 1 ∷ 0 ∷ [])
unfolding program
first_slots = refl

-- The tier of two blocks in a capacity of fifty bytes has four slots for each.
abbrev tier : HotTier
unfolding new_pools new_pool new_shared
tier = assemble bank bases 2 (0 ∷ 1 ∷ []) 4

built_tier : build bank bases 50 2 (0 ∷ 1 ∷ []) ≡ ok tier
unfolding program
built_tier = refl

ensure-Served_example :
    (s' : State) × (slots : List ℕ) × (ensure bank 2 want fresh ≡ ok (s', slots))
    × Served bank 2 want fresh s' slots
unfolding program
ensure-Served_example =
    ensure-Served bank 2 want fresh (new_pool-IsSound bank bases 4 0 new_shared) want-IsReadable
      (omega arith) (omega arith) (omega arith)

ensure-outcome_example :
    ((s' : State) × (slots : List ℕ) × (ensure bank 2 want fresh ≡ ok (s', slots))
      × Served bank 2 want fresh s' slots
      × (0 < fresh.pool.n_slots)
      × (length (fromkeys ℕ_discrete want) ≤ fresh.pool.n_slots))
    ⊎ ((ensure bank 2 want fresh ≡ raise runtime_error)
        × ((fresh.pool.n_slots ≡ 0) ⊎ (fresh.pool.n_slots < length (fromkeys ℕ_discrete want))))
unfolding program
ensure-outcome_example =
    ensure-outcome bank 2 want fresh (new_pool-IsSound bank bases 4 0 new_shared) want-IsReadable
      (omega arith)

prefetch-Advised_example :
    (s' : State) × (n : ℕ) × (prefetch bank 2 want fresh ≡ ok (s', n))
    × Advised bank fresh s' n
    × (s'.shared.tel.prefetch_issued ≡ fresh.shared.tel.prefetch_issued + n)
unfolding program
prefetch-Advised_example =
    prefetch-Advised bank 2 want fresh (new_pool-IsSound bank bases 4 0 new_shared) want-IsReadable

slot_ptr-apart_example :
    region_end bank (new_pool bank bases 4 0) 1 up ≤ slot_ptr (new_pool bank bases 4 0) 2 gate
unfolding program
slot_ptr-apart_example = slot_ptr-apart bank bases 4 0 1 2 up gate (omega arith)

build-Built_example :
    (t : HotTier) × (build bank bases 50 2 (0 ∷ 1 ∷ []) ≡ ok t)
    × Built bank bases 50 2 (0 ∷ 1 ∷ []) t
build-Built_example = build-Built bank bases 50 2 0 (1 ∷ []) (omega arith)

run-IsReady_example : (u : State) × (run bank 2 calls fresh ≡ ok u) × IsReady bank 2 fresh u
unfolding program
run-IsReady_example =
    run-IsReady bank 2 2 fresh calls fresh
      (record {
        sound = new_pool-IsSound bank bases 4 0 new_shared;
        room = omega arith;
        same_block = refl;
        same_size = refl;
      })
      calls-Allowed (omega arith) (omega arith)

build-run_example :
    (p : Pool) × (u : State) × (lookup ℕ_discrete 0 tier.pools ≡ some p)
    × (run bank tier.prefetch_slots calls (record { pool = p; shared = new_shared }) ≡ ok u)
    × IsSound bank u
unfolding program
build-run_example =
    build-run bank bases 50 2 0 (1 ∷ []) tier new_shared calls (omega arith) built_tier
      (omega arith) (omega arith) calls-Allowed

-- After a request for four experts in four slots, two are evicted for the prefetch reserve.
abbrev filled : Result State
unfolding ensure new_pool new_shared
filled =
    ensure bank 2 (1 ∷ 2 ∷ 3 ∷ 4 ∷ []) fresh >>= λ r. ensure bank 2 (1 ∷ []) r.0 >>= λ t. ok t.0

abbrev state_or : State → Result State → State
state_or s (ok t) = t
state_or s (raise e) = s

abbrev starved : State
unfolding filled
starved = state_or fresh filled

starved_slots : starved.pool.slot_of ≡ (1, 0) ∷ (4, 3) ∷ []
unfolding program starved move_to_end remove
starved_slots = refl

abbrev later_calls : List Call
later_calls = ensure_call (4 ∷ []) ∷ prefetch_call (8 ∷ []) ∷ []

abbrev later : State
unfolding run starved
later = state_or fresh (run bank 2 later_calls starved)

abbrev pair_or : State → Result (State × ℕ) → State × ℕ
pair_or s (ok r) = r
pair_or s (raise e) = (s, 0)

abbrev advised : State × ℕ
unfolding prefetch later
advised = pair_or fresh (prefetch bank 2 (7 ∷ []) later)

starved-prefetch_example : advised.1 ≡ 0
unfolding program advised move_to_end remove
starved-prefetch_example =
    starved-prefetch bank 2 later_calls (7 ∷ []) starved later advised refl refl refl

shed-Sheds_example :
    (s' : State) × (shed 4 2 (1 ∷ []) fresh ≡ ok s') × Sheds bank (1 ∷ []) 2 fresh s'
unfolding program
shed-Sheds_example =
    shed-Sheds bank (1 ∷ []) 2 4 fresh (new_pool-IsSound bank bases 4 0 new_shared) (omega arith)
