-- ===== src/Slab/TwoQ.antt =====
-- The class `TwoQ` of tools/slab_replay.py: a probation queue `a1in`, the queue `a1out` of the keys
-- that left it, and the main cache `am`, all with the oldest first.
pub mod Outcome
use sabah_mo_e_accelerator.Base.{
  ℕ, ◌-◌, ◌/◌, max, Bool, true, false, List, [], ◌∷◌, ◌++◌, ltb, leb, if◌then◌else◌, length, has,
  push, move_to_end, Result, ok, raise, Error, ◌>>=◌, popitem,
}

pub record TwoQ {ℓ} (K : Type ℓ) : Type ℓ where
  pub cap : ℕ
  pub kin : ℕ
  pub kout : ℕ
  pub a1in : List K
  pub a1out : List K
  pub am : List K

-- `__init__`
unfoldable pub init {ℓ} : {K : Type ℓ} → ℕ → TwoQ K
init cap = record { cap = cap; kin = cap / 4; kout = max 1 cap; a1in = []; a1out = []; am = [] }

-- `popleft` of a deque.
unfoldable pub popleft {ℓ} : {K : Type ℓ} → List K → Result (K × List K)
popleft [] = raise Error.index_error
popleft (x ∷ xs) = ok (x, xs)

-- A key that leaves the probation queue is appended to `a1out`, which holds `kout` keys at most.
unfoldable pub retire {ℓ} : {K : Type ℓ} → ℕ → K → List K → Result (List K)
unfolding popleft
retire kout old a1out =
    (if leb kout (length a1out) then (popleft a1out >>= λ e. ok e.1) else ok a1out) >>= λ out.
    ok (out ++ old ∷ [])

-- The first step for a key that is not in `am`: the probation queue takes it.
unfoldable pub probation {ℓ} : {K : Type ℓ} → TwoQ K → K → Result (TwoQ K)
unfolding popleft retire
probation q k =
    (if leb q.kin (length q.a1in)
      then (popleft q.a1in >>= λ e.
          retire q.kout e.0 q.a1out >>= λ out. ok (record q { a1in = e.1; a1out = out }))
      else ok q)
    >>= λ r. ok (record r { a1in = r.a1in ++ k ∷ [] })

module _ {ℓ} {K : Type ℓ} (dec : Discrete K) where
  -- The second step: the key enters `am`, after an eviction unless there is room or the key is in
  -- `a1out`.
  unfoldable pub promote : TwoQ K → K → Result (TwoQ K)
  unfolding popitem
  promote q k =
      if ltb (length q.am) (q.cap - q.kin)
      then ok (record q { am = push dec k q.am })
      else (if has dec k q.a1out
          then ok (record q { am = push dec k q.am })
          else (popitem q.am >>= λ e. ok (record q { am = push dec k e.1 })))

  -- `access`
  unfoldable pub access : TwoQ K → K → Result (TwoQ K × Bool)
  unfolding probation promote
  access q k =
      if has dec k q.am
      then ok (record q { am = move_to_end dec k q.am }, true)
      else (probation q k >>= λ r. promote r k >>= λ t. ok (t, false))
