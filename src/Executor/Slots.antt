-- ===== src/Executor/Slots.antt =====
-- The slots that `ensure` answers with lead to the bytes of the bank.
use sabah_mo_e_accelerator.Base.{ℕ, ◌≡◌, refl, List, [], ◌∷◌, Option, none, some, Result, ok, raise}
use sabah_mo_e_accelerator.Tier.Types.{gate, up, down, Bank, Bytes}
use sabah_mo_e_accelerator.Tier.Ensure.{State}
use sabah_mo_e_accelerator.Tier.Ensure.Exact.{Delivered}
use sabah_mo_e_accelerator.Executor.{Contents, slot_contents}

abbrev pub read_bytes : Result Bytes → Option Bytes
read_bytes (ok x) = some x
read_bytes (raise e) = none

-- What the bank has for the experts.
abbrev pub bank_contents : Bank → ℕ → List ℕ → List Contents
bank_contents bank b [] = []
bank_contents bank b (e ∷ es) =
    (
      read_bytes (bank.slice b e gate),
      read_bytes (bank.slice b e up),
      read_bytes (bank.slice b e down),
    )
    ∷ bank_contents bank b es

pub slot-contents :
    (bank : Bank) (s : State) (want slots : List ℕ)
    → Delivered bank s want slots
    → slot_contents s.shared.commands s.pool.block slots ≡ bank_contents bank s.pool.block want
unfolding slot_contents
slot-contents bank s [] [] d = refl
slot-contents bank s [] (slot ∷ slots) d = absurd d
slot-contents bank s (e ∷ want) [] d = absurd d
slot-contents bank s (e ∷ want) (slot ∷ slots) d =
    let loaded = d.3 in
    let (g, rg, hg) = loaded gate in
    let (u, ru, hu) = loaded up in
    let (x, rx, hx) = loaded down in
    rw (hg, hu, hx, rg, ru, rx, slot-contents bank s want slots d.4) refl
