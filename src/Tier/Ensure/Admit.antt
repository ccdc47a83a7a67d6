-- ===== src/Tier/Ensure/Admit.antt =====
-- The second loop of `_ensure_locked`: every miss is given a slot and its own bytes, and no
-- expert of the request loses its slot.
use sabah_mo_e_accelerator.Base.{
  ℕ, ◌+◌, ◌≤◌, ◌≡◌, ◌≢◌, refl, sym, ap, subst, subst₂, ◌∙◌, inl, inr, true, false, List, [], ◌∷◌,
  none, some, has, lookup, length, Distinct, arith, ℕ_discrete, is_some, Option-cases, ok,
  lookup-insert, length-insert, All,
}
use sabah_mo_e_accelerator.Tier.Types.{Bank, Pool, Shared, SameTotals, update_counts}
use sabah_mo_e_accelerator.Tier.Streams.Memory.{Loaded, IsReadable, Copied, start_copy-Copied}
use sabah_mo_e_accelerator.Tier.Pool.{place, unplace}
use sabah_mo_e_accelerator.Tier.Pool.Valid.{IsValid, place-IsValid}
use sabah_mo_e_accelerator.Tier.Pool.Evict.{
  Taken, free-Taken, victim-Taken, evict-cases, victim-exists, length-lru,
}
use sabah_mo_e_accelerator.Tier.Ensure.{State, take_slot_from, take_slot, book, admit, admit_all}

-- The slots that an expert is in or can be brought into.
abbrev pub usable : Pool → ℕ
usable p = length p.free_slots + length p.slot_of

-- The pool is well formed, and every resident expert's slot has exactly its bytes.
pub record IsSound (bank : Bank) (s : State) : Type 0 where
  pub valid : IsValid s.pool
  pub loaded :
      (e slot : ℕ)
      → lookup ℕ_discrete e s.pool.slot_of ≡ some slot
      → Loaded bank s.shared.commands s.pool.block e slot

-- A copy into an empty slot keeps the bytes of the other experts.
pub place-Loaded :
    (bank : Bank) (e slot : ℕ) (p : Pool) (s s' : Shared)
    → IsValid p
    → lookup ℕ_discrete slot p.expert_of ≡ none
    → Copied bank p.block e slot s s'
    → ((j t : ℕ) → lookup ℕ_discrete j p.slot_of ≡ some t → Loaded bank s.commands p.block j t)
    → (j t : ℕ) → lookup ℕ_discrete j (place e slot p).slot_of ≡ some t
    → Loaded bank s'.commands p.block j t
unfolding place
place-Loaded bank e slot p s s' v empty c before j t h r = elim (ℕ_discrete e j) [
  | yes q ↦
      let same : slot ≡ t = ground (arith, lookup-insert ℕ_discrete e j slot p.slot_of) in
      rw (← q, ← same) (c.loaded r)
  | no q ↦
      let old : lookup ℕ_discrete j p.slot_of ≡ some t =
        ground (arith, lookup-insert ℕ_discrete e j slot p.slot_of) in
      let (x, source, held) = before j t old r in
      (x, source, c.others p.block t r (ground (arith, v.slots j t old)) ∙ held)
]

-- What a step leaves as it was for the experts in `protected`.
pub record Keeps (protected : List ℕ) (p p' : Pool) : Type 0 where
  pub same_block : p'.block ≡ p.block
  pub same_size : p'.n_slots ≡ p.n_slots
  pub kept :
      (j t : ℕ)
      → has ℕ_discrete j protected ≡ true
      → lookup ℕ_discrete j p.slot_of ≡ some t
      → lookup ℕ_discrete j p'.slot_of ≡ some t

pub Keeps-trans :
    (protected : List ℕ) (p q r : Pool)
    → Keeps protected p q
    → Keeps protected q r
    → Keeps protected p r
Keeps-trans protected p q r k l = record {
  same_block = l.same_block ∙ k.same_block;
  same_size = l.same_size ∙ k.same_size;
  kept = λ j t h e. l.kept j t h (k.kept j t h e);
}

-- An expert that was not resident is not resident among fewer experts.
absent_before :
    (j : ℕ) (p : Pool) (before : List (ℕ × ℕ))
    → ((t : ℕ) → lookup ℕ_discrete j p.slot_of ≡ some t → lookup ℕ_discrete j before ≡ some t)
    → lookup ℕ_discrete j before ≡ none
    → lookup ℕ_discrete j p.slot_of ≡ none
absent_before j p before fewer h = elim (Option-cases (lookup ℕ_discrete j p.slot_of)) [
  | inl n ↦ n
  | inr (t, q) ↦ absurd (ground (arith, fewer t q))
]

module _ (bank : Bank) (protected : List ℕ) where
  pub take_slot-Taken :
      (e : ℕ) (s : State)
      → IsValid s.pool
      → has ℕ_discrete e protected ≡ true
      → lookup ℕ_discrete e s.pool.slot_of ≡ none
      → length protected ≤ usable s.pool
      → (s' : State) × (slot : ℕ) × (take_slot protected s ≡ ok (s', slot))
        × Taken protected s.pool s'.pool slot
        × (s'.shared.commands ≡ s.shared.commands)
        × SameTotals s.shared s'.shared
  unfolding take_slot_from
  take_slot-Taken e s v here absent enough = by_free s.pool.free_slots refl
    where
      by_free :
          (free : List ℕ)
          → s.pool.free_slots ≡ free
          → (s' : State) × (slot : ℕ) × (take_slot protected s ≡ ok (s', slot))
            × Taken protected s.pool s'.pool slot
            × (s'.shared.commands ≡ s.shared.commands)
            × SameTotals s.shared s'.shared
      by_free (slot ∷ free) q = (
        record s { pool = record s.pool { free_slots = free } },
        slot,
        ap (λ f. take_slot_from f protected s) q,
        free-Taken protected s.pool slot free v q,
        refl,
        (refl, refl, refl),
      )
      by_free [] q =
          let n = ap length q in
          elim (evict-cases protected s.pool s.shared v) [
            | inl (raised, blocked) ↦ absurd (
                victim-exists protected e s.pool v here absent (omega (arith, length-lru s.pool v))
                  blocked)
            | inr (x, slot, sh, evicted, chosen, there, same, totals) ↦ (
              record { pool = unplace x slot s.pool; shared = sh },
              slot,
              ap (λ f. take_slot_from f protected s) q ∙ rw evicted,
              victim-Taken protected s.pool x slot v chosen there,
              same,
              totals,
            )
          ]

  -- What the admission of `e` leaves.
  pub record Admitted (e : ℕ) (s s' : State) : Type 0 where
    pub sound : IsSound bank s'
    pub keeps : Keeps protected s.pool s'.pool
    pub present : is_some (lookup ℕ_discrete e s'.pool.slot_of) ≡ true
    pub others :
        (j : ℕ)
        → e ≢ j
        → lookup ℕ_discrete j s.pool.slot_of ≡ none
        → lookup ℕ_discrete j s'.pool.slot_of ≡ none
    pub same_room : usable s'.pool ≡ usable s.pool
    pub totals : SameTotals s.shared s'.shared

  pub admit-Admitted :
      (e : ℕ) (s : State)
      → IsSound bank s
      → IsReadable bank s.pool.block e
      → has ℕ_discrete e protected ≡ true
      → lookup ℕ_discrete e s.pool.slot_of ≡ none
      → length protected ≤ usable s.pool
      → (s' : State) × (ev : ℕ) × (admit bank protected e s ≡ ok (s', ev)) × Admitted e s s'
  unfolding admit book place update_counts
  admit-Admitted e s sound readable here absent enough =
      let (t, slot, taken, tk, same, totals) = take_slot-Taken e s sound.valid here absent enough in
      let (sh, ev, copied, c) =
        start_copy-Copied bank t.pool.block e slot t.shared
          (subst (λ b. IsReadable bank b e) (sym tk.same_block) readable) in
      let gone = tk.kept e here ∙ absent in
      (
        book bank e slot t.pool sh,
        ev,
        rw (taken, copied),
        record {
          sound = record {
            valid = place-IsValid e slot t.pool tk.valid gone tk.empty tk.unlisted tk.bound;
            loaded = place-Loaded bank e slot t.pool t.shared sh tk.valid tk.empty c λ j u h.
                subst₂ (λ cs b. Loaded bank cs b j u) (sym same) (sym tk.same_block)
                  (sound.loaded j u (tk.fewer j u h));
          };
          keeps = record {
            same_block = tk.same_block;
            same_size = tk.same_size;
            kept = λ j u q h.
                ground (arith, lookup-insert ℕ_discrete e j slot t.pool.slot_of, tk.kept j q);
          };
          present = ground (arith, lookup-insert ℕ_discrete e e slot t.pool.slot_of);
          others = λ j q h. ground (
            arith,
            lookup-insert ℕ_discrete e j slot t.pool.slot_of,
            absent_before j t.pool s.pool.slot_of (tk.fewer j) h,
          );
          totals = omega (arith, totals, c.totals);
          same_room = omega (arith, tk.room, length-insert ℕ_discrete e slot t.pool.slot_of gone);
        },
      )

  -- What the loop leaves: every expert of the list is resident.
  pub record AllAdmitted (es : List ℕ) (s s' : State) : Type 0 where
    pub sound : IsSound bank s'
    pub keeps : Keeps protected s.pool s'.pool
    pub present :
        (j : ℕ) → has ℕ_discrete j es ≡ true → is_some (lookup ℕ_discrete j s'.pool.slot_of) ≡ true
    pub same_room : usable s'.pool ≡ usable s.pool
    pub totals : SameTotals s.shared s'.shared

  pub admit_all-AllAdmitted :
      (es : List ℕ) (s : State)
      → IsSound bank s
      → All (λ e. IsReadable bank s.pool.block e) es
      → All (λ e. has ℕ_discrete e protected ≡ true) es
      → All (λ e. lookup ℕ_discrete e s.pool.slot_of ≡ none) es
      → Distinct ℕ_discrete es
      → length protected ≤ usable s.pool
      → (s' : State) × (evs : List ℕ) × (admit_all bank protected es s ≡ ok (s', evs))
        × AllAdmitted es s s'
  unfolding admit_all has
  admit_all-AllAdmitted [] s sound readable here absent distinct enough = (
    s,
    [],
    refl,
    record {
      sound = sound;
      keeps = record { same_block = refl; same_size = refl; kept = λ j t h q. q };
      present = λ j h. cc;
      same_room = refl;
      totals = (refl, refl, refl);
    },
  )
  admit_all-AllAdmitted (e ∷ es) s sound readable here absent distinct enough =
      let (t, ev, admitted, a) = admit-Admitted e s sound readable.0 here.0 absent.0 enough in
      let (u, evs, rest, b) =
        admit_all-AllAdmitted es t a.sound
          (subst (λ b. All (λ x. IsReadable bank b x) es) (sym a.keeps.same_block) readable.1)
          here.1 (still_absent e es s t a distinct.0 absent.1) distinct.1
          (omega (arith, a.same_room)) in
      (
        u,
        ev ∷ evs,
        rw (admitted, rest),
        record {
          sound = b.sound;
          keeps = Keeps-trans protected s.pool t.pool u.pool a.keeps b.keeps;
          present = λ j h. elim (ℕ_discrete j e) [
            | yes q ↦ stays e t u b here.0 a.present j q
            | no q ↦ b.present j (ground arith)
          ];
          same_room = b.same_room ∙ a.same_room;
          totals = omega (arith, a.totals, b.totals);
        },
      )
    where
      still_absent :
          (e : ℕ) (es : List ℕ) (s t : State)
          → Admitted e s t
          → has ℕ_discrete e es ≡ false
          → All (λ x. lookup ℕ_discrete x s.pool.slot_of ≡ none) es
          → All (λ x. lookup ℕ_discrete x t.pool.slot_of ≡ none) es
      still_absent e [] s t a d h = tt
      still_absent e (x ∷ xs) s t a d h =
          (a.others x (ground arith) h.0, still_absent e xs s t a (ground arith) h.1)

      stays :
          (e : ℕ) (t u : State)
          → AllAdmitted es t u
          → has ℕ_discrete e protected ≡ true
          → is_some (lookup ℕ_discrete e t.pool.slot_of) ≡ true
          → (j : ℕ) → j ≡ e
          → is_some (lookup ℕ_discrete j u.pool.slot_of) ≡ true
      stays e t u b h p j q = elim (Option-cases (lookup ℕ_discrete e t.pool.slot_of)) [
        | inl n ↦ absurd (ground arith)
        | inr (slot, l) ↦ rw (q, b.keeps.kept e slot h l)
      ]
