-- ===== src/Bank/Files.antt =====
-- Reads of the shards: a read past the end of a file is short.
use sabah_mo_e_accelerator.Base.{
  ℕ, zero, suc, ◌+◌, ◌*◌, ◌<◌, ◌≡◌, refl, ◌∙◌, ap, subst, List, [], ◌∷◌, ◌++◌, Option, none, some,
  length, slice, drop, take, nth, ◌==◌, if◌then◌else◌, Result, ok, raise, Error, key_error, ◌>>=◌,
  bind-ok, arith, Bool-cases, inl, inr, ==→eq,
}
use sabah_mo_e_accelerator.Tier.Types.{Bytes}

-- `d[k]`
abbrev pub or_key_error {ℓ} : {A : Type ℓ} → Option A → Result A
or_key_error none = raise key_error
or_key_error (some a) = ok a

abbrev pub or_index_error {ℓ} : {A : Type ℓ} → Option A → Result A
or_index_error none = raise Error.index_error
or_index_error (some a) = ok a

-- A read of exactly `size` bytes, or `IOError`.
unfoldable pub read_exact : Bytes → ℕ → ℕ → Result Bytes
unfolding slice
read_exact f offset size =
    if length (slice offset size f) == size then ok (slice offset size f) else raise Error.io_error

-- The reads of `n` experts of `per` bytes, one after the other.
unfoldable pub read_chunks : Bytes → ℕ → ℕ → ℕ → Result (List Bytes)
unfolding read_exact
read_chunks f offset per zero = ok []
read_chunks f offset per (suc n) =
    read_exact f offset per >>= λ c. read_chunks f (offset + per) per n >>= λ cs. ok (c ∷ cs)

abbrev pub concat : List Bytes → Bytes
concat [] = []
concat (c ∷ cs) = c ++ concat cs

pub read_exact-ok :
    (f : Bytes) (offset size : ℕ) (c : Bytes)
    → read_exact f offset size ≡ ok c
    → (c ≡ slice offset size f) × (length c ≡ size)
unfolding read_exact
read_exact-ok f offset size c h = elim (Bool-cases (length (slice offset size f) == size)) [
  | inl e ↦
      let q : length (slice offset size f) ≡ size = ==→eq _ _ e in
      let p : c ≡ slice offset size f = ground arith in (p, ap length p ∙ q)
  | inr e ↦ absurd (ground arith)
]

drop-append : (k : ℕ) (c rest : Bytes) → drop (length c + k) (c ++ rest) ≡ drop k rest
drop-append k [] rest = ap (λ n. drop n rest) (omega arith)
drop-append k (x ∷ c) rest =
    ap (λ n. drop n (x ∷ (c ++ rest)))
      (let e : suc (length c) + k ≡ suc (length c + k) = omega arith in e)
    ∙ drop-append k c rest

take-append : (c rest : Bytes) → take (length c) (c ++ rest) ≡ c
unfolding take
take-append [] rest = refl
take-append (x ∷ c) rest = ap (λ l. x ∷ l) (take-append c rest)

-- The expert's part of the file, which is also its part of the chunks put together.
pub record IsChunk (f : Bytes) (offset per : ℕ) (cs : List Bytes) (e : ℕ) : Type 0 where
  pub chunk : Bytes
  pub listed : nth cs e ≡ some chunk
  pub filed : read_exact f (offset + e * per) per ≡ ok chunk
  pub joined : slice (e * per) per (concat cs) ≡ chunk

first-IsChunk :
    (f : Bytes) (offset per : ℕ) (c : Bytes) (cs : List Bytes)
    → read_exact f offset per ≡ ok c
    → length c ≡ per
    → IsChunk f offset per (c ∷ cs) zero
unfolding slice
first-IsChunk f offset per c cs h m =
    let z : offset + zero * per ≡ offset = omega arith in
    let o : zero * per ≡ 0 = omega arith in
    record {
      chunk = c;
      listed = refl;
      filed = rw z h;
      joined = rw o (subst (λ n. take n (c ++ concat cs) ≡ c) m (take-append c (concat cs)));
    }

later-IsChunk :
    (f : Bytes) (offset per : ℕ) (c : Bytes) (cs : List Bytes) (e : ℕ)
    → length c ≡ per
    → IsChunk f (offset + per) per cs e
    → IsChunk f offset per (c ∷ cs) (suc e)
unfolding slice
later-IsChunk f offset per c cs e m k =
    let z : offset + suc e * per ≡ offset + per + e * per = omega arith in
    let o : suc e * per ≡ length c + e * per = omega arith in
    record {
      chunk = k.chunk;
      listed = k.listed;
      filed = rw z k.filed;
      joined = rw o (ap (take per) (drop-append (e * per) c (concat cs)) ∙ k.joined);
    }

pub read_chunks-IsChunk :
    (f : Bytes) (offset per n : ℕ) (cs : List Bytes) (e : ℕ)
    → read_chunks f offset per n ≡ ok cs
    → e < n
    → IsChunk f offset per cs e
unfolding read_chunks
read_chunks-IsChunk f offset per zero cs e h l = absurd (omega arith)
read_chunks-IsChunk f offset per (suc n) cs zero h l =
    let (c, first, h1) = bind-ok (read_exact f offset per) _ cs h in
    let (ds, rest, h2) = bind-ok (read_chunks f (offset + per) per n) _ cs h1 in
    let q : c ∷ ds ≡ cs = ground arith in
    subst (λ xs. IsChunk f offset per xs zero) q
      (first-IsChunk f offset per c ds first (read_exact-ok f offset per c first).1)
read_chunks-IsChunk f offset per (suc n) cs (suc e) h l =
    let (c, first, h1) = bind-ok (read_exact f offset per) _ cs h in
    let (ds, rest, h2) = bind-ok (read_chunks f (offset + per) per n) _ cs h1 in
    let q : c ∷ ds ≡ cs = ground arith in
    subst (λ xs. IsChunk f offset per xs (suc e)) q
      (later-IsChunk f offset per c ds e (read_exact-ok f offset per c first).1
        (read_chunks-IsChunk f (offset + per) per n ds e rest (omega arith)))
