-- ===== src/Proxy/Chunks/Read.antt =====
-- How a client reads a chunked body (RFC 9112, section 7.1, without trailers), and that it reads the
-- framing of the proxy back.
use sabah_mo_e_accelerator.Base.{
  ℕ, zero, suc, ◌+◌, ◌-◌, ◌*◌, ◌/◌, ◌%◌, ◌<◌, ◌≡◌, refl, ap, ◌∙◌, true, false, List, [], ◌∷◌, ◌++◌,
  Option, none, some, ltb, leb, ◌==◌, ◌&&◌, length, if◌then◌else◌, All, arith, length-append,
  Bool-cases, inl, inr, ltb→lt, ltb→ge,
}
use mathlib.Core.List.{append_assoc}
use sabah_mo_e_accelerator.Proxy.Chunks.{
  digits, hex_digit, hex_digits, hex, crlf, frame, last_chunk,
}

infixl 5 ◌>>=?◌
abbrev pub ◌>>=?◌ {ℓ κ} : {A : Type ℓ} {B : Type κ} → Option A → (A → Option B) → Option B
none >>=? f = none
some a >>=? f = f a

-- The value of a hexadecimal digit.
unfoldable pub hex_value : ℕ → Option ℕ
hex_value c =
    if leb 48 c && leb c 57
    then some (c - 48)
    else if leb 65 c && leb c 70
    then some (c - 55)
    else if leb 97 c && leb c 102
    then some (c - 87)
    else none

-- A line feed, and what follows it.
unfoldable pub line_feed : List ℕ → Option (List ℕ)
line_feed [] = none
line_feed (c ∷ cs) = if c == 10 then some cs else none

-- The rest of a size line: the size, and what follows the line.
unfoldable pub read_size : ℕ → List ℕ → Option (ℕ × List ℕ)
unfolding hex_value line_feed
read_size size [] = none
read_size size (c ∷ cs) = elim (c == 13) [
  | true ↦ line_feed cs >>=? λ rest. some (size, rest)
  | false ↦ elim (hex_value c) [ none ↦ none | some d ↦ read_size (size * 16 + d) cs ]
]

-- A size line has a digit at least.
unfoldable pub size_line : List ℕ → Option (ℕ × List ℕ)
unfolding read_size
size_line [] = none
size_line (c ∷ cs) = hex_value c >>=? λ d. read_size d cs

-- The first `n` bytes, and the others.
unfoldable pub split : ℕ → List ℕ → Option (List ℕ × List ℕ)
split zero cs = some ([], cs)
split (suc n) [] = none
split (suc n) (c ∷ cs) = split n cs >>=? λ p. some (c ∷ p.0, p.1)

unfoldable pub end_of_line : List ℕ → Option (List ℕ)
unfolding line_feed
end_of_line [] = none
end_of_line (c ∷ cs) = if c == 13 then line_feed cs else none

-- Nothing follows the last chunk.
unfoldable pub finished : List ℕ → Option (List ℕ)
finished [] = some []
finished (c ∷ cs) = none

-- A chunked body: each chunk has a byte at least, so the length of the input is enough fuel.
unfoldable pub dechunk : ℕ → List ℕ → Option (List ℕ)
unfolding size_line split end_of_line finished
dechunk zero input = none
dechunk (suc f) input = size_line input >>=? λ line. elim (line.0 == 0) [
  | true ↦ end_of_line line.1 >>=? finished
  | false ↦ split line.0 line.1 >>=? λ p.
      end_of_line p.1 >>=? λ rest. dechunk f rest >>=? λ body. some (p.0 ++ body)
]

module _ (d : ℕ) (small : d < 16) where
  hex_value-hex_digit : hex_value (hex_digit d) ≡ some d
  unfolding hex_value hex_digit
  hex_value-hex_digit = ground arith

  hex_digit-ne : (hex_digit d == 13) ≡ false
  unfolding hex_digit
  hex_digit-ne = ground arith

-- The number that digits stand for, after the digits of another number.
abbrev value : ℕ → List ℕ → ℕ
value size [] = size
value size (d ∷ ds) = value (size * 16 + d) ds

abbrev Digits : List ℕ → Type 0
Digits ds = All (λ d. d < 16) ds

read_size-hex_digits :
    (size : ℕ) (ds rest : List ℕ)
    → Digits ds
    → read_size size (hex_digits ds ++ crlf rest) ≡ some (value size ds, rest)
unfolding read_size hex_digits
read_size-hex_digits size [] rest h = refl
read_size-hex_digits size (d ∷ ds) rest h =
    ground
      (arith, hex_digit-ne d, hex_value-hex_digit d, read_size-hex_digits (size * 16 + d) ds rest)

value-snoc : (size : ℕ) (ds : List ℕ) (d : ℕ) → value size (ds ++ d ∷ []) ≡ value size ds * 16 + d
value-snoc size [] d = refl
value-snoc size (e ∷ ds) d = value-snoc (size * 16 + e) ds d

Digits-snoc : (ds : List ℕ) (d : ℕ) → Digits ds → d < 16 → Digits (ds ++ d ∷ [])
Digits-snoc [] d h k = (k, tt)
Digits-snoc (e ∷ ds) d h k = (h.0, Digits-snoc ds d h.1 k)

digits-Digits : (f n : ℕ) → Digits (digits f n)
unfolding digits
digits-Digits zero n = tt
digits-Digits (suc f) n =
    let others =
      Digits-snoc (digits f (n / 16)) (n % 16) (digits-Digits f (n / 16)) (omega arith) in
    elim (Bool-cases (ltb n 16)) [
      | inl few ↦ rw (few, digits) (ltb→lt _ _ few, tt)
      | inr more ↦ rw (more, digits) others
    ]

value-digits : (f n : ℕ) → n < f → value 0 (digits f n) ≡ n
unfolding digits
value-digits zero n h = absurd (omega arith)
value-digits (suc f) n h = elim (Bool-cases (ltb n 16)) [
  | inl few ↦ rw (few, digits) (omega arith)
  | inr more ↦
      let big = ltb→ge _ _ more in
      rw (more, digits)
        (value-snoc 0 (digits f (n / 16)) (n % 16)
          ∙ omega (arith, value-digits f (n / 16) (omega arith)))
]

size_line-hex_digits :
    (ds rest : List ℕ)
    → Digits ds
    → 0 < length ds
    → size_line (hex_digits ds ++ crlf rest) ≡ some (value 0 ds, rest)
unfolding size_line hex_digits
size_line-hex_digits [] rest h k = absurd (omega arith)
size_line-hex_digits (d ∷ ds) rest h k =
    let same : 0 * 16 + d ≡ d = omega arith in
    rw (hex_value-hex_digit d h.0, same) (read_size-hex_digits d ds rest h.1)

length-digits : (f n : ℕ) → 0 < length (digits (suc f) n)
unfolding digits
length-digits f n = elim (Bool-cases (ltb n 16)) [
  | inl few ↦ rw (few, digits) (omega arith)
  | inr more ↦ rw (more, digits) (omega (arith, length-append (digits f (n / 16)) (n % 16 ∷ [])))
]

size_line-hex : (n : ℕ) (rest : List ℕ) → size_line (hex n ++ crlf rest) ≡ some (n, rest)
unfolding hex
size_line-hex n rest =
    size_line-hex_digits (digits (suc n) n) rest (digits-Digits (suc n) n) (length-digits n n)
    ∙ ap (λ k. some (k, rest)) (value-digits (suc n) n (omega arith))

split-append : (xs ys : List ℕ) → split (length xs) (xs ++ ys) ≡ some (xs, ys)
unfolding split
split-append [] ys = refl
split-append (x ∷ xs) ys = rw (split-append xs ys)

-- The frames of chunks, one after the other, and their bytes.
abbrev pub frames : List (List ℕ) → List ℕ
frames [] = last_chunk
frames (c ∷ cs) = frame c ++ frames cs

abbrev pub join : List (List ℕ) → List ℕ
join [] = []
join (c ∷ cs) = c ++ join cs

length-frames : (cs : List (List ℕ)) → length cs < length (frames cs)
unfolding frame
length-frames [] = omega arith
length-frames (c ∷ cs) = omega (
  arith,
  length-append (hex (length c)) (crlf (c ++ crlf [])),
  length-append (hex (length c) ++ crlf (c ++ crlf [])) (frames cs),
  length-frames cs,
)

dechunk-frames_on :
    (f : ℕ) (cs : List (List ℕ))
    → All (λ c. 0 < length c) cs
    → length cs < f
    → dechunk f (frames cs) ≡ some (join cs)
unfolding dechunk frame
dechunk-frames_on zero cs h k = absurd (omega arith)
dechunk-frames_on (suc f) [] h k = unfold size_line read_size hex_value in refl
dechunk-frames_on (suc f) (c ∷ cs) h k =
    let more = crlf (c ++ crlf []) in
    let regroup : (hex (length c) ++ more) ++ frames cs
        ≡ hex (length c) ++ crlf (c ++ crlf (frames cs)) =
      append_assoc (hex (length c)) more (frames cs)
      ∙ ap (λ l. hex (length c) ++ crlf l) (append_assoc c (crlf []) (frames cs)) in
    rw (regroup, size_line-hex (length c) (c ++ crlf (frames cs)))
      (ground (arith, split-append c (crlf (frames cs)), dechunk-frames_on f cs))

-- A client reads the chunks back from their frames.
pub dechunk-frames :
    (cs : List (List ℕ))
    → All (λ c. 0 < length c) cs
    → dechunk (length (frames cs)) (frames cs) ≡ some (join cs)
dechunk-frames cs h = dechunk-frames_on (length (frames cs)) cs h (length-frames cs)
