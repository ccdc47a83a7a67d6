-- ===== src/Proxy/Chunks.antt =====
-- The framing of a streamed answer in `_proxy` of sabah/server/openai_proxy.py: `"%X\r\n" % len(chunk)`,
-- the chunk, `"\r\n"`, and `"0\r\n\r\n"` at the end. Bytes are numbers.
pub mod Read
use sabah_mo_e_accelerator.Base.{
  ℕ, zero, suc, ◌+◌, ◌/◌, ◌%◌, true, false, List, [], ◌∷◌, ◌++◌, ltb, length, if◌then◌else◌,
}

-- The digits of a number to the base 16, the highest first; the first argument is fuel.
unfoldable pub digits : ℕ → ℕ → List ℕ
digits zero n = []
digits (suc f) n = elim (ltb n 16) [ true ↦ n ∷ [] | false ↦ digits f (n / 16) ++ (n % 16) ∷ [] ]

unfoldable pub hex_digit : ℕ → ℕ
hex_digit d = if ltb d 10 then d + 48 else d + 55

unfoldable pub hex_digits : List ℕ → List ℕ
unfolding hex_digit
hex_digits [] = []
hex_digits (d ∷ ds) = hex_digit d ∷ hex_digits ds

-- `"%X" % n`
unfoldable pub hex : ℕ → List ℕ
unfolding digits hex_digits
hex n = hex_digits (digits (suc n) n)

abbrev pub crlf : List ℕ → List ℕ
crlf rest = 13 ∷ 10 ∷ rest

-- The three writes for one chunk.
unfoldable pub frame : List ℕ → List ℕ
unfolding hex
frame chunk = hex (length chunk) ++ crlf (chunk ++ crlf [])

-- The write after the loop.
abbrev pub last_chunk : List ℕ
last_chunk = b'0' ∷ crlf (crlf [])
