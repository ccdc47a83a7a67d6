-- ===== src/Base/Text.antt =====
-- Python's tests on texts: `==`, `in` on a tuple of texts, `startswith`, and texts as keys.
pub use Prim.Native.String.{String}
use mathlib.Core.Bool.{Bool, false, ◌||◌}
use mathlib.Core.List.{List, [], ◌∷◌}
use mathlib.Core.Logic.{inl, inr}
use mathlib.Core.Path.{◌≡◌}
use native.Mathlib.Omega.{arith}
pub use text.Mathlib.Text.{◌==◌ as str_eq, starts_with}
pub use text.Mathlib.TextEquality.{eq_iff}
use sabah_mo_e_accelerator.Base.Tests.{Bool-cases}

pub str_ne : (s t : String) → str_eq s t ≡ false → ¬ (s ≡ t)
str_ne s t h e = ground (arith, eq_iff s t)

unfoldable pub string_discrete : Discrete String
string_discrete s t = elim (Bool-cases (str_eq s t)) [
  | inl h ↦ yes ((eq_iff s t).0 h)
  | inr h ↦ no (str_ne s t h)
]

-- `s in texts`
abbrev pub one_of : String → List String → Bool
one_of s [] = false
one_of s (t ∷ ts) = str_eq s t || one_of s ts

-- `s.startswith(prefixes)`
abbrev pub starts_with_any : String → List String → Bool
starts_with_any s [] = false
starts_with_any s (p ∷ ps) = starts_with s p || starts_with_any s ps
