-- ===== src/Prelude/Texts.antt =====
-- Whole texts are compared as native strings; where the program walks a text it is a list of bytes.
use Prim.Native.Nat.{ℕ}
use Prim.Native.Char.{code}
use Prim.Native.String.{String, ◌++◌ as str_append}
use native.Mathlib.Omega.{arith}
use mathlib.Core.Path.{◌≡◌}
use mathlib.Core.Bool.{Bool, true}
use mathlib.Core.List.{List, [], ◌∷◌}
use text.Mathlib.Text.{◌==◌ as str_eq}
pub use text.Mathlib.TextEquality.{eq_iff}

-- `==` of two Go strings.
infix 50 ◌=ₛ◌
abbrev pub ◌=ₛ◌ : String → String → Bool
s =ₛ t = str_eq s t

-- `+` of two Go strings.
infixl 60 ◌+ₛ◌
abbrev pub ◌+ₛ◌ : String → String → String
s +ₛ t = str_append s t

abbrev pub Bytes : Type 0
Bytes = List ℕ

-- The code points of a text: its bytes, if it is ASCII.
abbrev pub codes : String → Bytes
codes String.[] = []
codes (String.◌∷◌ c s) = code c ∷ codes s

pub eq_sym : (s t : String) → (s =ₛ t) ≡ (t =ₛ s)
eq_sym s t = ground (arith, eq_iff s t, eq_iff t s)

pub eq_path : (s t : String) → (s =ₛ t) ≡ true → s ≡ t
eq_path s t e = ground (arith, e, eq_iff s t)
