-- ===== src/Common/Texts.antt =====
-- Text as its list of ASCII codes, with what the gateway uses of Go's `strings` package.
use Prim.Native.Nat.{ℕ, ◌+◌}
use Prim.Native.Char.{code}
use Prim.Native.String.{String}
use mathlib.Core.Path.{◌≡◌, refl}
use mathlib.Core.Logic.{◌↔◌}
use mathlib.Core.Bool.{Bool, true, false, ◌&&◌, ◌||◌}
use mathlib.Core.List.{List, [], ◌∷◌}
use native.Mathlib.Omega.{arith}
use ollama_gateway.Common.Tests.{leb, eqb, if◌then◌else◌}

abbrev pub Text : Type 0
Text = List ℕ

-- The text of a literal.
abbrev pub codes : String → Text
codes String.[] = []
codes (String.◌∷◌ c s) = code c ∷ codes s

infix 50 ◌==◌
unfoldable pub ◌==◌ : Text → Text → Bool
[] == [] = true
[] == (d ∷ t) = false
(c ∷ s) == [] = false
(c ∷ s) == (d ∷ t) = eqb c d && s == t

pub eq_iff : (s t : Text) → ((s == t) ≡ true) ↔ (s ≡ t)
unfolding ◌==◌
eq_iff [] [] = ground arith
eq_iff [] (d ∷ t) = ground arith
eq_iff (c ∷ s) [] = ground arith
eq_iff (c ∷ s) (d ∷ t) = ground (arith, eq_iff s t)

pub eq_refl : (s : Text) → (s == s) ≡ true
eq_refl s = (eq_iff s s).1 refl

-- `unicode.IsSpace` on ASCII
abbrev pub is_space : ℕ → Bool
is_space c = leb 9 c && leb c 13 || eqb c 32

unfoldable pub trim_left : Text → Text
trim_left [] = []
trim_left (c ∷ s) = let rest = trim_left s in if is_space c then rest else c ∷ s

unfoldable pub drop_blank : ℕ → Text → Text
drop_blank c [] = if is_space c then [] else c ∷ []
drop_blank c (d ∷ s) = c ∷ d ∷ s

unfoldable pub trim_right : Text → Text
unfolding drop_blank
trim_right [] = []
trim_right (c ∷ s) = drop_blank c (trim_right s)

-- `strings.TrimSpace`
unfoldable pub trim_space : Text → Text
unfolding trim_left trim_right
trim_space s = trim_right (trim_left s)

abbrev pub lower : ℕ → ℕ
lower c = if leb b'A' c && leb c b'Z' then c + 32 else c

-- `strings.ToLower` on ASCII
unfoldable pub to_lower : Text → Text
to_lower [] = []
to_lower (c ∷ s) = lower c ∷ to_lower s

-- `strings.HasSuffix` and `strings.TrimSuffix`, for a suffix that is not empty
unfoldable pub has_suffix : Text → Text → Bool
unfolding ◌==◌
has_suffix suffix [] = [] == suffix
has_suffix suffix (c ∷ s) = (c ∷ s) == suffix || has_suffix suffix s

unfoldable pub trim_suffix : Text → Text → Text
unfolding ◌==◌
trim_suffix suffix [] = []
trim_suffix suffix (c ∷ s) =
    let rest = trim_suffix suffix s in if (c ∷ s) == suffix then [] else c ∷ rest

-- `strings.HasPrefix`
unfoldable pub has_prefix : Text → Text → Bool
has_prefix [] s = true
has_prefix (c ∷ p) [] = false
has_prefix (c ∷ p) (d ∷ s) = eqb c d && has_prefix p s

-- The rest of a text that has the prefix.
unfoldable pub after_prefix : Text → Text → Text
after_prefix [] s = s
after_prefix (c ∷ p) [] = []
after_prefix (c ∷ p) (d ∷ s) = after_prefix p s

-- `strings.TrimPrefix`
unfoldable pub trim_prefix : Text → Text → Text
unfolding has_prefix after_prefix
trim_prefix p s = if has_prefix p s then after_prefix p s else s
