-- ===== src/Text.antt =====
-- Go strings as lists of bytes, with the functions of `strings` that the program calls.
-- The tables of Unicode that `strings.ToLower`, `strings.TrimSpace` and `fmt.Sscanf` consult for
-- text that is not ASCII are a parameter, `Unicode`; for ASCII the functions are written out.
pub mod Laws
pub mod Split
pub mod Plain
use Prim.Native.Char.{code}
use Prim.Native.String.{String}
use mathlib.Core.List.{reverse}
use go_basicauth.Prelude.{
  ℕ, ◌+◌, ◌≤◌, Bool, true, false, ◌&&◌, ◌||◌, Option, none, some, List, [], ◌∷◌, map, ltb, leb,
  ◌==◌, if◌then◌else◌, all, any,
}

abbrev pub Text : Type 0
Text = List ℕ

-- The bytes of an ASCII literal.
abbrev pub codes : String → Text
codes String.[] = []
codes (String.◌∷◌ c s) = code c ∷ codes s

-- a == b on strings
unfoldable pub text_eq : Text → Text → Bool
text_eq [] [] = true
text_eq (a ∷ x) (b ∷ y) = (a == b) && text_eq x y
text_eq _ _ = false

-- strings.HasPrefix(s, prefix)
unfoldable pub has_prefix : Text → Text → Bool
has_prefix s [] = true
has_prefix [] (p ∷ ps) = false
has_prefix (c ∷ s) (p ∷ ps) = (c == p) && has_prefix s ps

-- strings.Contains(s, sep) for a separator of one byte
unfoldable pub contains : Text → ℕ → Bool
contains s sep = any (λ c. c == sep) s

-- What the standard library reads from the tables of Unicode.
pub record Unicode : Type 0 where
  -- strings.Map(unicode.ToLower, s), for an s that is not ASCII
  pub lower : Text → Text
  -- strings.TrimFunc(s, unicode.IsSpace), for an s that is not ASCII
  pub trim : Text → Text
  -- []rune(s) for an s that is not ASCII, each rune as the bytes that string() makes of it
  pub runes : Text → List Text
  -- the white space that `fmt` skips before a number, from a byte that is not ASCII on
  pub skip_space : Text → Text

abbrev pub is_ascii : ℕ → Bool
is_ascii c = ltb c 128

pub lower_byte : ℕ → ℕ
lower_byte c = if leb b'A' c && leb c b'Z' then c + 32 else c

-- strings.ToLower
unfoldable pub to_lower : Unicode → Text → Text
unfolding lower_byte
to_lower u s = if all is_ascii s then map lower_byte s else u.lower s

-- '\t', '\n', '\v', '\f', '\r' and ' '
abbrev pub is_space : ℕ → Bool
is_space c = (leb 9 c && leb c 13) || (c == 32)

pub skip_spaces : Text → Text
skip_spaces [] = []
skip_spaces (c ∷ s) = let rest = skip_spaces s in if is_space c then rest else c ∷ s

-- strings.TrimSpace
unfoldable pub trim_space : Unicode → Text → Text
unfolding skip_spaces
trim_space u s =
    if all is_ascii s then reverse (skip_spaces (reverse (skip_spaces s))) else u.trim s

-- []rune(s), each rune as a string
unfoldable pub runes : Unicode → Text → List Text
runes u s = if all is_ascii s then map (λ c. c ∷ []) s else u.runes s
