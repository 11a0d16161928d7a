-- ===== src/Validation/Regex.antt =====
-- Regular expressions over bytes, as far as validation.go uses those of the package regexp: classes
-- of ASCII characters, sequences, alternatives and repetition. A text is matched as a whole.
pub mod Meaning
use go_basicauth.Prelude.{ℕ, Bool, true, false, ◌&&◌, ◌||◌, [], ◌∷◌, if◌then◌else◌}
use go_basicauth.Text.{Text}

pub data Regex : Type 0 where
  nothing epsilon : Regex
  class : (ℕ → Bool) → Regex
  seq alt : Regex → Regex → Regex
  star : Regex → Regex

abbrev pub nullable : Regex → Bool
nullable nothing = false
nullable epsilon = true
nullable (class test) = false
nullable (seq r s) = nullable r && nullable s
nullable (alt r s) = nullable r || nullable s
nullable (star r) = true

-- What is left to match behind a byte.
abbrev pub derive : ℕ → Regex → Regex
derive b nothing = nothing
derive b epsilon = nothing
derive b (class test) = if test b then epsilon else nothing
derive b (seq r s) = alt (seq (derive b r) s) (if nullable r then derive b s else nothing)
derive b (alt r s) = alt (derive b r) (derive b s)
derive b (star r) = seq (derive b r) (star r)

unfoldable pub matches : Regex → Text → Bool
matches r [] = nullable r
matches r (b ∷ s) = matches (derive b r) s

abbrev pub plus : Regex → Regex
plus r = seq r (star r)
