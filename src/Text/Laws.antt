-- ===== src/Text/Laws.antt =====
-- Laws of the comparison of texts and of prefixes.
use mathlib.Core.Bool.{and-eq-true_iff}
use go_basicauth.Prelude.{◌≡◌, refl, ◌↔◌, true, [], ◌∷◌, ◌++◌, arith, ==_iff, ◌==◌}
use go_basicauth.Text.{Text, text_eq, has_prefix}

pub text_eq_refl : (s : Text) → text_eq s s ≡ true
unfolding text_eq
text_eq_refl [] = refl
text_eq_refl (a ∷ s) = ground (arith, text_eq_refl s)

text_eq_sound : (s t : Text) → text_eq s t ≡ true → s ≡ t
unfolding text_eq
text_eq_sound [] [] h = refl
text_eq_sound (a ∷ s) (b ∷ t) h = ground (arith, text_eq_sound s t)
text_eq_sound _ _ h = cc

pub text_eq_iff : (s t : Text) → (text_eq s t ≡ true) ↔ (s ≡ t)
text_eq_iff s t = (text_eq_sound s t, λ e. rw e (text_eq_refl t))

has_prefix_sound : (s p : Text) → has_prefix s p ≡ true → (rest : Text) × (s ≡ p ++ rest)
unfolding has_prefix
has_prefix_sound s [] h = (s, refl)
has_prefix_sound [] (c ∷ p) h = cc
has_prefix_sound (b ∷ s) (c ∷ p) h =
    let (here, there) = (and-eq-true_iff (b == c) (has_prefix s p)).0 h in
    let (rest, e) = has_prefix_sound s p there in (rest, cc ((==_iff b c).0 here))

has_prefix-append : (p rest : Text) → has_prefix (p ++ rest) p ≡ true
unfolding has_prefix
has_prefix-append [] rest = ground arith
has_prefix-append (c ∷ p) rest = ground (arith, has_prefix-append p rest)

-- The prefixes of a text are what it begins with.
pub has_prefix_iff : (s p : Text) → (has_prefix s p ≡ true) ↔ ((rest : Text) × (s ≡ p ++ rest))
has_prefix_iff s p = (has_prefix_sound s p, λ (rest, e). rw e (has_prefix-append p rest))
