-- ===== src/Text/Plain.antt =====
-- Texts that the normalisation of codes leaves as they are: ASCII, without spaces and upper case.
use mathlib.Core.List.{reverse, reverse_aux, reverse-reverse}
use go_basicauth.Prelude.{ℕ, ◌≡◌, refl, true, false, [], ◌∷◌, map, All, all, arith, ltb}
use go_basicauth.Text.{
  Text, Unicode, is_space, is_ascii, lower_byte, skip_spaces, to_lower, trim_space, runes,
}

-- ASCII and no white space.
abbrev pub IsVisible : ℕ → Type 0
IsVisible b = (ltb b 128 ≡ true) × (is_space b ≡ false)

abbrev pub IsPlain : ℕ → Type 0
IsPlain b = IsVisible b × (lower_byte b ≡ b)

lower_byte-IsPlain : (b : ℕ) → IsVisible b → IsPlain (lower_byte b)
unfolding lower_byte
lower_byte-IsPlain b (v, w) = ground arith

lower-IsPlain : (s : Text) → All IsVisible s → All IsPlain (map lower_byte s)
lower-IsPlain [] v = tt
lower-IsPlain (b ∷ s) (v, vs) = (lower_byte-IsPlain b v, lower-IsPlain s vs)

visible_ascii : (s : Text) → All IsVisible s → all is_ascii s ≡ true
visible_ascii [] v = refl
visible_ascii (b ∷ s) ((v, w), vs) = rw (v, visible_ascii s vs) refl

plain_ascii : (s : Text) → All IsPlain s → all is_ascii s ≡ true
plain_ascii [] v = refl
plain_ascii (b ∷ s) (((v, w), l), vs) = rw (v, plain_ascii s vs) refl

lower_plain : (s : Text) → All IsPlain s → map lower_byte s ≡ s
lower_plain [] v = refl
lower_plain (b ∷ s) ((v, l), vs) = rw (l, lower_plain s vs) refl

skip_spaces_plain : (s : Text) → All IsPlain s → skip_spaces s ≡ s
unfolding skip_spaces
skip_spaces_plain [] v = refl
skip_spaces_plain (b ∷ s) (((v, w), l), vs) = rw w refl

All-reverse_aux : (s r : Text) → All IsPlain s → All IsPlain r → All IsPlain (reverse_aux s r)
All-reverse_aux [] r v w = w
All-reverse_aux (b ∷ s) r (v, vs) w = All-reverse_aux s (b ∷ r) vs (v, w)

All-reverse : (s : Text) → All IsPlain s → All IsPlain (reverse s)
All-reverse s v = All-reverse_aux s [] v tt

-- A plain text is its own normalisation.
pub to_lower-trim_space : (u : Unicode) (s : Text) → All IsPlain s → to_lower u (trim_space u s) ≡ s
unfolding to_lower trim_space
to_lower-trim_space u s v =
    rw
      (
        plain_ascii s v,
        skip_spaces_plain s v,
        skip_spaces_plain (reverse s) (All-reverse s v),
        reverse-reverse s,
      )
      (rw (plain_ascii s v) (lower_plain s v))

-- The runes of a visible alphabet in lower case are single plain bytes.
abbrev pub IsRune : Text → Type 0
IsRune r = (c : ℕ) × (r ≡ c ∷ []) × IsPlain c

singletons-IsRune : (s : Text) → All IsPlain s → All IsRune (map (λ c. c ∷ []) s)
singletons-IsRune [] v = tt
singletons-IsRune (c ∷ s) (v, vs) = ((c, refl, v), singletons-IsRune s vs)

pub runes-IsRune : (u : Unicode) (s : Text) → All IsVisible s → All IsRune (runes u (to_lower u s))
unfolding to_lower runes
runes-IsRune u s v =
    let plain = lower-IsPlain s v in
    rw (visible_ascii s v)
      (rw (plain_ascii (map lower_byte s) plain) (singletons-IsRune (map lower_byte s) plain))
