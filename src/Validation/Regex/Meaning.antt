-- ===== src/Validation/Regex/Meaning.antt =====
-- What a regular expression matches, and the matcher by derivatives against that.
use mathlib.Core.Path.{subst}
use go_basicauth.Prelude.{
  ℕ, ◌≡◌, ◌↔◌, ◌⊎◌, inl, inr, refl, sym, ap, ◌∙◌, Bool, true, [], ◌∷◌, ◌++◌, arith, Bool-cases,
}
use go_basicauth.Text.{Text}
use go_basicauth.Validation.Regex.{
  Regex, nothing, epsilon, class, seq, alt, star, nullable, derive, matches,
}

-- A text that consists of non-empty pieces with the property.
pub data Repeats (P : Text → Type 0) : Text → Type 0 where
  stop : {s : Text} → s ≡ [] → Repeats P s
  more :
      {s : Text} (b : ℕ) (piece rest : Text)
      → s ≡ b ∷ (piece ++ rest)
      → P (b ∷ piece)
      → Repeats P rest
      → Repeats P s

abbrev pub Matches : Regex → Text → Type 0
Matches nothing s = ⊥
Matches epsilon s = s ≡ []
Matches (class test) s = (b : ℕ) × (s ≡ b ∷ []) × (test b ≡ true)
Matches (seq r q) s = (front back : Text) × (s ≡ front ++ back) × Matches r front × Matches q back
Matches (alt r q) s = Matches r s ⊎ Matches q s
Matches (star r) s = Repeats (Matches r) s

nullable_sound : (r : Regex) → nullable r ≡ true → Matches r []
nullable_sound nothing h = cc
nullable_sound epsilon h = refl
nullable_sound (class test) h = cc
nullable_sound (seq r q) h =
    ([], [], refl, nullable_sound r (ground arith), nullable_sound q (ground arith))
nullable_sound (alt r q) h = elim (Bool-cases (nullable r)) [
  | inl e ↦ inl (nullable_sound r e)
  | inr e ↦ inr (nullable_sound q (ground arith))
]
nullable_sound (star r) h = stop refl

nullable_complete : (r : Regex) → Matches r [] → nullable r ≡ true
nullable_complete nothing m = absurd m
nullable_complete epsilon m = refl
nullable_complete (class test) (b, e, h) = cc
nullable_complete (seq r q) ([], [], e, m, n) =
    ground (arith, nullable_complete r m, nullable_complete q n)
nullable_complete (seq r q) (b ∷ s, t, e, m, n) = cc
nullable_complete (seq r q) ([], b ∷ t, e, m, n) = cc
nullable_complete (alt r q) (inl m) = ground (arith, nullable_complete r m)
nullable_complete (alt r q) (inr m) = ground (arith, nullable_complete q m)
nullable_complete (star r) m = refl

class_sound :
    (test : ℕ → Bool) (b : ℕ) (s : Text)
    → Matches (derive b (class test)) s
    → Matches (class test) (b ∷ s)
class_sound test b s m = elim (Bool-cases (test b)) [
  | inl e ↦ (b, ap (λ t. b ∷ t) (rw e at m), e)
  | inr e ↦ absurd (rw e at m)
]

derive_sound : (r : Regex) (b : ℕ) (s : Text) → Matches (derive b r) s → Matches r (b ∷ s)
derive_sound nothing b s m = absurd m
derive_sound epsilon b s m = absurd m
derive_sound (class test) b s m = class_sound test b s m
derive_sound (seq r q) b s (inl (front, back, e, m, n)) =
    (b ∷ front, back, ap (λ t. b ∷ t) e, derive_sound r b front m, n)
derive_sound (seq r q) b s (inr m) = elim (Bool-cases (nullable r)) [
  | inl e ↦ ([], b ∷ s, refl, nullable_sound r e, derive_sound q b s (rw e at m))
  | inr e ↦ absurd (rw e at m)
]
derive_sound (alt r q) b s (inl m) = inl (derive_sound r b s m)
derive_sound (alt r q) b s (inr m) = inr (derive_sound q b s m)
derive_sound (star r) b s (front, back, e, m, n) =
    more b front back (ap (λ t. b ∷ t) e) (derive_sound r b front m) n

cons_front : (b c : ℕ) (s t : Text) → b ∷ s ≡ c ∷ t → b ≡ c
cons_front b c s t e = cc

cons_back : (b c : ℕ) (s t : Text) → b ∷ s ≡ c ∷ t → s ≡ t
cons_back b c s t e = cc

derive_complete : (r : Regex) (b : ℕ) (s : Text) → Matches r (b ∷ s) → Matches (derive b r) s
derive_complete nothing b s m = absurd m
derive_complete epsilon b s m = cc
derive_complete (class test) b s (c, e, h) =
    let same : test b ≡ true = ap test (cons_front b c s [] e) ∙ h in rw same (cons_back b c s [] e)
derive_complete (seq r q) b s ([], back, e, m, n) =
    inr (rw (nullable_complete r m) (derive_complete q b s (subst (Matches q) (sym e) n)))
derive_complete (seq r q) b s (c ∷ front, back, e, m, n) =
    let same = cons_front b c s (front ++ back) e in
    inl (
      front,
      back,
      cons_back b c s (front ++ back) e,
      derive_complete r b front (subst (λ d. Matches r (d ∷ front)) (sym same) m),
      n,
    )
derive_complete (alt r q) b s (inl m) = inl (derive_complete r b s m)
derive_complete (alt r q) b s (inr m) = inr (derive_complete q b s m)
derive_complete (star r) b s (stop e) = cc
derive_complete (star r) b s (more c front back e m n) =
    let same = cons_front b c s (front ++ back) e in
    (
      front,
      back,
      cons_back b c s (front ++ back) e,
      derive_complete r b front (subst (λ d. Matches r (d ∷ front)) (sym same) m),
      n,
    )

matches_sound : (r : Regex) (s : Text) → matches r s ≡ true → Matches r s
unfolding matches
matches_sound r [] h = nullable_sound r h
matches_sound r (b ∷ s) h = derive_sound r b s (matches_sound (derive b r) s h)

matches_complete : (r : Regex) (s : Text) → Matches r s → matches r s ≡ true
unfolding matches
matches_complete r [] m = nullable_complete r m
matches_complete r (b ∷ s) m = matches_complete (derive b r) s (derive_complete r b s m)

-- The matcher accepts exactly the texts that the regular expression stands for.
pub matches_iff : (r : Regex) (s : Text) → (matches r s ≡ true) ↔ Matches r s
matches_iff r s = (matches_sound r s, matches_complete r s)
