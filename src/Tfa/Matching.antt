-- ===== src/Tfa/Matching.antt =====
-- findBackupCodeMatch against a description of what it looks for.
use go_basicauth.Prelude.{
  ◌≡◌, refl, ap, true, false, Option, none, some, List, [], ◌∷◌, ◌++◌, All, inl, inr,
}
use go_basicauth.Text.{Text, to_lower, trim_space}
use go_basicauth.Types.{ok, Result-cases}
use go_basicauth.Password.{Params, verify_password}
use go_basicauth.Handler.{Libraries}
use go_basicauth.Tfa.{find_backup_code_match, match_from}

module _ (lib : Libraries) (code : Text) where
  -- The hash was made of the code.
  abbrev pub Accepts : Text → Type 0
  Accepts h = (p : Params) × (verify_password lib.unicode lib.argon2 code h ≡ ok (true, p))

  -- The first hash that accepts the code, or none where none does.
  abbrev pub IsFirstMatch : List Text → Option Text → Type 0
  IsFirstMatch hashes none = All (λ h. ¬ Accepts h) hashes
  IsFirstMatch hashes (some h) =
      (before after : List Text) × (hashes ≡ before ++ h ∷ after)
      × All (λ g. ¬ Accepts g) before
      × Accepts h

  IsFirstMatch-cons :
      (h : Text) (hashes : List Text) (r : Option Text)
      → ¬ Accepts h
      → IsFirstMatch hashes r
      → IsFirstMatch (h ∷ hashes) r
  IsFirstMatch-cons h hashes none wrong rest = (wrong, rest)
  IsFirstMatch-cons h hashes (some g) wrong (before, after, listed, passed, right) =
      (h ∷ before, after, ap (λ l. h ∷ l) listed, (wrong, passed), right)

  match_from-IsFirstMatch : (hashes : List Text) → IsFirstMatch hashes (match_from lib code hashes)
  unfolding match_from
  match_from-IsFirstMatch [] = tt
  match_from-IsFirstMatch (h ∷ hashes) =
      let rest = match_from-IsFirstMatch hashes in
      elim (Result-cases (verify_password lib.unicode lib.argon2 code h)) [
        | inl (e, failed) ↦
            rw (failed, match_from)
              (IsFirstMatch-cons h hashes (match_from lib code hashes) (λ (p, same). cc) rest)
        | inr ((true, p), right) ↦ rw (right, match_from) ([], hashes, refl, tt, (p, right))
        | inr ((false, p), wrong) ↦
            rw (wrong, match_from)
              (IsFirstMatch-cons h hashes (match_from lib code hashes) (λ (q, same). cc) rest)
      ]

-- The search returns the first stored hash that verifies the code, trimmed and in lower case, and
-- returns none only where no stored hash verifies it.
pub find_backup_code_match-IsFirstMatch :
    (lib : Libraries) (hashes : List Text) (code : Text)
    → IsFirstMatch lib
        (to_lower lib.unicode (trim_space lib.unicode code))
        hashes
        (find_backup_code_match lib hashes code)
unfolding find_backup_code_match
find_backup_code_match-IsFirstMatch lib hashes code =
    match_from-IsFirstMatch lib (to_lower lib.unicode (trim_space lib.unicode code)) hashes
