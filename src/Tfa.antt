-- ===== src/Tfa.antt =====
-- tfa.go: TOTP keys and codes, and backup codes.
pub mod Matching
pub mod Issued
mod Tests
use go_basicauth.Prelude.{
  ℕ, zero, suc, ◌+◌, ◌*◌, Bool, false, ◌||◌, Option, none, some, List, [], ◌∷◌, ◌++◌, ltb, ◌==◌,
  if◌then◌else◌, length,
}
use go_basicauth.Text.{Text, codes, text_eq, to_lower, trim_space, runes}
use go_basicauth.Types.{User, Time, Result, ok, err, other}
use go_basicauth.Settings.{TfaSettings}
use go_basicauth.Password.{Params, Random, hash_password, verify_password}
use go_basicauth.Handler.{Libraries}

-- `if p != nil && *p != ""`
abbrev or_else : Option Text → Text → Text
or_else none d = d
or_else (some []) d = d
or_else (some (c ∷ s)) d = c ∷ s

module _ (lib : Libraries) where
  unfoldable pub tfa_account_label : TfaSettings → User → Text
  tfa_account_label settings user =
      let custom : Option Text = elim settings.account_label [
        | none ↦ none
        | some label ↦ some (label user)
      ] in
      or_else custom (or_else user.username (or_else user.email (lib.uuid_string user.id)))

  -- The key as its secret and its URL.
  unfoldable pub generate_totp_key : Random → TfaSettings → User → Result (Text × Text)
  generate_totp_key random settings user =
      if text_eq settings.issuer []
      then err (other (codes "TFA.Issuer is required"))
      else lib.generate settings.issuer (tfa_account_label settings user) settings.period
          settings.digits random

  unfoldable pub validate_totp_code : Time → Text → Text → TfaSettings → Bool
  validate_totp_code now secret code settings =
      elim (lib.validate_custom (trim_space lib.unicode code) secret now settings.period
        settings.skew_windows settings.digits) [ ok valid ↦ valid | err e ↦ false ]

  -- The loop of findBackupCodeMatch, over the normalised code.
  pub match_from : Text → List Text → Option Text
  match_from code [] = none
  match_from code (h ∷ hashes) =
      let rest = match_from code hashes in
      elim (verify_password lib.unicode lib.argon2 code h) [
        | ok (valid, _) ↦ if valid then some h else rest
        | err e ↦ rest
      ]

  -- `("", false)` is `none`
  unfoldable pub find_backup_code_match : List Text → Text → Option Text
  unfolding match_from
  find_backup_code_match hashes code =
      match_from (to_lower lib.unicode (trim_space lib.unicode code)) hashes

-- How many different runes there are: len(seen).
abbrev pub mem_text : Text → List Text → Bool
mem_text r [] = false
mem_text r (s ∷ rs) = text_eq r s || mem_text r rs

abbrev pub distinct : List Text → ℕ
distinct [] = 0
distinct (r ∷ rs) = (if mem_text r rs then 0 else 1) + distinct rs

-- alpha[n]; the draw is below the length of alpha
abbrev pub rune_at : List Text → ℕ → Text
rune_at [] n = []
rune_at (r ∷ rs) zero = r
rune_at (r ∷ rs) (suc n) = rune_at rs n

-- What the source of randomness gives: `int i max` is the i-th call of rand.Int, a number below
-- `max` or none where it fails, and `salt i` is what the i-th call of HashPassword reads.
pub record Draws : Type 0 where
  pub int : ℕ → ℕ → Option ℕ
  pub salt : ℕ → Random

-- The inner loop: `length` more runes of one code, from the draw `i` on.
pub draw_code : Draws → List Text → ℕ → ℕ → Result Text
draw_code draws alpha i zero = ok []
draw_code draws alpha i (suc n) =
    let rest = draw_code draws alpha (suc i) n in
    elim (draws.int i (length alpha)) [
      | none ↦ err (other (codes "rand"))
      | some k ↦ elim rest [ err e ↦ err e | ok code ↦ ok (rune_at alpha k ++ code) ]
    ]

module _ (lib : Libraries) (draws : Draws) (params : Params) (alpha : List Text) (size : ℕ) where
  -- The outer loop: `count` more codes, from the code `i` on.
  pub draw_codes : ℕ → ℕ → Result (List Text × List Text)
  draw_codes i zero = ok ([], [])
  draw_codes i (suc count) =
      let rest = draw_codes (suc i) count in
      elim (draw_code draws alpha (i * size) size) [
        | err e ↦ err e
        | ok code ↦ elim (hash_password lib.argon2 (draws.salt i) code params) [
          | err e ↦ err e
          | ok h ↦ elim rest [ err e ↦ err e | ok (plain, hashed) ↦ ok (code ∷ plain, h ∷ hashed) ]
        ]
      ]

-- The codes and their hashes.
unfoldable pub generate_backup_codes :
    Libraries → Draws → ℕ → ℕ → Text → Params → Result (List Text × List Text)
unfolding draw_codes draw_code
generate_backup_codes lib draws count size alphabet params =
    let alpha = runes lib.unicode (to_lower lib.unicode alphabet) in
    if size == 0
    then err (other (codes "TFA.BackupCodeLength must be > 0"))
    else if ltb (distinct alpha) 2
    then err (other (codes "TFA.BackupCodeAlphabet must contain at least 2 distinct characters"))
    else draw_codes lib draws params alpha size 0 count
