-- ===== src/Tfa/Tests.antt =====
-- Codes that are issued and looked for.
use go_basicauth.Prelude.{◌≡◌, ◌%◌, refl, some, List, [], ◌∷◌, All, arith, length}
use go_basicauth.Types.{ok}
use go_basicauth.Text.{Text, runes, codes, text_eq, to_lower, trim_space}
use go_basicauth.Tfa.Issued.{IsRandom, IsIssued, generate_backup_codes-IsIssued}
use go_basicauth.Tfa.{Draws, generate_backup_codes, find_backup_code_match}
use go_basicauth.Tfa.Matching.{IsFirstMatch, find_backup_code_match-IsFirstMatch}
use go_basicauth.Samples.{
  libraries, secret_hash, repeat, repeat-IsByte, argon2_19-IsArgon2, small_params,
  small_params-IsUsable,
}

find_backup_code_match-IsFirstMatch_example :
    IsFirstMatch libraries
      (to_lower libraries.unicode (trim_space libraries.unicode (codes " Secret ")))
      (codes "h" ∷ secret_hash ∷ [])
      (find_backup_code_match libraries (codes "h" ∷ secret_hash ∷ []) (codes " Secret "))
find_backup_code_match-IsFirstMatch_example =
    find_backup_code_match-IsFirstMatch libraries (codes "h" ∷ secret_hash ∷ []) (codes " Secret ")

-- A source that counts.
abbrev counting : Draws
counting = record { int = λ i max. some (i % max); salt = λ i n. some (repeat 7 n) }

counting-IsRandom : IsRandom counting small_params
counting-IsRandom = record {
  int_below = λ i max low. (i % max, refl, omega (arith, low));
  salt_read = λ i. (repeat 7 16, refl, refl, repeat-IsByte 7 16 (omega arith));
}

generate_backup_codes-IsIssued_example :
    (plain hashed : List Text) × (generate_backup_codes libraries counting 2 4
        (codes "AbC7")
        small_params
      ≡ ok (plain, hashed))
    × (length plain ≡ 2)
    × All (IsIssued libraries 4 hashed) plain
unfolding to_lower runes text_eq
generate_backup_codes-IsIssued_example =
    generate_backup_codes-IsIssued libraries counting 2 4 (codes "AbC7") small_params
      argon2_19-IsArgon2 small_params-IsUsable counting-IsRandom
      ((refl, refl), ((refl, refl), ((refl, refl), ((refl, refl), tt)))) (omega arith) (omega arith)
      (omega arith)
