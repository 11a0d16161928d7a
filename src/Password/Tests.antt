-- ===== src/Password/Tests.antt =====
-- A password that is hashed and verified.
use go_basicauth.Prelude.{◌≡◌, refl, true, some, arith}
use go_basicauth.Text.{Text, codes, text_eq}
use go_basicauth.Text.Split.{split, split_once}
use go_basicauth.Types.{ok, err, invalid_hash}
use go_basicauth.Password.{hash_password, verify_password, scan_version, decode_params}
use go_basicauth.Decimal.{scan_int}
use go_basicauth.Base64.{decode}
use go_basicauth.Password.Bounds.{Checked, verify_password-Checked, verify_password-err}
use go_basicauth.Password.RoundTrip.{key_for, verify_password-hash_password}
use go_basicauth.Samples.{
  ascii, argon2_19, small_params, repeat, repeat-IsByte, argon2_19-IsArgon2, small_params-IsUsable,
}

verify_password-hash_password_example :
    (h : Text) × (hash_password argon2_19 (λ n. some (repeat 7 n)) (codes "secret") small_params
      ≡ ok h)
    × (verify_password ascii argon2_19 (codes "secret") h ≡ ok (true, small_params))
    × ((other : Text)
        → verify_password ascii argon2_19 other h
          ≡ ok (
            text_eq
                (key_for ascii argon2_19-IsArgon2 small_params (repeat 7 16) (codes "secret"))
                (key_for ascii argon2_19-IsArgon2 small_params (repeat 7 16) other),
            small_params,
          ))
verify_password-hash_password_example =
    verify_password-hash_password ascii argon2_19-IsArgon2 (λ n. some (repeat 7 n)) small_params
      (repeat 7 16) (codes "secret") small_params-IsUsable refl refl
      (repeat-IsByte 7 16 (omega arith)) (omega arith) (omega arith)

abbrev stored : Text
stored = codes "$argon2id$v=19$m=65536,t=3,p=2$AAAAAAAAAAAAAAAAAAAAAA$BgYGBgYGBgYGBgYGBgYGBg"

secret_verified : verify_password ascii argon2_19 (codes "secret") stored ≡ ok (true, small_params)
unfolding verify_password split text_eq scan_version scan_int decode_params split_once decode
secret_verified = refl

verify_password-Checked_example :
    Checked ascii argon2_19 (codes "secret") (split b'$' stored) true small_params
verify_password-Checked_example =
    verify_password-Checked ascii argon2_19 (codes "secret") stored true small_params
      secret_verified

no_hash : verify_password ascii argon2_19 (codes "secret") (codes "plain") ≡ err invalid_hash
unfolding verify_password split text_eq
no_hash = refl

verify_password-err_example :
    verify_password ascii argon2_19 (codes "guess") (codes "plain") ≡ err invalid_hash
verify_password-err_example =
    verify_password-err ascii argon2_19 (codes "secret") (codes "guess") (codes "plain") no_hash
