-- ===== src/Validation/Tests.antt =====
-- Texts that are accepted and refused.
use go_basicauth.Prelude.{◌≡◌, ◌≤◌, ◌↔◌, refl, true, length}
use go_basicauth.Text.{codes, text_eq}
use go_basicauth.Types.{ok, err, invalid_email, invalid_username}
use go_basicauth.Settings.{default_settings}
use go_basicauth.Validation.{
  is_word, is_upper, is_lower, is_digit, is_special, username_regex, validate_email,
  validate_username, validate_password,
}
use go_basicauth.Validation.Regex.{matches}
use go_basicauth.Validation.Regex.Meaning.{Matches, matches_iff}
use go_basicauth.Validation.Accepted.{
  Chars, IsAddress, Meets, validate_username_iff, validate_email_iff, validate_password_iff,
}

email_accepted : validate_email (codes "a.b@x-y.io") ≡ ok tt
unfolding validate_email matches text_eq
email_accepted = refl

email_refused : validate_email (codes "a.b@x-y.i") ≡ err invalid_email
unfolding validate_email matches text_eq
email_refused = refl

username_refused : validate_username (codes "ann lee") ≡ err invalid_username
unfolding validate_username matches
username_refused = refl

matches_iff_example :
    (matches username_regex (codes "ann") ≡ true) ↔ Matches username_regex (codes "ann")
matches_iff_example = matches_iff username_regex (codes "ann")

validate_email_iff_example : (validate_email (codes "a@x.io") ≡ ok tt) ↔ IsAddress (codes "a@x.io")
validate_email_iff_example = validate_email_iff (codes "a@x.io")

validate_username_iff_example :
    (validate_username (codes "ann") ≡ ok tt)
    ↔ ((3 ≤ length (codes "ann")) × (length (codes "ann") ≤ 50) × Chars is_word (codes "ann"))
validate_username_iff_example = validate_username_iff (codes "ann")

validate_password_iff_example :
    (validate_password (codes "Passw0rd") default_settings.password_requirements ≡ ok tt) ↔ (
      (8 ≤ length (codes "Passw0rd"))
      × Meets true is_upper (codes "Passw0rd")
      × Meets true is_lower (codes "Passw0rd")
      × Meets true is_digit (codes "Passw0rd")
      × Meets default_settings.password_requirements.require_special is_special (codes "Passw0rd"))
validate_password_iff_example =
    validate_password_iff (codes "Passw0rd") default_settings.password_requirements
