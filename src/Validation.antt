-- ===== src/Validation.antt =====
-- validation.go. The length of a text is counted in bytes; the classes hold ASCII characters only.
pub mod Regex
pub mod Accepted
mod Tests
use go_basicauth.Prelude.{
  ℕ, Bool, true, false, not, ◌&&◌, ◌||◌, ltb, leb, ◌==◌, List, [], ◌∷◌, ◌++◌, if◌then◌else◌, length,
  any,
}
use go_basicauth.Text.{Text, codes, text_eq}
use go_basicauth.Decimal.{format}
use go_basicauth.Types.{
  Result, ok, err, other, invalid_email, invalid_username, PasswordRequirements,
}
use go_basicauth.Validation.Regex.{class, seq, plus, star, matches}

abbrev pub is_upper : ℕ → Bool
is_upper b = leb b'A' b && leb b b'Z'

abbrev pub is_lower : ℕ → Bool
is_lower b = leb b'a' b && leb b b'z'

abbrev pub is_digit : ℕ → Bool
is_digit b = leb b'0' b && leb b b'9'

abbrev pub is_letter : ℕ → Bool
is_letter b = is_lower b || is_upper b

abbrev one_of : Text → ℕ → Bool
one_of cs b = any (λ c. b == c) cs

abbrev pub is_special : ℕ → Bool
is_special = one_of (codes "!@#$%^&*(),.?\":{}|<>")

abbrev pub is_local : ℕ → Bool
is_local b = is_letter b || is_digit b || one_of (codes "._%+-") b

abbrev pub is_domain : ℕ → Bool
is_domain b = is_letter b || is_digit b || one_of (codes ".-") b

abbrev pub is_word : ℕ → Bool
is_word b = is_letter b || is_digit b || b == b'_'

-- `^[a-zA-Z0-9._%+-]+@[a-zA-Z0-9.-]+\.[a-zA-Z]{2,}$`
abbrev pub email_regex : Regex.Regex
email_regex = seq (plus (class is_local)) (
    seq (class (λ b. b == b'@')) (
      seq (plus (class is_domain))
        (seq (class (λ b. b == b'.')) (seq (class is_letter) (plus (class is_letter))))))

-- `^[a-zA-Z0-9_]+$`
abbrev pub username_regex : Regex.Regex
username_regex = plus (class is_word)

unfoldable pub validate_email : Text → Result (Unit {0})
validate_email email =
    if text_eq email [] || not (matches email_regex email) then err invalid_email else ok tt

unfoldable pub validate_username : Text → Result (Unit {0})
validate_username username =
    if ltb (length username) 3 || ltb 50 (length username)
    then err (other (codes "username must be between 3 and 50 characters"))
    else if matches username_regex username
    then ok tt
    else err invalid_username

unfoldable pub validate_password : Text → PasswordRequirements → Result (Unit {0})
validate_password password reqs =
    if ltb (length password) reqs.min_length
    then err (
        other (
          codes "password must be at least "
          ++ (format reqs.min_length ++ codes " characters long")))
    else if reqs.require_uppercase && not (any is_upper password)
    then err (other (codes "password must contain at least one uppercase letter"))
    else if reqs.require_lowercase && not (any is_lower password)
    then err (other (codes "password must contain at least one lowercase letter"))
    else if reqs.require_numbers && not (any is_digit password)
    then err (other (codes "password must contain at least one number"))
    else if reqs.require_special && not (any is_special password)
    then err (other (codes "password must contain at least one special character"))
    else ok tt
