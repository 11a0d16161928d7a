-- ===== src/Handler/Register.antt =====
-- handleRegister of handler.go.
pub mod Sound
mod Tests
use go_basicauth.Prelude.{
  ℕ, Bool, true, false, not, ◌&&◌, Option, none, some, is_some, List, [], ◌∷◌, ◌++◌, if◌then◌else◌,
}
use go_basicauth.Text.{Text, codes}
use go_basicauth.Types.{User, Result, ok, err, Err, other, invalid_email, invalid_username}
use go_basicauth.Settings.{Options}
use go_basicauth.Password.{hash_password}
use go_basicauth.Storage.{Storage}
use go_basicauth.Request.{
  Context, Flow, next, done, Action, ◌>>=◌, ◌>>◌, pure, respond, refuse, refuse_if, or_refuse,
  Bound, bind, success_with_user,
}
use go_basicauth.Handler.{
  Libraries, Moment, store, ask, create_session, set_user_in_context, to_user_response,
}
use go_basicauth.Validation.{validate_email, validate_username, validate_password}

pub record RegisterRequest : Type 0 where
  pub username : Option Text
  pub email : Option Text
  pub password : Text

-- err.Error(), for the errors of the two validations
abbrev error_text : Err → Text
error_text (other message) = message
error_text invalid_email = codes "invalid email format"
error_text invalid_username = codes "invalid username format"
error_text _ = []

abbrev succeeded {ℓ} : {A : Type ℓ} → Result A → Bool
succeeded (ok _) = true
succeeded (err _) = false

module _ {S V : Type 0} (lib : Libraries) (ops : Storage S) (o : Options V) (m : Moment) where
  -- An optional field is given, and is refused by its validation.
  abbrev refuse_invalid : Option Text → (Text → Result (Unit {0})) → Text → Action S V (Unit {0})
  refuse_invalid none validate error = pure tt
  refuse_invalid (some field) validate error = elim (validate field) [
    | ok _ ↦ pure tt
    | err e ↦ refuse 400 error (error_text e)
  ]

  -- An optional field is given, and a user has it.
  abbrev pub is_taken : (Text → S → Result User) → Option Text → S → Bool
  is_taken get none s = false
  is_taken get (some field) s = succeeded (get field s)

  -- The checks of the request alone.
  unfoldable pub admissible : RegisterRequest → Action S V (Unit {0})
  admissible req = do
    refuse_if (not (is_some req.username) && not (is_some req.email)) 400 (codes "invalid_request")
        (codes "username or email required")
    refuse_if (is_some req.username && not o.settings.enable_username_login) 400
        (codes "invalid_request") (codes "registration method not enabled")
    refuse_if (is_some req.email && not o.settings.enable_email_login) 400 (codes "invalid_request")
        (codes "registration method not enabled")
    refuse_invalid req.username validate_username (codes "invalid_username")
    refuse_invalid req.email validate_email (codes "invalid_email")
    refuse_if (not (succeeded (validate_password req.password o.settings.password_requirements)))
        400 (codes "weak_password") o.settings.messages.password_too_weak

  -- The checks against the storage.
  unfoldable pub available : RegisterRequest → Action S V (Unit {0})
  available req = do
    by_name ← ask (is_taken ops.get_user_by_username req.username)
    refuse_if by_name 409 (codes "user_exists") o.settings.messages.user_already_exists
    by_mail ← ask (is_taken ops.get_user_by_email req.email)
    refuse_if by_mail 409 (codes "user_exists") o.settings.messages.user_already_exists

  abbrev pub new_user : RegisterRequest → Text → User
  new_user req hash = record {
    id = m.new_uuid;
    username = req.username;
    email = req.email;
    password_hash = hash;
    created_at = m.now;
    updated_at = m.now;
    is_technical_user = false;
    api_key_hash = none;
    totp_secret = none;
    totp_enabled = false;
    totp_enrolled_at = none;
    backup_code_hashes = [];
    totp_failed_attempts = 0;
  }

  -- handleRegister past its checks.
  unfoldable pub enter : RegisterRequest → Action S V (Unit {0})
  unfolding create_session set_user_in_context
  enter req = do
    hash ←
        or_refuse (hash_password lib.argon2 m.random req.password o.settings.hashing_params) 500
          (codes "internal_error") o.settings.messages.internal_error
    created ← store (ops.create_user (new_user req hash))
    or_refuse created 500 (codes "internal_error") o.settings.messages.internal_error
    saved ← create_session lib (new_user req hash)
    or_refuse saved 500 (codes "internal_error") o.settings.messages.internal_error
    set_user_in_context lib ops o (new_user req hash)
    respond 201 (
        success_with_user o.settings.messages.registration_success
          (to_user_response (new_user req hash)))

  unfoldable pub handle_register : Bound RegisterRequest → Action S V (Unit {0})
  unfolding admissible available enter
  handle_register request = do req ← bind request; admissible req; available req; enter req
