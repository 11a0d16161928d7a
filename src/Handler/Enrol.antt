-- ===== src/Handler/Enrol.antt =====
-- handleTFASetup, handleTFAEnable and handleTFADisable of handler_tfa.go.
pub mod Sound
mod Tests
use go_basicauth.Prelude.{
  ℕ, Bool, true, false, not, Option, none, some, List, [], ◌∷◌, ◌++◌, ◌==◌, if◌then◌else◌,
}
use go_basicauth.Text.{Text, codes, text_eq}
use go_basicauth.Types.{User, Result, ok, err}
use go_basicauth.Settings.{Options}
use go_basicauth.Password.{verify_password}
use go_basicauth.Storage.{Storage}
use go_basicauth.Request.{
  Context, Session, string, as_string, Flow, next, done, Action, ◌>>=◌, ◌>>◌, pure, respond, refuse,
  refuse_if, or_refuse, Bound, bind, success_response, tfa_setup_response, tfa_enable_response,
}
use go_basicauth.Handler.{Libraries, Moment, store, edit, get_session, get_user_from_context, save}
use go_basicauth.Tfa.{
  Draws, tfa_account_label, generate_totp_key, validate_totp_code, generate_backup_codes,
}

pub record TfaEnableRequest : Type 0 where
  pub code : Text
  pub password : Text

pub record TfaDisableRequest : Type 0 where
  pub password : Text

module _ {S V : Type 0} (lib : Libraries) (ops : Storage S) (o : Options V) (m : Moment) where
  abbrev current_user : Action S V User
  current_user = do
    read ← λ c. (next (get_user_from_context c), c)
    or_refuse read 401 (codes "unauthorized") o.settings.messages.unauthorized

  -- VerifyPassword, where an error counts as a mismatch
  abbrev pub is_password : User → Text → Bool
  is_password user password =
      elim (verify_password lib.unicode lib.argon2 password user.password_hash) [
        | ok (valid, _) ↦ valid
        | err e ↦ false
      ]

  unfoldable pub handle_tfa_setup : Action S V (Unit {0})
  unfolding save
  handle_tfa_setup = do
    user ← current_user
    refuse_if user.totp_enabled 409 (codes "tfa_already_enabled")
        o.settings.messages.tfa_already_enabled
    (secret, url) ←
        or_refuse (generate_totp_key lib m.random o.settings.tfa user) 500 (codes "internal_error")
          o.settings.messages.internal_error
    edit (λ s. record s { pending_tfa_secret = some (string secret) })
    saved ← save lib
    or_refuse saved 500 (codes "internal_error") o.settings.messages.internal_error
    respond 200 (
        tfa_setup_response (record {
          secret = secret;
          otpauth_url = url;
          issuer = o.settings.tfa.issuer;
          account_name = tfa_account_label lib o.settings.tfa user;
        }))

  -- The backup codes of an enrolment and their hashes; none where no codes are configured.
  abbrev pub new_codes : Draws → Result (List Text × List Text)
  new_codes draws =
      if o.settings.tfa.backup_code_count == 0
      then ok ([], [])
      else generate_backup_codes lib draws o.settings.tfa.backup_code_count
          o.settings.tfa.backup_code_length o.settings.tfa.backup_code_alphabet
          o.settings.hashing_params

  -- handleTFAEnable past its checks.
  unfoldable pub enable : Draws → User → Text → Action S V (Unit {0})
  unfolding save
  enable draws user secret = do
    (plain, hashed) ←
        or_refuse (new_codes draws) 500 (codes "internal_error") o.settings.messages.internal_error
    written ← store (ops.set_totp m.now user.id secret hashed)
    or_refuse written 500 (codes "internal_error") o.settings.messages.internal_error
    edit (λ s. record s { pending_tfa_secret = none })
    saved ← save lib
    or_refuse saved 500 (codes "internal_error") o.settings.messages.internal_error
    respond 200 (tfa_enable_response plain)

  unfoldable pub handle_tfa_enable : Draws → Bound TfaEnableRequest → Action S V (Unit {0})
  handle_tfa_enable draws request = do
    user ← current_user
    refuse_if user.totp_enabled 409 (codes "tfa_already_enabled")
        o.settings.messages.tfa_already_enabled
    req ← bind request
    refuse_if (not (is_password user req.password)) 401 (codes "invalid_credentials")
        o.settings.messages.invalid_credentials
    session ← get_session
    let secret = as_string session.pending_tfa_secret
    refuse_if (text_eq secret []) 400 (codes "tfa_no_pending_setup")
        (codes "no pending TFA setup; call /tfa/setup first")
    refuse_if (not (validate_totp_code lib m.now secret req.code o.settings.tfa)) 401
        (codes "invalid_tfa_code") o.settings.messages.invalid_tfa_code
    enable draws user secret

  unfoldable pub handle_tfa_disable : Bound TfaDisableRequest → Action S V (Unit {0})
  handle_tfa_disable request = do
    user ← current_user
    refuse_if (not user.totp_enabled) 400 (codes "tfa_not_enabled")
        o.settings.messages.tfa_not_enabled
    req ← bind request
    refuse_if (not (is_password user req.password)) 401 (codes "invalid_credentials")
        o.settings.messages.invalid_credentials
    cleared ← store (ops.clear_totp m.now user.id)
    or_refuse cleared 500 (codes "internal_error") o.settings.messages.internal_error
    respond 200 (success_response o.settings.messages.tfa_disabled)
