-- ===== src/Handler/Login.antt =====
-- handleLogin, with the verification and the upgrade of legacy passwords.
pub mod Outcome
pub mod Upgrade
pub mod Imported
mod Tests
use go_basicauth.Prelude.{Bool, true, false, not, ◌&&◌, Option, none, some, if◌then◌else◌, is_some}
use go_basicauth.Text.{Text, codes, text_eq}
use go_basicauth.Types.{User, Result, ok, err}
use go_basicauth.Settings.{Options}
use go_basicauth.Password.{hash_password, verify_password}
use go_basicauth.Storage.{Storage}
use go_basicauth.Request.{
  Action, ◌>>=◌, ◌>>◌, pure, respond, refuse, refuse_if, or_refuse, Bound, bind, success_with_user,
  success_tfa_required,
}
use go_basicauth.Handler.{
  Libraries, Moment, store, ask, create_session, create_pending_tfa_session, set_user_in_context,
  get_user_by_identifier, to_user_response,
}

pub record LoginRequest : Type 0 where
  pub identifier : Text
  pub password : Text

module _ {S V : Type 0} (lib : Libraries) (ops : Storage S) (o : Options V) (m : Moment) where
  unfoldable pub upgrade_password_hash : User → Text → Action S V (Unit {0})
  upgrade_password_hash user password =
      elim (hash_password lib.argon2 m.random password o.settings.hashing_params) [
        | err e ↦ pure tt
        | ok new_hash ↦ do
          read ← ask (ops.get_user_by_id user.id)
          elim read [
            | err e ↦ pure tt
            | ok current ↦
                if text_eq current.password_hash user.password_hash
                then (do
                  store (
                      ops.update_user
                        (record current { password_hash = new_hash; updated_at = m.now }))
                  pure tt)
                else pure tt
          ]
      ]

  -- The verdict of LegacyPasswordVerifier; an error counts as a mismatch.
  abbrev pub legacy_accepts : Text → Text → Bool
  legacy_accepts password stored = elim o.settings.legacy_password_verifier [
    | none ↦ false
    | some verifier ↦ elim (verifier password stored) [ ok b ↦ b | err e ↦ false ]
  ]

  unfoldable pub verify_login_password : User → Text → Action S V Bool
  unfolding upgrade_password_hash
  verify_login_password user password =
      elim (verify_password lib.unicode lib.argon2 password user.password_hash) [
        | ok (valid, _) ↦ pure valid
        | err e ↦
            if legacy_accepts password user.password_hash
            then (do upgrade_password_hash user password; pure true)
            else pure false
      ]

  -- handleLogin behind the password, for a user with a second factor.
  unfoldable pub challenge : User → Action S V (Unit {0})
  unfolding create_pending_tfa_session
  challenge user = do
    created ← create_pending_tfa_session lib ops o m user
    or_refuse created 500 (codes "internal_error") o.settings.messages.internal_error
    respond 202 (success_tfa_required o.settings.messages.tfa_required)

  -- handleLogin behind the password, for a user without.
  unfoldable pub admit : User → Action S V (Unit {0})
  unfolding create_session set_user_in_context
  admit user = do
    created ← create_session lib user
    or_refuse created 500 (codes "internal_error") o.settings.messages.internal_error
    set_user_in_context lib ops o user
    respond 200 (success_with_user o.settings.messages.login_success (to_user_response user))

  abbrev pub has_second_factor : User → Bool
  has_second_factor user = o.settings.enable_tfa && user.totp_enabled && is_some user.totp_secret

  unfoldable pub handle_login : Bound LoginRequest → Action S V (Unit {0})
  unfolding verify_login_password challenge admit
  handle_login request = do
    req ← bind request
    read ← ask (get_user_by_identifier lib ops o req.identifier)
    user ← or_refuse read 401 (codes "invalid_credentials") o.settings.messages.invalid_credentials
    valid ← verify_login_password user req.password
    refuse_if (not valid) 401 (codes "invalid_credentials") o.settings.messages.invalid_credentials
    if has_second_factor user then challenge user else admit user
