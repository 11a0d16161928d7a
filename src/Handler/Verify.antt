-- ===== src/Handler/Verify.antt =====
-- handleTFAVerify of handler_tfa.go.
pub mod Steps
pub mod Sound
mod Tests
use go_basicauth.Prelude.{
  ℕ, Bool, true, false, not, ◌&&◌, ◌||◌, Option, none, some, List, [], ◌∷◌, ltb, leb, ◌==◌,
  if◌then◌else◌, is_some,
}
use go_basicauth.Text.{Text, codes, text_eq}
use go_basicauth.Types.{User, Uuid, Result, ok, err, Err, tfa_attempts_exhausted}
use go_basicauth.Settings.{Options}
use go_basicauth.Storage.{Storage}
use go_basicauth.Request.{
  Context, Session, as_string, as_int64, Flow, next, done, Action, ◌>>=◌, ◌>>◌, pure, respond,
  refuse, refuse_if, or_refuse, Bound, bind, success_with_user,
}
use go_basicauth.Handler.{
  Libraries, Moment, unix_milli, store, ask, edit, save, create_session, set_user_in_context,
  to_user_response,
}
use go_basicauth.Tfa.{validate_totp_code, find_backup_code_match}

pub record TfaVerifyRequest : Type 0 where
  pub code : Text
  pub is_backup_code : Bool

-- errors.Is(err, ErrTFAAttemptsExhausted)
abbrev pub is_exhausted : Err → Bool
is_exhausted tfa_attempts_exhausted = true
is_exhausted _ = false

module _ {S V : Type 0} (lib : Libraries) (ops : Storage S) (o : Options V) (m : Moment) where
  abbrev pub forget_pending : Session → Session
  forget_pending s = record s { pending_tfa_user_id = none; pending_tfa_expires_at = none }

  -- endPendingTFA
  unfoldable pub end_pending_tfa : Action S V (Unit {0})
  unfolding save
  end_pending_tfa = do edit forget_pending; save lib; pure tt

  abbrev internal_error : {A : Type 0} → Action S V A
  internal_error = refuse 500 (codes "internal_error") o.settings.messages.internal_error

  abbrev no_challenge : {A : Type 0} → Action S V A
  no_challenge = refuse 401 (codes "tfa_no_pending_challenge") o.settings.messages.tfa_pending_only

  abbrev invalid_code : {A : Type 0} → Action S V A
  invalid_code = refuse 401 (codes "invalid_tfa_code") o.settings.messages.invalid_tfa_code

  -- The user of a challenge, who must have a second factor.
  unfoldable pub challenged : Uuid → Action S V User
  challenged id = do
    read ← ask (ops.get_user_by_id id)
    user ← or_refuse read 401 (codes "unauthorized") o.settings.messages.unauthorized
    refuse_if (not user.totp_enabled || not (is_some user.totp_secret)) 400
        (codes "tfa_not_enabled") o.settings.messages.tfa_not_enabled
    pure user

  -- A challenge that has expired, or that is older than the expiry of challenges.
  unfoldable pub expired_challenge : Action S V User
  expired_challenge = do end_pending_tfa; no_challenge

  -- Up to the user whose challenge is pending.
  unfoldable pub pending_user : Action S V User
  pending_user c =
      let pending_id = as_string c.session.pending_tfa_user_id in
      if text_eq pending_id []
      then no_challenge c
      else if leb (as_int64 c.session.pending_tfa_expires_at) (unix_milli m.now)
      then expired_challenge c
      else elim (lib.uuid_parse pending_id) [ none ↦ no_challenge c | some id ↦ challenged id c ]

  -- The end of a challenge whose attempts are used up.
  unfoldable pub exhausted : {A : Type 0} → Action S V A
  exhausted = do end_pending_tfa; invalid_code

  -- The reservation of an attempt, where attempts are limited: what is left after it.
  unfoldable pub reserve : User → Action S V ℕ
  reserve user c =
      if o.settings.tfa.max_verify_attempts == 0
      then (next 0, c)
      else (do
        reserved ← store (ops.consume_totp_attempt user.id o.settings.tfa.max_verify_attempts)
        elim reserved [
          | ok remaining ↦ pure remaining
          | err e ↦ elim (is_exhausted e) [ true ↦ exhausted | false ↦ internal_error ]
        ])
          c

  -- *user.TOTPSecret, which pending_user has found not to be nil
  abbrev pub secret_of : User → Text
  secret_of user = elim user.totp_secret [ none ↦ [] | some secret ↦ secret ]

  abbrev pub totp_passes : User → TfaVerifyRequest → Bool
  totp_passes user req =
      not req.is_backup_code
      && validate_totp_code lib m.now (secret_of user) req.code o.settings.tfa

  -- Whether the code is right; a backup code is consumed.
  unfoldable pub check_code : User → TfaVerifyRequest → Action S V Bool
  check_code user req c =
      if totp_passes user req || o.settings.tfa.backup_code_count == 0
      then (next (totp_passes user req), c)
      else elim (find_backup_code_match lib user.backup_code_hashes req.code) [
        | none ↦ (next false, c)
        | some hash ↦
            (do
              consumed ← store (ops.consume_backup_code m.now user.id hash)
              or_refuse consumed 500 (codes "internal_error") o.settings.messages.internal_error)
              c
      ]

  -- What follows a wrong code.
  unfoldable pub reject : ℕ → Action S V (Unit {0})
  reject remaining c =
      if not (o.settings.tfa.max_verify_attempts == 0) && remaining == 0
      then exhausted c
      else invalid_code c

  -- What follows a right one.
  unfoldable pub accept : User → Action S V (Unit {0})
  accept user = do
    reset ← store (ops.reset_totp_attempts user.id)
    or_refuse reset 500 (codes "internal_error") o.settings.messages.internal_error
    edit forget_pending
    saved ← save lib
    or_refuse saved 500 (codes "internal_error") o.settings.messages.internal_error
    created ← create_session lib user
    or_refuse created 500 (codes "internal_error") o.settings.messages.internal_error
    (λ c. (next tt, record c { user = some user }))
    set_user_in_context lib ops o user
    respond 200 (success_with_user o.settings.messages.tfa_success (to_user_response user))

  unfoldable pub handle_tfa_verify : Bound TfaVerifyRequest → Action S V (Unit {0})
  handle_tfa_verify request = do
    user ← pending_user
    req ← bind request
    remaining ← reserve user
    verified ← check_code user req
    if verified then accept user else reject remaining
