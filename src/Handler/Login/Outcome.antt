-- ===== src/Handler/Login/Outcome.antt =====
-- What handleLogin answers, and what it lets into the session.
use go_basicauth.Prelude.{◌≡◌, ◌⊎◌, inl, inr, Bool, true, false, some, [], ◌∷◌, ◌++◌, arith}
use go_basicauth.Text.{codes}
use go_basicauth.Types.{User, ok, err, Err}
use go_basicauth.Settings.{Options}
use go_basicauth.Password.{verify_password}
use go_basicauth.Storage.{Storage}
use go_basicauth.Request.{Context, Session, done, bound, error_response, string, success_with_user}
use go_basicauth.Handler.{
  Libraries, Moment, get_user_by_identifier, pending_session, to_user_response,
}
use go_basicauth.Handler.Login.{LoginRequest, legacy_accepts, handle_login, has_second_factor}

module _ {S V : Type 0} (lib : Libraries) (ops : Storage S) (o : Options V) (m : Moment)
    (req : LoginRequest) (c : Context S V) where
  -- The password is right, by argon2id or, for a hash that cannot be read, by the legacy verifier.
  abbrev pub accepts : User → Bool
  accepts user = elim (verify_password lib.unicode lib.argon2 req.password user.password_hash) [
    | ok (valid, _) ↦ valid
    | err e ↦ legacy_accepts lib ops o m req.password user.password_hash
  ]

  abbrev pub credentials_refused : Context S V
  credentials_refused = record c {
    replies =
        c.replies
        ++ record {
          status = 401;
          body =
              error_response (codes "invalid_credentials") o.settings.messages.invalid_credentials;
        }
          ∷ [];
  }

  -- Without an account, and with a wrong password, login does the very same: it answers 401 with one
  -- message, and changes neither the storage nor the session.
  pub handle_login_refused :
      ((e : Err) × (get_user_by_identifier lib ops o req.identifier c.storage ≡ err e))
        ⊎ ((user : User) × (get_user_by_identifier lib ops o req.identifier c.storage ≡ ok user)
            × (accepts user ≡ false))
      → handle_login lib ops o m (bound req) c ≡ (done, credentials_refused)
  unfolding handle_login
  handle_login_refused (inl (e, missing)) = ground arith
  handle_login_refused (inr (user, found, wrong)) = ground arith

  module _ (user : User)
      (found : get_user_by_identifier lib ops o req.identifier c.storage ≡ ok user) where
    -- A user with a second factor does not get past login with the password alone: the only session
    -- that is saved is a pending one, which names no user as logged in, and only if the password is
    -- right; no user is put in the context.
    pub handle_login_pending :
        has_second_factor lib ops o m user ≡ true
        → (((handle_login lib ops o m (bound req) c).1.cookies ≡ c.cookies)
            ⊎ ((accepts user ≡ true)
                × ((handle_login lib ops o m (bound req) c).1.cookies
                    ≡ c.cookies ++ pending_session lib ops o m user c.session ∷ [])))
          × ((handle_login lib ops o m (bound req) c).1.user ≡ c.user)
          × ((handle_login lib ops o m (bound req) c).1.value ≡ c.value)
    unfolding handle_login
    handle_login_pending second = ground arith

    abbrev pub user_session : Session
    user_session = record c.session { user_id = some (string (lib.uuid_string user.id)) }

    -- A user without a second factor logs in with the right password, if the session can be saved.
    pub handle_login_admitted :
        has_second_factor lib ops o m user ≡ false
        → accepts user ≡ true
        → lib.encodes user_session ≡ true
        → ((handle_login lib ops o m (bound req) c).1.cookies ≡ c.cookies ++ user_session ∷ [])
          × ((handle_login lib ops o m (bound req) c).1.replies
              ≡ c.replies
                ++ record {
                  status = 200;
                  body =
                      success_with_user o.settings.messages.login_success (to_user_response user);
                }
                  ∷ [])
    unfolding handle_login
    handle_login_admitted single right fits = ground arith
