-- ===== src/Service/Evidence.antt =====
-- What a request proves of its client.
use go_basicauth.Prelude.{◌≡◌, ◌⊎◌, Bool, true, false, none, some}
use go_basicauth.Text.{Text}
use go_basicauth.Types.{User, ok}
use go_basicauth.Settings.{Options}
use go_basicauth.Storage.{Storage}
use go_basicauth.Password.{hash_password}
use go_basicauth.Request.{Context, Session, string, bound}
use go_basicauth.Handler.{Libraries, Moment, get_user_by_identifier}
use go_basicauth.Handler.Access.{Endpoint, register, login, tfa_verify}
use go_basicauth.Handler.Login.{LoginRequest, has_second_factor}
use go_basicauth.Handler.Login.Outcome.{accepts}
use go_basicauth.Handler.Register.{RegisterRequest, new_user}
use go_basicauth.Handler.Verify.{TfaVerifyRequest}
use go_basicauth.Handler.Verify.Sound.{IsVerified}
use go_basicauth.Service.{Request}

-- A request that reached a handler, and the context in which it did.
pub record Served (S V : Type 0) : Type 0 where
  pub at : Moment
  pub request : Request
  pub endpoint : Endpoint
  pub before : Context S V

module _ {S V : Type 0} (lib : Libraries) (ops : Storage S) (o : Options V) where
  -- The password was right for a stored user.
  pub record ProvedPassword (e : Served S V) (second : Bool) : Type 0 where
    pub is_login : e.endpoint ≡ login
    pub request : LoginRequest
    pub asked : e.request.logging_in ≡ bound request
    pub user : User
    pub found : get_user_by_identifier lib ops o request.identifier e.before.storage ≡ ok user
    pub right : accepts lib ops o e.at request e.before user ≡ true
    pub factors : has_second_factor lib ops o e.at user ≡ second

  pub record ProvedCode (e : Served S V) : Type 0 where
    pub is_verify : e.endpoint ≡ tfa_verify
    pub request : TfaVerifyRequest
    pub asked : e.request.verifying ≡ bound request
    pub verified : IsVerified lib ops o e.at e.before request

  pub record Registered (e : Served S V) : Type 0 where
    pub is_register : e.endpoint ≡ register
    pub request : RegisterRequest
    pub asked : e.request.registering ≡ bound request
    pub hash : Text
    pub hashed :
        hash_password lib.argon2 e.at.random request.password o.settings.hashing_params ≡ ok hash
    pub taken : (ops.create_user (new_user lib ops o e.at request hash) e.before.storage).0 ≡ ok tt

  -- The request logged in under the name of a user id.
  pub data LoggedInBy (e : Served S V) (name : Text) : Type 0 where
    by_password :
        (p : ProvedPassword e false) → name ≡ lib.uuid_string p.user.id → LoggedInBy e name
    by_code : (p : ProvedCode e) → name ≡ lib.uuid_string p.verified.user.id → LoggedInBy e name
    by_registration : Registered e → name ≡ lib.uuid_string e.at.new_uuid → LoggedInBy e name

  -- The request was answered by a challenge for the user id.
  abbrev pub ChallengedBy : Served S V → Text → Type 0
  ChallengedBy e name = (p : ProvedPassword e true) × (name ≡ lib.uuid_string p.user.id)

  -- A session that names nobody, or whom the session of the request named, or whom the request proved.
  pub record Origin (e : Served S V) (s : Session) : Type 0 where
    pub user :
        (s.user_id ≡ none)
        ⊎ ((s.user_id ≡ e.before.session.user_id)
            ⊎ ((name : Text) × (s.user_id ≡ some (string name)) × LoggedInBy e name))
    pub pending :
        (s.pending_tfa_user_id ≡ none)
        ⊎ ((s.pending_tfa_user_id ≡ e.before.session.pending_tfa_user_id)
            ⊎ ((name : Text) × (s.pending_tfa_user_id ≡ some (string name)) × ChallengedBy e name))
