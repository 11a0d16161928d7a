-- ===== src/Service.antt =====
-- The endpoints together: RegisterRoutes of handler.go mounts the handlers behind RequireAuth, and a
-- client comes back with the cookies that it was given.
pub mod Evidence
pub mod Writes
pub mod Guesses
pub mod Redeemed
pub mod Runs
pub mod Budget
pub mod SingleUse
pub mod Saved
pub mod Origin
pub mod Trace
pub mod Provenance
pub mod Earned
mod Tests
use go_basicauth.Prelude.{
  ℕ, Bool, true, false, ◌&&◌, ◌≡◌, ◌⊎◌, Option, none, some, List, [], ◌∷◌, ◌++◌, if◌then◌else◌,
}
use go_basicauth.Text.{Text, text_eq}
use go_basicauth.Settings.{Options}
use go_basicauth.Storage.{Storage}
use go_basicauth.Request.{
  Context, Session, seconds, Flow, next, done, Action, ◌>>=◌, ◌>>◌, pure, Bound,
}
use go_basicauth.Tfa.{Draws}
use go_basicauth.Handler.{Libraries, Moment, whole_seconds}
use go_basicauth.Handler.Access.{
  Method, get, post, Endpoint, register, login, logout, me, tfa_setup, tfa_enable, tfa_disable,
  tfa_verify, Route, register_routes, require_auth, handle_me, handle_logout,
}
use go_basicauth.Handler.Login.{LoginRequest, handle_login}
use go_basicauth.Handler.Register.{RegisterRequest, handle_register}
use go_basicauth.Handler.Enrol.{
  TfaEnableRequest, TfaDisableRequest, handle_tfa_setup, handle_tfa_enable, handle_tfa_disable,
}
use go_basicauth.Handler.Verify.{TfaVerifyRequest, handle_tfa_verify}

-- A request on the wire: its route, and what ShouldBindJSON makes of its body for each handler.
pub record Request : Type 0 where
  pub method : Method
  pub path : Text
  pub registering : Bound RegisterRequest
  pub logging_in : Bound LoginRequest
  pub enabling : Bound TfaEnableRequest
  pub disabling : Bound TfaDisableRequest
  pub verifying : Bound TfaVerifyRequest
  pub draws : Draws

abbrev pub same_method : Method → Method → Bool
same_method get get = true
same_method post post = true
same_method _ _ = false

-- The engine's choice among the routes, whose paths have no parameters.
abbrev pub endpoint_of : Method → Text → List Route → Option Endpoint
endpoint_of method path [] = none
endpoint_of method path (route ∷ routes) =
    let rest = endpoint_of method path routes in
    if same_method method route.method && text_eq path route.path then some route.endpoint else rest

module _ {S V : Type 0} (lib : Libraries) (ops : Storage S) (o : Options V) (m : Moment) where
  -- The handlers, as RegisterRoutes mounts them.
  unfoldable pub handle : Request → Endpoint → Action S V (Unit {0})
  handle req register = handle_register lib ops o m req.registering
  handle req login = handle_login lib ops o m req.logging_in
  handle req logout = handle_logout lib ops o
  handle req me = handle_me lib ops o
  handle req tfa_setup = handle_tfa_setup lib ops o m
  handle req tfa_enable = handle_tfa_enable lib ops o m req.draws req.enabling
  handle req tfa_disable = handle_tfa_disable lib ops o m req.disabling
  handle req tfa_verify = handle_tfa_verify lib ops o m req.verifying

  -- A path of the application's own is left to it.
  abbrev pub route_to : Request → Option Endpoint → Action S V (Unit {0})
  route_to req none = pure tt
  route_to req (some endpoint) = handle req endpoint

  abbrev pub routed : Request → Action S V (Unit {0})
  routed req = route_to req (endpoint_of req.method req.path (register_routes lib ops o))

  unfoldable pub serve : Request → Action S V (Unit {0})
  serve req = do require_auth lib ops o req.path; routed req

-- What sessionStore.Get makes of no cookie, or of one that it refuses, and of a good one: the codec
-- carries the values and not the options.
module _ {V : Type 0} (o : Options V) where
  abbrev pub blank : Session
  blank = record {
    user_id = none;
    pending_tfa_user_id = none;
    pending_tfa_expires_at = none;
    pending_tfa_secret = none;
    max_age = seconds (whole_seconds o.settings.session_expiration);
  }

  abbrev pub reopened : Session → Session
  reopened s = record s { max_age = seconds (whole_seconds o.settings.session_expiration) }

-- The context of a new request.
abbrev pub received : {S V : Type 0} → S → Session → Bool → Context S V
received storage session broken = record {
  storage = storage;
  session = session;
  broken = broken;
  cookies = [];
  replies = [];
  user = none;
  value = none;
  aborted = false;
}
