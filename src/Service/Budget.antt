-- ===== src/Service/Budget.antt =====
-- How often the codes of a user can be guessed at in a run of the service.
mod Tests
use mathlib.Core.Path.{subst}
use go_basicauth.Prelude.{
  ℕ, ◌+◌, ◌-◌, ◌≤◌, ◌≡◌, ◌≢◌, refl, sym, ap, ◌∙◌, true, Option, none, some, List, [], ◌∷◌, ◌++◌,
  All, All-append, arith,
}
use go_basicauth.Text.{Text}
use go_basicauth.Types.{User, Uuid, ok}
use go_basicauth.Settings.{Options}
use go_basicauth.Storage.{Storage}
use go_basicauth.Storage.Calls.{Call, after, attempt_granted, total}
use go_basicauth.Storage.Contract.{Directory, Contract}
use go_basicauth.Storage.Budget.Attempts.{KeepsAttempts, attempts-le}
use go_basicauth.Storage.Written.{Written, Written-none, Written-one, Written-then, Written-fewer}
use go_basicauth.Request.{Context, bound, Flow, next, done, >>=-elim}
use go_basicauth.Handler.{Libraries, Moment}
use go_basicauth.Handler.Access.{
  Endpoint, register, login, logout, me, tfa_setup, tfa_enable, tfa_disable, tfa_verify,
  register_routes, require_auth,
}
use go_basicauth.Handler.Login.{LoginRequest}
use go_basicauth.Handler.Enrol.{TfaEnableRequest, TfaDisableRequest}
use go_basicauth.Service.{Request, endpoint_of, handle, route_to, routed, serve}
use go_basicauth.Service.Evidence.{Served}
use go_basicauth.Service.Runs.{Run, Run-Written, weight}
use go_basicauth.Service.Trace.{reached, passed, event, require_auth-keeps}
use go_basicauth.Service.Writes.{handle_me-storage, handle_logout-storage}
use go_basicauth.Service.Writes.Login.{handle_login-Written}
use go_basicauth.Service.Writes.Register.{handle_register-Written}
use go_basicauth.Service.Writes.Enrol.{
  handle_tfa_setup-storage, handle_tfa_enable-Written, handle_tfa_disable-Written,
}
use go_basicauth.Handler.{get_user_by_identifier}
use go_basicauth.Handler.Login.Outcome.{accepts}
use go_basicauth.Handler.Login.{has_second_factor}
use go_basicauth.Handler.Enrol.{is_password}
use go_basicauth.Service.Guesses.{guesses, FoundRight, handle_tfa_verify-Within}

module _ {S V : Type 0} (lib : Libraries) (ops : Storage S) (o : Options V) (id : Uuid) where
  abbrev limit : ℕ
  limit = o.settings.tfa.max_verify_attempts

  abbrev Counted : Call → Type 0
  Counted = KeepsAttempts id limit

  abbrev granting : Call → S → ℕ
  granting = attempt_granted ops id

  -- The request gives the right password of the user, who has a second factor.
  abbrev Challenged : Served S V → LoginRequest → Type 0
  Challenged e r =
      (user : User) × (get_user_by_identifier lib ops o r.identifier e.before.storage ≡ ok user)
      × (accepts lib ops o e.at r e.before user ≡ true)
      × (has_second_factor lib ops o e.at user ≡ true)
      × (user.id ≡ id)

  -- The request is the user's own, and gives its password.
  abbrev pub OwnPassword : Served S V → Text → Type 0
  OwnPassword e password =
      (user : User) × (e.before.user ≡ some user)
      × (user.id ≡ id)
      × (is_password lib ops o e.at user password ≡ true)

  -- The requests that may give the user new attempts: a login with the right password of a user with
  -- a second factor, a right code, and, with the password, the change of the second factor.
  abbrev RenewingAt : Served S V → Endpoint → Type 0
  RenewingAt e login = (r : LoginRequest) × (e.request.logging_in ≡ bound r) × Challenged e r
  RenewingAt e tfa_enable =
      (r : TfaEnableRequest) × (e.request.enabling ≡ bound r) × OwnPassword e r.password
  RenewingAt e tfa_disable =
      (r : TfaDisableRequest) × (e.request.disabling ≡ bound r) × OwnPassword e r.password
  RenewingAt e tfa_verify = FoundRight lib ops o e.at id e.request.verifying e.before
  RenewingAt e register = ⊥
  RenewingAt e logout = ⊥
  RenewingAt e me = ⊥
  RenewingAt e tfa_setup = ⊥

  abbrev pub Renewing : Served S V → Type 0
  Renewing e = RenewingAt e e.endpoint

  -- 1 where the request has a code for the user looked at
  abbrev guess_at : Served S V → Endpoint → ℕ
  guess_at e tfa_verify = guesses lib ops o e.at id e.request.verifying e.before
  guess_at e _ = 0

  abbrev pub guess : Served S V → ℕ
  guess e = guess_at e e.endpoint

  handle-Within :
      (limited : limit ≢ 0) (m : Moment) (req : Request) (c : Context S V) (to : Endpoint)
      → ¬ RenewingAt (record { at = m; request = req; endpoint = to; before = c }) to
      → Written ops Counted granting c.storage
          (handle lib ops o m req to c).1.storage
          (guess_at (record { at = m; request = req; endpoint = to; before = c }) to)
  unfolding handle
  handle-Within limited m req c register other =
      handle_register-Written lib ops o m Counted granting c req.registering (λ x renews. renews)
  handle-Within limited m req c login other =
      handle_login-Written lib ops o m Counted granting c req.logging_in (λ x renews. renews)
        (λ r user asked found right second mine.
          other (r, asked, (user, found, right, second, mine)))
  handle-Within limited m req c logout other =
      Written-none ops Counted granting (handle_logout-storage lib ops o c)
  handle-Within limited m req c me other =
      Written-none ops Counted granting (handle_me-storage lib ops o c)
  handle-Within limited m req c tfa_setup other =
      Written-none ops Counted granting (handle_tfa_setup-storage lib ops o m c)
  handle-Within limited m req c tfa_enable other =
      handle_tfa_enable-Written lib ops o m Counted granting c req.draws req.enabling
        (λ r user secret hashes asked present right mine.
          other (r, asked, (user, present, mine, right)))
  handle-Within limited m req c tfa_disable other =
      handle_tfa_disable-Written lib ops o m Counted granting c req.disabling
        (λ r user asked present right mine. other (r, asked, (user, present, mine, right)))
  handle-Within limited m req c tfa_verify other =
      handle_tfa_verify-Within lib ops o m id c req.verifying limited other

  -- With a storage that keeps its contract and a limit on attempts, a run of the service in which
  -- neither a request nor a call of the application renews the attempts of a stored user has at most
  -- as many codes for the user looked at as the stored counter leaves below the limit, whoever sends
  -- the requests and with whatever sessions.
  pub guessed-le :
      {fold : Text → Text} {view : S → Directory} {IsValid : S → Type 0} {s t : S}
      {h : List (Served S V)} {x : User}
      → Contract fold ops view IsValid
      → limit ≢ 0
      → IsValid s
      → view s id ≡ some x
      → Run lib ops o Counted s h t
      → All (λ e. ¬ Renewing e) h
      → weight guess h ≤ limit - x.totp_failed_attempts
  guessed-le {s = s} {x = x} contract limited valid at run kept =
      let w =
        Run-Written lib ops o Counted granting guess Renewing
          (λ e other. handle-Within limited e.at e.request e.before e.endpoint other) run kept in
      omega (arith, w.counted, attempts-le contract id limit w.calls s x valid w.only at)
