-- ===== src/Service/SingleUse.antt =====
-- How often a backup code logs its user in, in a run of the service.
mod Tests
use go_basicauth.Prelude.{ℕ, ◌≤◌, ◌≡◌, ◌≢◌, refl, true, some, List, [], ◌∷◌, All, arith}
use go_basicauth.Text.{Text}
use go_basicauth.Types.{User, Uuid}
use go_basicauth.Settings.{Options}
use go_basicauth.Storage.{Storage}
use go_basicauth.Storage.Calls.{Call, code_consumed}
use go_basicauth.Storage.Contract.{Directory, Contract}
use go_basicauth.Storage.Budget.Codes.{KeepsCodes, count, codes-le}
use go_basicauth.Storage.Written.{Written, Written-none}
use go_basicauth.Request.{Context, bound}
use go_basicauth.Handler.{Libraries, Moment}
use go_basicauth.Handler.Access.{
  Endpoint, register, login, logout, me, tfa_setup, tfa_enable, tfa_disable, tfa_verify,
}
use go_basicauth.Handler.Enrol.{TfaEnableRequest, TfaDisableRequest, is_password}
use go_basicauth.Service.{Request, handle}
use go_basicauth.Service.Evidence.{Served}
use go_basicauth.Service.Budget.{OwnPassword}
use go_basicauth.Service.Runs.{Run, Run-Written, weight}
use go_basicauth.Service.Writes.{handle_me-storage, handle_logout-storage}
use go_basicauth.Service.Writes.Login.{handle_login-Written}
use go_basicauth.Service.Writes.Register.{handle_register-Written}
use go_basicauth.Service.Writes.Enrol.{
  handle_tfa_setup-storage, handle_tfa_enable-Written, handle_tfa_disable-Written,
}
use go_basicauth.Service.Redeemed.{redeemed, handle_tfa_verify-WithinCodes}

module _ {S V : Type 0} (lib : Libraries) (ops : Storage S) (o : Options V) (id : Uuid)
    (hash : Text) where
  abbrev Kept : Call → Type 0
  Kept = KeepsCodes id

  abbrev consuming : Call → S → ℕ
  consuming = code_consumed ops id hash

  -- The requests that may replace the backup codes of the user.
  abbrev ReplacingAt : Served S V → Endpoint → Type 0
  ReplacingAt e tfa_enable =
      (r : TfaEnableRequest) × (e.request.enabling ≡ bound r)
      × OwnPassword lib ops o id e r.password
  ReplacingAt e tfa_disable =
      (r : TfaDisableRequest) × (e.request.disabling ≡ bound r)
      × OwnPassword lib ops o id e r.password
  ReplacingAt e _ = ⊥

  abbrev pub Replacing : Served S V → Type 0
  Replacing e = ReplacingAt e e.endpoint

  -- 1 where the request is accepted for the backup code
  abbrev use_at : Served S V → Endpoint → ℕ
  use_at e tfa_verify = redeemed lib ops o e.at id hash e.request.verifying e.before
  use_at e _ = 0

  abbrev pub use_of_code : Served S V → ℕ
  use_of_code e = use_at e e.endpoint

  handle-WithinCodes :
      (m : Moment) (req : Request) (c : Context S V) (to : Endpoint)
      → ¬ ReplacingAt (record { at = m; request = req; endpoint = to; before = c }) to
      → Written ops Kept consuming c.storage
          (handle lib ops o m req to c).1.storage
          (use_at (record { at = m; request = req; endpoint = to; before = c }) to)
  unfolding handle
  handle-WithinCodes m req c register other =
      handle_register-Written lib ops o m Kept consuming c req.registering (λ x. tt)
  handle-WithinCodes m req c login other =
      handle_login-Written lib ops o m Kept consuming c req.logging_in (λ x. tt)
        (λ r user asked found right second. tt)
  handle-WithinCodes m req c logout other =
      Written-none ops Kept consuming (handle_logout-storage lib ops o c)
  handle-WithinCodes m req c me other =
      Written-none ops Kept consuming (handle_me-storage lib ops o c)
  handle-WithinCodes m req c tfa_setup other =
      Written-none ops Kept consuming (handle_tfa_setup-storage lib ops o m c)
  handle-WithinCodes m req c tfa_enable other =
      handle_tfa_enable-Written lib ops o m Kept consuming c req.draws req.enabling
        (λ r user secret hashes asked present right mine.
          other (r, asked, (user, present, mine, right)))
  handle-WithinCodes m req c tfa_disable other =
      handle_tfa_disable-Written lib ops o m Kept consuming c req.disabling
        (λ r user asked present right mine. other (r, asked, (user, present, mine, right)))
  handle-WithinCodes m req c tfa_verify other =
      handle_tfa_verify-WithinCodes lib ops o m id hash c req.verifying

  -- With a storage that keeps its contract, a run of the service in which no request enrols a stored
  -- user or disables its second factor with the password, and no call of the application enrols,
  -- disables or deletes the user, accepts a backup code of the user at most as often as its hash
  -- stands in the stored list, whoever sends the requests and with whatever sessions.
  pub redeemed-le :
      {fold : Text → Text} {view : S → Directory} {IsValid : S → Type 0} {s t : S}
      {h : List (Served S V)} {x : User}
      → Contract fold ops view IsValid
      → IsValid s
      → view s id ≡ some x
      → Run lib ops o Kept s h t
      → All (λ e. ¬ Replacing e) h
      → weight use_of_code h ≤ count hash x.backup_code_hashes
  redeemed-le {s = s} {x = x} contract valid at run kept =
      let w =
        Run-Written lib ops o Kept consuming use_of_code Replacing
          (λ e other. handle-WithinCodes e.at e.request e.before e.endpoint other) run kept in
      omega (arith, w.counted, codes-le contract id hash w.calls s x valid w.only at)
