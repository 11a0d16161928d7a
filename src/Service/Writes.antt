-- ===== src/Service/Writes.antt =====
-- What the handlers write to the storage: calls of the kinds that the handler makes. Handlers of one
-- area have a child module; those here write nothing.
pub mod Login
pub mod Register
pub mod Enrol
pub mod Verify
use go_basicauth.Prelude.{
  ℕ, ◌≡◌, ◌⊎◌, inl, inr, refl, sym, ◌∙◌, true, some, none, List, arith, Option-cases, Bool-cases,
}
use mathlib.Core.Path.{subst}
use go_basicauth.Text.{Text, text_eq}
use go_basicauth.Types.{User, Uuid, ok, err, Err, Result-cases}
use go_basicauth.Settings.{Options}
use go_basicauth.Storage.{Storage}
use go_basicauth.Storage.Calls.{Call, create, update, reset, enrol, disable, after, attempt_granted}
use go_basicauth.Storage.Budget.Attempts.{KeepsAttempts}
use go_basicauth.Storage.Written.{Written, Written-none, Written-call, Written-then}
use go_basicauth.Password.{hash_password}
use go_basicauth.Request.{Context, Bound, bound, unbound, next, as_string}
use go_basicauth.Handler.{Libraries, Moment, get_user_by_identifier}
use go_basicauth.Handler.Access.{handle_me, handle_logout}
use go_basicauth.Handler.Login.{
  LoginRequest, handle_login, has_second_factor, verify_login_password, upgrade_password_hash,
  challenge, admit,
}
use go_basicauth.Handler.Login.Outcome.{accepts}
use go_basicauth.Handler.Register.{RegisterRequest, handle_register, new_user, enter}
use go_basicauth.Handler.Enrol.{
  TfaEnableRequest, TfaDisableRequest, enable, new_codes, is_password, handle_tfa_setup,
  handle_tfa_enable, handle_tfa_disable,
}
use go_basicauth.Tfa.{Draws}

module _ {S V : Type 0} (lib : Libraries) (ops : Storage S) (o : Options V) where
  pub handle_me-storage : (c : Context S V) → (handle_me lib ops o c).1.storage ≡ c.storage
  unfolding handle_me
  handle_me-storage c = ground arith

  pub handle_logout-storage : (c : Context S V) → (handle_logout lib ops o c).1.storage ≡ c.storage
  unfolding handle_logout
  handle_logout-storage c = ground arith
