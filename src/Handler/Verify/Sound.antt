-- ===== src/Handler/Verify/Sound.antt =====
-- Who gets through handleTFAVerify.
use go_basicauth.Prelude.{ℕ, ◌≡◌, ◌⊎◌, inl, inr, refl, Bool, true, false, if◌then◌else◌}
use go_basicauth.Text.{Text}
use go_basicauth.Types.{User}
use go_basicauth.Settings.{Options}
use go_basicauth.Storage.{Storage}
use go_basicauth.Request.{Context, Action, Flow, bound, unbound, bind, ◌>>=◌, >>=-elim}
use go_basicauth.Handler.{Libraries, Moment}
use go_basicauth.Handler.Verify.Steps.{
  IsPending, IsReserved, IsUnlogged, IsAccepted, after_reserve, HasPassed, Keeps,
  reject-IsUnlogged-Keeps, check_code-Keeps, check_code-HasPassed, pending_user-IsUnlogged,
  pending_user-IsPending, reserve-IsUnlogged, reserve-IsReserved, accept-IsAccepted-Keeps,
}
use go_basicauth.Handler.Verify.{
  TfaVerifyRequest, pending_user, reserve, check_code, reject, accept, handle_tfa_verify,
}

module _ {S V : Type 0} (lib : Libraries) (ops : Storage S) (o : Options V) (m : Moment) where
  -- What a request has to get past to be logged in by handleTFAVerify.
  pub record IsVerified (c : Context S V) (req : TfaVerifyRequest) : Type 0 where
    pub user : User
    pub remaining : ℕ
    pub pending : IsPending lib ops o m c user
    pub reserved : IsReserved lib ops o m c user remaining
    pub passed :
        HasPassed lib ops o m (record c { storage = after_reserve lib ops o m c user }) user req

  abbrev Outcome : Context S V → TfaVerifyRequest → Flow (Unit {0}) × Context S V → Type 0
  Outcome c req r =
      ((v : IsVerified c req) × IsAccepted lib ops o m c v.user r.1) ⊎ IsUnlogged lib ops o m c r.1

  -- What follows each step of the handler.
  abbrev decide : User → ℕ → Bool → Action S V (Unit {0})
  decide user remaining verified =
      if verified then accept lib ops o m user else reject lib ops o m remaining

  abbrev check : TfaVerifyRequest → User → ℕ → Action S V (Unit {0})
  check req user remaining = check_code lib ops o m user req >>= decide user remaining

  abbrev attempt : TfaVerifyRequest → User → Action S V (Unit {0})
  attempt req user = reserve lib ops o m user >>= check req user

  decide-Outcome :
      (c c' : Context S V) (req : TfaVerifyRequest) (user : User) (remaining : ℕ) (verified : Bool)
      → Keeps lib ops o m c c'
      → (verified ≡ true → (v : IsVerified c req) × (v.user ≡ user))
      → Outcome c req (decide user remaining verified c')
  decide-Outcome c c' req user remaining true kept right =
      let (v, same) = right refl in
      inl (v, rw same (accept-IsAccepted-Keeps lib ops o m c c' user kept))
  decide-Outcome c c' req user remaining false kept right =
      inr (reject-IsUnlogged-Keeps lib ops o m c c' remaining kept)

  check_code-Outcome :
      (c : Context S V) (req : TfaVerifyRequest) (user : User) (remaining : ℕ)
      → IsPending lib ops o m c user
      → IsReserved lib ops o m c user remaining
      → Outcome c req
          (check req user remaining (record c { storage = after_reserve lib ops o m c user }))
  check_code-Outcome c req user remaining pending reserved =
      let c' : Context S V = record c { storage = after_reserve lib ops o m c user } in
      let kept = check_code-Keeps lib ops o m c' user req in
      >>=-elim (Outcome c req) (check_code lib ops o m user req) (decide user remaining) c'
        (λ stopped. inr (kept.0, kept.1, inl kept.2))
        λ verified checked. decide-Outcome c _ req user remaining verified kept λ right. (
          record {
            user = user;
            remaining = remaining;
            pending = pending;
            reserved = reserved;
            passed = check_code-HasPassed lib ops o m c' user req (rw right at checked);
          },
          refl,
        )

  -- Either the request has a challenge that is pending and in time, for a stored user with a second
  -- factor, an attempt was reserved where attempts are limited, and the code is the one of the moment
  -- or a backup code that this request consumed; or nobody is logged in.
  pub handle_tfa_verify_sound :
      (c : Context S V) (req : TfaVerifyRequest)
      → ((v : IsVerified c req) × IsAccepted lib ops o m c v.user
            (handle_tfa_verify lib ops o m (bound req) c).1)
        ⊎ IsUnlogged lib ops o m c (handle_tfa_verify lib ops o m (bound req) c).1
  unfolding handle_tfa_verify
  handle_tfa_verify_sound c req =
      >>=-elim (Outcome c req) (pending_user lib ops o m) (attempt req) c
        (λ stopped. inr (pending_user-IsUnlogged lib ops o m c stopped))
        λ user went.
          let (pending, kept) = pending_user-IsPending lib ops o m c user went in
          rw kept (
            >>=-elim (Outcome c req) (reserve lib ops o m user) (check req user) c
              (λ stopped. inr (reserve-IsUnlogged lib ops o m c user stopped))
              λ remaining took.
                let (reserved, spent) = reserve-IsReserved lib ops o m c user remaining took in
                rw spent (check_code-Outcome c req user remaining pending reserved))

  -- A request that is no request for a verification logs nobody in.
  pub handle_tfa_verify_unbound :
      (c : Context S V) (message : Text)
      → IsUnlogged lib ops o m c (handle_tfa_verify lib ops o m (unbound message) c).1
  unfolding handle_tfa_verify
  handle_tfa_verify_unbound c message =
      >>=-elim (λ r. IsUnlogged lib ops o m c r.1) (pending_user lib ops o m)
        (λ user. bind (unbound message) >>= λ req. attempt req user) c
        (λ stopped. pending_user-IsUnlogged lib ops o m c stopped)
        λ user went.
          let (_, kept) = pending_user-IsPending lib ops o m c user went in
          rw kept (refl, refl, inl refl)
