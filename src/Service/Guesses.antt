-- ===== src/Service/Guesses.antt =====
-- What handleTFAVerify writes to the storage, and the codes that it looks at.
use go_basicauth.Prelude.{
  ℕ, ◌≤◌, ◌≡◌, ◌≢◌, inl, inr, refl, sym, ap, ◌∙◌, Bool, true, false, arith, ◌==◌, if◌then◌else◌,
}
use mathlib.Core.Path.{subst}
use go_basicauth.Types.{User, Uuid}
use go_basicauth.Settings.{Options}
use go_basicauth.Storage.{Storage}
use go_basicauth.Storage.Calls.{Call, attempt, code, reset, attempt_granted}
use go_basicauth.Storage.Budget.Attempts.{KeepsAttempts}
use go_basicauth.Storage.Written.{
  Written-followed, Written-at, Written, Written-none, Written-one, Written-call,
}
use go_basicauth.Request.{
  Context, Bound, bound, unbound, bind, next, done, Flow, Flow-cases, Action, ◌>>=◌, ◌>>◌, pure,
  >>=-elim, >>=-done, >>=-next,
}
use go_basicauth.Handler.{Libraries, Moment}
use go_basicauth.Handler.Verify.{
  TfaVerifyRequest, pending_user, reserve, check_code, reject, accept, handle_tfa_verify,
}
use go_basicauth.Handler.Verify.Steps.{max_attempts, reserve-IsReserved, pending_user-IsPending}
use go_basicauth.Service.Writes.Verify.{
  pending_user-storage, reserve-storage, check_code-storage, reject-storage, accept-storage,
}

module _ {S V : Type 0} (lib : Libraries) (ops : Storage S) (o : Options V) (m : Moment) where
  module _ (id : Uuid) where
    -- 1 where the flow goes on with the user
    abbrev pub reached : Flow User → ℕ
    reached done = 0
    reached (next user) = if user.id == id then 1 else 0

    -- handleTFAVerify as far as the reservation of an attempt; it looks at the code only then.
    abbrev pub examined : Bound TfaVerifyRequest → Action S V User
    examined r = do user ← pending_user lib ops o m; bind r; reserve lib ops o m user; pure user

    -- 1 where the request has a code for the user looked at
    abbrev pub guesses : Bound TfaVerifyRequest → Context S V → ℕ
    guesses r c = reached (examined r c).0

    -- The code was found right.
    abbrev pub FoundRight : Bound TfaVerifyRequest → Context S V → Type 0
    FoundRight r c =
        (user : User) × (req : TfaVerifyRequest) × (r ≡ bound req)
        × (user.id ≡ id)
        × ((examined r c).0 ≡ next user)
        × ((check_code lib ops o m user req (examined r c).1).0 ≡ next true)

    -- Calls that leave the attempts of the user as they are, or count them.
    abbrev Counted : Call → Type 0
    Counted = KeepsAttempts id (max_attempts lib ops o m)

    abbrev granting : Call → S → ℕ
    granting = attempt_granted ops id

    abbrev WithinId : S → S → ℕ → Type 0
    WithinId = Written ops Counted granting

    none_reached : {f : Flow User} {n : ℕ} → f ≡ done → reached f ≤ n
    none_reached stopped = rw stopped (omega arith)

    one_reached : {f g : Flow User} {n : ℕ} → f ≡ g → reached g ≤ n → reached f ≤ n
    one_reached {f} {g} {n} same low = subst (λ x. reached x ≤ n) (sym same) low

    decide-Within :
        (c : Context S V) (user : User) (remaining : ℕ) (verified : Bool)
        → (verified ≡ true → user.id ≢ id)
        → WithinId c.storage
            ((if verified then accept lib ops o m user else reject lib ops o m remaining)
              c).1.storage
            0
    decide-Within c user remaining true other =
        Written-call ops Counted granting (reset user.id) (other refl)
          (accept-storage lib ops o m c user)
    decide-Within c user remaining false other =
        Written-none ops Counted granting (reject-storage lib ops o m c remaining)

    check_code-Within :
        (c : Context S V) (user : User) (req : TfaVerifyRequest)
        → WithinId c.storage (check_code lib ops o m user req c).1.storage 0
    check_code-Within c user req = elim (check_code-storage lib ops o m c user req) [
      | inl same ↦ Written-none ops Counted granting same
      | inr (hash, made) ↦
          Written-call ops Counted granting (code m.now user.id hash) (λ renews. renews) made
    ]

    abbrev check : TfaVerifyRequest → User → ℕ → Action S V (Unit {0})
    check req user remaining = do
      verified ← check_code lib ops o m user req
      if verified then accept lib ops o m user else reject lib ops o m remaining

    check-Within :
        (c : Context S V) (user : User) (req : TfaVerifyRequest) (remaining : ℕ)
        → ((check_code lib ops o m user req c).0 ≡ next true → user.id ≢ id)
        → WithinId c.storage (check req user remaining c).1.storage 0
    check-Within c user req remaining other =
        >>=-elim (λ r. WithinId c.storage r.1.storage 0) (check_code lib ops o m user req)
          (λ verified. if verified then accept lib ops o m user else reject lib ops o m remaining) c
          (λ stopped. check_code-Within c user req)
          λ verified went. Written-followed ops Counted granting (check_code-Within c user req) (
            decide-Within _ user remaining verified
              (λ right. other (went ∙ ap (λ b. next b) right)))

    -- The reservation is granted where the user is the one in question and the flow goes on.
    granted_at_reserve :
        (c : Context S V) (user : User) (remaining : ℕ)
        → max_attempts lib ops o m ≢ 0
        → (reserve lib ops o m user c).0 ≡ next remaining
        → reached (next user)
          ≤ attempt_granted ops id (attempt user.id (max_attempts lib ops o m)) c.storage
    granted_at_reserve c user remaining limited went =
        elim (reserve-IsReserved lib ops o m c user remaining went).0 [
          | inl unlimited ↦ absurd (limited unlimited)
          | inr taken ↦ ground (arith, taken)
        ]

    reserve-Within :
        (c : Context S V) (user : User) (req : TfaVerifyRequest)
        → max_attempts lib ops o m ≢ 0
        → (user.id ≡ id
            → (reserve lib ops o m user c).0 ≢ done
            → (check_code lib ops o m user req (reserve lib ops o m user c).1).0 ≢ next true)
        → WithinId c.storage
            ((reserve lib ops o m user >>= check req user) c).1.storage
            (reached ((reserve lib ops o m user >> pure user) c).0)
    reserve-Within c user req limited wrong =
        let c' = (reserve lib ops o m user c).1 in
        let taken =
          Written-one ops Counted granting (attempt user.id (max_attempts lib ops o m)) (λ _. refl)
            (reserve-storage lib ops o m c user limited) in
        elim (Flow-cases (reserve lib ops o m user c).0) [
          | inl stopped ↦
              Written-at ops Counted granting
                (ap (λ r. r.1.storage)
                  (>>=-done (reserve lib ops o m user) (check req user) c stopped))
                (none_reached
                  (ap (λ r. r.0) (>>=-done (reserve lib ops o m user) (λ _. pure user) c stopped)))
                taken
          | inr (remaining, went) ↦
              Written-at ops Counted granting
                (ap (λ r. r.1.storage)
                  (>>=-next (reserve lib ops o m user) (check req user) c remaining went))
                (one_reached
                  (ap (λ r. r.0)
                    (>>=-next (reserve lib ops o m user) (λ _. pure user) c remaining went))
                  (granted_at_reserve c user remaining limited went))
                (Written-followed ops Counted granting taken (
                  check-Within c' user req remaining
                    (λ right mine. wrong mine (λ stopped. cc (went, stopped)) right)))
        ]

    -- What follows the pending challenge.
    abbrev tried : Bound TfaVerifyRequest → User → Action S V (Unit {0})
    tried r user = do req ← bind r; remaining ← reserve lib ops o m user; check req user remaining

    abbrev looked : Bound TfaVerifyRequest → User → Action S V User
    looked r user = do bind r; reserve lib ops o m user; pure user

    from_pending :
        {A : Type 0} (f : User → Action S V A) (c : Context S V) (user : User)
        → (pending_user lib ops o m c).0 ≡ next user
        → (pending_user lib ops o m >>= f) c ≡ f user c
    from_pending f c user went =
        >>=-next (pending_user lib ops o m) f c user went
        ∙ ap (f user) (pending_user-IsPending lib ops o m c user went).1

    tried-Within :
        (c : Context S V) (r : Bound TfaVerifyRequest) (user : User)
        → max_attempts lib ops o m ≢ 0
        → (pending_user lib ops o m c).0 ≡ next user
        → ¬ FoundRight r c
        → WithinId c.storage (tried r user c).1.storage (reached (looked r user c).0)
    tried-Within c (unbound message) user limited went wrong =
        Written-none ops Counted granting refl
    tried-Within c (bound req) user limited went wrong =
        reserve-Within c user req limited λ mine goes right.
          elim (Flow-cases (reserve lib ops o m user c).0) [
            | inl stopped ↦ goes stopped
            | inr (remaining, reserved) ↦
                let e =
                  from_pending (looked (bound req)) c user went
                  ∙ >>=-next (reserve lib ops o m user) (λ _. pure user) c remaining reserved in
                wrong (
                  user,
                  req,
                  refl,
                  mine,
                  ap (λ p. p.0) e,
                  ap (λ p. (check_code lib ops o m user req p.1).0) e ∙ right,
                )
          ]

    -- Where attempts are limited, the calls of a request to handleTFAVerify neither renew the attempts
    -- of the user nor take another limit, unless the code is found right, and one attempt is granted
    -- for a code that is looked at.
    pub handle_tfa_verify-Within :
        (c : Context S V) (r : Bound TfaVerifyRequest)
        → max_attempts lib ops o m ≢ 0
        → ¬ FoundRight r c
        → WithinId c.storage (handle_tfa_verify lib ops o m r c).1.storage (guesses r c)
    unfolding handle_tfa_verify
    handle_tfa_verify-Within c r limited wrong = elim (Flow-cases (pending_user lib ops o m c).0) [
      | inl stopped ↦
          Written-at ops Counted granting
            (ap (λ p. p.1.storage) (>>=-done (pending_user lib ops o m) (tried r) c stopped))
            (none_reached
              (ap (λ p. p.0) (>>=-done (pending_user lib ops o m) (looked r) c stopped)))
            (Written-none ops Counted granting (pending_user-storage lib ops o m c))
      | inr (user, went) ↦
          Written-at ops Counted granting
            (ap (λ p. p.1.storage) (from_pending (tried r) c user went))
            (one_reached (ap (λ p. p.0) (from_pending (looked r) c user went)) (omega arith))
            (tried-Within c r user limited went wrong)
    ]
