-- ===== src/Service/Writes/Login.antt =====
-- What handleLogin writes to the storage.
use go_basicauth.Prelude.{ℕ, ◌≡◌, ◌⊎◌, inl, inr, refl, sym, ◌∙◌, true, arith, Bool-cases}
use mathlib.Core.Path.{subst}
use go_basicauth.Text.{Text, text_eq}
use go_basicauth.Types.{User, ok, err, Err, Result-cases}
use go_basicauth.Settings.{Options}
use go_basicauth.Storage.{Storage}
use go_basicauth.Storage.Calls.{Call, update, reset, after}
use go_basicauth.Storage.Written.{Written, Written-none, Written-call, Written-then}
use go_basicauth.Password.{hash_password}
use go_basicauth.Request.{Context, Bound, bound, unbound, next}
use go_basicauth.Handler.{Libraries, Moment, get_user_by_identifier}
use go_basicauth.Handler.Login.{
  LoginRequest, handle_login, has_second_factor, verify_login_password, upgrade_password_hash,
  challenge, admit,
}
use go_basicauth.Handler.Login.Outcome.{accepts}

module _ {S V : Type 0} (lib : Libraries) (ops : Storage S) (o : Options V) (m : Moment) where
  module _ (c : Context S V) where
    login-missing :
        (req : LoginRequest) {e : Err}
        → get_user_by_identifier lib ops o req.identifier c.storage ≡ err e
        → (handle_login lib ops o m (bound req) c).1.storage ≡ c.storage
    unfolding handle_login
    login-missing req missing = ground arith

    upgrade-storage :
        (user : User) (password : Text)
        → ((upgrade_password_hash lib ops o m user password c).1.storage ≡ c.storage)
          ⊎ ((x : User) × ((upgrade_password_hash lib ops o m user password c).1.storage
                ≡ after ops (update x) c.storage))
    unfolding upgrade_password_hash
    upgrade-storage user password =
        elim (Result-cases (hash_password lib.argon2 m.random password o.settings.hashing_params)) [
          | inl (e, failed) ↦ inl (ground arith)
          | inr (hash, hashed) ↦ elim (Result-cases (ops.get_user_by_id user.id c.storage)) [
            | inl (e, missing) ↦ inl (ground arith)
            | inr (current, read) ↦
                elim (Bool-cases (text_eq current.password_hash user.password_hash)) [
                  | inl same ↦
                      inr
                        (record current { password_hash = hash; updated_at = m.now }, ground arith)
                  | inr changed ↦ inl (ground arith)
                ]
          ]
        ]

    -- Behind the password there is at most the call of the upgrade.
    password-storage :
        (user : User) (req : LoginRequest)
        → ((verify_login_password lib ops o m user req.password c).0
            ≡ next (accepts lib ops o m req c user))
          × (((verify_login_password lib ops o m user req.password c).1.storage ≡ c.storage)
              ⊎ ((verify_login_password lib ops o m user req.password c).1.storage
                  ≡ (upgrade_password_hash lib ops o m user req.password c).1.storage))
    unfolding verify_login_password
    password-storage user req = ground arith

    challenge-storage :
        (user : User)
        → (challenge lib ops o m user c).1.storage ≡ after ops (reset user.id) c.storage
    unfolding challenge
    challenge-storage user = ground arith

    admit-storage : (user : User) → (admit lib ops o m user c).1.storage ≡ c.storage
    unfolding admit
    admit-storage user = ground arith

  login-storage :
      (c : Context S V) (req : LoginRequest) (user : User)
      → get_user_by_identifier lib ops o req.identifier c.storage ≡ ok user
      → let c' = (verify_login_password lib ops o m user req.password c).1 in
        ((handle_login lib ops o m (bound req) c).1.storage ≡ c'.storage)
        ⊎ ((accepts lib ops o m req c user ≡ true)
            × (has_second_factor lib ops o m user ≡ true)
            × ((handle_login lib ops o m (bound req) c).1.storage
                ≡ (challenge lib ops o m user c').1.storage))
  unfolding handle_login
  login-storage c req user found =
      let checked = password-storage c user req in
      let c' = (verify_login_password lib ops o m user req.password c).1 in
      elim (Bool-cases (has_second_factor lib ops o m user)) [
        | inl second ↦ elim (Bool-cases (accepts lib ops o m req c user)) [
          | inl right ↦ inr (right, second, ground (arith, checked.0))
          | inr wrong ↦ inl (ground (arith, checked.0))
        ]
        | inr single ↦ inl (ground (arith, checked.0, admit-storage c' user))
      ]

  -- Calls of a kind `P`, which may be granted something.
  module _ (P : Call → Type 0) (grant : Call → S → ℕ) where
    password-Written :
        (c : Context S V) (req : LoginRequest) (user : User)
        → ((x : User) → P (update x))
        → Written ops P grant c.storage
            (verify_login_password lib ops o m user req.password c).1.storage
            0
    password-Written c req user updates = elim (password-storage c user req).1 [
      | inl same ↦ Written-none ops P grant same
      | inr upgraded ↦ elim (upgrade-storage c user req.password) [
        | inl same ↦ Written-none ops P grant (upgraded ∙ same)
        | inr (x, made) ↦ Written-call ops P grant (update x) (updates x) (upgraded ∙ made)
      ]
    ]

    -- handleLogin calls UpdateUser, for the upgrade of a hash, and ResetTOTPAttempts, for a user with a
    -- second factor whose password is right.
    pub handle_login-Written :
        (c : Context S V) (r : Bound LoginRequest)
        → ((x : User) → P (update x))
        → ((req : LoginRequest) (user : User)
            → r ≡ bound req
            → get_user_by_identifier lib ops o req.identifier c.storage ≡ ok user
            → accepts lib ops o m req c user ≡ true
            → has_second_factor lib ops o m user ≡ true
            → P (reset user.id))
        → Written ops P grant c.storage (handle_login lib ops o m r c).1.storage 0
    unfolding handle_login
    handle_login-Written c (unbound message) updates resets = Written-none ops P grant refl
    handle_login-Written c (bound req) updates resets =
        elim (Result-cases (get_user_by_identifier lib ops o req.identifier c.storage)) [
          | inl (e, missing) ↦ Written-none ops P grant (login-missing c req missing)
          | inr (user, found) ↦
              let c' = (verify_login_password lib ops o m user req.password c).1 in
              let checked = password-Written c req user updates in
              elim (login-storage c req user found) [
                | inl same ↦ subst (λ t. Written ops P grant c.storage t 0) (sym same) checked
                | inr (right, second, same) ↦
                    subst (λ t. Written ops P grant c.storage t 0) (sym same)
                      (Written-then ops P grant checked (
                        Written-call ops P grant (reset user.id)
                          (resets req user refl found right second) (challenge-storage c' user)))
              ]
        ]
