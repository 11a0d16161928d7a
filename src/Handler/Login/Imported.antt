-- ===== src/Handler/Login/Imported.antt =====
-- Logins with the bcrypt hashes of another system.
use go_basicauth.Prelude.{
  ◌≡◌, ◌≢◌, ◌↔◌, true, false, some, arith, length, ◌⊎◌, if◌then◌else◌, Bool-cases, inl, inr,
}
use go_basicauth.Text.{Text}
use go_basicauth.Text.Split.{split}
use go_basicauth.Types.{User, ok}
use go_basicauth.Settings.{Options}
use go_basicauth.Password.Bounds.{verify_password_of_other_shape}
use go_basicauth.Storage.{Storage}
use go_basicauth.Request.{Context, Flow, next, done, bound}
use go_basicauth.Handler.{Libraries, Moment, get_user_by_identifier}
use go_basicauth.Handler.Login.{
  LoginRequest, handle_login, verify_login_password, has_second_factor, challenge, admit,
}
use go_basicauth.Handler.Login.Outcome.{accepts, credentials_refused, handle_login_refused}
use go_basicauth.Bcrypt.{Compared, matched, bcrypt_verifier}

module _ {S V : Type 0} (lib : Libraries) (ops : Storage S) (o : Options V) (m : Moment)
    (req : LoginRequest) (c : Context S V) (user : User)
    (compare_hash : Text → Text → Compared) where
  accepts_iff_matched :
      o.settings.legacy_password_verifier ≡ some (bcrypt_verifier compare_hash)
      → length (split b'$' user.password_hash) ≢ 6
      → (accepts lib ops o m req c user ≡ true)
        ↔ (compare_hash user.password_hash req.password ≡ matched)
  unfolding bcrypt_verifier
  accepts_iff_matched configured ne = ground (
    arith,
    verify_password_of_other_shape lib.unicode lib.argon2 req.password user.password_hash ne,
  )

  verify_login_password-accepts :
      (verify_login_password lib ops o m user req.password c).0
      ≡ next (accepts lib ops o m req c user)
  unfolding verify_login_password
  verify_login_password-accepts = ground arith

  -- Behind the verification of the password.
  abbrev verified : Context S V
  verified = (verify_login_password lib ops o m user req.password c).1

  -- Whether bcrypt says that the stored hash and the password match.
  abbrev pub Matches : Type 0
  Matches = compare_hash user.password_hash req.password ≡ matched

  -- A match leads to the challenge or, without a second factor, to the admission; anything else to
  -- the refusal of credentials.
  abbrev pub FollowsBcrypt : Flow (Unit {0}) × Context S V → Type 0
  FollowsBcrypt r =
      (Matches
        × (((has_second_factor lib ops o m user ≡ true) × (r ≡ challenge lib ops o m user verified))
            ⊎ ((has_second_factor lib ops o m user ≡ false)
                × (r ≡ admit lib ops o m user verified))))
      ⊎ ((¬ Matches) × (r ≡ (done, credentials_refused lib ops o m req c)))

  goes_on :
      get_user_by_identifier lib ops o req.identifier c.storage ≡ ok user
      → accepts lib ops o m req c user ≡ true
      → handle_login lib ops o m (bound req) c
        ≡ (if has_second_factor lib ops o m user
              then challenge lib ops o m user
              else admit lib ops o m user)
            verified
  unfolding handle_login
  goes_on found right = ground (arith, verify_login_password-accepts)

  -- With BcryptVerifier configured, for a user whose stored hash has not the six parts of an argon2id
  -- one: verifyLoginPassword accepts exactly where bcrypt says that hash and password match, and
  -- handleLogin goes on to the challenge or the admission of the user on a match, and answers every
  -- mismatch and every error of bcrypt with the refusal of credentials and nothing else.
  pub handle_login-FollowsBcrypt :
      get_user_by_identifier lib ops o req.identifier c.storage ≡ ok user
      → o.settings.legacy_password_verifier ≡ some (bcrypt_verifier compare_hash)
      → length (split b'$' user.password_hash) ≢ 6
      → (((verify_login_password lib ops o m user req.password c).0 ≡ next true) ↔ Matches)
        × FollowsBcrypt (handle_login lib ops o m (bound req) c)
  handle_login-FollowsBcrypt found configured ne =
      let says = accepts_iff_matched configured ne in
      let told = verify_login_password-accepts in
      (
        ground (arith, says, told),
        elim (Bool-cases (accepts lib ops o m req c user)) [
          | inl right ↦
              let went = goes_on found right in
              inl (
                says.0 right,
                elim (Bool-cases (has_second_factor lib ops o m user)) [
                  | inl second ↦ inl (second, rw second at went)
                  | inr single ↦ inr (single, rw single at went)
                ],
              )
          | inr wrong ↦ inr (
            (λ match. cc (says.1 match, wrong)),
            handle_login_refused lib ops o m req c (inr (user, found, wrong)),
          )
        ],
      )
