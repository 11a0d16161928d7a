-- ===== src/Handler/Enrol/Sound.antt =====
-- What a request has to bring to change the second factor of its user.
use go_basicauth.Prelude.{
  ◌≡◌, ◌⊎◌, inl, inr, true, false, some, List, [], arith, Option-cases, Bool-cases,
}
use go_basicauth.Text.{Text, text_eq}
use go_basicauth.Types.{User, ok, Result-cases}
use go_basicauth.Settings.{Options}
use go_basicauth.Storage.{Storage}
use go_basicauth.Request.{Context, as_string, bound}
use go_basicauth.Handler.{Libraries, Moment}
use go_basicauth.Tfa.{Draws, validate_totp_code}
use go_basicauth.Handler.Enrol.{
  TfaEnableRequest, TfaDisableRequest, is_password, new_codes, enable, handle_tfa_enable,
  handle_tfa_disable,
}

module _ {S V : Type 0} (lib : Libraries) (ops : Storage S) (o : Options V) (m : Moment) where
  -- What handleTFAEnable writes, and what it demands first: the password of a user without a second
  -- factor, a secret from the setup, and a code of the moment for that secret.
  pub record IsEnrolled (draws : Draws) (c : Context S V) (req : TfaEnableRequest) (t : S)
      : Type 0 where
    pub user : User
    pub logged_in : c.user ≡ some user
    pub single : user.totp_enabled ≡ false
    pub owner : is_password lib ops o m user req.password ≡ true
    pub set_up : text_eq (as_string c.session.pending_tfa_secret) [] ≡ false
    pub proved :
        validate_totp_code lib m.now
          (as_string c.session.pending_tfa_secret)
          req.code
          o.settings.tfa
        ≡ true
    pub plain : List Text
    pub hashed : List Text
    pub issued : new_codes lib ops o m draws ≡ ok (plain, hashed)
    pub written :
        t ≡ (ops.set_totp m.now user.id (as_string c.session.pending_tfa_secret) hashed c.storage).1

  enable_lem :
      (draws : Draws) (user : User) (secret : Text) (c : Context S V)
      → ((enable lib ops o m draws user secret c).1.storage ≡ c.storage)
        ⊎ ((plain hashed : List Text) × (new_codes lib ops o m draws ≡ ok (plain, hashed))
            × ((enable lib ops o m draws user secret c).1.storage
                ≡ (ops.set_totp m.now user.id secret hashed c.storage).1))
  unfolding enable
  enable_lem draws user secret c = elim (Result-cases (new_codes lib ops o m draws)) [
    | inl (e, failed) ↦ inl (ground arith)
    | inr ((plain, hashed), issued) ↦ inr (plain, hashed, issued, ground arith)
  ]

  -- handleTFAEnable leaves the storage alone, or the request enrolled its user: with the password of
  -- a user without a second factor, a code of the moment for the secret of the setup, and that secret
  -- and the hashes of the new codes written.
  pub handle_tfa_enable_sound :
      (draws : Draws) (c : Context S V) (req : TfaEnableRequest)
      → ((handle_tfa_enable lib ops o m draws (bound req) c).1.storage ≡ c.storage)
        ⊎ IsEnrolled draws c req (handle_tfa_enable lib ops o m draws (bound req) c).1.storage
  unfolding handle_tfa_enable
  handle_tfa_enable_sound draws c req =
      let secret = as_string c.session.pending_tfa_secret in
      elim (Option-cases c.user) [
        | inl missing ↦ inl (ground arith)
        | inr (user, logged_in) ↦ elim (Bool-cases user.totp_enabled) [
          | inl enrolled ↦ inl (ground arith)
          | inr single ↦ elim (Bool-cases (is_password lib ops o m user req.password)) [
            | inr wrong ↦ inl (ground arith)
            | inl owner ↦ elim (Bool-cases (text_eq secret [])) [
              | inl empty ↦ inl (ground arith)
              | inr set_up ↦
                  elim (Bool-cases (validate_totp_code lib m.now secret req.code o.settings.tfa)) [
                    | inr unproved ↦ inl (ground arith)
                    | inl proved ↦ elim (enable_lem draws user secret c) [
                      | inl kept ↦ inl (ground arith)
                      | inr (plain, hashed, issued, written) ↦ inr (record {
                        user = user;
                        logged_in = logged_in;
                        single = single;
                        owner = owner;
                        set_up = set_up;
                        proved = proved;
                        plain = plain;
                        hashed = hashed;
                        issued = issued;
                        written = ground arith;
                      })
                    ]
                  ]
            ]
          ]
        ]
      ]

  -- handleTFADisable leaves the storage alone, or the request brought the password of a user with a
  -- second factor, which it then cleared.
  pub handle_tfa_disable_sound :
      (c : Context S V) (req : TfaDisableRequest)
      → ((handle_tfa_disable lib ops o m (bound req) c).1.storage ≡ c.storage)
        ⊎ ((user : User) × (c.user ≡ some user)
            × (user.totp_enabled ≡ true)
            × (is_password lib ops o m user req.password ≡ true)
            × ((handle_tfa_disable lib ops o m (bound req) c).1.storage
                ≡ (ops.clear_totp m.now user.id c.storage).1))
  unfolding handle_tfa_disable
  handle_tfa_disable_sound c req = elim (Option-cases c.user) [
    | inl missing ↦ inl (ground arith)
    | inr (user, logged_in) ↦ elim (Bool-cases user.totp_enabled) [
      | inr single ↦ inl (ground arith)
      | inl enrolled ↦ elim (Bool-cases (is_password lib ops o m user req.password)) [
        | inr wrong ↦ inl (ground arith)
        | inl owner ↦ inr (user, logged_in, enrolled, owner, ground arith)
      ]
    ]
  ]
