-- ===== src/Service/Writes/Enrol.antt =====
-- What handleTFASetup, handleTFAEnable and handleTFADisable write to the storage.
use go_basicauth.Prelude.{
  ℕ, ◌≡◌, ◌⊎◌, inl, inr, refl, ◌∙◌, true, some, none, List, arith, Option-cases,
}
use go_basicauth.Text.{Text}
use go_basicauth.Types.{User, Result-cases}
use go_basicauth.Settings.{Options}
use go_basicauth.Storage.{Storage}
use go_basicauth.Storage.Calls.{Call, enrol, disable, after}
use go_basicauth.Storage.Written.{Written, Written-none, Written-call}
use go_basicauth.Request.{Context, Bound, bound, unbound, as_string}
use go_basicauth.Handler.{Libraries, Moment}
use go_basicauth.Handler.Enrol.{
  TfaEnableRequest, TfaDisableRequest, enable, new_codes, is_password, handle_tfa_setup,
  handle_tfa_enable, handle_tfa_disable,
}
use go_basicauth.Tfa.{Draws}

module _ {S V : Type 0} (lib : Libraries) (ops : Storage S) (o : Options V) (m : Moment) where
  pub handle_tfa_setup-storage :
      (c : Context S V) → (handle_tfa_setup lib ops o m c).1.storage ≡ c.storage
  unfolding handle_tfa_setup
  handle_tfa_setup-storage c = ground arith

  module _ (c : Context S V) where
    disable-storage :
        (user : User) (req : TfaDisableRequest)
        → c.user ≡ some user
        → ((handle_tfa_disable lib ops o m (bound req) c).1.storage ≡ c.storage)
          ⊎ ((is_password lib ops o m user req.password ≡ true)
              × ((handle_tfa_disable lib ops o m (bound req) c).1.storage
                  ≡ after ops (disable m.now user.id) c.storage))
    unfolding handle_tfa_disable
    disable-storage user req present = ground arith

    no_user-storage :
        (r : Bound TfaDisableRequest)
        → c.user ≡ none
        → (handle_tfa_disable lib ops o m r c).1.storage ≡ c.storage
    unfolding handle_tfa_disable
    no_user-storage r missing = ground arith

    unbound-storage :
        (message : Text)
        → (handle_tfa_disable lib ops o m (unbound message) c).1.storage ≡ c.storage
    unfolding handle_tfa_disable
    unbound-storage message = ground arith

  enable-storage :
      (c : Context S V) (draws : Draws) (user : User) (secret : Text)
      → ((enable lib ops o m draws user secret c).1.storage ≡ c.storage)
        ⊎ ((hashed : List Text) × ((enable lib ops o m draws user secret c).1.storage
              ≡ after ops (enrol m.now user.id secret hashed) c.storage))
  unfolding enable
  enable-storage c draws user secret = elim (Result-cases (new_codes lib ops o m draws)) [
    | inl (e, failed) ↦ inl (ground arith)
    | inr ((plain, hashed), drawn) ↦ inr (hashed, ground arith)
  ]

  handle_tfa_enable-storage :
      (c : Context S V) (draws : Draws) (req : TfaEnableRequest) (user : User)
      → c.user ≡ some user
      → ((handle_tfa_enable lib ops o m draws (bound req) c).1.storage ≡ c.storage)
        ⊎ ((is_password lib ops o m user req.password ≡ true)
            × ((handle_tfa_enable lib ops o m draws (bound req) c).1.storage
                ≡ (enable lib ops o m draws user
                    (as_string c.session.pending_tfa_secret)
                    c).1.storage))
  unfolding handle_tfa_enable
  handle_tfa_enable-storage c draws req user present = ground arith

  enable_unbound-storage :
      (c : Context S V) (draws : Draws) (message : Text)
      → (handle_tfa_enable lib ops o m draws (unbound message) c).1.storage ≡ c.storage
  unfolding handle_tfa_enable
  enable_unbound-storage c draws message = ground arith

  enable_missing-storage :
      (c : Context S V) (draws : Draws) (req : TfaEnableRequest)
      → c.user ≡ none
      → (handle_tfa_enable lib ops o m draws (bound req) c).1.storage ≡ c.storage
  unfolding handle_tfa_enable
  enable_missing-storage c draws req missing = ground arith

  -- Calls of a kind `P`, which may be granted something.
  module _ (P : Call → Type 0) (grant : Call → S → ℕ) where
    -- handleTFADisable calls ClearTOTP for the user of the request, whose password is right.
    pub handle_tfa_disable-Written :
        (c : Context S V) (r : Bound TfaDisableRequest)
        → ((req : TfaDisableRequest) (user : User)
            → r ≡ bound req
            → c.user ≡ some user
            → is_password lib ops o m user req.password ≡ true
            → P (disable m.now user.id))
        → Written ops P grant c.storage (handle_tfa_disable lib ops o m r c).1.storage 0
    handle_tfa_disable-Written c (unbound message) disables =
        Written-none ops P grant (unbound-storage c message)
    handle_tfa_disable-Written c (bound req) disables = elim (Option-cases c.user) [
      | inl missing ↦ Written-none ops P grant (no_user-storage c (bound req) missing)
      | inr (user, present) ↦ elim (disable-storage c user req present) [
        | inl same ↦ Written-none ops P grant same
        | inr (right, made) ↦
            Written-call ops P grant (disable m.now user.id) (disables req user refl present right)
              made
      ]
    ]

    -- handleTFAEnable calls SetTOTP for the user of the request, whose password is right.
    pub handle_tfa_enable-Written :
        (c : Context S V) (draws : Draws) (r : Bound TfaEnableRequest)
        → ((req : TfaEnableRequest) (user : User) (secret : Text) (hashes : List Text)
            → r ≡ bound req
            → c.user ≡ some user
            → is_password lib ops o m user req.password ≡ true
            → P (enrol m.now user.id secret hashes))
        → Written ops P grant c.storage (handle_tfa_enable lib ops o m draws r c).1.storage 0
    handle_tfa_enable-Written c draws (unbound message) enrols =
        Written-none ops P grant (enable_unbound-storage c draws message)
    handle_tfa_enable-Written c draws (bound req) enrols =
        let secret = as_string c.session.pending_tfa_secret in
        elim (Option-cases c.user) [
          | inl missing ↦ Written-none ops P grant (enable_missing-storage c draws req missing)
          | inr (user, present) ↦ elim (handle_tfa_enable-storage c draws req user present) [
            | inl same ↦ Written-none ops P grant same
            | inr (right, enabled) ↦ elim (enable-storage c draws user secret) [
              | inl same ↦ Written-none ops P grant (enabled ∙ same)
              | inr (hashed, made) ↦
                  Written-call ops P grant (enrol m.now user.id secret hashed)
                    (enrols req user secret hashed refl present right) (enabled ∙ made)
            ]
          ]
        ]
