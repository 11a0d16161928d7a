-- ===== src/Service/Saved.antt =====
-- The sessions that the handlers save.
use go_basicauth.Prelude.{
  ◌≡◌, ◌⊎◌, inl, inr, refl, true, false, some, [], ◌∷◌, ◌++◌, arith, Option-cases,
}
use go_basicauth.Text.{Text}
use go_basicauth.Types.{User, Uuid, ok, err, Err}
use go_basicauth.Settings.{Options}
use go_basicauth.Storage.{Storage}
use go_basicauth.Password.{hash_password}
use go_basicauth.Request.{Context, Session, string, as_string, Bound, bound, unbound}
use go_basicauth.Handler.{Libraries, Moment, get_user_by_identifier, pending_session}
use go_basicauth.Handler.Access.{handle_me, handle_logout}
use go_basicauth.Handler.Login.{LoginRequest, handle_login, has_second_factor}
use go_basicauth.Handler.Login.Outcome.{accepts}
use go_basicauth.Handler.Register.{RegisterRequest, handle_register, new_user}
use go_basicauth.Handler.Register.Sound.{handle_register_sound}
use go_basicauth.Handler.Enrol.{
  TfaEnableRequest, TfaDisableRequest, enable, handle_tfa_setup, handle_tfa_enable,
  handle_tfa_disable,
}
use go_basicauth.Tfa.{Draws}

module _ {S V : Type 0} (lib : Libraries) (ops : Storage S) (o : Options V) where
  -- A session under the name of a user.
  abbrev pub named : Uuid → Session → Session
  named id s = record s { user_id = some (string (lib.uuid_string id)) }

  -- At most the session of the request was saved, naming nobody else.
  abbrev pub SavesOwn : Context S V → Context S V → Type 0
  SavesOwn c c' =
      ((c'.cookies ≡ c.cookies) ⊎ (c'.cookies ≡ c.cookies ++ c'.session ∷ []))
      × (c'.session.user_id ≡ c.session.user_id)
      × (c'.session.pending_tfa_user_id ≡ c.session.pending_tfa_user_id)

  module _ (m : Moment) (c : Context S V) where
    pub handle_login-cookies :
        (req : LoginRequest) (user : User)
        → get_user_by_identifier lib ops o req.identifier c.storage ≡ ok user
        → ((handle_login lib ops o m (bound req) c).1.cookies ≡ c.cookies)
          ⊎ ((accepts lib ops o m req c user ≡ true)
              × (((has_second_factor lib ops o m user ≡ true)
                    × ((handle_login lib ops o m (bound req) c).1.cookies
                        ≡ c.cookies ++ pending_session lib ops o m user c.session ∷ []))
                  ⊎ ((has_second_factor lib ops o m user ≡ false)
                      × ((handle_login lib ops o m (bound req) c).1.cookies
                          ≡ c.cookies ++ named user.id c.session ∷ []))))
    unfolding handle_login
    handle_login-cookies req user found = ground arith

    pub handle_login-missing :
        (req : LoginRequest) {e : Err}
        → get_user_by_identifier lib ops o req.identifier c.storage ≡ err e
        → (handle_login lib ops o m (bound req) c).1.cookies ≡ c.cookies
    unfolding handle_login
    handle_login-missing req missing = ground arith

    pub handle_login_unbound :
        (message : Text) → (handle_login lib ops o m (unbound message) c).1.cookies ≡ c.cookies
    unfolding handle_login
    handle_login_unbound message = refl

    pub handle_register_unbound :
        (message : Text) → (handle_register lib ops o m (unbound message) c).1.cookies ≡ c.cookies
    unfolding handle_register
    handle_register_unbound message = refl

    pub handle_register-cookies :
        (req : RegisterRequest)
        → ((handle_register lib ops o m (bound req) c).1.cookies ≡ c.cookies)
          ⊎ ((hash : Text) × (hash_password lib.argon2 m.random req.password
                  o.settings.hashing_params
                ≡ ok hash)
              × ((ops.create_user (new_user lib ops o m req hash) c.storage).0 ≡ ok tt)
              × ((handle_register lib ops o m (bound req) c).1.cookies
                  ≡ c.cookies ++ named m.new_uuid c.session ∷ []))
    handle_register-cookies req = elim (handle_register_sound lib ops o m req c) [
      | inl (_, none_saved) ↦ inl none_saved
      | inr (_, _, (hash, hashed, _, inl none_saved)) ↦ inl none_saved
      | inr (_, _, (hash, hashed, _, inr (taken, one))) ↦ inr (hash, hashed, taken, one)
    ]

    pub handle_logout-SavesOwn : SavesOwn c (handle_logout lib ops o c).1
    unfolding handle_logout
    handle_logout-SavesOwn = ground arith

    pub handle_me-cookies : (handle_me lib ops o c).1.cookies ≡ c.cookies
    unfolding handle_me
    handle_me-cookies = ground arith

    pub handle_tfa_setup-SavesOwn : SavesOwn c (handle_tfa_setup lib ops o m c).1
    unfolding handle_tfa_setup
    handle_tfa_setup-SavesOwn = ground arith

    enable-SavesOwn :
        (draws : Draws) (user : User) (secret : Text)
        → SavesOwn c (enable lib ops o m draws user secret c).1
    unfolding enable
    enable-SavesOwn draws user secret = ground arith

    pub handle_tfa_disable-cookies :
        (r : Bound TfaDisableRequest) → (handle_tfa_disable lib ops o m r c).1.cookies ≡ c.cookies
    unfolding handle_tfa_disable
    handle_tfa_disable-cookies r = ground arith

  pub handle_tfa_enable-SavesOwn :
      (m : Moment) (c : Context S V) (draws : Draws) (r : Bound TfaEnableRequest)
      → SavesOwn c (handle_tfa_enable lib ops o m draws r c).1
  unfolding handle_tfa_enable
  handle_tfa_enable-SavesOwn m c draws (unbound message) = ground arith
  handle_tfa_enable-SavesOwn m c draws (bound req) = elim (Option-cases c.user) [
    | inl missing ↦ ground arith
    | inr (user, present) ↦
        ground (arith, enable-SavesOwn m c draws user (as_string c.session.pending_tfa_secret))
  ]
