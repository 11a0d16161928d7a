-- ===== src/Service/Origin.antt =====
-- Where the users come from that a saved session names.
use go_basicauth.Prelude.{◌≡◌, inl, inr, refl, sym, ◌∙◌, some, List, [], ◌∷◌, ◌++◌, All}
use go_basicauth.Types.{Result-cases}
use go_basicauth.Settings.{Options}
use go_basicauth.Storage.{Storage}
use go_basicauth.Request.{Context, Session, string, Bound, bound, unbound}
use go_basicauth.Handler.{Libraries, get_user_by_identifier, pending_session}
use go_basicauth.Handler.Access.{
  Endpoint, register, login, logout, me, tfa_setup, tfa_enable, tfa_disable, tfa_verify,
  handle_logout,
}
use go_basicauth.Handler.Login.{LoginRequest, handle_login}
use go_basicauth.Handler.Register.{RegisterRequest, handle_register}
use mathlib.Core.List.{append-nil}
use go_basicauth.Handler.Enrol.{handle_tfa_setup, handle_tfa_enable}
use go_basicauth.Handler.Verify.{TfaVerifyRequest, handle_tfa_verify, forget_pending}
use go_basicauth.Handler.Verify.Sound.{handle_tfa_verify_sound, handle_tfa_verify_unbound}
use go_basicauth.Service.Evidence.{Served, by_password, by_code, by_registration, Origin}
use go_basicauth.Service.Saved.{
  named, SavesOwn, handle_login-cookies, handle_login-missing, handle_login_unbound,
  handle_register_unbound, handle_register-cookies, handle_logout-SavesOwn, handle_me-cookies,
  handle_tfa_setup-SavesOwn, handle_tfa_enable-SavesOwn, handle_tfa_disable-cookies,
}
use go_basicauth.Service.{handle}

module _ {S V : Type 0} (lib : Libraries) (ops : Storage S) (o : Options V) (e : Served S V) where
  -- The sessions that were saved on the way up to the given ones.
  abbrev pub Saves : List Session → Type 0
  Saves cookies =
      (new : List Session) × (cookies ≡ e.before.cookies ++ new) × All (Origin lib ops o e) new

  Saves-none : {cookies : List Session} → cookies ≡ e.before.cookies → Saves cookies
  Saves-none none_saved = ([], none_saved ∙ sym (append-nil e.before.cookies), tt)

  Saves-own : (c' : Context S V) → SavesOwn lib ops o e.before c' → Saves c'.cookies
  Saves-own c' (inl none_saved, _, _) = Saves-none none_saved
  Saves-own c' (inr one, user, pending) =
      (c'.session ∷ [], one, (record { user = inr (inl user); pending = inr (inl pending) }, tt))

  login-Saves :
      (req : LoginRequest)
      → e.endpoint ≡ login
      → e.request.logging_in ≡ bound req
      → Saves (handle_login lib ops o e.at (bound req) e.before).1.cookies
  login-Saves req is_login asked =
      let c = e.before in
      elim (Result-cases (get_user_by_identifier lib ops o req.identifier c.storage)) [
        | inl (x, missing) ↦ Saves-none (handle_login-missing lib ops o e.at c req missing)
        | inr (user, found) ↦ elim (handle_login-cookies lib ops o e.at c req user found) [
          | inl none_saved ↦ Saves-none none_saved
          | inr (right, inl (second, one)) ↦ (
            pending_session lib ops o e.at user c.session ∷ [],
            one,
            (
              record {
                user = inl refl;
                pending = inr (
                    inr (
                      lib.uuid_string user.id,
                      refl,
                      (
                        record {
                          is_login = is_login;
                          request = req;
                          asked = asked;
                          user = user;
                          found = found;
                          right = right;
                          factors = second;
                        },
                        refl,
                      ),
                    ));
              },
              tt,
            ),
          )
          | inr (right, inr (single, one)) ↦ (
            named lib ops o user.id c.session ∷ [],
            one,
            (
              record {
                user = inr (
                    inr (
                      lib.uuid_string user.id,
                      refl,
                      by_password
                          (record {
                            is_login = is_login;
                            request = req;
                            asked = asked;
                            user = user;
                            found = found;
                            right = right;
                            factors = single;
                          })
                          refl,
                    ));
                pending = inr (inl refl);
              },
              tt,
            ),
          )
        ]
      ]

  register-Saves :
      (req : RegisterRequest)
      → e.endpoint ≡ register
      → e.request.registering ≡ bound req
      → Saves (handle_register lib ops o e.at (bound req) e.before).1.cookies
  register-Saves req is_register asked =
      let c = e.before in
      elim (handle_register-cookies lib ops o e.at c req) [
        | inl none_saved ↦ Saves-none none_saved
        | inr (hash, hashed, taken, one) ↦ (
          named lib ops o e.at.new_uuid c.session ∷ [],
          one,
          (
            record {
              user = inr (
                  inr (
                    lib.uuid_string e.at.new_uuid,
                    refl,
                    by_registration
                        (record {
                          is_register = is_register;
                          request = req;
                          asked = asked;
                          hash = hash;
                          hashed = hashed;
                          taken = taken;
                        })
                        refl,
                  ));
              pending = inr (inl refl);
            },
            tt,
          ),
        )
      ]

  abbrev forgotten : Session
  forgotten = forget_pending lib ops o e.at e.before.session

  forgotten-Origin : Origin lib ops o e forgotten
  forgotten-Origin = record { user = inr (inl refl); pending = inl refl }

  verify-Saves :
      (req : TfaVerifyRequest)
      → e.endpoint ≡ tfa_verify
      → e.request.verifying ≡ bound req
      → Saves (handle_tfa_verify lib ops o e.at (bound req) e.before).1.cookies
  verify-Saves req is_verify asked = elim (handle_tfa_verify_sound lib ops o e.at e.before req) [
    | inr (_, _, inl none_saved) ↦ Saves-none none_saved
    | inr (_, _, inr one) ↦ (forgotten ∷ [], one, (forgotten-Origin, tt))
    | inl (v, (_, inl none_saved)) ↦ Saves-none none_saved
    | inl (v, (_, inr (inl one))) ↦ (forgotten ∷ [], one, (forgotten-Origin, tt))
    | inl (v, (_, inr (inr two))) ↦ (
      forgotten ∷ record forgotten { user_id = some (string (lib.uuid_string v.user.id)) } ∷ [],
      two,
      (
        forgotten-Origin,
        (
          record {
            user = inr (
                inr (
                  lib.uuid_string v.user.id,
                  refl,
                  by_code
                      (record { is_verify = is_verify; request = req; asked = asked; verified = v })
                      refl,
                ));
            pending = inl refl;
          },
          tt,
        ),
      ),
    )
  ]

  any_login :
      (r : Bound LoginRequest)
      → e.endpoint ≡ login
      → e.request.logging_in ≡ r
      → Saves (handle_login lib ops o e.at r e.before).1.cookies
  any_login (bound req) is_login asked = login-Saves req is_login asked
  any_login (unbound message) is_login asked =
      Saves-none (handle_login_unbound lib ops o e.at e.before message)

  any_register :
      (r : Bound RegisterRequest)
      → e.endpoint ≡ register
      → e.request.registering ≡ r
      → Saves (handle_register lib ops o e.at r e.before).1.cookies
  any_register (bound req) is_register asked = register-Saves req is_register asked
  any_register (unbound message) is_register asked =
      Saves-none (handle_register_unbound lib ops o e.at e.before message)

  any_verify :
      (r : Bound TfaVerifyRequest)
      → e.endpoint ≡ tfa_verify
      → e.request.verifying ≡ r
      → Saves (handle_tfa_verify lib ops o e.at r e.before).1.cookies
  any_verify (bound req) is_verify asked = verify-Saves req is_verify asked
  any_verify (unbound message) is_verify asked =
      let (_, _, saved) = handle_tfa_verify_unbound lib ops o e.at e.before message in
      elim saved [
        | inl none_saved ↦ Saves-none none_saved
        | inr one ↦ (forgotten ∷ [], one, (forgotten-Origin, tt))
      ]

  handle-Saves_at :
      (endpoint : Endpoint)
      → e.endpoint ≡ endpoint
      → Saves (handle lib ops o e.at e.request endpoint e.before).1.cookies
  unfolding handle
  handle-Saves_at register here = any_register e.request.registering here refl
  handle-Saves_at login here = any_login e.request.logging_in here refl
  handle-Saves_at logout here =
      Saves-own (handle_logout lib ops o e.before).1
        (handle_logout-SavesOwn lib ops o e.at e.before)
  handle-Saves_at me here = Saves-none (handle_me-cookies lib ops o e.at e.before)
  handle-Saves_at tfa_setup here =
      Saves-own (handle_tfa_setup lib ops o e.at e.before).1
        (handle_tfa_setup-SavesOwn lib ops o e.at e.before)
  handle-Saves_at tfa_enable here =
      Saves-own (handle_tfa_enable lib ops o e.at e.request.draws e.request.enabling e.before).1
        (handle_tfa_enable-SavesOwn lib ops o e.at e.before e.request.draws e.request.enabling)
  handle-Saves_at tfa_disable here =
      Saves-none (handle_tfa_disable-cookies lib ops o e.at e.before e.request.disabling)
  handle-Saves_at tfa_verify here = any_verify e.request.verifying here refl

  -- Every session that a handler saves names nobody, or whom the session of the request named, or
  -- whom the request itself proved.
  pub handle-Saves : Saves (handle lib ops o e.at e.request e.endpoint e.before).1.cookies
  handle-Saves = handle-Saves_at e.endpoint refl
