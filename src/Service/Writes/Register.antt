-- ===== src/Service/Writes/Register.antt =====
-- What handleRegister writes to the storage.
use go_basicauth.Prelude.{ℕ, ◌≡◌, ◌⊎◌, inl, inr, refl, ◌∙◌, arith}
use go_basicauth.Text.{Text}
use go_basicauth.Types.{User, Result-cases}
use go_basicauth.Settings.{Options}
use go_basicauth.Storage.{Storage}
use go_basicauth.Storage.Calls.{Call, create, after}
use go_basicauth.Storage.Written.{Written, Written-none, Written-call}
use go_basicauth.Password.{hash_password}
use go_basicauth.Request.{Context, Bound, bound, unbound}
use go_basicauth.Handler.{Libraries, Moment}
use go_basicauth.Handler.Register.{RegisterRequest, handle_register, new_user, enter}

module _ {S V : Type 0} (lib : Libraries) (ops : Storage S) (o : Options V) (m : Moment) where
  register-storage :
      (c : Context S V) (req : RegisterRequest)
      → ((handle_register lib ops o m (bound req) c).1.storage ≡ c.storage)
        ⊎ ((handle_register lib ops o m (bound req) c).1.storage
            ≡ (enter lib ops o m req c).1.storage)
  unfolding handle_register
  register-storage c req = ground arith

  enter-storage :
      (c : Context S V) (req : RegisterRequest)
      → ((enter lib ops o m req c).1.storage ≡ c.storage)
        ⊎ ((hash : Text) × ((enter lib ops o m req c).1.storage
              ≡ after ops (create (new_user lib ops o m req hash)) c.storage))
  unfolding enter
  enter-storage c req =
      elim (Result-cases
        (hash_password lib.argon2 m.random req.password o.settings.hashing_params)) [
          | inl (e, failed) ↦ inl (ground arith)
          | inr (hash, hashed) ↦ inr (hash, ground arith)
        ]

  -- Calls of a kind `P`, which may be granted something.
  module _ (P : Call → Type 0) (grant : Call → S → ℕ) where
    -- handleRegister calls CreateUser.
    pub handle_register-Written :
        (c : Context S V) (r : Bound RegisterRequest)
        → ((x : User) → P (create x))
        → Written ops P grant c.storage (handle_register lib ops o m r c).1.storage 0
    unfolding handle_register
    handle_register-Written c (unbound message) creates = Written-none ops P grant refl
    handle_register-Written c (bound req) creates = elim (register-storage c req) [
      | inl same ↦ Written-none ops P grant same
      | inr entered ↦ elim (enter-storage c req) [
        | inl same ↦ Written-none ops P grant (entered ∙ same)
        | inr (hash, made) ↦
            Written-call ops P grant (create (new_user lib ops o m req hash))
              (creates (new_user lib ops o m req hash)) (entered ∙ made)
      ]
    ]
