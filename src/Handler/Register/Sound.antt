-- ===== src/Handler/Register/Sound.antt =====
-- Whom handleRegister enters.
use go_basicauth.Prelude.{
  ◌≡◌, ◌⊎◌, inl, inr, refl, true, false, not, ◌||◌, Option, none, some, is_some, [], ◌∷◌, ◌++◌,
  arith, Bool-cases,
}
use go_basicauth.Text.{Text}
use go_basicauth.Types.{Result, ok, Result-cases}
use go_basicauth.Settings.{Options}
use go_basicauth.Password.{hash_password}
use go_basicauth.Storage.{Storage}
use go_basicauth.Request.{Context, string, bound, next, Flow, ◌>>=◌, >>=-elim}
use go_basicauth.Handler.{Libraries, Moment}
use go_basicauth.Validation.{validate_email, validate_username, validate_password}
use go_basicauth.Handler.Register.{
  RegisterRequest, is_taken, new_user, admissible, available, enter, handle_register,
}

-- An optional field is absent, or passes its validation.
abbrev pub IsGood : (Text → Result (Unit {0})) → Option Text → Type 0
IsGood validate none = Unit
IsGood validate (some field) = validate field ≡ ok tt

IsGood-intro :
    (validate : Text → Result (Unit {0})) (given : Option Text)
    → ((field : Text) → given ≡ some field → validate field ≡ ok tt)
    → IsGood validate given
IsGood-intro validate none good = tt
IsGood-intro validate (some field) good = good field refl

module _ {S V : Type 0} (lib : Libraries) (ops : Storage S) (o : Options V) (m : Moment)
    (req : RegisterRequest) (c : Context S V) where
  -- The request alone is in order.
  pub record IsAdmissible : Type 0 where
    pub named : is_some req.username || is_some req.email ≡ true
    pub name_allowed : not (is_some req.username) || o.settings.enable_username_login ≡ true
    pub mail_allowed : not (is_some req.email) || o.settings.enable_email_login ≡ true
    pub name_good : IsGood validate_username req.username
    pub mail_good : IsGood validate_email req.email
    pub password_good : validate_password req.password o.settings.password_requirements ≡ ok tt

  admissible-IsAdmissible : (admissible lib ops o m req c).0 ≡ next tt → IsAdmissible
  unfolding admissible
  admissible-IsAdmissible e = record {
    named = ground arith;
    name_allowed = ground arith;
    mail_allowed = ground arith;
    name_good = IsGood-intro validate_username req.username λ name given.
        elim (Result-cases (validate_username name)) [
          | inl (x, bad) ↦ absurd (ground arith)
          | inr (_, good) ↦ good
        ];
    mail_good = IsGood-intro validate_email req.email λ mail given.
        elim (Result-cases (validate_email mail)) [
          | inl (x, bad) ↦ absurd (ground arith)
          | inr (_, good) ↦ good
        ];
    password_good =
        elim (Result-cases (validate_password req.password o.settings.password_requirements)) [
          | inl (x, bad) ↦ absurd (ground arith)
          | inr (_, good) ↦ good
        ];
  }

  admissible-keeps :
      (admissible lib ops o m req c).1
      ≡ record c { replies = (admissible lib ops o m req c).1.replies }
  unfolding admissible
  admissible-keeps = ground arith

  abbrev pub IsFree : Type 0
  IsFree =
      (is_taken lib ops o m ops.get_user_by_username req.username c.storage ≡ false)
      × (is_taken lib ops o m ops.get_user_by_email req.email c.storage ≡ false)

  available-IsFree : (available lib ops o m req c).0 ≡ next tt → IsFree
  unfolding available
  available-IsFree e = (ground arith, ground arith)

  available-keeps :
      (available lib ops o m req c).1
      ≡ record c { replies = (available lib ops o m req c).1.replies }
  unfolding available
  available-keeps = ground arith

  available_went : (available lib ops o m req c).0 ≡ next tt → (available lib ops o m req c).1 ≡ c
  unfolding available
  available_went e = ground arith

  admissible_went :
      (admissible lib ops o m req c).0 ≡ next tt → (admissible lib ops o m req c).1 ≡ c
  unfolding admissible
  admissible_went e = ground arith

  abbrev pub Untouched : Context S V → Type 0
  Untouched c' = (c'.storage ≡ c.storage) × (c'.cookies ≡ c.cookies)

  -- The user was given to the storage; only if that took it, its session was saved.
  abbrev pub IsEntered : Context S V → Type 0
  IsEntered c' =
      (hash : Text) × (hash_password lib.argon2 m.random req.password o.settings.hashing_params
        ≡ ok hash)
      × (c'.storage ≡ (ops.create_user (new_user lib ops o m req hash) c.storage).1)
      × ((c'.cookies ≡ c.cookies)
          ⊎ (((ops.create_user (new_user lib ops o m req hash) c.storage).0 ≡ ok tt)
              × (c'.cookies
                  ≡ c.cookies
                    ++ record c.session { user_id = some (string (lib.uuid_string m.new_uuid)) }
                      ∷ [])))

  enter-IsEntered : Untouched (enter lib ops o m req c).1 ⊎ IsEntered (enter lib ops o m req c).1
  unfolding enter
  enter-IsEntered =
      elim (Result-cases
        (hash_password lib.argon2 m.random req.password o.settings.hashing_params)) [
          | inl (e, failed) ↦ inl (ground arith)
          | inr (hash, hashed) ↦ inr (
            hash,
            hashed,
            ground arith,
            elim (Result-cases (ops.create_user (new_user lib ops o m req hash) c.storage).0) [
              | inl (e, failed) ↦ inl (ground arith)
              | inr (_, entered) ↦
                  elim (Bool-cases (
                    lib.encodes (record c.session {
                      user_id = some (string (lib.uuid_string m.new_uuid));
                    }))) [ inl fits ↦ inr (entered, ground arith) | inr unfit ↦ inl (ground arith) ]
            ],
          )
        ]

  abbrev Outcome : Flow (Unit {0}) × Context S V → Type 0
  Outcome r = Untouched r.1 ⊎ (IsAdmissible × IsFree × IsEntered r.1)

  -- handleRegister writes nothing and saves no session, or the request was in order and its name and
  -- its address were not in use, and the new user, with a hash of the password, was given to the
  -- storage; a session was saved only if the storage took the user.
  pub handle_register_sound :
      Untouched (handle_register lib ops o m (bound req) c).1
      ⊎ (IsAdmissible × IsFree × IsEntered (handle_register lib ops o m (bound req) c).1)
  unfolding handle_register
  handle_register_sound =
      >>=-elim Outcome (admissible lib ops o m req)
        (λ _. available lib ops o m req >>= λ _. enter lib ops o m req) c
        (λ stopped. inl (rw admissible-keeps (refl, refl)))
        λ _ good. rw (admissible_went good) (
          >>=-elim Outcome (available lib ops o m req) (λ _. enter lib ops o m req) c
            (λ stopped. inl (rw available-keeps (refl, refl)))
            λ _ free. rw (available_went free) (elim enter-IsEntered [
              | inl untouched ↦ inl untouched
              | inr entered ↦ inr (admissible-IsAdmissible good, available-IsFree free, entered)
            ]))
