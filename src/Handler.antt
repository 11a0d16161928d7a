-- ===== src/Handler.antt =====
-- handler.go: what the handlers share. The code outside the repository is the record `Libraries`, and
-- what a request gets from the clock and from the source of randomness is the record `Moment`.
pub mod Login
pub mod Access
pub mod Verify
pub mod Enrol
pub mod Register
pub mod New
pub mod Samples
use go_basicauth.Prelude.{
  ℕ, ◌+◌, ◌/◌, ◌*◌, ◌^◌, ◌%◌, Bool, true, false, not, ◌&&◌, ◌||◌, Option, none, some, List, [], ◌∷◌,
  ◌++◌, ltb, ◌==◌, if◌then◌else◌,
}
use go_basicauth.Text.{Text, Unicode, text_eq, contains}
use go_basicauth.Types.{
  User, UserResponse, Uuid, Time, Result, ok, err, session_not_found, invalid_credentials, other,
}
use go_basicauth.Settings.{Options, BasicAuthSettings, minute}
use go_basicauth.Password.{Argon2, Random}
use go_basicauth.Storage.{Storage}
use go_basicauth.Request.{
  Context, Session, Value, string, int64, as_string, MaxAge, seconds, delete_now, Flow, next, done,
  Action, ◌>>=◌, ◌>>◌, pure, ContextValue, user_itself, transformed,
}

pub record Libraries : Type 0 where
  pub unicode : Unicode
  pub argon2 : Argon2
  -- google/uuid: UUID.String and Parse
  pub uuid_string : Uuid → Text
  pub uuid_parse : Text → Option Uuid
  -- gin: the path under which a group with the first path mounts the second
  pub join_paths : Text → Text → Text
  -- gorilla/sessions: whether Save can encode the session
  pub encodes : Session → Bool
  -- pquerna/otp: totp.ValidateCustom on code, secret, time, Period, Skew and Digits
  pub validate_custom : Text → Text → Time → ℕ → ℕ → ℕ → Result Bool
  -- pquerna/otp: totp.Generate on Issuer, AccountName, Period and Digits: the secret and the URL
  pub generate : Text → Text → ℕ → ℕ → Random → Result (Text × Text)

pub record Moment : Type 0 where
  pub now : Time
  pub random : Random
  pub new_uuid : Uuid

-- time.Time.UnixMilli
abbrev pub unix_milli : Time → ℕ
unix_milli t = t / 10 ^ 6

-- int(d.Seconds())
abbrev pub whole_seconds : ℕ → ℕ
whole_seconds d = d / 10 ^ 9

-- ToUserResponse of helpers.go
abbrev pub to_user_response : User → UserResponse
to_user_response user = record {
  id = user.id;
  username = user.username;
  email = user.email;
  created_at = user.created_at;
  updated_at = user.updated_at;
  is_technical_user = user.is_technical_user;
  totp_enabled = user.totp_enabled;
}

module _ {S V : Type 0} where
  -- A call of the storage that may change it.
  abbrev pub store : {A : Type 0} → (S → A × S) → Action S V A
  store f c = (next (f c.storage).0, record c { storage = (f c.storage).1 })

  -- A call that only reads it.
  abbrev pub ask : {A : Type 0} → (S → A) → Action S V A
  ask f c = (next (f c.storage), c)

  -- An update of session.Values or session.Options.
  abbrev pub edit : (Session → Session) → Action S V (Unit {0})
  edit f c = (next tt, record c { session = f c.session })

  abbrev pub get_session : Action S V Session
  get_session c = (next c.session, c)

  -- GetUserFromContext of context.go; the package sets nothing but a *User under "user".
  abbrev pub get_user_from_context : Context S V → Result User
  get_user_from_context c = elim c.user [ none ↦ err (other []) | some user ↦ ok user ]

  module _ (lib : Libraries) where
    -- session.Save
    unfoldable pub save : Action S V (Result (Unit {0}))
    save c = elim (lib.encodes c.session) [
      | true ↦ (next (ok tt), record c { cookies = c.cookies ++ c.session ∷ [] })
      | false ↦ (next (err (other [])), c)
    ]

    unfoldable pub destroy_session : Action S V (Result (Unit {0}))
    unfolding save
    destroy_session = do edit (λ s. record s { max_age = delete_now }); save

    unfoldable pub create_session : User → Action S V (Result (Unit {0}))
    unfolding save
    create_session user = do
      edit (λ s. record s { user_id = some (string (lib.uuid_string user.id)) })
      save

    module _ (ops : Storage S) where
      -- getUserFromSession
      unfoldable pub get_user_from_session : Context S V → Result User
      get_user_from_session c =
          if c.broken then err session_not_found else elim (as_string c.session.user_id) [
            | [] ↦ err session_not_found
            | b ∷ bs ↦ elim (lib.uuid_parse (b ∷ bs)) [
              | none ↦ err session_not_found
              | some id ↦ ops.get_user_by_id id c.storage
            ]
          ]

  module _ (lib : Libraries) (ops : Storage S) (o : Options V) where
    -- The lifetime of a pending session: PendingSessionTTL, or five minutes where that is not positive.
    abbrev pub pending_ttl : ℕ
    pending_ttl =
        if o.settings.tfa.pending_session_ttl == 0
        then 5 * minute
        else o.settings.tfa.pending_session_ttl

    abbrev pub pending_session : Moment → User → Session → Session
    pending_session m user s = record s {
      user_id = none;
      pending_tfa_user_id = some (string (lib.uuid_string user.id));
      pending_tfa_expires_at = some (int64 (unix_milli (m.now + pending_ttl)));
      max_age = seconds (whole_seconds pending_ttl);
    }

    unfoldable pub create_pending_tfa_session : Moment → User → Action S V (Result (Unit {0}))
    unfolding save
    create_pending_tfa_session m user = do
      reset ← store (ops.reset_totp_attempts user.id)
      elim reset [ err e ↦ pure (err e) | ok _ ↦ do edit (pending_session m user); save lib ]

    -- setUserInContext
    unfoldable pub set_user_in_context : User → Action S V (Unit {0})
    set_user_in_context user c =
        if o.user_key
        then (
          next tt,
          record c {
            value = some (elim o.user_transformer [
              | none ↦ user_itself user
              | some f ↦ transformed (f user)
            ]);
          },
        )
        else (next tt, c)

    -- getUserByIdentifier
    unfoldable pub get_user_by_identifier : Text → S → Result User
    get_user_by_identifier identifier s =
        if contains identifier b'@'
        then (if o.settings.enable_email_login
            then ops.get_user_by_email identifier s
            else err invalid_credentials)
        else (if o.settings.enable_username_login
            then ops.get_user_by_username identifier s
            else err invalid_credentials)
