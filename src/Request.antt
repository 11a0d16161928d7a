-- ===== src/Request.antt =====
-- A request as a handler sees it: gin's context, the session of gorilla/sessions, and the storage.
-- Handlers are actions that may stop with a response.
use go_basicauth.Prelude.{
  ℕ, ◌≡◌, ◌⊎◌, inl, inr, refl, Bool, true, false, Option, none, some, List, [], ◌∷◌, ◌++◌,
}
use go_basicauth.Text.{Text, codes}
use go_basicauth.Types.{User, UserResponse, Result, ok, err}

-- What a session holds under a key: `session.Values[key]` is an `any`.
pub data Value : Type 0 where
  string : Text → Value
  int64 : ℕ → Value

-- `v, ok := session.Values[key].(string)`, with the zero value where the assertion fails
abbrev pub as_string : Option Value → Text
as_string (some (string s)) = s
as_string (some (int64 n)) = []
as_string none = []

abbrev pub as_int64 : Option Value → ℕ
as_int64 (some (int64 n)) = n
as_int64 (some (string s)) = 0
as_int64 none = 0

-- Options.MaxAge, in seconds; a negative one deletes the cookie.
pub data MaxAge : Type 0 where
  seconds : ℕ → MaxAge
  delete_now : MaxAge

-- *sessions.Session: the keys of `Values` that the package uses, and Options.MaxAge
pub record Session : Type 0 where
  pub user_id : Option Value
  pub pending_tfa_user_id : Option Value
  pub pending_tfa_expires_at : Option Value
  pub pending_tfa_secret : Option Value
  pub max_age : MaxAge

pub record TfaSetupResponse : Type 0 where
  pub secret : Text
  pub otpauth_url : Text
  pub issuer : Text
  pub account_name : Text

pub data Body : Type 0 where
  error_response : Text → Text → Body
  success_response : Text → Body
  -- SuccessResponse with a user, or with {"tfaRequired": true}, as Data
  success_with_user : Text → UserResponse → Body
  success_tfa_required : Text → Body
  user_response : UserResponse → Body
  tfa_setup_response : TfaSetupResponse → Body
  tfa_enable_response : List Text → Body

pub record Reply : Type 0 where
  pub status : ℕ
  pub body : Body

-- The value under UserKey.
pub data ContextValue (V : Type 0) : Type 0 where
  user_itself : User → ContextValue V
  transformed : V → ContextValue V

-- sessionStore.Get registers the session with the request, so every Get of one request returns the
-- same `session`, with the same error, `broken`. `cookies` are the sessions that Save has written,
-- `replies` what c.JSON has.
pub record Context (S V : Type 0) : Type 0 where
  pub storage : S
  pub session : Session
  pub broken : Bool
  pub cookies : List Session
  pub replies : List Reply
  pub user : Option User
  pub value : Option (ContextValue V)
  pub aborted : Bool

-- What ShouldBindJSON makes of the body: a request, or an error with a message.
pub data Bound (A : Type 0) : Type 0 where
  bound : A → Bound A
  unbound : Text → Bound A

pub Bound-cases :
    {A : Type 0} (b : Bound A)
    → ((message : Text) × (b ≡ unbound message)) ⊎ ((a : A) × (b ≡ bound a))
Bound-cases (bound a) = inr (a, refl)
Bound-cases (unbound message) = inl (message, refl)

-- A step of a handler: it goes on with a value, or the handler has returned.
pub data Flow (A : Type 0) : Type 0 where
  next : A → Flow A
  done : Flow A

pub Flow-cases : {A : Type 0} (r : Flow A) → (r ≡ done) ⊎ ((a : A) × (r ≡ next a))
Flow-cases (next a) = inr (a, refl)
Flow-cases done = inl refl

abbrev pub Action : Type 0 → Type 0 → Type 0 → Type 0
Action S V A = Context S V → Flow A × Context S V

module _ {S V : Type 0} where
  infixl 5 ◌>>=◌ ◌>>◌
  abbrev pub ◌>>=◌ : {A B : Type 0} → Action S V A → (A → Action S V B) → Action S V B
  ◌>>=◌ m f c = let (r, c') = m c in elim r [ next a ↦ f a c' | done ↦ (done, c') ]

  abbrev pub ◌>>◌ : {A B : Type 0} → Action S V A → Action S V B → Action S V B
  m >> k = m >>= λ _. k

  abbrev pub pure : {A : Type 0} → A → Action S V A
  pure a c = (next a, c)

  -- c.JSON(status, body) and return
  abbrev pub respond : {A : Type 0} → ℕ → Body → Action S V A
  respond status body c =
      (done, record c { replies = c.replies ++ record { status = status; body = body } ∷ [] })

  abbrev pub refuse : {A : Type 0} → ℕ → Text → Text → Action S V A
  refuse status error message = respond status (error_response error message)

  -- if test { c.JSON(...); return }
  abbrev pub refuse_if : Bool → ℕ → Text → Text → Action S V (Unit {0})
  refuse_if true status error message = refuse status error message
  refuse_if false status error message = pure tt

  -- if err != nil { c.JSON(...); return }
  abbrev pub or_refuse : {A : Type 0} → Result A → ℕ → Text → Text → Action S V A
  or_refuse (ok a) status error message = pure a
  or_refuse (err e) status error message = refuse status error message

  -- if err := c.ShouldBindJSON(&req); err != nil { c.JSON(...); return }
  abbrev pub bind : {A : Type 0} → Bound A → Action S V A
  bind (bound req) = pure req
  bind (unbound message) = refuse 400 (codes "invalid_request") message

  Flow-elim :
      {A B : Type 0} (Q : Flow B × Context S V → Type 0) (f : A → Action S V B) (r : Flow A)
      (c : Context S V)
      → (r ≡ done → Q (done, c))
      → ((a : A) → r ≡ next a → Q (f a c))
      → Q (elim r [ next a ↦ f a c | done ↦ (done, c) ])
  Flow-elim Q f (next a) c stops goes = goes a refl
  Flow-elim Q f done c stops goes = stops refl

  -- To prove of an action and what follows it.
  pub >>=-elim :
      {A B : Type 0} (Q : Flow B × Context S V → Type 0) (m : Action S V A) (f : A → Action S V B)
      (c : Context S V)
      → ((m c).0 ≡ done → Q (done, (m c).1))
      → ((a : A) → (m c).0 ≡ next a → Q (f a (m c).1))
      → Q ((m >>= f) c)
  >>=-elim Q m f c stops goes = Flow-elim Q f (m c).0 (m c).1 stops goes

  -- An action that stops, and one that goes on.
  pub >>=-done :
      {A B : Type 0} (m : Action S V A) (f : A → Action S V B) (c : Context S V)
      → (m c).0 ≡ done
      → (m >>= f) c ≡ (done, (m c).1)
  >>=-done m f c stops =
      >>=-elim (λ r. r ≡ (done, (m c).1)) m f c (λ _. refl) λ a goes. cc (stops, goes)

  pub >>=-next :
      {A B : Type 0} (m : Action S V A) (f : A → Action S V B) (c : Context S V) (a : A)
      → (m c).0 ≡ next a
      → (m >>= f) c ≡ f a (m c).1
  >>=-next m f c a goes =
      >>=-elim (λ r. r ≡ f a (m c).1) m f c (λ stops. cc (stops, goes)) λ b goes'. cc (goes, goes')
