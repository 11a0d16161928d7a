-- ===== src/Service/Trace.antt =====
-- Runs of the service: requests of clients who bring any cookie that was ever handed out, and writes
-- of the application to the storage, in any order.
use mathlib.Core.Path.{subst}
use go_basicauth.Prelude.{
  ◌≡◌, ◌⊎◌, inl, inr, sym, ap, ◌∙◌, Bool, Option, none, some, List, [], ◌∷◌, ◌++◌, All, arith,
}
use go_basicauth.Text.{Text}
use go_basicauth.Types.{Result-cases}
use go_basicauth.Settings.{Options}
use go_basicauth.Storage.{Storage}
use go_basicauth.Request.{Context, Session, string, Flow, next, done}
use go_basicauth.Handler.{Libraries, Moment, get_user_from_session}
use go_basicauth.Handler.Access.{Endpoint, register_routes, require_auth}
use go_basicauth.Service.{Request, endpoint_of, serve, blank, reopened, received}
use go_basicauth.Service.Evidence.{Served, LoggedInBy, ChallengedBy, Origin}

abbrev pub Somewhere {ℓ} : {A : Type ℓ} → (A → Type 0) → List A → Type 0
Somewhere P [] = ⊥
Somewhere P (x ∷ xs) = P x ⊎ Somewhere P xs

pub Somewhere-append {ℓ} :
    {A : Type ℓ} (P : A → Type 0) (xs ys : List A) → Somewhere P ys → Somewhere P (xs ++ ys)
Somewhere-append P [] ys h = h
Somewhere-append P (x ∷ xs) ys h = inr (Somewhere-append P xs ys h)

pub Somewhere-map {ℓ} :
    {A : Type ℓ} {P Q : A → Type 0} (xs : List A)
    → ((x : A) → P x → Q x)
    → Somewhere P xs
    → Somewhere Q xs
Somewhere-map [] f h = absurd h
Somewhere-map (x ∷ xs) f (inl h) = inl (f x h)
Somewhere-map (x ∷ xs) f (inr h) = inr (Somewhere-map xs f h)

pub All-map {ℓ} :
    {A : Type ℓ} {P Q : A → Type 0} (xs : List A) → ((x : A) → P x → Q x) → All P xs → All Q xs
All-map [] f h = tt
All-map (x ∷ xs) f (h, hs) = (f x h, All-map xs f hs)

pub All-Somewhere {ℓ} :
    {A : Type ℓ} {P Q : A → Type 0} (xs : List A) → All P xs → Somewhere Q xs → (x : A) × P x × Q x
All-Somewhere [] h s = absurd s
All-Somewhere (x ∷ xs) (h, hs) (inl s) = (x, h, s)
All-Somewhere (x ∷ xs) (h, hs) (inr s) = All-Somewhere xs hs s

-- The session of a request: a new one, where there is no cookie or it is refused, which is what
-- `broken` tells, or one of those that were handed out.
pub data Presented {V : Type 0} (o : Options V) (issued : List Session) (session : Session)
    : Type 0 where
  new : session ≡ blank o → Presented o issued session
  returned :
      (s : Session)
      → Somewhere (λ t. s ≡ t) issued
      → session ≡ reopened o s
      → Presented o issued session

module _ {S V : Type 0} (lib : Libraries) (ops : Storage S) (o : Options V) where
  -- The handler that a request is routed to, if any.
  abbrev pub reached : Moment → Request → Context S V → Option Endpoint → List (Served S V)
  reached m req c none = []
  reached m req c (some endpoint) =
      record { at = m; request = req; endpoint = endpoint; before = c } ∷ []

  -- The same, if RequireAuth lets the request through, with what it makes of the context.
  abbrev pub passed : Moment → Request → Context S V → Flow (Unit {0}) → List (Served S V)
  passed m req c done = []
  passed m req c (next _) =
      reached m req c (endpoint_of req.method req.path (register_routes lib ops o))

  abbrev pub event : Moment → Request → Context S V → List (Served S V)
  event m req c =
      passed m req (require_auth lib ops o req.path c).1 (require_auth lib ops o req.path c).0

  -- The runs: the handlers that were reached, the last one first, the storage, and the sessions that
  -- were handed out.
  pub data Trace : List (Served S V) → S → List Session → Type 0 where
    start : {s : S} → Trace [] s []
    elsewhere :
        {h : List (Served S V)} {s : S} {issued : List Session}
        → Trace h s issued
        → (t : S) → Trace h t issued
    request :
        {h : List (Served S V)} {s : S} {issued : List Session}
        → Trace h s issued
        → (m : Moment) (req : Request) (session : Session) (broken : Bool)
        → Presented o issued session
        → Trace
            (event m req (received s session broken) ++ h)
            (serve lib ops o m req (received s session broken)).1.storage
            ((serve lib ops o m req (received s session broken)).1.cookies ++ issued)

  -- Whoever a session names was proved by one of the requests.
  pub record Accounted (h : List (Served S V)) (s : Session) : Type 0 where
    pub user :
        (s.user_id ≡ none)
        ⊎ ((name : Text) × (s.user_id ≡ some (string name))
            × Somewhere (λ e. LoggedInBy lib ops o e name) h)
    pub pending :
        (s.pending_tfa_user_id ≡ none)
        ⊎ ((name : Text) × (s.pending_tfa_user_id ≡ some (string name))
            × Somewhere (λ e. ChallengedBy lib ops o e name) h)

  pub Accounted-append :
      (g h : List (Served S V)) (s : Session) → Accounted h s → Accounted (g ++ h) s
  Accounted-append g h s a = record {
    user = elim a.user [
      | inl nobody ↦ inl nobody
      | inr (name, named, proved) ↦
          inr (name, named, Somewhere-append (λ e. LoggedInBy lib ops o e name) g h proved)
    ];
    pending = elim a.pending [
      | inl nobody ↦ inl nobody
      | inr (name, named, proved) ↦
          inr (name, named, Somewhere-append (λ e. ChallengedBy lib ops o e name) g h proved)
    ];
  }

  pub Origin-Accounted :
      (e : Served S V) (h : List (Served S V)) (s : Session)
      → Accounted h e.before.session
      → Origin lib ops o e s
      → Accounted (e ∷ h) s
  Origin-Accounted e h s a origin = record {
    user = elim origin.user [
      | inl nobody ↦ inl nobody
      | inr (inl kept) ↦ elim a.user [
        | inl nobody ↦ inl (kept ∙ nobody)
        | inr (name, named, proved) ↦ inr (name, kept ∙ named, inr proved)
      ]
      | inr (inr (name, named, proved)) ↦ inr (name, named, inl proved)
    ];
    pending = elim origin.pending [
      | inl nobody ↦ inl nobody
      | inr (inl kept) ↦ elim a.pending [
        | inl nobody ↦ inl (kept ∙ nobody)
        | inr (name, named, proved) ↦ inr (name, kept ∙ named, inr proved)
      ]
      | inr (inr (name, named, proved)) ↦ inr (name, named, inl proved)
    ];
  }

  pub require_auth-keeps :
      (path : Text) (c : Context S V)
      → ((require_auth lib ops o path c).1.cookies ≡ c.cookies)
        × ((require_auth lib ops o path c).1.session ≡ c.session)
        × ((require_auth lib ops o path c).1.storage ≡ c.storage)
  unfolding require_auth
  require_auth-keeps path c = elim (Result-cases (get_user_from_session lib ops c)) [
    | inl (e, failed) ↦ ground arith
    | inr (user, session) ↦ ground arith
  ]

  pub Presented-Accounted :
      (h : List (Served S V)) (issued : List Session) (session : Session)
      → All (Accounted h) issued
      → Presented o issued session
      → Accounted h session
  Presented-Accounted h issued session all_good (new fresh) = record {
    user = inl (ap (λ s. s.user_id) fresh);
    pending = inl (ap (λ s. s.pending_tfa_user_id) fresh);
  }
  Presented-Accounted h issued session all_good (returned s there again) =
      let (t, good, same) = All-Somewhere issued all_good there in
      let e : Accounted h s = subst (Accounted h) (sym same) good in
      subst (Accounted h) (sym again) (record { user = e.user; pending = e.pending })
