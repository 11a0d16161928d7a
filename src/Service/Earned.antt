-- ===== src/Service/Earned.antt =====
-- What a client has to prove, over a whole run, to be let through.
use mathlib.Core.Path.{subst}
use go_basicauth.Prelude.{
  ◌≡◌, ◌⊎◌, inl, inr, sym, ap, ◌∙◌, Bool, true, false, Option, none, some, List, [], ◌∷◌, ◌++◌,
  arith, Option-cases,
}
use go_basicauth.Text.{text_eq, Text}
use go_basicauth.Settings.{Options}
use go_basicauth.Storage.{Storage}
use go_basicauth.Request.{Context, Session, string, Flow, next, done}
use go_basicauth.Handler.{Libraries, Moment, get_user_from_session}
use go_basicauth.Handler.Access.{Endpoint, register_routes, require_auth}
use go_basicauth.Service.{Request, endpoint_of, received}
use go_basicauth.Service.Evidence.{
  Served, ProvedPassword, ProvedCode, Registered, by_password, by_code, by_registration, LoggedInBy,
}
use go_basicauth.Service.Trace.{
  Somewhere, Somewhere-map, All-Somewhere, Presented, reached, passed, Trace, start, elsewhere,
  request, Accounted, require_auth-keeps, Presented-Accounted,
}
use go_basicauth.Service.Provenance.{Trace-Accounted}
use go_basicauth.Types.{User, Uuid, ok}
use go_basicauth.Handler.Access.{public_auth_path, protected_auth_path}
use go_basicauth.Handler.Access.Allowed.{RuledPublic, require_auth_sound}

module _ {S V : Type 0} (lib : Libraries) (ops : Storage S) (o : Options V) where
  -- Every request came with a session that was accounted for by then.
  abbrev Backed : List (Served S V) → Type 0
  Backed [] = Unit
  Backed (e ∷ h) = Accounted lib ops o h e.before.session × Backed h

  reached-Backed :
      (m : Moment) (req : Request) (c : Context S V) (h : List (Served S V)) (to : Option Endpoint)
      → Accounted lib ops o h c.session
      → Backed h
      → Backed (reached lib ops o m req c to ++ h)
  reached-Backed m req c h none good backed = backed
  reached-Backed m req c h (some endpoint) good backed = (good, backed)

  passed-Backed :
      (m : Moment) (req : Request) (c : Context S V) (h : List (Served S V)) (f : Flow (Unit {0}))
      → Accounted lib ops o h c.session
      → Backed h
      → Backed (passed lib ops o m req c f ++ h)
  passed-Backed m req c h done good backed = backed
  passed-Backed m req c h (next _) good backed =
      reached-Backed m req c h (endpoint_of req.method req.path (register_routes lib ops o)) good
        backed

  Trace-Backed :
      {h : List (Served S V)} {s : S} {issued : List Session}
      → Trace lib ops o h s issued
      → Backed h
  Trace-Backed start = tt
  Trace-Backed (elsewhere run t) = Trace-Backed run
  Trace-Backed (request {h} {s} {issued} run m req session broken presented) =
      let c : Context S V = received s session broken in
      let (_, same, _) = require_auth-keeps lib ops o req.path c in
      passed-Backed m req (require_auth lib ops o req.path c).1 h
        (require_auth lib ops o req.path c).0
        (subst (Accounted lib ops o h) (sym same) (
          Presented-Accounted lib ops o h issued session (Trace-Accounted lib ops o run) presented))
        (Trace-Backed run)

  -- The password of a user without a second factor was given.
  abbrev pub PasswordOnly : List (Served S V) → Text → Type 0
  PasswordOnly h name =
      Somewhere (λ e. (p : ProvedPassword lib ops o e false) × (name ≡ lib.uuid_string p.user.id)) h

  abbrev pub NewlyRegistered : List (Served S V) → Text → Type 0
  NewlyRegistered h name =
      Somewhere (λ e. Registered lib ops o e × (name ≡ lib.uuid_string e.at.new_uuid)) h

  -- The password of a user with a second factor was given, and later, in time and for that user's
  -- id, a right code.
  abbrev pub TwoFactors : List (Served S V) → Text → Type 0
  TwoFactors [] name = ⊥
  TwoFactors (e ∷ h) name =
      ((code : ProvedCode lib ops o e) × (name ≡ lib.uuid_string code.verified.user.id)
        × Somewhere
            (λ d.
              (p : ProvedPassword lib ops o d true) × (ops.get_user_by_id p.user.id e.before.storage
                ≡ ok code.verified.user))
            h)
      ⊎ TwoFactors h name

  abbrev pub Earned : List (Served S V) → Text → Type 0
  Earned h name = PasswordOnly h name ⊎ (NewlyRegistered h name ⊎ TwoFactors h name)

  Earned-cons :
      (e : Served S V) (h : List (Served S V)) (name : Text) → Earned h name → Earned (e ∷ h) name
  Earned-cons e h name (inl p) = inl (inr p)
  Earned-cons e h name (inr (inl r)) = inr (inl (inr r))
  Earned-cons e h name (inr (inr t)) = inr (inr (inr t))

  module _ (parse_string : (id : Uuid) → lib.uuid_parse (lib.uuid_string id) ≡ some id) where
    same_id :
        (e : Served S V) (code : ProvedCode lib ops o e) (name : Text) (id : Uuid)
        → e.before.session.pending_tfa_user_id ≡ some (string name)
        → name ≡ lib.uuid_string id
        → ops.get_user_by_id id e.before.storage ≡ ok code.verified.user
    same_id e code name id pending named =
        let parsed : lib.uuid_parse name ≡ some code.verified.pending.id =
          rw pending at code.verified.pending.named in
        let same : some code.verified.pending.id ≡ some id =
          sym parsed ∙ ap lib.uuid_parse named ∙ parse_string id in
        cc (same, code.verified.pending.stored)

    challenge_before :
        (e : Served S V) (h : List (Served S V)) (code : ProvedCode lib ops o e)
        → Accounted lib ops o h e.before.session
        → Somewhere
            (λ d.
              (p : ProvedPassword lib ops o d true) × (ops.get_user_by_id p.user.id e.before.storage
                ≡ ok code.verified.user))
            h
    unfolding text_eq
    challenge_before e h code good = elim good.pending [
      | inl nobody ↦ absurd (ground (arith, code.verified.pending.given))
      | inr (name, pending, challenged) ↦
          Somewhere-map h (λ d (p, named). (p, same_id e code name p.user.id pending named))
            challenged
    ]

    Earned-of_Backed :
        (h : List (Served S V)) (name : Text)
        → Backed h
        → Somewhere (λ e. LoggedInBy lib ops o e name) h
        → Earned h name
    Earned-of_Backed [] name backed proved = absurd proved
    Earned-of_Backed (e ∷ h) name backed (inl (by_password p same)) = inl (inl (p, same))
    Earned-of_Backed (e ∷ h) name (good, backed) (inl (by_code code same)) =
        inr (inr (inl (code, same, challenge_before e h code good)))
    Earned-of_Backed (e ∷ h) name backed (inl (by_registration r same)) = inr (inl (inl (r, same)))
    Earned-of_Backed (e ∷ h) name (good, backed) (inr proved) =
        Earned-cons e h name (Earned-of_Backed h name backed proved)

    module _ {h : List (Served S V)} {s : S} {issued : List Session}
        (run : Trace lib ops o h s issued) where
      Accounted-Earned :
          (session : Session) (name : Text)
          → Accounted lib ops o h session
          → session.user_id ≡ some (string name)
          → Earned h name
      Accounted-Earned session name good named = elim good.user [
        | inl nobody ↦ absurd (cc (nobody, named))
        | inr (other, named', proved) ↦
            let same : other ≡ name = cc (named, named') in
            subst (Earned h) same (Earned-of_Backed h other (Trace-Backed run) proved)
      ]

      -- A session that was handed out names a user as logged in only if a request of the run proved
      -- it: by the password alone of a user without a second factor, by a registration, or by both
      -- factors, the code after the password.
      pub session-Earned :
          (session : Session) (name : Text)
          → Somewhere (λ t. session ≡ t) issued
          → session.user_id ≡ some (string name)
          → Earned h name
      session-Earned session name there named =
          let (t, good, same) = All-Somewhere issued (Trace-Accounted lib ops o run) there in
          Accounted-Earned session name (subst (Accounted lib ops o h) (sym same) good) named

      session_names :
          (c : Context S V) (user : User)
          → get_user_from_session lib ops c ≡ ok user
          → Accounted lib ops o h c.session
          → (name : Text) × (id : Uuid) × (c.session.user_id ≡ some (string name))
            × (lib.uuid_parse name ≡ some id)
            × (ops.get_user_by_id id c.storage ≡ ok user)
      unfolding get_user_from_session
      session_names c user found good = elim good.user [
        | inl nobody ↦ absurd (ground arith)
        | inr (name, named, proved) ↦ elim (Option-cases (lib.uuid_parse name)) [
          | inl bad ↦ absurd (ground arith)
          | inr (id, parsed) ↦ (name, id, named, parsed, ground arith)
        ]
      ]

      -- In a run, RequireAuth lets a request through only if its path is a public endpoint, or is
      -- ruled public, or if its session names a stored user for whom a request of the run proved the
      -- password alone, a registration, or both factors.
      pub request-Earned :
          (path : Text) (session : Session) (broken : Bool)
          → Presented o issued session
          → (require_auth lib ops o path (received s session broken)).0 ≡ next tt
          → (public_auth_path lib ops o path ≡ true)
            ⊎ (((protected_auth_path lib ops o path ≡ false)
                  × RuledPublic lib ops o path (received s session broken))
                ⊎ ((user : User) × (name : Text) × (id : Uuid) × (session.user_id
                      ≡ some (string name))
                    × (lib.uuid_parse name ≡ some id)
                    × (ops.get_user_by_id id s ≡ ok user)
                    × Earned h name))
      request-Earned path session broken presented passed =
          let c : Context S V = received s session broken in
          let good =
            Presented-Accounted lib ops o h issued session (Trace-Accounted lib ops o run)
              presented in
          elim (require_auth_sound lib ops o path c passed) [
            | inl public_path ↦ inl public_path
            | inr (inl ruled) ↦ inr (inl ruled)
            | inr (inr (user, found, _, _)) ↦
                let (name, id, named, parsed, stored) = session_names c user found good in
                inr (
                  inr (
                    user,
                    name,
                    id,
                    named,
                    parsed,
                    stored,
                    Accounted-Earned session name good named,
                  ))
          ]
