-- ===== src/Service/Provenance.antt =====
-- Where the sessions of a run come from.
use mathlib.Core.Path.{subst}
use go_basicauth.Prelude.{
  ◌≡◌, refl, sym, ap, ◌∙◌, Option, none, some, List, [], ◌∷◌, ◌++◌, All, All-append,
}
use go_basicauth.Settings.{Options}
use go_basicauth.Storage.{Storage}
use go_basicauth.Request.{Context, Session, >>=-elim}
use go_basicauth.Handler.{Libraries, Moment}
use go_basicauth.Handler.Access.{Endpoint, register_routes, require_auth}
use go_basicauth.Service.{Request, endpoint_of, route_to, routed, serve, received}
use go_basicauth.Service.Evidence.{Served}
use go_basicauth.Service.Trace.{
  All-map, reached, passed, event, Trace, start, elsewhere, request, Accounted, Accounted-append,
  Origin-Accounted, require_auth-keeps, Presented-Accounted,
}
use go_basicauth.Service.Origin.{handle-Saves}

module _ {S V : Type 0} (lib : Libraries) (ops : Storage S) (o : Options V) where
  route_to-Accounted :
      (m : Moment) (req : Request) (c : Context S V) (h : List (Served S V)) (to : Option Endpoint)
      → c.cookies ≡ []
      → Accounted lib ops o h c.session
      → All
          (Accounted lib ops o (reached lib ops o m req c to ++ h))
          (route_to lib ops o m req to c).1.cookies
  route_to-Accounted m req c h none fresh good = subst (All (Accounted lib ops o h)) (sym fresh) tt
  route_to-Accounted m req c h (some endpoint) fresh good =
      let e : Served S V = record { at = m; request = req; endpoint = endpoint; before = c } in
      let (new, saved, origins) = handle-Saves lib ops o e in
      subst (All (Accounted lib ops o (e ∷ h))) (sym (saved ∙ ap (λ l. l ++ new) fresh))
        (All-map new (λ s origin. Origin-Accounted lib ops o e h s good origin) origins)

  serve-Accounted :
      (m : Moment) (req : Request) (c : Context S V) (h : List (Served S V))
      → c.cookies ≡ []
      → Accounted lib ops o h c.session
      → All (Accounted lib ops o (event lib ops o m req c ++ h)) (serve lib ops o m req c).1.cookies
  unfolding serve
  serve-Accounted m req c h fresh good =
      let (cookies, session, _) = require_auth-keeps lib ops o req.path c in
      >>=-elim (λ r. All (Accounted lib ops o (event lib ops o m req c ++ h)) r.1.cookies)
        (require_auth lib ops o req.path) (λ _. routed lib ops o m req) c
        (λ stopped.
          subst (All (Accounted lib ops o (event lib ops o m req c ++ h))) (sym (cookies ∙ fresh))
            tt)
        λ _ went.
          let c' = (require_auth lib ops o req.path c).1 in
          subst
            (λ f.
              All (Accounted lib ops o (passed lib ops o m req c' f ++ h))
                (routed lib ops o m req c').1.cookies)
            (sym went)
            (route_to-Accounted m req c' h
              (endpoint_of req.method req.path (register_routes lib ops o)) (cookies ∙ fresh)
              (subst (Accounted lib ops o h) (sym session) good))

  All-Accounted :
      (g h : List (Served S V)) (issued : List Session)
      → All (Accounted lib ops o h) issued
      → All (Accounted lib ops o (g ++ h)) issued
  All-Accounted g h issued good = All-map issued (λ s. Accounted-append lib ops o g h s) good

  -- In every run, every session that was handed out is accounted for.
  pub Trace-Accounted :
      {h : List (Served S V)} {s : S} {issued : List Session}
      → Trace lib ops o h s issued
      → All (Accounted lib ops o h) issued
  Trace-Accounted start = tt
  Trace-Accounted (elsewhere run t) = Trace-Accounted run
  Trace-Accounted (request {h} {s} {issued} run m req session broken presented) =
      let good = Trace-Accounted run in
      let c : Context S V = received s session broken in
      All-append (Accounted lib ops o (event lib ops o m req c ++ h))
        (serve lib ops o m req c).1.cookies issued
        (serve-Accounted m req c h refl
          (Presented-Accounted lib ops o h issued session good presented))
        (All-Accounted (event lib ops o m req c) h issued good)
