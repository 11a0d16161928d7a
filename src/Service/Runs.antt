-- ===== src/Service/Runs.antt =====
-- Runs of the service over a storage, as the calls that the requests and the application make. What
-- holds of the calls of one request, `handled`, is carried over to those of a run.
use mathlib.Core.Path.{subst}
use go_basicauth.Prelude.{
  ℕ, ◌+◌, ◌≡◌, refl, sym, Option, none, some, List, [], ◌∷◌, ◌++◌, All, arith,
}
use go_basicauth.Settings.{Options}
use go_basicauth.Storage.{Storage}
use go_basicauth.Storage.Calls.{Call, after}
use go_basicauth.Storage.Written.{Written, Written-none, Written-call, Written-then, Written-fewer}
use go_basicauth.Request.{Context, >>=-elim}
use go_basicauth.Handler.{Libraries, Moment}
use go_basicauth.Handler.Access.{Endpoint, register_routes, require_auth}
use go_basicauth.Service.{Request, endpoint_of, handle, route_to, routed, serve}
use go_basicauth.Service.Evidence.{Served}
use go_basicauth.Service.Trace.{reached, passed, event, require_auth-keeps}

module _ {S V : Type 0} (lib : Libraries) (ops : Storage S) (o : Options V)
    (P : Call → Type 0) where
  -- Runs from a state of the storage: requests with any session at all, and calls of the application
  -- of a given kind.
  pub data Run (s : S) : List (Served S V) → S → Type 0 where
    start : Run s [] s
    call : {h : List (Served S V)} {t : S} → Run s h t → (c : Call) → P c → Run s h (after ops c t)
    request :
        {h : List (Served S V)} {t : S}
        → Run s h t
        → (m : Moment) (req : Request) (c : Context S V) → c.storage ≡ t
        → Run s (event lib ops o m req c ++ h) (serve lib ops o m req c).1.storage

-- The sum of what the requests of a run weigh.
abbrev pub weight : {S V : Type 0} → (Served S V → ℕ) → List (Served S V) → ℕ
weight weigh [] = 0
weight weigh (e ∷ h) = weigh e + weight weigh h

weight-append :
    {S V : Type 0} (weigh : Served S V → ℕ) (g h : List (Served S V))
    → weight weigh (g ++ h) ≡ weight weigh g + weight weigh h
weight-append weigh [] h = omega arith
weight-append weigh (e ∷ g) h = omega (arith, weight-append weigh g h)

module _ {S V : Type 0} (lib : Libraries) (ops : Storage S) (o : Options V) (P : Call → Type 0)
    (grant : Call → S → ℕ) (weigh : Served S V → ℕ) (Barred : Served S V → Type 0)
    (handled : (e : Served S V)
      → ¬ Barred e
      → Written ops P grant e.before.storage
          (handle lib ops o e.at e.request e.endpoint e.before).1.storage
          (weigh e)) where
  abbrev Allowed : List (Served S V) → Type 0
  Allowed h = All (λ e. ¬ Barred e) h

  abbrev Leads : S → S → ℕ → Type 0
  Leads = Written ops P grant

  route_to-Leads :
      (m : Moment) (req : Request) (c : Context S V) (to : Option Endpoint)
      → Allowed (reached lib ops o m req c to)
      → Leads c.storage
          (route_to lib ops o m req to c).1.storage
          (weight weigh (reached lib ops o m req c to))
  route_to-Leads m req c none kept = Written-none ops P grant refl
  route_to-Leads m req c (some endpoint) (other, _) =
      Written-fewer ops P grant _ (omega arith)
        (handled (record { at = m; request = req; endpoint = endpoint; before = c }) other)

  served-Leads :
      (m : Moment) (req : Request) (c : Context S V)
      → Allowed (event lib ops o m req c)
      → Leads c.storage (serve lib ops o m req c).1.storage (weight weigh (event lib ops o m req c))
  unfolding serve
  served-Leads m req c =
      let c' = (require_auth lib ops o req.path c).1 in
      let to = endpoint_of req.method req.path (register_routes lib ops o) in
      let same : c'.storage ≡ c.storage = (require_auth-keeps lib ops o req.path c).2 in
      >>=-elim
        (λ r.
          Allowed (event lib ops o m req c)
          → Leads c.storage r.1.storage (weight weigh (event lib ops o m req c)))
        (require_auth lib ops o req.path) (λ _. routed lib ops o m req) c
        (λ stopped _.
          subst (λ f. Leads c.storage c'.storage (weight weigh (passed lib ops o m req c' f)))
            (sym stopped) (Written-none ops P grant same))
        λ _ went.
          subst
            (λ f.
              Allowed (passed lib ops o m req c' f)
              → Leads c.storage (routed lib ops o m req c').1.storage
                  (weight weigh (passed lib ops o m req c' f)))
            (sym went)
            λ kept.
              subst
                (λ s.
                  Leads s (routed lib ops o m req c').1.storage
                    (weight weigh (reached lib ops o m req c' to)))
                same (route_to-Leads m req c' to kept)

  All-split : (g h : List (Served S V)) → Allowed (g ++ h) → Allowed g × Allowed h
  All-split [] h kept = (tt, kept)
  All-split (e ∷ g) h (k, kept) = let (first, second) = All-split g h kept in ((k, first), second)

  pub Run-Written :
      {s t : S} {h : List (Served S V)}
      → Run lib ops o P s h t
      → Allowed h
      → Leads s t (weight weigh h)
  Run-Written start kept = Written-none ops P grant refl
  Run-Written (call run c p) kept =
      Written-fewer ops P grant _ (omega arith)
        (Written-then ops P grant (Run-Written run kept) (Written-call ops P grant c p refl))
  Run-Written (request {h} {t} run m req c here) kept =
      let (last, before) = All-split (event lib ops o m req c) h kept in
      Written-fewer ops P grant _ (omega (arith, weight-append weigh (event lib ops o m req c) h)) (
        Written-then ops P grant (Run-Written run before) (
          subst
            (λ r.
              Leads r (serve lib ops o m req c).1.storage (weight weigh (event lib ops o m req c)))
            here (served-Leads m req c last)))
