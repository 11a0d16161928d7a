-- ===== src/Handler/Access/Allowed.antt =====
-- Whom RequireAuth lets through.
use mathlib.Core.Path.{subst}
use go_basicauth.Prelude.{
  ◌≡◌, ◌⊎◌, inl, inr, refl, not, ◌&&◌, true, false, some, [], ◌∷◌, ◌++◌, arith, Option-cases,
  Bool-cases,
}
use go_basicauth.Text.{Text, codes}
use go_basicauth.Types.{
  User, ok, Result-cases, PathRule, PathAccessType, public, private, unknown_access,
}
use go_basicauth.Settings.{Options}
use go_basicauth.Storage.{Storage}
use go_basicauth.Rules.{find_longest_matching_rule, all_rules}
use go_basicauth.Rules.Longest.{Wins, IsLongestMatch, find_longest_matching_rule-IsLongestMatch}
use go_basicauth.Request.{Context, Reply, error_response, next, done}
use go_basicauth.Handler.{Libraries, get_user_from_session}
use go_basicauth.Handler.Access.{
  is_public, public_auth_path, protected_auth_path, publicly_ruled, must_enrol, require_auth,
}

module _ {S V : Type 0} (lib : Libraries) (ops : Storage S) (o : Options V) (path : Text)
    (c : Context S V) where
  -- One of the longest rules for the path, the first, is a public one.
  abbrev pub RuledPublic : Type 0
  RuledPublic =
      (r : PathRule) × Wins path 0 (all_rules o.settings.public_paths o.settings.path_rules) r
      × (r.access ≡ public)

  is_public_iff : (a : PathAccessType) → is_public a ≡ true → a ≡ public
  is_public_iff public h = refl
  is_public_iff private h = cc
  is_public_iff unknown_access h = cc

  publicly_ruled-RuledPublic : publicly_ruled lib ops o path ≡ true → RuledPublic
  unfolding publicly_ruled
  publicly_ruled-RuledPublic h =
      let rules = all_rules o.settings.public_paths o.settings.path_rules in
      let longest =
        find_longest_matching_rule-IsLongestMatch o.settings.public_paths o.settings.path_rules
          path in
      elim (Option-cases
        (find_longest_matching_rule o.settings.public_paths o.settings.path_rules path)) [
          | inl missing ↦ ground arith
          | inr (r, at) ↦ (
            r,
            subst (IsLongestMatch path rules) at longest,
            is_public_iff r.access (ground arith),
          )
        ]

  session_user :
      public_auth_path lib ops o path ≡ false
      → (not (protected_auth_path lib ops o path) && publicly_ruled lib ops o path) ≡ false
      → (require_auth lib ops o path c).0 ≡ next tt
      → (user : User) × (get_user_from_session lib ops c ≡ ok user)
        × (must_enrol lib ops o path user ≡ false)
        × ((require_auth lib ops o path c).1.user ≡ some user)
  unfolding require_auth
  session_user other closed passed = elim (Result-cases (get_user_from_session lib ops c)) [
    | inl (e, failed) ↦ ground arith
    | inr (user, session) ↦ (user, session, ground arith, ground arith)
  ]

  -- A request reaches its handler only if its path is one of the public endpoints, or it is no
  -- protected endpoint and the longest rule for it is public, or its session names a stored user
  -- who need not enrol first; that user is then the one in the context.
  pub require_auth_sound :
      (require_auth lib ops o path c).0 ≡ next tt
      → (public_auth_path lib ops o path ≡ true)
        ⊎ (((protected_auth_path lib ops o path ≡ false) × RuledPublic)
            ⊎ ((user : User) × (get_user_from_session lib ops c ≡ ok user)
                × (must_enrol lib ops o path user ≡ false)
                × ((require_auth lib ops o path c).1.user ≡ some user)))
  unfolding require_auth
  require_auth_sound passed = elim (Bool-cases (public_auth_path lib ops o path)) [
    | inl public_path ↦ inl public_path
    | inr other ↦
        elim (Bool-cases
          (not (protected_auth_path lib ops o path) && publicly_ruled lib ops o path)) [
            | inl ruled ↦ inr (inl (ground arith, publicly_ruled-RuledPublic (ground arith)))
            | inr closed ↦ inr (inr (session_user other closed passed))
          ]
  ]

  -- A user whose session is good, and who need not enrol, is let through to every path.
  pub require_auth_logged_in :
      (user : User)
      → get_user_from_session lib ops c ≡ ok user
      → must_enrol lib ops o path user ≡ false
      → (require_auth lib ops o path c).0 ≡ next tt
  unfolding require_auth
  require_auth_logged_in user session free = ground arith

  -- A request that is turned away gets one answer, 401 or 403, and changes nothing else.
  pub require_auth_refused :
      (require_auth lib ops o path c).0 ≡ done
      → (r : Reply) × ((r.status ≡ 401) ⊎ (r.status ≡ 403))
        × ((require_auth lib ops o path c).1
            ≡ record c { replies = c.replies ++ r ∷ []; aborted = true })
  unfolding require_auth
  require_auth_refused refused = elim (Result-cases (get_user_from_session lib ops c)) [
    | inl (e, failed) ↦ (
      record {
        status = 401;
        body = error_response (codes "unauthorized") o.settings.messages.unauthorized;
      },
      inl refl,
      ground arith,
    )
    | inr (user, session) ↦ (
      record {
        status = 403;
        body = error_response (codes "tfa_setup_required") o.settings.messages.tfa_setup_required;
      },
      inr refl,
      ground arith,
    )
  ]
