-- ===== src/Handler/Access.antt =====
-- RegisterRoutes, RequireAuth, handleMe and handleLogout.
pub mod Allowed
mod Tests
use go_basicauth.Prelude.{
  Bool, true, false, not, ◌&&◌, ◌||◌, Option, none, some, List, [], ◌∷◌, ◌++◌, if◌then◌else◌, any,
}
use go_basicauth.Text.{Text, codes, text_eq}
use go_basicauth.Types.{
  User, Result, ok, err, PathRule, PathAccessType, public, private, unknown_access,
}
use go_basicauth.Settings.{Options}
use go_basicauth.Storage.{Storage}
use go_basicauth.Rules.{find_longest_matching_rule}
use go_basicauth.Request.{
  Context, Flow, next, done, Action, ◌>>=◌, ◌>>◌, pure, respond, refuse, or_refuse, user_response,
  success_response,
}
use go_basicauth.Handler.{
  Libraries, get_user_from_session, get_user_from_context, set_user_in_context, destroy_session,
  to_user_response, ask,
}

pub data Method : Type 0 where
  get post : Method

pub data Endpoint : Type 0 where
  register login logout me tfa_setup tfa_enable tfa_disable tfa_verify : Endpoint

pub record Route : Type 0 where
  pub method : Method
  pub path : Text
  pub endpoint : Endpoint

abbrev pub is_public : PathAccessType → Bool
is_public public = true
is_public private = false
is_public unknown_access = false

module _ {S V : Type 0} (lib : Libraries) (ops : Storage S) (o : Options V) where
  abbrev pub base_url : Text
  base_url =
      if text_eq o.authentication_base_url [] then codes "/auth" else o.authentication_base_url

  abbrev pub at_base : Text → Text
  at_base path = base_url ++ path

  -- The paths of Engine.Group(baseUrl), and of its group for two-factor authentication.
  abbrev in_group : Text → Text
  in_group path = lib.join_paths base_url path

  abbrev in_tfa_group : Text → Text
  in_tfa_group path = lib.join_paths (in_group (codes "/tfa")) path

  -- RegisterRoutes: the routes that are mounted, behind RequireAuth
  unfoldable pub register_routes : List Route
  register_routes =
      (if o.settings.enable_registration
        then record { method = post; path = in_group (codes "/register"); endpoint = register } ∷ []
        else [])
      ++ record { method = post; path = in_group (codes "/login"); endpoint = login }
        ∷ record { method = post; path = in_group (codes "/logout"); endpoint = logout }
        ∷ record { method = get; path = in_group (codes "/me"); endpoint = me }
        ∷ (if o.settings.enable_tfa
            then record {
              method = post;
              path = in_tfa_group (codes "/setup");
              endpoint = tfa_setup;
            }
              ∷ record {
                method = post;
                path = in_tfa_group (codes "/enable");
                endpoint = tfa_enable;
              }
              ∷ record {
                method = post;
                path = in_tfa_group (codes "/disable");
                endpoint = tfa_disable;
              }
              ∷ record {
                method = post;
                path = in_tfa_group (codes "/verify");
                endpoint = tfa_verify;
              }
              ∷ []
            else [])

  -- The lookup of a path in a map[string]bool that is true at the given paths.
  abbrev pub one_of : List Text → Text → Bool
  one_of paths path = any (λ p. text_eq path (at_base p)) paths

  unfoldable pub public_auth_path : Text → Bool
  public_auth_path =
      one_of (codes "/register" ∷ codes "/login" ∷ codes "/tfa/verify" ∷ codes "/logout" ∷ [])

  unfoldable pub protected_auth_path : Text → Bool
  protected_auth_path =
      one_of (codes "/me" ∷ codes "/tfa/setup" ∷ codes "/tfa/enable" ∷ codes "/tfa/disable" ∷ [])

  unfoldable pub tfa_setup_bypass_path : Text → Bool
  tfa_setup_bypass_path = one_of (codes "/me" ∷ codes "/tfa/setup" ∷ codes "/tfa/enable" ∷ [])

  -- A rule was found for the path and grants public access.
  unfoldable pub publicly_ruled : Text → Bool
  publicly_ruled path =
      elim (find_longest_matching_rule o.settings.public_paths o.settings.path_rules path) [
        | none ↦ false
        | some rule ↦ is_public rule.access
      ]

  -- The user would first have to enrol.
  abbrev pub must_enrol : Text → User → Bool
  must_enrol path user =
      o.settings.enable_tfa
      && o.settings.tfa.required
      && not user.totp_enabled
      && not (tfa_setup_bypass_path path)

  abbrev abort : Context S V → Context S V
  abort c = record c { aborted = true }

  -- refuse, and c.Abort()
  abbrev pub turn_away : Context S V → Flow (Unit {0}) × Context S V
  turn_away c = (done, abort c)

  -- The function that RequireAuth returns. `next` stands for c.Next().
  unfoldable pub require_auth : Text → Action S V (Unit {0})
  unfolding set_user_in_context
  require_auth path c =
      if public_auth_path path || (not (protected_auth_path path) && publicly_ruled path)
      then (next tt, c)
      else elim (get_user_from_session lib ops c) [
        | err e ↦
            turn_away
              (refuse {A = Unit {0}} 401 (codes "unauthorized") o.settings.messages.unauthorized
                c).1
        | ok user ↦
            if must_enrol path user
            then turn_away
                (refuse {A = Unit {0}} 403 (codes "tfa_setup_required")
                  o.settings.messages.tfa_setup_required c).1
            else set_user_in_context lib ops o user (record c { user = some user })
      ]

  unfoldable pub handle_me : Action S V (Unit {0})
  handle_me = do
    read ← λ c. (next (get_user_from_context c), c)
    user ← or_refuse read 401 (codes "unauthorized") o.settings.messages.unauthorized
    respond 200 (user_response (to_user_response user))

  unfoldable pub handle_logout : Action S V (Unit {0})
  unfolding destroy_session
  handle_logout = do
    destroyed ← destroy_session lib
    or_refuse destroyed 500 (codes "internal_error") o.settings.messages.internal_error
    respond 200 (success_response o.settings.messages.logout_success)
