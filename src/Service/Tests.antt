-- ===== src/Service/Tests.antt =====
-- A client who logs in and comes back with the cookie.
use go_basicauth.Prelude.{ℕ, ◌≡◌, ◌⊎◌, inl, refl, true, false, none, some, List, [], ◌∷◌, ◌++◌}
use go_basicauth.Text.{Text, codes, text_eq, contains, to_lower, has_prefix}
use go_basicauth.Types.{User, Uuid, ok}
use go_basicauth.Request.{Context, Session, string, bound, unbound, next}
use go_basicauth.MemoryStorage.{
  MemoryStorage, memory_storage, get_user_by_username, get_user_by_id, create_user, update_user,
}
use go_basicauth.Password.{verify_password, hash_password}
use go_basicauth.Text.Split.{split}
use go_basicauth.Rules.{find_longest_matching_rule}
use go_basicauth.Handler.{get_user_by_identifier, get_user_from_session}
use go_basicauth.Handler.Login.{handle_login}
use go_basicauth.Handler.Access.{
  post, require_auth, public_auth_path, protected_auth_path, publicly_ruled, register_routes,
}
use go_basicauth.Handler.Access.Allowed.{RuledPublic}
use go_basicauth.Handler.Samples.{moment, options, alice_only, alice_session, no_session}
use go_basicauth.Service.{Request, serve, handle, received}
use go_basicauth.Service.Evidence.{Served}
use go_basicauth.Service.Trace.{Somewhere, new, returned, event, Trace, start, request}
use go_basicauth.Service.Earned.{Earned, session-Earned, request-Earned}
use go_basicauth.Samples.{ascii, libraries}

abbrev login_request : Request
login_request = record {
  method = post;
  path = codes "/auth/login";
  registering = unbound [];
  logging_in = bound (record { identifier = codes "alice"; password = codes "h" });
  enabling = unbound [];
  disabling = unbound [];
  verifying = unbound [];
  draws = record { int = λ i max. none; salt = λ i n. none };
}

abbrev first_contact : Context MemoryStorage ℕ
first_contact = received alice_only no_session false

abbrev history : List (Served MemoryStorage ℕ)
history = event libraries (memory_storage ascii) options moment login_request first_contact ++ []

abbrev cookies : List Session
cookies =
    (serve libraries (memory_storage ascii) options moment login_request first_contact).1.cookies
    ++ []

abbrev stored : MemoryStorage
stored =
    (serve libraries (memory_storage ascii) options moment login_request first_contact).1.storage

one_login : Trace libraries (memory_storage ascii) options history stored cookies
one_login = request start moment login_request no_session false (new refl)

handed_out : Somewhere (λ t. alice_session ≡ t) cookies
unfolding serve require_auth public_auth_path text_eq register_routes handle handle_login
    get_user_by_identifier contains get_user_by_username create_user to_lower verify_password split
    hash_password get_user_by_id
handed_out = inl refl

session-Earned_example : Earned libraries (memory_storage ascii) options history (1 ∷ [])
session-Earned_example =
    session-Earned libraries (memory_storage ascii) options (λ id. refl) one_login alice_session
      (1 ∷ []) handed_out refl

let_through :
    (require_auth libraries
      (memory_storage ascii)
      options
      (codes "/secret")
      (received stored alice_session false)).0
    ≡ next tt
unfolding serve require_auth public_auth_path text_eq register_routes handle handle_login
    get_user_by_identifier contains get_user_by_username create_user to_lower verify_password split
    hash_password get_user_by_id protected_auth_path publicly_ruled find_longest_matching_rule
    has_prefix get_user_from_session update_user
let_through = refl

request-Earned_example :
    (public_auth_path libraries (memory_storage ascii) options (codes "/secret") ≡ true)
    ⊎ (((protected_auth_path libraries (memory_storage ascii) options (codes "/secret") ≡ false)
          × RuledPublic libraries
              (memory_storage ascii)
              options
              (codes "/secret")
              (received stored alice_session false))
        ⊎ ((user : User) × (name : Text) × (id : Uuid) × (some (string (1 ∷ []))
              ≡ some (string name))
            × (libraries.uuid_parse name ≡ some id)
            × ((memory_storage ascii).get_user_by_id id stored ≡ ok user)
            × Earned libraries (memory_storage ascii) options history name))
request-Earned_example =
    request-Earned libraries (memory_storage ascii) options (λ id. refl) one_login (codes "/secret")
      alice_session false (returned alice_session handed_out refl) let_through
