-- ===== src/Handler/Access/Tests.antt =====
-- Requests that RequireAuth lets through and turns away.
use go_basicauth.Prelude.{ℕ, ◌≡◌, ◌⊎◌, refl, true, false, some, [], ◌∷◌, ◌++◌}
use go_basicauth.Text.{codes, text_eq, has_prefix}
use go_basicauth.Types.{User, ok}
use go_basicauth.Request.{Context, Reply, next, done}
use go_basicauth.Handler.{get_user_from_session}
use go_basicauth.Handler.Access.{
  must_enrol, require_auth, public_auth_path, protected_auth_path, publicly_ruled,
}
use go_basicauth.Handler.Access.Allowed.{RuledPublic, require_auth_sound, require_auth_refused}
use go_basicauth.Rules.{find_longest_matching_rule}
use go_basicauth.MemoryStorage.{MemoryStorage, create_user, memory_storage, get_user_by_id}
use go_basicauth.Samples.{ascii, libraries}
use go_basicauth.Handler.Samples.{options, fresh, alice_only, alice_session}

abbrev logged_in : Context MemoryStorage ℕ
logged_in = record (fresh alice_only) { session = alice_session }

alice_let_through :
    (require_auth libraries (memory_storage ascii) options (codes "/secret") logged_in).0 ≡ next tt
unfolding require_auth public_auth_path text_eq protected_auth_path publicly_ruled
    find_longest_matching_rule has_prefix get_user_from_session get_user_by_id create_user
alice_let_through = refl

require_auth_sound_example :
    (public_auth_path libraries (memory_storage ascii) options (codes "/secret") ≡ true)
    ⊎ (((protected_auth_path libraries (memory_storage ascii) options (codes "/secret") ≡ false)
          × RuledPublic libraries (memory_storage ascii) options (codes "/secret") logged_in)
        ⊎ ((user : User) × (get_user_from_session libraries (memory_storage ascii) logged_in
              ≡ ok user)
            × (must_enrol libraries (memory_storage ascii) options (codes "/secret") user ≡ false)
            × ((require_auth libraries
                  (memory_storage ascii)
                  options
                  (codes "/secret")
                  logged_in).1.user
                ≡ some user)))
require_auth_sound_example =
    require_auth_sound libraries (memory_storage ascii) options (codes "/secret") logged_in
      alice_let_through

stranger_turned_away :
    (require_auth libraries (memory_storage ascii) options (codes "/secret") (fresh alice_only)).0
    ≡ done
unfolding require_auth public_auth_path text_eq protected_auth_path publicly_ruled
    find_longest_matching_rule has_prefix get_user_from_session
stranger_turned_away = refl

require_auth_refused_example :
    (r : Reply) × ((r.status ≡ 401) ⊎ (r.status ≡ 403))
    × ((require_auth libraries
          (memory_storage ascii)
          options
          (codes "/secret")
          (fresh alice_only)).1
        ≡ record (fresh alice_only) { replies = [] ++ r ∷ []; aborted = true })
require_auth_refused_example =
    require_auth_refused libraries (memory_storage ascii) options (codes "/secret")
      (fresh alice_only) stranger_turned_away
