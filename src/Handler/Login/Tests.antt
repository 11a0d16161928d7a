-- ===== src/Handler/Login/Tests.antt =====
-- Logins to a service with the storage in memory.
use go_basicauth.Prelude.{
  ℕ, ◌≢◌, ◌↔◌, arith, length, ◌==◌, if◌then◌else◌, some, ◌≡◌, ◌⊎◌, inr, refl, true, false, none, [],
  ◌∷◌, ◌++◌,
}
use go_basicauth.Text.{Text, codes, to_lower, text_eq, contains}
use go_basicauth.Types.{User, ok}
use go_basicauth.Settings.{Options}
use go_basicauth.Request.{bound, next, done, success_with_user}
use go_basicauth.Handler.{get_user_by_identifier, pending_session, to_user_response}
use go_basicauth.Handler.Login.{
  LoginRequest, handle_login, verify_login_password, upgrade_password_hash,
}
use go_basicauth.Handler.Login.Outcome.{
  accepts, credentials_refused, handle_login_refused, handle_login_pending, handle_login_admitted,
}
use go_basicauth.Bcrypt.{Compared, matched, mismatched, bcrypt_verifier}
use go_basicauth.Handler.Login.Imported.{FollowsBcrypt, handle_login-FollowsBcrypt}
use go_basicauth.Handler.Login.Upgrade.{Upgraded, upgrade_password_hash-Upgraded}
use go_basicauth.MemoryStorage.{
  MemoryStorage, new_memory_storage, create_user, memory_storage, get_user_by_username,
}
use go_basicauth.MemoryStorage.Invariant.{WellFormed, empty, after, create, Reachable-WellFormed}
use go_basicauth.MemoryStorage.Implements.{memory_storage-Contract}
use go_basicauth.Text.Split.{split}
use go_basicauth.Password.{verify_password}
use go_basicauth.Samples.{ascii, alice, carol, libraries}
use go_basicauth.Handler.Samples.{
  moment, options, no_session, fresh, carol_only, alice_only, alice_session,
}

abbrev right : LoginRequest
right = record { identifier = codes "alice"; password = codes "h" }

abbrev wrong : LoginRequest
wrong = record { identifier = codes "alice"; password = codes "k" }

carol_found :
    get_user_by_identifier libraries (memory_storage ascii) options (codes "alice") carol_only
    ≡ ok carol
unfolding get_user_by_identifier get_user_by_username create_user to_lower text_eq contains
carol_found = refl

alice_found :
    get_user_by_identifier libraries (memory_storage ascii) options (codes "alice") alice_only
    ≡ ok alice
unfolding get_user_by_identifier get_user_by_username create_user to_lower text_eq contains
alice_found = refl

alice_refused :
    accepts libraries (memory_storage ascii) options moment wrong (fresh alice_only) alice ≡ false
unfolding verify_password text_eq split
alice_refused = refl

handle_login_refused_example :
    handle_login libraries (memory_storage ascii) options moment (bound wrong) (fresh alice_only)
    ≡ (
      done,
      credentials_refused libraries (memory_storage ascii) options moment wrong (fresh alice_only),
    )
handle_login_refused_example =
    handle_login_refused libraries (memory_storage ascii) options moment wrong (fresh alice_only)
      (inr (alice, alice_found, alice_refused))

handle_login_pending_example :
    let after_login =
      (handle_login libraries
        (memory_storage ascii)
        options
        moment
        (bound right)
        (fresh carol_only)).1 in
    ((after_login.cookies ≡ [])
      ⊎ ((accepts libraries (memory_storage ascii) options moment right (fresh carol_only) carol
            ≡ true)
          × (after_login.cookies
              ≡ []
                ++ pending_session libraries (memory_storage ascii) options moment carol no_session
                  ∷ [])))
    × (after_login.user ≡ none)
    × (after_login.value ≡ none)
handle_login_pending_example =
    handle_login_pending libraries (memory_storage ascii) options moment right (fresh carol_only)
      carol carol_found refl

alice_accepted :
    accepts libraries (memory_storage ascii) options moment right (fresh alice_only) alice ≡ true
unfolding verify_password text_eq split
alice_accepted = refl

handle_login_admitted_example :
    let after_login =
      (handle_login libraries
        (memory_storage ascii)
        options
        moment
        (bound right)
        (fresh alice_only)).1 in
    (after_login.cookies ≡ alice_session ∷ [])
    × (after_login.replies
        ≡ record {
          status = 200;
          body = success_with_user (codes "Login successful") (to_user_response alice);
        }
          ∷ [])
handle_login_admitted_example =
    handle_login_admitted libraries (memory_storage ascii) options moment right (fresh alice_only)
      alice alice_found refl alice_accepted refl

alice_only-WellFormed : WellFormed ascii alice_only
alice_only-WellFormed = Reachable-WellFormed ascii (after empty (create new_memory_storage alice))

upgrade_password_hash-Upgraded_example :
    let c' =
      upgrade_password_hash libraries
        (memory_storage ascii)
        options
        moment
        alice
        (codes "h")
        (fresh alice_only) in
    (c'.0 ≡ next tt)
    × (c'.1 ≡ record (fresh alice_only) { storage = c'.1.storage })
    × Upgraded
        (memory_storage-Contract ascii)
        libraries
        options
        moment
        alice
        (codes "h")
        alice_only
        c'.1.storage
upgrade_password_hash-Upgraded_example =
    upgrade_password_hash-Upgraded (memory_storage-Contract ascii) libraries options moment alice
      (codes "h") (fresh alice_only) alice_only-WellFormed

-- A user whose hash comes from another system, and a bcrypt that compares nothing but lengths.
abbrev frank : User
frank = record alice { password_hash = codes "$2a$10$abc" }

abbrev same_length : Text → Text → Compared
same_length hash password = if length hash == length password then matched else mismatched

abbrev imported : Options ℕ
imported = record options {
  settings = record options.settings {
    legacy_password_verifier = some (bcrypt_verifier same_length);
  };
}

abbrev frank_only : MemoryStorage
frank_only = (create_user ascii frank new_memory_storage).1

abbrev as_long : LoginRequest
as_long = record { identifier = codes "alice"; password = codes "0123456789" }

frank_shape : length (split b'$' frank.password_hash) ≢ 6
unfolding split
frank_shape = omega arith

frank_found :
    get_user_by_identifier libraries (memory_storage ascii) imported (codes "alice") frank_only
    ≡ ok frank
unfolding get_user_by_identifier get_user_by_username create_user to_lower text_eq contains
frank_found = refl

handle_login-FollowsBcrypt_example :
    (((verify_login_password libraries
          (memory_storage ascii)
          imported
          moment
          frank
          (codes "0123456789")
          (fresh frank_only)).0
        ≡ next true)
      ↔ (same_length frank.password_hash (codes "0123456789") ≡ matched))
    × FollowsBcrypt libraries
        (memory_storage ascii)
        imported
        moment
        as_long
        (fresh frank_only)
        frank
        same_length
        (handle_login libraries
          (memory_storage ascii)
          imported
          moment
          (bound as_long)
          (fresh frank_only))
handle_login-FollowsBcrypt_example =
    handle_login-FollowsBcrypt libraries (memory_storage ascii) imported moment as_long
      (fresh frank_only) frank same_length frank_found refl frank_shape

frank_matches : same_length frank.password_hash (codes "0123456789") ≡ matched
frank_matches = refl
