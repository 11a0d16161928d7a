-- ===== src/Handler/Register/Tests.antt =====
-- A registration with a service whose storage is in memory.
use go_basicauth.Prelude.{◌≡◌, ◌⊎◌, refl, some, [], ◌∷◌}
use go_basicauth.Text.{codes, text_eq}
use go_basicauth.Request.{bound, string}
use go_basicauth.Validation.{validate_email, validate_username, validate_password}
use go_basicauth.Validation.Regex.{matches}
use go_basicauth.MemoryStorage.{
  memory_storage, new_memory_storage, get_user_by_username, get_user_by_email, create_user,
}
use go_basicauth.Password.{hash_password}
use go_basicauth.Handler.Samples.{fresh, moment, options, no_session}
use go_basicauth.Handler.Register.{RegisterRequest, handle_register}
use go_basicauth.Handler.Register.Sound.{
  Untouched, IsAdmissible, IsFree, IsEntered, handle_register_sound,
}
use go_basicauth.Samples.{ascii, libraries}

abbrev request : RegisterRequest
request = record {
  username = some (codes "erin");
  email = some (codes "e@x.io");
  password = codes "Passw0rd";
}

handle_register_sound_example :
    let after_registration =
      (handle_register libraries
        (memory_storage ascii)
        options
        moment
        (bound request)
        (fresh new_memory_storage)).1 in
    Untouched libraries
      (memory_storage ascii)
      options
      moment
      request
      (fresh new_memory_storage)
      after_registration
    ⊎ (IsAdmissible libraries
          (memory_storage ascii)
          options
          moment
          request
          (fresh new_memory_storage)
        × IsFree libraries (memory_storage ascii) options moment request (fresh new_memory_storage)
        × IsEntered libraries
            (memory_storage ascii)
            options
            moment
            request
            (fresh new_memory_storage)
            after_registration)
handle_register_sound_example =
    handle_register_sound libraries (memory_storage ascii) options moment request
      (fresh new_memory_storage)

erin_entered :
    (handle_register libraries
      (memory_storage ascii)
      options
      moment
      (bound request)
      (fresh new_memory_storage)).1.cookies
    ≡ record no_session { user_id = some (string (9 ∷ [])) } ∷ []
unfolding handle_register validate_username matches validate_email text_eq validate_password
    get_user_by_username get_user_by_email hash_password create_user
erin_entered = refl
