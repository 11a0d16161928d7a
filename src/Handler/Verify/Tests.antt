-- ===== src/Handler/Verify/Tests.antt =====
-- A code for a pending challenge.
use go_basicauth.Prelude.{ℕ, ◌≡◌, ◌⊎◌, refl, false, some, [], ◌∷◌}
use go_basicauth.Text.{codes, text_eq, trim_space}
use go_basicauth.Request.{Context, string, int64, bound}
use go_basicauth.Handler.{save, create_session, set_user_in_context}
use go_basicauth.Handler.Verify.{
  TfaVerifyRequest, handle_tfa_verify, pending_user, challenged, reserve, check_code, accept,
}
use go_basicauth.Tfa.{validate_totp_code}
use go_basicauth.Handler.Verify.Steps.{IsUnlogged, IsAccepted}
use go_basicauth.Handler.Verify.Sound.{IsVerified, handle_tfa_verify_sound}
use go_basicauth.MemoryStorage.{
  MemoryStorage, create_user, memory_storage, get_user_by_id, consume_totp_attempt,
  reset_totp_attempts,
}
use go_basicauth.Samples.{ascii, carol, libraries}
use go_basicauth.Handler.Samples.{moment, options, no_session, fresh, carol_only}

-- A request with a pending challenge for carol, and the code of the moment.
abbrev challenged_request : Context MemoryStorage ℕ
challenged_request = record (fresh carol_only) {
  session = record no_session {
    pending_tfa_user_id = some (string (1 ∷ []));
    pending_tfa_expires_at = some (int64 5);
  };
}

abbrev right_code : TfaVerifyRequest
right_code = record { code = codes "S"; is_backup_code = false }

carol_logged_in :
    (handle_tfa_verify libraries
      (memory_storage ascii)
      options
      moment
      (bound right_code)
      challenged_request).1.user
    ≡ some carol
unfolding handle_tfa_verify pending_user text_eq challenged get_user_by_id create_user reserve
    consume_totp_attempt check_code validate_totp_code trim_space accept reset_totp_attempts save
    create_session set_user_in_context
carol_logged_in = refl

handle_tfa_verify_sound_example :
    let answered =
      (handle_tfa_verify libraries
        (memory_storage ascii)
        options
        moment
        (bound right_code)
        challenged_request).1 in
    ((v : IsVerified libraries (memory_storage ascii) options moment challenged_request right_code)
      × IsAccepted libraries
          (memory_storage ascii)
          options
          moment
          challenged_request
          v.user
          answered)
    ⊎ IsUnlogged libraries (memory_storage ascii) options moment challenged_request answered
handle_tfa_verify_sound_example =
    handle_tfa_verify_sound libraries (memory_storage ascii) options moment challenged_request
      right_code
