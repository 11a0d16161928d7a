-- ===== src/Service/Budget/Tests.antt =====
-- A wrong code for a pending challenge.
use go_basicauth.Prelude.{
  ℕ, ◌-◌, ◌≤◌, ◌≡◌, refl, false, none, some, List, [], ◌∷◌, ◌++◌, All, arith,
}
use go_basicauth.Text.{codes, text_eq, trim_space, to_lower}
use go_basicauth.Types.{User}
use mathlib.Core.Path.{subst}
use go_basicauth.Service.Guesses.{examined}
use go_basicauth.Request.{next, Context, string, int64, bound, unbound}
use go_basicauth.MemoryStorage.{
  MemoryStorage, create_user, memory_storage, get_user_by_id, consume_totp_attempt,
  new_memory_storage,
}
use go_basicauth.MemoryStorage.Invariant.{new_memory_storage-WellFormed, create_user-WellFormed}
use go_basicauth.MemoryStorage.Implements.{memory_storage-Contract}
use go_basicauth.Tfa.{validate_totp_code, find_backup_code_match}
use go_basicauth.Password.{verify_password}
use go_basicauth.Text.Split.{split}
use go_basicauth.Handler.Access.{post, require_auth, public_auth_path, register_routes}
use go_basicauth.Handler.Verify.{TfaVerifyRequest, pending_user, challenged, reserve, check_code}
use go_basicauth.Handler.Samples.{moment, options, no_session, fresh, carol_only}
use go_basicauth.Service.{Request}
use go_basicauth.Service.Evidence.{Served}
use go_basicauth.Service.Trace.{event}
use go_basicauth.Service.Runs.{start, request, weight}
use go_basicauth.Service.Budget.{guess, Renewing, guessed-le}
use go_basicauth.Samples.{ascii, carol, libraries}

abbrev wrong_code : TfaVerifyRequest
wrong_code = record { code = codes "X"; is_backup_code = false }

abbrev wrong_request : Request
wrong_request = record {
  method = post;
  path = codes "/auth/tfa/verify";
  registering = unbound [];
  logging_in = unbound [];
  enabling = unbound [];
  disabling = unbound [];
  verifying = bound wrong_code;
  draws = record { int = λ i max. none; salt = λ i n. none };
}

abbrev challenged_context : Context MemoryStorage ℕ
challenged_context = record (fresh carol_only) {
  session = record no_session {
    pending_tfa_user_id = some (string (1 ∷ []));
    pending_tfa_expires_at = some (int64 5);
  };
}

abbrev one_guess : List (Served MemoryStorage ℕ)
one_guess =
    event libraries (memory_storage ascii) options moment wrong_request challenged_context ++ []

one_guess_counted : weight (guess libraries (memory_storage ascii) options 1) one_guess ≡ 1
unfolding require_auth public_auth_path text_eq register_routes pending_user challenged
    get_user_by_id create_user reserve consume_totp_attempt to_lower
one_guess_counted = refl

-- Behind the reservation.
abbrev reserved : Context MemoryStorage ℕ
reserved =
    (examined libraries (memory_storage ascii) options moment 1 (bound wrong_code)
      (require_auth libraries (memory_storage ascii) options wrong_request.path
        challenged_context).1).1

found_wrong :
    (user : User) (req : TfaVerifyRequest)
    → carol ≡ user
    → wrong_code ≡ req
    → (check_code libraries (memory_storage ascii) options moment user req reserved).0 ≡ next false
unfolding check_code validate_totp_code trim_space text_eq find_backup_code_match verify_password
    split
found_wrong user req u r =
    subst
      (λ q.
        (check_code libraries (memory_storage ascii) options moment user q reserved).0 ≡ next false)
      r
      (subst
        (λ x.
          (check_code libraries (memory_storage ascii) options moment x wrong_code reserved).0
          ≡ next false)
        u refl)

nobody_renews : All (λ e. ¬ Renewing libraries (memory_storage ascii) options 1 e) one_guess
unfolding require_auth public_auth_path text_eq register_routes pending_user challenged
    get_user_by_id create_user reserve consume_totp_attempt to_lower
nobody_renews = (
  (λ (user, req, asked, mine, looked, right).
      let u : carol ≡ user = cc looked in
      let r : wrong_code ≡ req = cc asked in cc (found_wrong user req u r, right)),
  tt,
)

guessed-le_example : weight (guess libraries (memory_storage ascii) options 1) one_guess ≤ 5 - 1
unfolding create_user
guessed-le_example =
    guessed-le libraries (memory_storage ascii) options 1 (memory_storage-Contract ascii)
      (omega arith)
      (create_user-WellFormed ascii new_memory_storage carol (new_memory_storage-WellFormed ascii))
      refl (request start moment wrong_request challenged_context refl) nobody_renews
