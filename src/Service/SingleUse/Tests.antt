-- ===== src/Service/SingleUse/Tests.antt =====
-- A backup code for a pending challenge.
use go_basicauth.Prelude.{ℕ, ◌≤◌, ◌≡◌, refl, true, none, some, List, [], ◌∷◌, ◌++◌, All}
use go_basicauth.Text.{codes, text_eq, trim_space, to_lower}
use go_basicauth.Text.Split.{split, split_once}
use go_basicauth.Types.{User}
use go_basicauth.Decimal.{scan_int}
use go_basicauth.Base64.{decode}
use go_basicauth.Password.{verify_password, scan_version, decode_params}
use go_basicauth.Request.{Context, string, int64, bound, unbound}
use go_basicauth.MemoryStorage.{
  MemoryStorage, create_user, memory_storage, get_user_by_id, consume_totp_attempt,
  consume_backup_code, new_memory_storage,
}
use go_basicauth.MemoryStorage.Invariant.{new_memory_storage-WellFormed, create_user-WellFormed}
use go_basicauth.MemoryStorage.Implements.{memory_storage-Contract}
use go_basicauth.Tfa.{find_backup_code_match}
use go_basicauth.Handler.Access.{post, require_auth, public_auth_path, register_routes}
use go_basicauth.Handler.Verify.{pending_user, challenged, reserve, check_code}
use go_basicauth.Handler.Samples.{moment, options, no_session, fresh}
use go_basicauth.Service.{Request}
use go_basicauth.Service.Evidence.{Served}
use go_basicauth.Service.Trace.{event}
use go_basicauth.Service.Runs.{start, request, weight}
use go_basicauth.Service.SingleUse.{use_of_code, Replacing, redeemed-le}
use go_basicauth.Samples.{ascii, carol, libraries, secret_hash}

-- A user with one backup code.
abbrev dora : User
dora = record carol { backup_code_hashes = secret_hash ∷ [] }

abbrev dora_only : MemoryStorage
dora_only = (create_user ascii dora new_memory_storage).1

abbrev backup_request : Request
backup_request = record {
  method = post;
  path = codes "/auth/tfa/verify";
  registering = unbound [];
  logging_in = unbound [];
  enabling = unbound [];
  disabling = unbound [];
  verifying = bound (record { code = codes "secret"; is_backup_code = true });
  draws = record { int = λ i max. none; salt = λ i n. none };
}

abbrev challenged_dora : Context MemoryStorage ℕ
challenged_dora = record (fresh dora_only) {
  session = record no_session {
    pending_tfa_user_id = some (string (1 ∷ []));
    pending_tfa_expires_at = some (int64 5);
  };
}

abbrev one_use : List (Served MemoryStorage ℕ)
one_use = event libraries (memory_storage ascii) options moment backup_request challenged_dora ++ []

one_use_counted :
    weight (use_of_code libraries (memory_storage ascii) options 1 secret_hash) one_use ≡ 1
unfolding require_auth public_auth_path text_eq register_routes pending_user challenged
    get_user_by_id create_user reserve consume_totp_attempt to_lower trim_space check_code
    find_backup_code_match verify_password split split_once scan_version scan_int decode_params
    decode consume_backup_code
one_use_counted = refl

nobody_replaces :
    All (λ e. ¬ Replacing libraries (memory_storage ascii) options 1 secret_hash e) one_use
unfolding require_auth public_auth_path text_eq register_routes
nobody_replaces = ((λ replaced. replaced), tt)

redeemed-le_example :
    weight (use_of_code libraries (memory_storage ascii) options 1 secret_hash) one_use ≤ 1
unfolding create_user text_eq
redeemed-le_example =
    redeemed-le libraries (memory_storage ascii) options 1 secret_hash
      (memory_storage-Contract ascii)
      (create_user-WellFormed ascii new_memory_storage dora (new_memory_storage-WellFormed ascii))
      refl (request start moment backup_request challenged_dora refl) nobody_replaces
