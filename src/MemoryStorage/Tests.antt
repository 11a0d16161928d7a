-- ===== src/MemoryStorage/Tests.antt =====
-- Runs of the storage in memory, and the theorems about it at those runs.
use go_basicauth.Prelude.{◌≤◌, ◌≡◌, refl, some, List, [], ◌∷◌, arith}
use go_basicauth.Text.{codes, to_lower, text_eq}
use go_basicauth.Types.{ok, err, user_already_exists}
use go_basicauth.Storage.Calls.{Call, attempt, code, update, attempt_granted, code_consumed, total}
use go_basicauth.Storage.Budget.Codes.{count}
use go_basicauth.MemoryStorage.{
  MemoryStorage, new_memory_storage, create_user, get_user_by_username, consume_totp_attempt,
  memory_storage,
}
use go_basicauth.MemoryStorage.Invariant.{
  WellFormed, Reachable, empty, after, create, Reachable-WellFormed,
}
use go_basicauth.MemoryStorage.View.{view}
use go_basicauth.MemoryStorage.Exact.{IsExact, memory_storage-IsExact}
use go_basicauth.MemoryStorage.Shared.{granted_attempts-le, consumed_codes-le}
use go_basicauth.Samples.{ascii, alice, bob}

abbrev two_users : MemoryStorage
two_users = (create_user ascii bob (create_user ascii alice new_memory_storage).1).1

same_name : get_user_by_username ascii (codes "ALICE") two_users ≡ ok alice
unfolding get_user_by_username create_user to_lower text_eq
same_name = refl

name_taken :
    (create_user ascii (record bob { id = 3; username = some (codes "BOB") }) two_users).0
    ≡ err user_already_exists
unfolding create_user to_lower text_eq
name_taken = refl

-- The pointer in the index by name sees what was written through the index by id.
shared_user :
    get_user_by_username ascii (codes "alice") (consume_totp_attempt 1 5 two_users).1
    ≡ ok (record alice { totp_failed_attempts = 2 })
unfolding get_user_by_username create_user consume_totp_attempt to_lower text_eq
shared_user = refl

last_attempt : (consume_totp_attempt 1 2 two_users).0 ≡ ok 0
unfolding create_user consume_totp_attempt to_lower text_eq
last_attempt = refl

two_users-Reachable : Reachable ascii two_users
two_users-Reachable =
    after (after empty (create new_memory_storage alice))
      (create (create_user ascii alice new_memory_storage).1 bob)

alice_stored : view two_users 1 ≡ some alice
unfolding create_user to_lower text_eq
alice_stored = refl

Reachable-WellFormed_example : WellFormed ascii two_users
Reachable-WellFormed_example = Reachable-WellFormed ascii two_users-Reachable

memory_storage-IsExact_example : IsExact ascii
memory_storage-IsExact_example = memory_storage-IsExact ascii

abbrev race : List Call
race = attempt 1 5 ∷ update alice ∷ attempt 1 5 ∷ attempt 2 9 ∷ attempt 1 5 ∷ []

granted_attempts-le_example :
    total (memory_storage ascii) (attempt_granted (memory_storage ascii) 1) race two_users ≤ 4
granted_attempts-le_example =
    granted_attempts-le ascii 1 5 race two_users-Reachable
      ((λ _. refl), ((λ e. e), ((λ _. refl), ((λ e. absurd (omega arith)), ((λ _. refl), tt)))))
      alice_stored

abbrev replay : List Call
replay = code 7 1 (codes "b1") ∷ code 8 1 (codes "b1") ∷ update alice ∷ code 9 1 (codes "b1") ∷ []

consumed_codes-le_example :
    total
      (memory_storage ascii)
      (code_consumed (memory_storage ascii) 1 (codes "b1"))
      replay
      two_users
    ≤ count (codes "b1") alice.backup_code_hashes
consumed_codes-le_example =
    consumed_codes-le ascii 1 (codes "b1") replay two_users-Reachable (tt, (tt, (tt, (tt, tt))))
      alice_stored
