-- ===== src/MemoryStorage/Shared.antt =====
-- What goroutines that share a storage in memory can get out of it.
use go_basicauth.Prelude.{ℕ, ◌-◌, ◌≤◌, ◌≡◌, some, List, All}
use go_basicauth.Text.{Text, Unicode}
use go_basicauth.Types.{User, Uuid}
use go_basicauth.Storage.Calls.{Call, attempt_granted, code_consumed, total}
use go_basicauth.Storage.Budget.Attempts.{KeepsAttempts, attempts-le}
use go_basicauth.Storage.Budget.Codes.{KeepsCodes, count, codes-le}
use go_basicauth.MemoryStorage.{MemoryStorage, memory_storage}
use go_basicauth.MemoryStorage.Invariant.{Reachable, Reachable-WellFormed}
use go_basicauth.MemoryStorage.View.{view}
use go_basicauth.MemoryStorage.Implements.{memory_storage-Contract}

-- From any storage that calls can reach, a further sequence of calls that neither renews the
-- attempts of a user nor counts them against another limit is granted at most as many attempts as
-- the stored counter leaves below the limit, whatever else the calls do.
pub granted_attempts-le :
    (u : Unicode) (id : Uuid) (max : ℕ) (cs : List Call) {s : MemoryStorage} {x : User}
    → Reachable u s
    → All (KeepsAttempts id max) cs
    → view s id ≡ some x
    → total (memory_storage u) (attempt_granted (memory_storage u) id) cs s
      ≤ max - x.totp_failed_attempts
granted_attempts-le u id max cs {s} {x} reached only at =
    attempts-le (memory_storage-Contract u) id max cs s x (Reachable-WellFormed u reached) only at

-- From any storage that calls can reach, a further sequence of calls that does not enrol, disable or
-- delete the user consumes a backup code at most as often as its hash stands in the stored list.
pub consumed_codes-le :
    (u : Unicode) (id : Uuid) (hash : Text) (cs : List Call) {s : MemoryStorage} {x : User}
    → Reachable u s
    → All (KeepsCodes id) cs
    → view s id ≡ some x
    → total (memory_storage u) (code_consumed (memory_storage u) id hash) cs s
      ≤ count hash x.backup_code_hashes
consumed_codes-le u id hash cs {s} {x} reached only at =
    codes-le (memory_storage-Contract u) id hash cs s x (Reachable-WellFormed u reached) only at
