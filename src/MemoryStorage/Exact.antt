-- ===== src/MemoryStorage/Exact.antt =====
-- The storage in memory promises more than the contract: the operations that read the clock leave no
-- choice of what they write.
use go_basicauth.Prelude.{◌≡◌, refl, Bool, true, false, none, some, List, [], arith}
use go_basicauth.Text.{Text, Unicode, to_lower}
use go_basicauth.Types.{User, Uuid, Time, Result, ok}
use go_basicauth.Storage.Contract.{Changes, Contract}
use go_basicauth.MemoryStorage.{
  MemoryStorage, memory_storage, consume_code, enrol, disable, consume_backup_code, set_totp,
  clear_totp,
}
use go_basicauth.MemoryStorage.Codes.{RemovesFirst, RemovesFirst-consume_code}
use go_basicauth.MemoryStorage.Invariant.{WellFormed}
use go_basicauth.MemoryStorage.View.{view}
use go_basicauth.MemoryStorage.Implements.{memory_storage-Contract, with_user-Changes}

abbrev pub EnrolsAt : Time → Text → List Text → User → Result (Unit {0}) → User → Type 0
EnrolsAt now secret hashes x r y =
    (r ≡ ok tt)
    × (y ≡ record x {
      totp_secret = some secret;
      totp_enabled = true;
      totp_enrolled_at = some now;
      backup_code_hashes = hashes;
      totp_failed_attempts = 0;
      updated_at = now;
    })

abbrev pub DisablesAt : Time → User → Result (Unit {0}) → User → Type 0
DisablesAt now x r y =
    (r ≡ ok tt)
    × (y ≡ record x {
      totp_secret = none;
      totp_enabled = false;
      totp_enrolled_at = none;
      backup_code_hashes = [];
      totp_failed_attempts = 0;
      updated_at = now;
    })

-- The contract of the interface, and for the operations that read the clock the very user that they
-- leave.
pub record IsExact (u : Unicode) : Type 0 where
  pub contract : Contract (to_lower u) (memory_storage u) view (WellFormed u)
  pub removes :
      (s : MemoryStorage) (now : Time) (id : Uuid) (hash : Text)
      → WellFormed u s
      → Changes
          (to_lower u)
          view
          (WellFormed u)
          Bool
          s
          id
          (RemovesFirst now hash)
          (consume_backup_code now id hash s)
  pub enrols :
      (s : MemoryStorage) (now : Time) (id : Uuid) (secret : Text) (hashes : List Text)
      → WellFormed u s
      → Changes
          (to_lower u)
          view
          (WellFormed u)
          (Unit {0})
          s
          id
          (EnrolsAt now secret hashes)
          (set_totp now id secret hashes s)
  pub disables :
      (s : MemoryStorage) (now : Time) (id : Uuid)
      → WellFormed u s
      → Changes
          (to_lower u)
          view
          (WellFormed u)
          (Unit {0})
          s
          id
          (DisablesAt now)
          (clear_totp now id s)

-- In all states that satisfy its invariant, the storage in memory keeps every promise of the
-- interface, with names and addresses compared by what strings.ToLower makes of them. Beyond that,
-- ConsumeBackupCode removes the first occurrence of the hash, and it, SetTOTP and ClearTOTP set the
-- time of the last change to now, where the user is stored and, for the first, the hash is.
pub memory_storage-IsExact : (u : Unicode) → IsExact u
unfolding consume_backup_code set_totp clear_totp
memory_storage-IsExact u = record {
  contract = memory_storage-Contract u;
  removes = λ s now id hash w.
      with_user-Changes u s id (consume_code now hash) (RemovesFirst now hash)
        (RemovesFirst-consume_code now hash) (λ x. ground arith) (λ x. ground arith)
        (λ x. ground arith) w;
  enrols = λ s now id secret hashes w.
      with_user-Changes u s id (enrol now secret hashes) (EnrolsAt now secret hashes)
        (λ x. (refl, refl)) (λ x. refl) (λ x. refl) (λ x. refl) w;
  disables = λ s now id w.
      with_user-Changes u s id (disable now) (DisablesAt now) (λ x. (refl, refl)) (λ x. refl)
        (λ x. refl) (λ x. refl) w;
}
