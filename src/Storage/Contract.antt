-- ===== src/Storage/Contract.antt =====
-- What the comments of storage_interface.go, and the handlers, expect of a storage: a `Contract`
-- over a view of its state as a partial map from ids to users.
use mathlib.Core.List.{Mem}
use go_basicauth.Prelude.{
  ℕ, ◌+◌, ◌-◌, ◌≤◌, ◌<◌, ◌≡◌, ◌≢◌, ◌⊎◌, Bool, true, false, Option, none, some, List, [], ◌∷◌, ◌++◌,
  ◌==◌, if◌then◌else◌,
}
use go_basicauth.Text.{Text}
use go_basicauth.Types.{
  User, Uuid, Time, Result, ok, err, user_not_found, user_already_exists, tfa_attempts_exhausted,
}
use go_basicauth.Storage.{Storage}

abbrev pub Directory : Type 0
Directory = Uuid → Option User

-- A user stands in the directory under its own id.
abbrev pub Stored : Directory → User → Type 0
Stored d x = d x.id ≡ some x

abbrev pub assign : Uuid → Option User → Directory → Directory
assign id v d j = if id == j then v else d j

abbrev pub found : Option User → Result User
found none = err user_not_found
found (some x) = ok x

-- A search returns a stored user with the property, and fails only where there is none.
abbrev pub Finds : Directory → (User → Type 0) → Result User → Type 0
Finds d P (ok x) = Stored d x × P x
Finds d P (err e) = (e ≡ user_not_found) × ((x : User) → Stored d x → ¬ P x)

-- The profile of one user with the second-factor state of another.
abbrev pub merge : User → User → User
merge existing user = record user {
  totp_secret = existing.totp_secret;
  totp_enabled = existing.totp_enabled;
  totp_enrolled_at = existing.totp_enrolled_at;
  backup_code_hashes = existing.backup_code_hashes;
  totp_failed_attempts = existing.totp_failed_attempts;
}

module _ (fold : Text → Text) where
  -- The key under which a name or an address is unique.
  abbrev pub key_of : Option Text → Option Text
  key_of none = none
  key_of (some name) = some (fold name)

  abbrev pub HasName : Text → User → Type 0
  HasName name x = key_of x.username ≡ some (fold name)

  abbrev pub HasMail : Text → User → Type 0
  HasMail mail x = key_of x.email ≡ some (fold mail)

  abbrev pub SameKey : Option Text → Option Text → Type 0
  SameKey a b = (k : Text) × (key_of a ≡ some k) × (key_of b ≡ some k)

  -- Two users that may not both be stored.
  abbrev pub Shares : User → User → Type 0
  Shares x y = SameKey x.username y.username ⊎ SameKey x.email y.email

  module _ {S : Type 0} (view : S → Directory) (IsValid : S → Type 0) where
    -- A write that returned: the new state is valid and shows the given directory.
    abbrev pub Shows : S → Directory → Type 0
    Shows s d = IsValid s × ((id : Uuid) → view s id ≡ d id)

    -- A user enters unless its id, name or address is in use; then nothing changes.
    abbrev pub Creates : S → User → Result (Unit {0}) × S → Type 0
    Creates s user (ok _, t) =
        (view s user.id ≡ none)
        × ((x : User) → Stored (view s) x → ¬ Shares x user)
        × Shows t (assign user.id (some user) (view s))
    Creates s user (err e, t) =
        (e ≡ user_already_exists)
        × (t ≡ s)
        × ((x : User) × Stored (view s) x × ((x.id ≡ user.id) ⊎ Shares x user))

    -- The profile is written unless another user has its name or address; the second-factor state
    -- of the stored user stays.
    abbrev pub Updates : S → User → Result (Unit {0}) × S → Type 0
    Updates s user (ok _, t) =
        (existing : User) × (view s user.id ≡ some existing)
        × ((x : User) → Stored (view s) x → x.id ≢ user.id → ¬ Shares x user)
        × Shows t (assign user.id (some (merge existing user)) (view s))
    Updates s user (err e, t) =
        (t ≡ s)
        × (((e ≡ user_not_found) × (view s user.id ≡ none))
            ⊎ ((e ≡ user_already_exists)
                × ((x : User) × Stored (view s) x × (x.id ≢ user.id) × Shares x user)))

    abbrev pub Deletes : S → Uuid → Result (Unit {0}) × S → Type 0
    Deletes s id (ok _, t) = (view s id ≢ none) × Shows t (assign id none (view s))
    Deletes s id (err e, t) = (e ≡ user_not_found) × (t ≡ s) × (view s id ≡ none)

    -- An operation on one user, which is related to its result and to the user that it leaves.
    abbrev pub Changes :
        (A : Type 0) → S → Uuid → (User → Result A → User → Type 0) → Result A × S → Type 0
    Changes A s id P (r, t) =
        ((view s id ≡ none) × (r ≡ err user_not_found) × (t ≡ s))
        ⊎ ((x y : User) × (view s id ≡ some x) × P x r y × Shows t (assign id (some y) (view s)))

-- ConsumeTOTPAttempt: one attempt is spent where one is left.
abbrev pub Reserves : ℕ → User → Result ℕ → User → Type 0
Reserves max x r y =
    ((x.totp_failed_attempts < max)
      × (r ≡ ok (max - (x.totp_failed_attempts + 1)))
      × (y ≡ record x { totp_failed_attempts = x.totp_failed_attempts + 1 }))
    ⊎ ((max ≤ x.totp_failed_attempts) × (r ≡ err tfa_attempts_exhausted) × (y ≡ x))

abbrev pub Resets : User → Result (Unit {0}) → User → Type 0
Resets x r y = (r ≡ ok tt) × (y ≡ record x { totp_failed_attempts = 0 })

-- ConsumeBackupCode: an occurrence of the hash goes. Besides the list only the time of the last change
-- may differ, of which the interface says nothing.
abbrev pub Removes : Text → User → Result Bool → User → Type 0
Removes hash x r y =
    ((r ≡ ok true)
      × ((before after : List Text) × (x.backup_code_hashes ≡ before ++ hash ∷ after)
          × (y.backup_code_hashes ≡ before ++ after))
      × (y ≡ record x { backup_code_hashes = y.backup_code_hashes; updated_at = y.updated_at }))
    ⊎ ((r ≡ ok false) × ¬ Mem hash x.backup_code_hashes × (y ≡ x))

-- SetTOTP. The time of the last change is left open, as in ConsumeBackupCode.
abbrev pub Enrols : Time → Text → List Text → User → Result (Unit {0}) → User → Type 0
Enrols now secret hashes x r y =
    (r ≡ ok tt)
    × (y ≡ record x {
      totp_secret = some secret;
      totp_enabled = true;
      totp_enrolled_at = some now;
      backup_code_hashes = hashes;
      totp_failed_attempts = 0;
      updated_at = y.updated_at;
    })

-- ClearTOTP, with the same time left open.
abbrev pub Disables : User → Result (Unit {0}) → User → Type 0
Disables x r y =
    (r ≡ ok tt)
    × (y ≡ record x {
      totp_secret = none;
      totp_enabled = false;
      totp_enrolled_at = none;
      backup_code_hashes = [];
      totp_failed_attempts = 0;
      updated_at = y.updated_at;
    })

-- A storage that keeps its promises.
pub record Contract (fold : Text → Text) {S : Type 0} (ops : Storage S) (view : S → Directory)
    (IsValid : S → Type 0) : Type 0 where
  pub own_id : (s : S) (id : Uuid) (x : User) → IsValid s → view s id ≡ some x → x.id ≡ id
  pub by_id : (s : S) (id : Uuid) → IsValid s → ops.get_user_by_id id s ≡ found (view s id)
  pub by_username :
      (s : S) (name : Text)
      → IsValid s
      → Finds (view s) (HasName fold name) (ops.get_user_by_username name s)
  pub by_email :
      (s : S) (mail : Text)
      → IsValid s
      → Finds (view s) (HasMail fold mail) (ops.get_user_by_email mail s)
  pub creates :
      (s : S) (user : User) → IsValid s → Creates fold view IsValid s user (ops.create_user user s)
  pub updates :
      (s : S) (user : User) → IsValid s → Updates fold view IsValid s user (ops.update_user user s)
  pub deletes :
      (s : S) (id : Uuid) → IsValid s → Deletes fold view IsValid s id (ops.delete_user id s)
  pub reserves :
      (s : S) (id : Uuid) (max : ℕ)
      → IsValid s
      → Changes fold view IsValid ℕ s id (Reserves max) (ops.consume_totp_attempt id max s)
  pub resets :
      (s : S) (id : Uuid)
      → IsValid s
      → Changes fold view IsValid (Unit {0}) s id Resets (ops.reset_totp_attempts id s)
  pub removes :
      (s : S) (now : Time) (id : Uuid) (hash : Text)
      → IsValid s
      → Changes fold view IsValid Bool s id (Removes hash) (ops.consume_backup_code now id hash s)
  pub enrols :
      (s : S) (now : Time) (id : Uuid) (secret : Text) (hashes : List Text)
      → IsValid s
      → Changes fold view IsValid
          (Unit {0})
          s
          id
          (Enrols now secret hashes)
          (ops.set_totp now id secret hashes s)
  pub disables :
      (s : S) (now : Time) (id : Uuid)
      → IsValid s
      → Changes fold view IsValid (Unit {0}) s id Disables (ops.clear_totp now id s)
