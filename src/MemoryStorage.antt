-- ===== src/MemoryStorage.antt =====
-- storage_memory.go. The three maps hold pointers to shared users, so the model has a heap: a
-- pointer is a number, `heap` is what it points to, and pointers from `next` on are not allocated.
-- Only results of `cloneUser` are stored, so no pointer is nil. Every method holds the mutex from
-- its first line to its last: goroutines that share the storage run its methods one after another.
pub mod Index
pub mod Invariant
pub mod View
mod Holders
pub mod Codes
pub mod Implements
pub mod Exact
pub mod Shared
mod Tests
use go_basicauth.Prelude.{
  ℕ, ◌+◌, ◌-◌, Bool, true, false, not, ◌&&◌, Option, none, some, List, [], ◌∷◌, leb, ◌==◌,
  if◌then◌else◌, is_some,
}
use go_basicauth.Text.{Text, Unicode, text_eq, to_lower}
use go_basicauth.Types.{
  User, Uuid, Time, Result, ok, err, user_already_exists, user_not_found, tfa_attempts_exhausted,
}
use go_basicauth.Storage.{Storage}
use go_basicauth.Storage.Contract.{key_of}

abbrev pub Pointer : Type 0
Pointer = ℕ

pub record MemoryStorage : Type 0 where
  pub heap : Pointer → User
  pub next : Pointer
  pub users : Uuid → Option Pointer
  pub users_by_username : Text → Option Pointer
  pub users_by_email : Text → Option Pointer

-- The zero value of the struct User.
abbrev pub zero_user : User
zero_user = record {
  id = 0;
  username = none;
  email = none;
  password_hash = [];
  created_at = 0;
  updated_at = 0;
  is_technical_user = false;
  api_key_hash = none;
  totp_secret = none;
  totp_enabled = false;
  totp_enrolled_at = none;
  backup_code_hashes = [];
  totp_failed_attempts = 0;
}

abbrev pub new_memory_storage : MemoryStorage
new_memory_storage = record {
  heap = λ _. zero_user;
  next = 0;
  users = λ _. none;
  users_by_username = λ _. none;
  users_by_email = λ _. none;
}

-- m[k] = v for a key that is a number; `delete(m, k)` where v is `none`
abbrev pub set_id {ℓ} : {A : Type ℓ} → ℕ → A → (ℕ → A) → ℕ → A
set_id k v m j = if k == j then v else m j

abbrev pub set_text {ℓ} : {A : Type ℓ} → Text → A → (Text → A) → Text → A
set_text k v m j = if text_eq k j then v else m j

abbrev pub folded : Unicode → Option Text → Option Text
folded u = key_of (to_lower u)

-- The entry for a name that may be absent.
abbrev pub set_name : Option Text → Option Pointer → (Text → Option Pointer) → Text → Option Pointer
set_name none v m = m
set_name (some k) v m = set_text k v m

abbrev pub entry : Option Text → (Text → Option Pointer) → Option Pointer
entry none m = none
entry (some k) m = m k

-- The fields of a model user are values, which no write to another user can change, so a copy field
-- by field is as deep as `cloneUser`.
unfoldable pub clone_user : User → User
clone_user u = record {
  id = u.id;
  username = u.username;
  email = u.email;
  password_hash = u.password_hash;
  created_at = u.created_at;
  updated_at = u.updated_at;
  is_technical_user = u.is_technical_user;
  api_key_hash = u.api_key_hash;
  totp_secret = u.totp_secret;
  totp_enabled = u.totp_enabled;
  totp_enrolled_at = u.totp_enrolled_at;
  backup_code_hashes = u.backup_code_hashes;
  totp_failed_attempts = u.totp_failed_attempts;
}

-- `return cloneUser(user), nil` for an entry of a map
pub fetch : (Pointer → User) → Option Pointer → Result User
unfolding clone_user
fetch heap none = err user_not_found
fetch heap (some p) = ok (clone_user (heap p))

unfoldable pub get_user_by_id : Uuid → MemoryStorage → Result User
unfolding fetch
get_user_by_id id s = fetch s.heap (s.users id)

-- `other, taken := m[k]; taken && other.ID != id`
pub taken_by_other : (Pointer → User) → Uuid → Option Pointer → Bool
taken_by_other heap id none = false
taken_by_other heap id (some p) = not ((heap p).id == id)

-- withUser: runs `fn` on the stored user, which it may change
pub with_user :
    {A : Type 0} → Uuid → (User → Result A × User) → MemoryStorage → Result A × MemoryStorage
with_user id fn s = elim (s.users id) [
  | none ↦ (err user_not_found, s)
  | some p ↦ ((fn (s.heap p)).0, record s { heap = set_id p (fn (s.heap p)).1 s.heap })
]

consume_attempt : ℕ → User → Result ℕ × User
consume_attempt max u =
    if leb max u.totp_failed_attempts then (err tfa_attempts_exhausted, u) else (
      ok (max - (u.totp_failed_attempts + 1)),
      record u { totp_failed_attempts = u.totp_failed_attempts + 1 },
    )

unfoldable pub consume_totp_attempt : Uuid → ℕ → MemoryStorage → Result ℕ × MemoryStorage
unfolding with_user consume_attempt
consume_totp_attempt id max s = with_user id (consume_attempt max) s

reset_attempts : User → Result (Unit {0}) × User
reset_attempts u = (ok tt, record u { totp_failed_attempts = 0 })

unfoldable pub reset_totp_attempts : Uuid → MemoryStorage → Result (Unit {0}) × MemoryStorage
unfolding with_user reset_attempts
reset_totp_attempts id s = with_user id reset_attempts s

-- The list without the first hash that equals the given one; `none` where there is no such hash.
pub remove_first : Text → List Text → Option (List Text)
remove_first hash [] = none
remove_first hash (h ∷ hs) =
    let rest = remove_first hash hs in
    if text_eq h hash then some hs else elim rest [ none ↦ none | some l ↦ some (h ∷ l) ]

pub consume_code : Time → Text → User → Result Bool × User
unfolding remove_first
consume_code now hash u = elim (remove_first hash u.backup_code_hashes) [
  | none ↦ (ok false, u)
  | some rest ↦ (ok true, record u { backup_code_hashes = rest; updated_at = now })
]

unfoldable pub consume_backup_code :
    Time → Uuid → Text → MemoryStorage → Result Bool × MemoryStorage
unfolding with_user consume_code
consume_backup_code now id hash s = with_user id (consume_code now hash) s

enrol : Time → Text → List Text → User → Result (Unit {0}) × User
enrol now secret hashes u = (
  ok tt,
  record u {
    totp_secret = some secret;
    totp_enabled = true;
    totp_enrolled_at = some now;
    backup_code_hashes = hashes;
    totp_failed_attempts = 0;
    updated_at = now;
  },
)

unfoldable pub set_totp :
    Time → Uuid → Text → List Text → MemoryStorage → Result (Unit {0}) × MemoryStorage
unfolding with_user enrol
set_totp now id secret hashes s = with_user id (enrol now secret hashes) s

disable : Time → User → Result (Unit {0}) × User
disable now u = (
  ok tt,
  record u {
    totp_secret = none;
    totp_enabled = false;
    totp_enrolled_at = none;
    backup_code_hashes = [];
    totp_failed_attempts = 0;
    updated_at = now;
  },
)

unfoldable pub clear_totp : Time → Uuid → MemoryStorage → Result (Unit {0}) × MemoryStorage
unfolding with_user disable
clear_totp now id s = with_user id (disable now) s

-- The security fields of the stored user, on the profile of the given one.
pub keep_security : User → User → User
unfolding clone_user
keep_security existing user = record (clone_user user) {
  totp_secret = existing.totp_secret;
  totp_enabled = existing.totp_enabled;
  totp_enrolled_at = existing.totp_enrolled_at;
  backup_code_hashes = existing.backup_code_hashes;
  totp_failed_attempts = existing.totp_failed_attempts;
}

-- UpdateUser past its guards: `p` points to the stored user.
pub replace_user : Unicode → User → Pointer → MemoryStorage → MemoryStorage
unfolding keep_security
replace_user u user p s =
    let existing = s.heap p in
    let updated = keep_security existing user in
    record {
      heap = set_id s.next updated s.heap;
      next = s.next + 1;
      users = set_id user.id (some s.next) s.users;
      users_by_username =
          set_name (folded u updated.username) (some s.next)
            (set_name (folded u existing.username) none s.users_by_username);
      users_by_email =
          set_name (folded u updated.email) (some s.next)
            (set_name (folded u existing.email) none s.users_by_email);
    }

-- CreateUser past its guards.
pub add_user : Unicode → User → MemoryStorage → MemoryStorage
unfolding clone_user
add_user u user s = record {
  heap = set_id s.next (clone_user user) s.heap;
  next = s.next + 1;
  users = set_id user.id (some s.next) s.users;
  users_by_username = set_name (folded u user.username) (some s.next) s.users_by_username;
  users_by_email = set_name (folded u user.email) (some s.next) s.users_by_email;
}

module _ (u : Unicode) where
  unfoldable pub create_user : User → MemoryStorage → Result (Unit {0}) × MemoryStorage
  unfolding add_user
  create_user user s =
      if is_some (s.users user.id)
      then (err user_already_exists, s)
      else if is_some (entry (folded u user.username) s.users_by_username)
      then (err user_already_exists, s)
      else if is_some (entry (folded u user.email) s.users_by_email)
      then (err user_already_exists, s)
      else (ok tt, add_user u user s)

  unfoldable pub get_user_by_username : Text → MemoryStorage → Result User
  unfolding fetch
  get_user_by_username username s = fetch s.heap (s.users_by_username (to_lower u username))

  unfoldable pub get_user_by_email : Text → MemoryStorage → Result User
  unfolding fetch
  get_user_by_email email s = fetch s.heap (s.users_by_email (to_lower u email))

  unfoldable pub update_user : User → MemoryStorage → Result (Unit {0}) × MemoryStorage
  unfolding taken_by_other replace_user
  update_user user s = elim (s.users user.id) [
    | none ↦ (err user_not_found, s)
    | some p ↦
        if taken_by_other s.heap user.id (entry (folded u user.username) s.users_by_username)
        then (err user_already_exists, s)
        else if taken_by_other s.heap user.id (entry (folded u user.email) s.users_by_email)
        then (err user_already_exists, s)
        else (ok tt, replace_user u user p s)
  ]

  unfoldable pub delete_user : Uuid → MemoryStorage → Result (Unit {0}) × MemoryStorage
  delete_user id s = elim (s.users id) [
    | none ↦ (err user_not_found, s)
    | some p ↦ (
      ok tt,
      record s {
        users = set_id id none s.users;
        users_by_username = set_name (folded u (s.heap p).username) none s.users_by_username;
        users_by_email = set_name (folded u (s.heap p).email) none s.users_by_email;
      },
    )
  ]

  abbrev pub memory_storage : Storage MemoryStorage
  memory_storage = record {
    create_user = create_user;
    get_user_by_username = get_user_by_username;
    get_user_by_email = get_user_by_email;
    get_user_by_id = get_user_by_id;
    update_user = update_user;
    delete_user = delete_user;
    consume_totp_attempt = consume_totp_attempt;
    reset_totp_attempts = reset_totp_attempts;
    consume_backup_code = consume_backup_code;
    set_totp = set_totp;
    clear_totp = clear_totp;
  }
