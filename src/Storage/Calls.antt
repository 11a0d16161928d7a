-- ===== src/Storage/Calls.antt =====
-- Sequences of writes to a storage, as goroutines and replicas that share it make them: an
-- operation is taken as atomic, so what they do together is one sequence of calls.
use go_basicauth.Prelude.{ℕ, ◌+◌, Bool, true, false, ◌≡◌, ◌&&◌, List, [], ◌∷◌, ◌==◌, if◌then◌else◌}
use go_basicauth.Text.{Text, text_eq}
use go_basicauth.Types.{User, Uuid, Time, Result, ok, err}
use go_basicauth.Storage.{Storage}

pub data Call : Type 0 where
  create update : User → Call
  delete reset : Uuid → Call
  attempt : Uuid → ℕ → Call
  code : Time → Uuid → Text → Call
  enrol : Time → Uuid → Text → List Text → Call
  disable : Time → Uuid → Call

abbrev pub granted : Result ℕ → ℕ
granted (ok _) = 1
granted (err _) = 0

abbrev pub consumed : Result Bool → ℕ
consumed (ok true) = 1
consumed (ok false) = 0
consumed (err _) = 0

module _ {S : Type 0} (ops : Storage S) where
  abbrev pub after : Call → S → S
  after (create user) s = (ops.create_user user s).1
  after (update user) s = (ops.update_user user s).1
  after (delete id) s = (ops.delete_user id s).1
  after (reset id) s = (ops.reset_totp_attempts id s).1
  after (attempt id max) s = (ops.consume_totp_attempt id max s).1
  after (code now id hash) s = (ops.consume_backup_code now id hash s).1
  after (enrol now id secret hashes) s = (ops.set_totp now id secret hashes s).1
  after (disable now id) s = (ops.clear_totp now id s).1

  -- 1 where the call is an attempt of the user that is granted
  abbrev pub attempt_granted : Uuid → Call → S → ℕ
  attempt_granted id (attempt j max) s =
      if j == id then granted (ops.consume_totp_attempt j max s).0 else 0
  attempt_granted id _ s = 0

  -- 1 where the call consumes the hash as a backup code of the user
  abbrev pub code_consumed : Uuid → Text → Call → S → ℕ
  code_consumed id hash (code now j h) s =
      if j == id && text_eq h hash then consumed (ops.consume_backup_code now j h s).0 else 0
  code_consumed id hash _ s = 0

  -- What a sequence of calls is granted altogether.
  unfoldable pub total : (Call → S → ℕ) → List Call → S → ℕ
  total grant [] s = 0
  total grant (c ∷ cs) s = grant c s + total grant cs (after c s)

-- A call that enrols, disables or deletes the user, or resets its counter.
abbrev pub Renews : Uuid → Call → Type 0
Renews id (delete j) = j ≡ id
Renews id (reset j) = j ≡ id
Renews id (enrol _ j _ _) = j ≡ id
Renews id (disable _ j) = j ≡ id
Renews id _ = ⊥
