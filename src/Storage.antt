-- ===== src/Storage.antt =====
-- storage_interface.go: the operations of a storage, as functions on its state `S`. An operation
-- that reads the clock takes the time as an argument.
pub mod Contract
pub mod Calls
pub mod Written
pub mod Budget
use go_basicauth.Prelude.{ℕ, Bool, List}
use go_basicauth.Text.{Text}
use go_basicauth.Types.{User, Uuid, Time, Result}

pub record Storage (S : Type 0) : Type 0 where
  pub create_user : User → S → Result (Unit {0}) × S
  pub get_user_by_username : Text → S → Result User
  pub get_user_by_email : Text → S → Result User
  pub get_user_by_id : Uuid → S → Result User
  pub update_user : User → S → Result (Unit {0}) × S
  pub delete_user : Uuid → S → Result (Unit {0}) × S
  pub consume_totp_attempt : Uuid → ℕ → S → Result ℕ × S
  pub reset_totp_attempts : Uuid → S → Result (Unit {0}) × S
  pub consume_backup_code : Time → Uuid → Text → S → Result Bool × S
  pub set_totp : Time → Uuid → Text → List Text → S → Result (Unit {0}) × S
  pub clear_totp : Time → Uuid → S → Result (Unit {0}) × S
