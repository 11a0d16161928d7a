-- ===== src/Service/Writes/Verify.antt =====
-- What the steps of handleTFAVerify write to the storage.
use go_basicauth.Prelude.{
  ℕ, ◌≡◌, ◌≢◌, ◌⊎◌, inl, inr, arith, true, false, some, Option-cases, Bool-cases, ◌||◌, ◌==◌,
}
use go_basicauth.Text.{Text}
use go_basicauth.Types.{User, Uuid, ok}
use go_basicauth.Settings.{Options}
use go_basicauth.Storage.{Storage}
use go_basicauth.Storage.Calls.{attempt, code, reset, after}
use go_basicauth.Request.{Context, as_string, next}
use go_basicauth.Handler.{Libraries, Moment, create_session, set_user_in_context, save}
use go_basicauth.Tfa.{find_backup_code_match}
use go_basicauth.Handler.Verify.{
  TfaVerifyRequest, pending_user, challenged, reserve, totp_passes, check_code, reject, accept,
}
use go_basicauth.Handler.Verify.Steps.{expired_challenge_lem, exhausted_lem, max_attempts}

module _ {S V : Type 0} (lib : Libraries) (ops : Storage S) (o : Options V) (m : Moment) where
  challenged-storage :
      (c : Context S V) (i : Uuid) → (challenged lib ops o m i c).1.storage ≡ c.storage
  unfolding challenged
  challenged-storage c i = ground arith

  pub pending_user-storage : (c : Context S V) → (pending_user lib ops o m c).1.storage ≡ c.storage
  unfolding pending_user
  pending_user-storage c =
      elim (Option-cases (lib.uuid_parse (as_string c.session.pending_tfa_user_id))) [
        | inl bad ↦ ground (arith, expired_challenge_lem lib ops o m c)
        | inr (i, named) ↦
            ground (arith, expired_challenge_lem lib ops o m c, challenged-storage c i)
      ]

  pub reserve-storage :
      (c : Context S V) (user : User)
      → max_attempts lib ops o m ≢ 0
      → (reserve lib ops o m user c).1.storage
        ≡ after ops (attempt user.id (max_attempts lib ops o m)) c.storage
  unfolding reserve
  reserve-storage c user limited = ground (
    arith,
    exhausted_lem lib ops o m {A = ℕ} (record c {
      storage = (ops.consume_totp_attempt user.id (max_attempts lib ops o m) c.storage).1;
    }),
  )

  pub check_code-storage :
      (c : Context S V) (user : User) (req : TfaVerifyRequest)
      → ((check_code lib ops o m user req c).1.storage ≡ c.storage)
        ⊎ ((hash : Text) × ((check_code lib ops o m user req c).1.storage
              ≡ after ops (code m.now user.id hash) c.storage))
  unfolding check_code
  check_code-storage c user req =
      elim (Option-cases (find_backup_code_match lib user.backup_code_hashes req.code)) [
        | inl missing ↦ inl (ground arith)
        | inr (hash, found) ↦
            elim (Bool-cases
              (totp_passes lib ops o m user req || o.settings.tfa.backup_code_count == 0)) [
                | inl settled ↦ inl (ground arith)
                | inr looked_up ↦ inr (hash, ground arith)
              ]
      ]

  pub reject-storage :
      (c : Context S V) (remaining : ℕ) → (reject lib ops o m remaining c).1.storage ≡ c.storage
  unfolding reject
  reject-storage c remaining = ground (arith, exhausted_lem lib ops o m {A = Unit {0}} c)

  pub accept-storage :
      (c : Context S V) (user : User)
      → (accept lib ops o m user c).1.storage ≡ after ops (reset user.id) c.storage
  unfolding accept create_session set_user_in_context save
  accept-storage c user = ground arith

  pub reserve_unlimited-storage :
      (c : Context S V) (user : User)
      → max_attempts lib ops o m ≡ 0
      → (reserve lib ops o m user c).1.storage ≡ c.storage
  unfolding reserve
  reserve_unlimited-storage c user unlimited = ground arith

  -- A code that is right, and is not a code of the moment, is a backup code that was consumed.
  pub check_code-redeems :
      (c : Context S V) (user : User) (req : TfaVerifyRequest) (hash : Text)
      → (check_code lib ops o m user req c).0 ≡ next true
      → totp_passes lib ops o m user req ≡ false
      → find_backup_code_match lib user.backup_code_hashes req.code ≡ some hash
      → ((ops.consume_backup_code m.now user.id hash c.storage).0 ≡ ok true)
        × ((check_code lib ops o m user req c).1.storage
            ≡ after ops (code m.now user.id hash) c.storage)
  unfolding check_code
  check_code-redeems c user req hash right other found = ground arith
