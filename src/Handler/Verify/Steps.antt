-- ===== src/Handler/Verify/Steps.antt =====
-- The steps of handleTFAVerify, each by itself.
use go_basicauth.Prelude.{
  ℕ, ◌≡◌, ◌<◌, ◌⊎◌, inl, inr, true, false, some, [], ◌∷◌, ◌++◌, arith, Bool-cases, Option-cases,
  is_some, ◌==◌, if◌then◌else◌,
}
use go_basicauth.Text.{text_eq, Text}
use go_basicauth.Types.{User, Uuid, ok, Result-cases}
use go_basicauth.Settings.{Options}
use go_basicauth.Storage.{Storage}
use go_basicauth.Request.{Context, as_string, as_int64, string, next, done}
use mathlib.Core.List.{append_assoc}
use go_basicauth.Handler.{save, create_session, set_user_in_context, Libraries, Moment, unix_milli}
use go_basicauth.Tfa.{find_backup_code_match}
use go_basicauth.Handler.Verify.{
  TfaVerifyRequest, end_pending_tfa, forget_pending, pending_user, challenged, expired_challenge,
  exhausted, reserve, totp_passes, check_code, reject, accept,
}

module _ {S V : Type 0} (lib : Libraries) (ops : Storage S) (o : Options V) (m : Moment) where
  -- A challenge is pending for the user, and has not expired.
  pub record IsPending (c : Context S V) (user : User) : Type 0 where
    pub id : Uuid
    pub given : text_eq (as_string c.session.pending_tfa_user_id) [] ≡ false
    pub named : lib.uuid_parse (as_string c.session.pending_tfa_user_id) ≡ some id
    pub in_time : unix_milli m.now < as_int64 c.session.pending_tfa_expires_at
    pub stored : ops.get_user_by_id id c.storage ≡ ok user
    pub enabled : user.totp_enabled ≡ true
    pub has_secret : is_some user.totp_secret ≡ true

  -- Nobody was logged in: the context has no other user, and the one session that may have been
  -- saved is the old one without its challenge.
  abbrev pub IsUnlogged : Context S V → Context S V → Type 0
  IsUnlogged c c' =
      (c'.user ≡ c.user)
      × (c'.value ≡ c.value)
      × ((c'.cookies ≡ c.cookies)
          ⊎ (c'.cookies ≡ c.cookies ++ forget_pending lib ops o m c.session ∷ []))

  pub end_pending_tfa_lem :
      (c : Context S V)
      → ((end_pending_tfa lib ops o m c).0 ≡ next tt)
        × IsUnlogged c (end_pending_tfa lib ops o m c).1
        × ((end_pending_tfa lib ops o m c).1.storage ≡ c.storage)
  unfolding end_pending_tfa
  end_pending_tfa_lem c = ground arith

  pub challenged-facts :
      (c : Context S V) (id : Uuid) (user : User)
      → (challenged lib ops o m id c).0 ≡ next user
      → (ops.get_user_by_id id c.storage ≡ ok user)
        × (user.totp_enabled ≡ true)
        × (is_some user.totp_secret ≡ true)
        × ((challenged lib ops o m id c).1 ≡ c)
  unfolding challenged
  challenged-facts c id user e = elim (Result-cases (ops.get_user_by_id id c.storage)) [
    | inl (x, missing) ↦ ground arith
    | inr (x, stored) ↦ ground arith
  ]

  pub challenged-IsUnlogged :
      (c : Context S V) (id : Uuid)
      → (challenged lib ops o m id c).0 ≡ done
      → IsUnlogged c (challenged lib ops o m id c).1
  unfolding challenged
  challenged-IsUnlogged c id e = ground arith

  pub expired_challenge_lem :
      (c : Context S V)
      → ((expired_challenge lib ops o m c).0 ≡ done)
        × IsUnlogged c (expired_challenge lib ops o m c).1
        × ((expired_challenge lib ops o m c).1.storage ≡ c.storage)
  unfolding expired_challenge
  expired_challenge_lem c = ground (arith, end_pending_tfa_lem c)

  pub exhausted_lem :
      {A : Type 0} (c : Context S V)
      → ((exhausted lib ops o m {A = A} c).0 ≡ done)
        × IsUnlogged c (exhausted lib ops o m {A = A} c).1
        × ((exhausted lib ops o m {A = A} c).1.storage ≡ c.storage)
  unfolding exhausted
  exhausted_lem c = ground (arith, end_pending_tfa_lem c)

  pub pending_user-IsPending :
      (c : Context S V) (user : User)
      → (pending_user lib ops o m c).0 ≡ next user
      → IsPending c user × ((pending_user lib ops o m c).1 ≡ c)
  unfolding pending_user
  pending_user-IsPending c user e =
      let expired = expired_challenge_lem c in
      elim (Option-cases (lib.uuid_parse (as_string c.session.pending_tfa_user_id))) [
        | inl bad ↦ ground (arith, expired)
        | inr (id, named) ↦
            let went : (challenged lib ops o m id c).0 ≡ next user = ground (arith, expired) in
            let (stored, enabled, has_secret, kept) = challenged-facts c id user went in
            (
              record {
                id = id;
                given = ground (arith, expired);
                named = named;
                in_time = ground (arith, expired);
                stored = stored;
                enabled = enabled;
                has_secret = has_secret;
              },
              ground (arith, expired),
            )
      ]

  pub pending_user-IsUnlogged :
      (c : Context S V)
      → (pending_user lib ops o m c).0 ≡ done
      → IsUnlogged c (pending_user lib ops o m c).1
  unfolding pending_user
  pending_user-IsUnlogged c e =
      elim (Option-cases (lib.uuid_parse (as_string c.session.pending_tfa_user_id))) [
        | inl bad ↦ ground (arith, expired_challenge_lem c)
        | inr (id, named) ↦ ground (arith, expired_challenge_lem c, challenged-IsUnlogged c id)
      ]

  abbrev pub max_attempts : ℕ
  max_attempts = o.settings.tfa.max_verify_attempts

  -- An attempt was reserved, where attempts are limited.
  abbrev pub IsReserved : Context S V → User → ℕ → Type 0
  IsReserved c user remaining =
      (max_attempts ≡ 0)
      ⊎ ((ops.consume_totp_attempt user.id max_attempts c.storage).0 ≡ ok remaining)

  -- The storage behind the reservation.
  abbrev pub after_reserve : Context S V → User → S
  after_reserve c user =
      if max_attempts == 0
      then c.storage
      else (ops.consume_totp_attempt user.id max_attempts c.storage).1

  pub reserve-IsReserved :
      (c : Context S V) (user : User) (remaining : ℕ)
      → (reserve lib ops o m user c).0 ≡ next remaining
      → IsReserved c user remaining
        × ((reserve lib ops o m user c).1 ≡ record c { storage = after_reserve c user })
  unfolding reserve
  reserve-IsReserved c user remaining e = ground (
    arith,
    exhausted_lem {A = ℕ}
        (record c { storage = (ops.consume_totp_attempt user.id max_attempts c.storage).1 }),
  )

  pub reserve-IsUnlogged :
      (c : Context S V) (user : User)
      → (reserve lib ops o m user c).0 ≡ done
      → IsUnlogged c (reserve lib ops o m user c).1
  unfolding reserve
  reserve-IsUnlogged c user e = ground (
    arith,
    exhausted_lem {A = ℕ}
        (record c { storage = (ops.consume_totp_attempt user.id max_attempts c.storage).1 }),
  )

  -- The code passed: as a code of the moment, or as a backup code that was consumed.
  abbrev pub HasPassed : Context S V → User → TfaVerifyRequest → Type 0
  HasPassed c user req =
      (totp_passes lib ops o m user req ≡ true)
      ⊎ ((hash : Text) × (find_backup_code_match lib user.backup_code_hashes req.code ≡ some hash)
          × ((ops.consume_backup_code m.now user.id hash c.storage).0 ≡ ok true))

  pub check_code-HasPassed :
      (c : Context S V) (user : User) (req : TfaVerifyRequest)
      → (check_code lib ops o m user req c).0 ≡ next true
      → HasPassed c user req
  unfolding check_code
  check_code-HasPassed c user req e =
      elim (Option-cases (find_backup_code_match lib user.backup_code_hashes req.code)) [
        | inl missing ↦ inl (ground arith)
        | inr (hash, found) ↦ elim (Bool-cases (totp_passes lib ops o m user req)) [
          | inl right ↦ inl right
          | inr wrong ↦ inr (hash, found, ground arith)
        ]
      ]

  -- The checks of a code write to nothing but the storage and the response.
  abbrev pub Keeps : Context S V → Context S V → Type 0
  Keeps c c' =
      (c'.user ≡ c.user)
      × (c'.value ≡ c.value)
      × (c'.cookies ≡ c.cookies)
      × (c'.session ≡ c.session)

  pub check_code-Keeps :
      (c : Context S V) (user : User) (req : TfaVerifyRequest)
      → Keeps c (check_code lib ops o m user req c).1
  unfolding check_code
  check_code-Keeps c user req = ground arith

  pub reject-IsUnlogged :
      (c : Context S V) (remaining : ℕ) → IsUnlogged c (reject lib ops o m remaining c).1
  unfolding reject
  reject-IsUnlogged c remaining = ground (arith, exhausted_lem {A = Unit {0}} c)

  pub reject-IsUnlogged-Keeps :
      (c c' : Context S V) (remaining : ℕ)
      → Keeps c c'
      → IsUnlogged c (reject lib ops o m remaining c').1
  reject-IsUnlogged-Keeps c c' remaining kept = ground (arith, reject-IsUnlogged c' remaining)

  -- What a right code leads to: at most the old session without its challenge is saved, and then one
  -- that names the user; the context has the user, or the one that it had.
  abbrev pub IsAccepted : Context S V → User → Context S V → Type 0
  IsAccepted c user c' =
      ((c'.user ≡ c.user) ⊎ (c'.user ≡ some user))
      × ((c'.cookies ≡ c.cookies)
          ⊎ ((c'.cookies ≡ c.cookies ++ forget_pending lib ops o m c.session ∷ [])
              ⊎ (c'.cookies
                  ≡ c.cookies
                    ++ forget_pending lib ops o m c.session
                      ∷ record (forget_pending lib ops o m c.session) {
                        user_id = some (string (lib.uuid_string user.id));
                      }
                      ∷ [])))

  accept-IsAccepted :
      (c : Context S V) (user : User) → IsAccepted c user (accept lib ops o m user c).1
  unfolding accept create_session set_user_in_context save
  accept-IsAccepted c user =
      let old = forget_pending lib ops o m c.session in
      let new = record old { user_id = some (string (lib.uuid_string user.id)) } in
      (ground arith, ground (arith, append_assoc c.cookies (old ∷ []) (new ∷ [])))

  pub accept-IsAccepted-Keeps :
      (c c' : Context S V) (user : User)
      → Keeps c c'
      → IsAccepted c user (accept lib ops o m user c').1
  accept-IsAccepted-Keeps c c' user kept = ground (arith, accept-IsAccepted c' user)
