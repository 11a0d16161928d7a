-- ===== src/Service/Redeemed.antt =====
-- The backup codes that handleTFAVerify accepts, and the calls that it makes for them.
use go_basicauth.Prelude.{
  ℕ, ◌≤◌, ◌≡◌, inl, inr, refl, sym, ap, ◌∙◌, Bool, true, false, not, ◌&&◌, some, none, Option,
  arith, Bool-cases, ◌==◌, if◌then◌else◌,
}
use mathlib.Core.Path.{subst}
use go_basicauth.Text.{Text, text_eq}
use go_basicauth.Types.{User, Uuid}
use go_basicauth.Settings.{Options}
use go_basicauth.Storage.{Storage}
use go_basicauth.Storage.Calls.{Call, attempt, code, reset, code_consumed}
use go_basicauth.Storage.Budget.Codes.{KeepsCodes}
use go_basicauth.Storage.Written.{
  Written, Written-none, Written-one, Written-call, Written-then, Written-fewer, Written-followed,
  Written-at,
}
use go_basicauth.Request.{
  Context, Bound, bound, unbound, bind, next, done, Flow, Flow-cases, Action, ◌>>=◌, ◌>>◌, pure,
  >>=-done, >>=-next,
}
use go_basicauth.Handler.{Libraries, Moment}
use go_basicauth.Tfa.{find_backup_code_match}
use go_basicauth.Handler.Verify.{
  TfaVerifyRequest, pending_user, reserve, totp_passes, check_code, reject, accept,
  handle_tfa_verify,
}
use go_basicauth.Handler.Verify.Steps.{max_attempts, pending_user-IsPending}
use go_basicauth.Service.Writes.Verify.{
  pending_user-storage, reserve-storage, reserve_unlimited-storage, check_code-storage,
  check_code-redeems, reject-storage, accept-storage,
}

abbrev is_text : Text → Option Text → Bool
is_text hash none = false
is_text hash (some h) = text_eq h hash

is_text-found :
    (hash : Text) (h : Option Text)
    → is_text hash h ≡ true
    → (g : Text) × (h ≡ some g) × (text_eq g hash ≡ true)
is_text-found hash none same = cc
is_text-found hash (some g) same = (g, refl, same)

module _ {S V : Type 0} (lib : Libraries) (ops : Storage S) (o : Options V) (m : Moment) (id : Uuid)
    (hash : Text) where
  -- handleTFAVerify as far as its verdict on the code.
  abbrev checked : User → TfaVerifyRequest → Action S V (User × TfaVerifyRequest × Bool)
  checked user req = do verified ← check_code lib ops o m user req; pure (user, req, verified)

  abbrev judged_for : Bound TfaVerifyRequest → User → Action S V (User × TfaVerifyRequest × Bool)
  judged_for r user = do req ← bind r; reserve lib ops o m user; checked user req

  abbrev judged : Bound TfaVerifyRequest → Action S V (User × TfaVerifyRequest × Bool)
  judged r = pending_user lib ops o m >>= judged_for r

  -- The hash is that of the backup code of the user that the request gives.
  abbrev gives_hash : User → TfaVerifyRequest → Bool
  gives_hash user req =
      user.id == id
      && not (totp_passes lib ops o m user req)
      && is_text hash (find_backup_code_match lib user.backup_code_hashes req.code)

  abbrev redeems : Flow (User × TfaVerifyRequest × Bool) → ℕ
  redeems done = 0
  redeems (next (user, req, verified)) = if verified && gives_hash user req then 1 else 0

  -- 1 where the request is accepted for the backup code of the user with the hash
  abbrev pub redeemed : Bound TfaVerifyRequest → Context S V → ℕ
  redeemed r c = redeems (judged r c).0

  abbrev Kept : Call → Type 0
  Kept = KeepsCodes id

  abbrev using : Call → S → ℕ
  using = code_consumed ops id hash

  abbrev WithinCodes : S → S → ℕ → Type 0
  WithinCodes = Written ops Kept using

  same_count : {f g : Flow (User × TfaVerifyRequest × Bool)} → f ≡ g → redeems f ≤ redeems g
  same_count {f} {g} same = subst (λ x. redeems x ≤ redeems g) (sym same) (omega arith)

  decide-WithinCodes :
      (c : Context S V) (user : User) (remaining : ℕ) (verified : Bool)
      → WithinCodes c.storage
          ((if verified then accept lib ops o m user else reject lib ops o m remaining) c).1.storage
          0
  decide-WithinCodes c user remaining true =
      Written-call ops Kept using (reset user.id) tt (accept-storage lib ops o m c user)
  decide-WithinCodes c user remaining false =
      Written-none ops Kept using (reject-storage lib ops o m c remaining)

  reserve-WithinCodes :
      (c : Context S V) (user : User)
      → WithinCodes c.storage (reserve lib ops o m user c).1.storage 0
  reserve-WithinCodes c user = elim (Bool-cases (max_attempts lib ops o m == 0)) [
    | inl unlimited ↦
        Written-none ops Kept using (reserve_unlimited-storage lib ops o m c user (ground arith))
    | inr limited ↦
        Written-call ops Kept using (attempt user.id (max_attempts lib ops o m)) tt
          (reserve-storage lib ops o m c user (ground arith))
  ]

  check_code-unused :
      (c : Context S V) (user : User) (req : TfaVerifyRequest)
      → WithinCodes c.storage (check_code lib ops o m user req c).1.storage 0
  check_code-unused c user req = elim (check_code-storage lib ops o m c user req) [
    | inl same ↦ Written-none ops Kept using same
    | inr (h, made) ↦ Written-call ops Kept using (code m.now user.id h) tt made
  ]

  check_code-WithinCodes :
      (c : Context S V) (user : User) (req : TfaVerifyRequest) (verified : Bool)
      → (check_code lib ops o m user req c).0 ≡ next verified
      → WithinCodes c.storage
          (check_code lib ops o m user req c).1.storage
          (redeems (next (user, req, verified)))
  check_code-WithinCodes c user req verified went =
      elim (Bool-cases (verified && gives_hash user req)) [
        | inl given ↦
            let match = find_backup_code_match lib user.backup_code_hashes req.code in
            let (g, found, same) = is_text-found hash match (ground arith) in
            let right : verified ≡ true = ground arith in
            let (taken, made) =
              check_code-redeems lib ops o m c user req g (went ∙ ap (λ b. next b) right)
                (ground arith) found in
            let n = code_consumed ops id hash (code m.now user.id g) c.storage in
            let counted : redeems (next (user, req, verified)) ≤ n = ground (arith, taken, same) in
            Written-at ops Kept using refl counted
              (Written-one ops Kept using (code m.now user.id g) tt made)
        | inr other ↦ Written-at ops Kept using refl (ground arith) (check_code-unused c user req)
      ]

  abbrev check : TfaVerifyRequest → User → ℕ → Action S V (Unit {0})
  check req user remaining = do
    verified ← check_code lib ops o m user req
    if verified then accept lib ops o m user else reject lib ops o m remaining

  check-WithinCodes :
      (c : Context S V) (user : User) (req : TfaVerifyRequest) (remaining : ℕ)
      → WithinCodes c.storage
          (check req user remaining c).1.storage
          (redeems (checked user req c).0)
  check-WithinCodes c user req remaining =
      let decide : Bool → Action S V (Unit {0}) =
        λ verified. if verified then accept lib ops o m user else reject lib ops o m remaining in
      let told : Bool → Action S V (User × TfaVerifyRequest × Bool) =
        λ verified. pure (user, req, verified) in
      elim (Flow-cases (check_code lib ops o m user req c).0) [
        | inl stopped ↦
            Written-at ops Kept using
              (ap (λ p. p.1.storage) (>>=-done (check_code lib ops o m user req) decide c stopped))
              (same_count
                (ap (λ p. p.0) (>>=-done (check_code lib ops o m user req) told c stopped)))
              (check_code-unused c user req)
        | inr (verified, went) ↦
            Written-at ops Kept using
              (ap (λ p. p.1.storage)
                (>>=-next (check_code lib ops o m user req) decide c verified went))
              (same_count
                (ap (λ p. p.0) (>>=-next (check_code lib ops o m user req) told c verified went)))
              (Written-followed ops Kept using (check_code-WithinCodes c user req verified went)
                (decide-WithinCodes _ user remaining verified))
      ]

  reserved-WithinCodes :
      (c : Context S V) (user : User) (req : TfaVerifyRequest)
      → WithinCodes c.storage
          ((reserve lib ops o m user >>= check req user) c).1.storage
          (redeems ((reserve lib ops o m user >> checked user req) c).0)
  reserved-WithinCodes c user req =
      let taken = reserve-WithinCodes c user in
      let go = reserve lib ops o m user in
      elim (Flow-cases (reserve lib ops o m user c).0) [
        | inl stopped ↦
            Written-at ops Kept using
              (ap (λ p. p.1.storage) (>>=-done go (check req user) c stopped))
              (same_count (ap (λ p. p.0) (>>=-done go (λ _. checked user req) c stopped))) taken
        | inr (remaining, went) ↦
            Written-at ops Kept using
              (ap (λ p. p.1.storage) (>>=-next go (check req user) c remaining went))
              (same_count (ap (λ p. p.0) (>>=-next go (λ _. checked user req) c remaining went)))
              (Written-fewer ops Kept using _ (omega arith) (
                Written-then ops Kept using taken
                  (check-WithinCodes (reserve lib ops o m user c).1 user req remaining)))
      ]

  -- What follows the pending challenge.
  abbrev tried : Bound TfaVerifyRequest → User → Action S V (Unit {0})
  tried r user = do req ← bind r; remaining ← reserve lib ops o m user; check req user remaining

  tried-WithinCodes :
      (c : Context S V) (r : Bound TfaVerifyRequest) (user : User)
      → WithinCodes c.storage (tried r user c).1.storage (redeems (judged_for r user c).0)
  tried-WithinCodes c (unbound message) user = Written-none ops Kept using refl
  tried-WithinCodes c (bound req) user = reserved-WithinCodes c user req

  -- The calls of a request to handleTFAVerify neither enrol nor disable a user, and consume a backup
  -- code of the user where the request is accepted for it.
  pub handle_tfa_verify-WithinCodes :
      (c : Context S V) (r : Bound TfaVerifyRequest)
      → WithinCodes c.storage (handle_tfa_verify lib ops o m r c).1.storage (redeemed r c)
  unfolding handle_tfa_verify
  handle_tfa_verify-WithinCodes c r =
      let go = pending_user lib ops o m in
      elim (Flow-cases (pending_user lib ops o m c).0) [
        | inl stopped ↦
            Written-at ops Kept using (ap (λ p. p.1.storage) (>>=-done go (tried r) c stopped))
              (same_count (ap (λ p. p.0) (>>=-done go (judged_for r) c stopped)))
              (Written-none ops Kept using (pending_user-storage lib ops o m c))
        | inr (user, went) ↦
            let same = (pending_user-IsPending lib ops o m c user went).1 in
            Written-at ops Kept using
              (ap (λ p. p.1.storage) (>>=-next go (tried r) c user went)
                ∙ ap (λ x. (tried r user x).1.storage) same)
              (same_count (
                ap (λ p. p.0) (>>=-next go (judged_for r) c user went)
                ∙ ap (λ x. (judged_for r user x).0) same))
              (tried-WithinCodes c r user)
      ]
