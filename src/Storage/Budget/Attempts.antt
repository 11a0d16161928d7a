-- ===== src/Storage/Budget/Attempts.antt =====
-- The budget of ConsumeTOTPAttempt.
use go_basicauth.Prelude.{
  ℕ, ◌+◌, ◌-◌, ◌≤◌, ◌≡◌, ◌≢◌, refl, some, List, All, arith, inl, inr, ◌==◌, Bool, if◌then◌else◌,
}
use go_basicauth.Text.{Text}
use go_basicauth.Types.{User, Uuid, Result, err, user_not_found}
use go_basicauth.Storage.{Storage}
use go_basicauth.Storage.Contract.{Directory, Contract, Reserves, Resets, Removes, Enrols, Disables}
use go_basicauth.Storage.Calls.{
  after, Call, create, update, delete, reset, attempt, code, enrol, disable, Renews,
  attempt_granted, granted, total,
}
use go_basicauth.Storage.Budget.{
  Spends, total-le, Creates-Spends, Updates-Spends, Deletes-Spends, Changes-Spends,
}

-- A call that does not renew the user's attempts, and counts them against `max`.
abbrev pub KeepsAttempts : Uuid → ℕ → Call → Type 0
KeepsAttempts id max (attempt j m) = j ≡ id → m ≡ max
KeepsAttempts id max c = ¬ Renews id c

abbrev attempts_left : ℕ → User → ℕ
attempts_left max x = max - x.totp_failed_attempts

Reserves-left :
    (m max : ℕ) (x y : User) (r : Result ℕ) (b : Bool)
    → m ≡ max
    → Reserves m x r y
    → attempts_left max y + (if b then granted r else 0) ≤ attempts_left max x
Reserves-left m max x y r b same (inl (below, e, f)) = rw (f, e) (ground (arith, same))
Reserves-left m max x y r b same (inr (full, e, f)) = rw (f, e) (ground arith)

Removes-left :
    (hash : Text) (max : ℕ) (x y : User) (r : Result Bool)
    → Removes hash x r y
    → attempts_left max y + 0 ≤ attempts_left max x
Removes-left hash max x y r (inl (_, _, f)) = rw f (omega arith)
Removes-left hash max x y r (inr (_, _, f)) = rw f (omega arith)

if_of_ne : (j id n : ℕ) → j ≢ id → (if j == id then n else 0) ≡ 0
if_of_ne j id n h = ground arith

granted_of_err :
    (b : Bool) (r : Result ℕ) → r ≡ err user_not_found → (if b then granted r else 0) ≡ 0
granted_of_err b r e = rw e (ground arith)

module _ {fold : Text → Text} {S : Type 0} {ops : Storage S} {view : S → Directory}
    {IsValid : S → Type 0} (contract : Contract fold ops view IsValid) (id : Uuid) (max : ℕ) where
  attempt-Spends :
      (c : Call) (s : S) (x : User)
      → IsValid s
      → KeepsAttempts id max c
      → view s id ≡ some x
      → Spends contract id (attempts_left max) x (after ops c s) (attempt_granted ops id c s)
  attempt-Spends (create user) s x v p at =
      Creates-Spends contract id (attempts_left max) v at user _ (contract.creates s user v)
  attempt-Spends (update user) s x v p at =
      Updates-Spends contract id (attempts_left max) v at user _ (λ y. refl)
        (contract.updates s user v)
  attempt-Spends (delete j) s x v p at =
      Deletes-Spends contract id (attempts_left max) v at j _ p (contract.deletes s j v)
  attempt-Spends (reset j) s x v p at =
      Changes-Spends contract id (attempts_left max) v at j Resets _ 0 (λ y e _. absurd (p e))
        (λ _. refl) (λ _. refl) (contract.resets s j v)
  attempt-Spends (attempt j m) s x v p at =
      Changes-Spends contract id (attempts_left max) v at j (Reserves m) _
        (attempt_granted ops id (attempt j m) s)
        (λ y e r. Reserves-left m max x y _ (j == id) (p e) r) (if_of_ne j id _)
        (granted_of_err (j == id) _) (contract.reserves s j m v)
  attempt-Spends (code now j hash) s x v p at =
      Changes-Spends contract id (attempts_left max) v at j (Removes hash) _ 0
        (λ y _ r. Removes-left hash max x y (ops.consume_backup_code now j hash s).0 r) (λ _. refl)
        (λ _. refl) (contract.removes s now j hash v)
  attempt-Spends (enrol now j secret hashes) s x v p at =
      Changes-Spends contract id (attempts_left max) v at j (Enrols now secret hashes) _ 0
        (λ y e _. absurd (p e)) (λ _. refl) (λ _. refl) (contract.enrols s now j secret hashes v)
  attempt-Spends (disable now j) s x v p at =
      Changes-Spends contract id (attempts_left max) v at j Disables _ 0 (λ y e _. absurd (p e))
        (λ _. refl) (λ _. refl) (contract.disables s now j v)

  -- In any sequence of calls that neither renews the user nor counts its attempts against another
  -- limit, at most as many attempts are granted as the stored counter leaves below the limit.
  pub attempts-le :
      (cs : List Call) (s : S) (x : User)
      → IsValid s
      → All (KeepsAttempts id max) cs
      → view s id ≡ some x
      → total ops (attempt_granted ops id) cs s ≤ max - x.totp_failed_attempts
  attempts-le =
      total-le contract id (attempts_left max) (attempt_granted ops id) (KeepsAttempts id max)
        attempt-Spends
