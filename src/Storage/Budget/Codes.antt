-- ===== src/Storage/Budget/Codes.antt =====
-- The budget of ConsumeBackupCode.
use go_basicauth.Prelude.{
  ℕ, ◌+◌, ◌≤◌, ◌≡◌, ◌≢◌, refl, ap, Bool, ◌&&◌, some, List, [], ◌∷◌, ◌++◌, All, arith, inl, inr,
  ◌==◌, if◌then◌else◌,
}
use go_basicauth.Text.{Text, text_eq}
use go_basicauth.Types.{User, Uuid, Result, err, user_not_found}
use go_basicauth.Storage.{Storage}
use go_basicauth.Storage.Contract.{Directory, Contract, Reserves, Resets, Removes, Enrols, Disables}
use go_basicauth.Storage.Calls.{
  Call, create, update, delete, reset, attempt, code, enrol, disable, after, code_consumed,
  consumed, total,
}
use go_basicauth.Storage.Budget.{
  Spends, total-le, Creates-Spends, Updates-Spends, Deletes-Spends, Changes-Spends,
}

-- A call that leaves the user its list of codes, or takes one from it.
abbrev pub KeepsCodes : Uuid → Call → Type 0
KeepsCodes id (delete j) = j ≢ id
KeepsCodes id (enrol _ j _ _) = j ≢ id
KeepsCodes id (disable _ j) = j ≢ id
KeepsCodes id _ = Unit

-- How often a hash was issued and not consumed.
abbrev pub count : Text → List Text → ℕ
count hash [] = 0
count hash (h ∷ hs) = (if text_eq h hash then 1 else 0) + count hash hs

count-append :
    (hash : Text) (xs ys : List Text) → count hash (xs ++ ys) ≡ count hash xs + count hash ys
count-append hash [] ys = omega arith
count-append hash (x ∷ xs) ys = omega (arith, count-append hash xs ys)

count-remove :
    (hash h : Text) (xs before after : List Text) (b : Bool)
    → xs ≡ before ++ h ∷ after
    → count hash (before ++ after) + (if b && text_eq h hash then 1 else 0) ≤ count hash xs
count-remove hash h xs before after b e =
    ground (
      arith,
      ap (count hash) e,
      count-append hash before after,
      count-append hash before (h ∷ after),
    )

abbrev codes_left : Text → User → ℕ
codes_left hash x = count hash x.backup_code_hashes

Removes-codes :
    (hash h : Text) (x y : User) (r : Result Bool) (b : Bool)
    → Removes h x r y
    → codes_left hash y + (if b && text_eq h hash then consumed r else 0) ≤ codes_left hash x
Removes-codes hash h x y r b (inl (e, (before, after, split, rest), f)) =
    rw (e, rest) (count-remove hash h x.backup_code_hashes before after b split)
Removes-codes hash h x y r b (inr (e, _, f)) = rw (f, e) (ground arith)

Reserves-codes :
    (hash : Text) (m : ℕ) (x y : User) (r : Result ℕ)
    → Reserves m x r y
    → codes_left hash y + 0 ≤ codes_left hash x
Reserves-codes hash m x y r (inl (_, _, f)) = rw f (omega arith)
Reserves-codes hash m x y r (inr (_, _, f)) = rw f (omega arith)

Resets-codes :
    (hash : Text) (x y : User) (r : Result (Unit {0}))
    → Resets x r y
    → codes_left hash y + 0 ≤ codes_left hash x
Resets-codes hash x y r (_, f) = rw f (omega arith)

consumed_of_ne : (j id n : ℕ) (b : Bool) → j ≢ id → (if j == id && b then n else 0) ≡ 0
consumed_of_ne j id n b h = ground arith

consumed_of_err :
    (b : Bool) (r : Result Bool) → r ≡ err user_not_found → (if b then consumed r else 0) ≡ 0
consumed_of_err b r e = rw e (ground arith)

module _ {fold : Text → Text} {S : Type 0} {ops : Storage S} {view : S → Directory}
    {IsValid : S → Type 0} (contract : Contract fold ops view IsValid) (id : Uuid)
    (hash : Text) where
  code-Spends :
      (c : Call) (s : S) (x : User)
      → IsValid s
      → KeepsCodes id c
      → view s id ≡ some x
      → Spends contract id (codes_left hash) x (after ops c s) (code_consumed ops id hash c s)
  code-Spends (create user) s x v p at =
      Creates-Spends contract id (codes_left hash) v at user _ (contract.creates s user v)
  code-Spends (update user) s x v p at =
      Updates-Spends contract id (codes_left hash) v at user _ (λ y. refl)
        (contract.updates s user v)
  code-Spends (delete j) s x v p at =
      Deletes-Spends contract id (codes_left hash) v at j _ p (contract.deletes s j v)
  code-Spends (reset j) s x v p at =
      Changes-Spends contract id (codes_left hash) v at j Resets _ 0
        (λ y _ r. Resets-codes hash x y (ops.reset_totp_attempts j s).0 r) (λ _. refl) (λ _. refl)
        (contract.resets s j v)
  code-Spends (attempt j m) s x v p at =
      Changes-Spends contract id (codes_left hash) v at j (Reserves m) _ 0
        (λ y _ r. Reserves-codes hash m x y (ops.consume_totp_attempt j m s).0 r) (λ _. refl)
        (λ _. refl) (contract.reserves s j m v)
  code-Spends (code now j h) s x v p at =
      Changes-Spends contract id (codes_left hash) v at j (Removes h) _
        (code_consumed ops id hash (code now j h) s)
        (λ y _ r. Removes-codes hash h x y (ops.consume_backup_code now j h s).0 (j == id) r)
        (consumed_of_ne j id _ (text_eq h hash)) (consumed_of_err (j == id && text_eq h hash) _)
        (contract.removes s now j h v)
  code-Spends (enrol now j secret hashes) s x v p at =
      Changes-Spends contract id (codes_left hash) v at j (Enrols now secret hashes) _ 0
        (λ y e _. absurd (p e)) (λ _. refl) (λ _. refl) (contract.enrols s now j secret hashes v)
  code-Spends (disable now j) s x v p at =
      Changes-Spends contract id (codes_left hash) v at j Disables _ 0 (λ y e _. absurd (p e))
        (λ _. refl) (λ _. refl) (contract.disables s now j v)

  -- In any sequence of calls that does not enrol, disable or delete the user, a hash is consumed at
  -- most as often as it stands in the stored list.
  pub codes-le :
      (cs : List Call) (s : S) (x : User)
      → IsValid s
      → All (KeepsCodes id) cs
      → view s id ≡ some x
      → total ops (code_consumed ops id hash) cs s ≤ count hash x.backup_code_hashes
  codes-le =
      total-le contract id (codes_left hash) (code_consumed ops id hash) (KeepsCodes id) code-Spends
