-- ===== src/Handler/Login/Upgrade.antt =====
-- The transparent re-hash of a legacy password: what it may write.
use mathlib.Core.Path.{subst}
use go_basicauth.Prelude.{◌≡◌, inl, inr, refl, sym, ◌∙◌, Option, none, some, arith, Bool-cases}
use go_basicauth.Text.{Text, text_eq}
use go_basicauth.Text.Laws.{text_eq_iff}
use go_basicauth.Types.{User, Result, ok, err, Result-cases}
use go_basicauth.Settings.{Options}
use go_basicauth.Password.{hash_password}
use go_basicauth.Storage.{Storage}
use go_basicauth.Storage.Contract.{Directory, Contract, Updates, Shows, assign, merge, found}
use go_basicauth.Request.{Context, next}
use go_basicauth.Handler.{Libraries, Moment}
use go_basicauth.Handler.Login.{upgrade_password_hash}

module _ {fold : Text → Text} {S V : Type 0} {ops : Storage S} {view : S → Directory}
    {IsValid : S → Type 0} (contract : Contract fold ops view IsValid) (lib : Libraries)
    (o : Options V) (m : Moment) (user : User) (password : Text) where
  -- The state of the storage after the upgrade: as before, or with the new hash of the password for
  -- a user whose stored hash is still the one that was verified.
  pub data Upgraded (s t : S) : Type 0 where
    unchanged : t ≡ s → Upgraded s t
    rehashed :
        (current : User) (hash : Text)
        → view s user.id ≡ some current
        → current.password_hash ≡ user.password_hash
        → hash_password lib.argon2 m.random password o.settings.hashing_params ≡ ok hash
        → Shows fold view IsValid t (
            assign user.id
              (some (record current { password_hash = hash; updated_at = m.now }))
              (view s))
        → Upgraded s t

  abbrev with_hash : User → Text → User
  with_hash current hash = record current { password_hash = hash; updated_at = m.now }

  Updates-Upgraded :
      (s : S) (current : User) (hash : Text) (r : Result (Unit {0}) × S)
      → view s user.id ≡ some current
      → current.id ≡ user.id
      → current.password_hash ≡ user.password_hash
      → hash_password lib.argon2 m.random password o.settings.hashing_params ≡ ok hash
      → Updates fold view IsValid s (with_hash current hash) r
      → Upgraded s r.1
  Updates-Upgraded s current hash (ok _, t) at own same hashed (existing, before, _, shows) =
      let e : existing ≡ current = cc (before, at) in
      rehashed current hash at same hashed (
        subst (λ i. Shows fold view IsValid t (assign i (some (with_hash current hash)) (view s)))
          own
          (subst
            (λ x.
              Shows fold view IsValid t
                (assign current.id (some (merge x (with_hash current hash))) (view s)))
            e shows))
  Updates-Upgraded s current hash (err _, t) at own same hashed (kept, _) = unchanged kept

  found-some : (d : Option User) (x : User) → found d ≡ ok x → d ≡ some x
  found-some none x e = cc
  found-some (some y) x e = ground arith

  upgraded :
      (c : Context S V)
      → IsValid c.storage
      → Upgraded c.storage (upgrade_password_hash lib ops o m user password c).1.storage
  unfolding upgrade_password_hash
  upgraded c v =
      elim (Result-cases (hash_password lib.argon2 m.random password o.settings.hashing_params)) [
        | inl (e, failed) ↦ rw (failed, upgrade_password_hash) (unchanged refl)
        | inr (hash, hashed) ↦ elim (Result-cases (ops.get_user_by_id user.id c.storage)) [
          | inl (e, missing) ↦ rw (hashed, missing, upgrade_password_hash) (unchanged refl)
          | inr (current, read) ↦
              let at : view c.storage user.id ≡ some current =
                found-some (view c.storage user.id) current
                  (sym (contract.by_id c.storage user.id v) ∙ read) in
              elim (Bool-cases (text_eq current.password_hash user.password_hash)) [
                | inl same ↦
                    rw (hashed, read, same, upgrade_password_hash)
                      (Updates-Upgraded c.storage current hash _ at
                        (contract.own_id c.storage user.id current v at)
                        ((text_eq_iff current.password_hash user.password_hash).0 same) hashed
                        (contract.updates c.storage (with_hash current hash) v))
                | inr other ↦ rw (hashed, read, other, upgrade_password_hash) (unchanged refl)
              ]
        ]
      ]

  -- Whatever happens to the upgrade, the login goes on, and nothing but the storage has changed;
  -- there, nothing has changed, or the one user has a hash of the verified password in place of the
  -- hash that was verified.
  pub upgrade_password_hash-Upgraded :
      (c : Context S V)
      → IsValid c.storage
      → ((upgrade_password_hash lib ops o m user password c).0 ≡ next tt)
        × ((upgrade_password_hash lib ops o m user password c).1
            ≡ record c { storage = (upgrade_password_hash lib ops o m user password c).1.storage })
        × Upgraded c.storage (upgrade_password_hash lib ops o m user password c).1.storage
  unfolding upgrade_password_hash
  upgrade_password_hash-Upgraded c v = (ground arith, ground arith, upgraded c v)
