-- ===== src/Storage/Budget.antt =====
-- The attempts and the backup codes of a user as budgets that a sequence of calls draws on.
pub mod Attempts
pub mod Codes
use mathlib.Core.Path.{subst}
use go_basicauth.Prelude.{
  ℕ, ◌+◌, ◌≤◌, ◌≡◌, ◌≢◌, ◌⊎◌, refl, Option, none, some, List, [], ◌∷◌, All, arith, inl, inr, ◌==◌,
  Bool-cases, ==_iff, sym, ap, ◌∙◌,
}
use go_basicauth.Text.{Text}
use go_basicauth.Types.{User, Uuid, Result, ok, err, user_not_found}
use go_basicauth.Storage.{Storage}
use go_basicauth.Storage.Contract.{
  Directory, Contract, Creates, Updates, Deletes, Changes, merge, assign,
}
use go_basicauth.Storage.Calls.{Call, after, total}

module _ {fold : Text → Text} {S : Type 0} {ops : Storage S} {view : S → Directory}
    {IsValid : S → Type 0} (contract : Contract fold ops view IsValid) (id : Uuid) where
  -- After a step the user is still stored, and has not gained anything.
  pub record Spends (left : User → ℕ) (x : User) (t : S) (n : ℕ) : Type 0 where
    pub user : User
    pub valid : IsValid t
    pub stored : view t id ≡ some user
    pub spent : left user + n ≤ left x

  -- From one step to a sequence of calls.
  pub total-le :
      (left : User → ℕ) (grant : Call → S → ℕ) (P : Call → Type 0)
      → ((c : Call) (s : S) (x : User)
          → IsValid s
          → P c
          → view s id ≡ some x
          → Spends left x (after ops c s) (grant c s))
      → (cs : List Call) (s : S) (x : User) → IsValid s
      → All P cs
      → view s id ≡ some x
      → total ops grant cs s ≤ left x
  unfolding total
  total-le left grant P step [] s x v ps at = omega arith
  total-le left grant P step (c ∷ cs) s x v (p, ps) at =
      let one = step c s x v p at in
      omega (
        arith,
        one.spent,
        total-le left grant P step cs (after ops c s) one.user one.valid ps one.stored,
      )

  module _ (left : User → ℕ) {s : S} {x : User} (v : IsValid s) (at : view s id ≡ some x) where
    pub Creates-Spends :
        (user : User) (r : Result (Unit {0}) × S)
        → Creates fold view IsValid s user r
        → Spends left x r.1 0
    Creates-Spends user (ok _, t) (fresh, _, (valid, shows)) = record {
      user = x;
      valid = valid;
      stored = ground (arith, shows id);
      spent = omega arith;
    }
    Creates-Spends user (err e, t) (_, same, _) = record {
      user = x;
      valid = rw same v;
      stored = rw same at;
      spent = omega arith;
    }

    -- UpdateUser leaves the security state alone.
    pub Updates-Spends :
        (user : User) (r : Result (Unit {0}) × S)
        → ((existing : User) → left (merge existing user) ≡ left existing)
        → Updates fold view IsValid s user r
        → Spends left x r.1 0
    Updates-Spends user (ok _, t) kept (existing, before, _, (valid, shows)) =
        elim (Bool-cases (user.id == id)) [
          | inl mine ↦
              let e : user.id ≡ id = (==_iff user.id id).0 mine in
              let same : existing ≡ x = cc (before, ap (view s) e, at) in
              record {
                user = merge existing user;
                valid = valid;
                stored = ground (arith, shows id);
                spent = omega (arith, kept existing, ap left same);
              }
          | inr other ↦ record {
            user = x;
            valid = valid;
            stored = ground (arith, shows id);
            spent = omega arith;
          }
        ]
    Updates-Spends user (err e, t) kept (same, _) = record {
      user = x;
      valid = rw same v;
      stored = rw same at;
      spent = omega arith;
    }

    -- An operation on another user.
    pub Deletes-Spends :
        (j : Uuid) (r : Result (Unit {0}) × S)
        → j ≢ id
        → Deletes fold view IsValid s j r
        → Spends left x r.1 0
    Deletes-Spends j (ok _, t) ne (_, (valid, shows)) = record {
      user = x;
      valid = valid;
      stored = ground (arith, shows id);
      spent = omega arith;
    }
    Deletes-Spends j (err e, t) ne (_, same, _) = record {
      user = x;
      valid = rw same v;
      stored = rw same at;
      spent = omega arith;
    }

    pub Changes-Spends :
        {A : Type 0} (j : Uuid) (P : User → Result A → User → Type 0) (r : Result A × S) (n : ℕ)
        → ((y : User) → (j ≡ id) → P x r.0 y → left y + n ≤ left x)
        → (j ≢ id → n ≡ 0)
        → (r.0 ≡ err user_not_found → n ≡ 0)
        → Changes fold view IsValid A s j P r
        → Spends left x r.1 n
    Changes-Spends j P r n mine other failed (inl (missing, e, same)) = record {
      user = x;
      valid = rw same v;
      stored = rw same at;
      spent = omega (arith, failed e);
    }
    Changes-Spends j P r n mine other failed (inr (x', y, before, p, (valid, shows))) =
        elim (Bool-cases (j == id)) [
          | inl mine' ↦
              let e : j ≡ id = (==_iff j id).0 mine' in
              let same : x' ≡ x = cc (before, ap (view s) e, at) in
              record {
                user = y;
                valid = valid;
                stored = ground (arith, shows id);
                spent = mine y e (subst (λ z. P z r.0 y) same p);
              }
          | inr ne ↦ record {
            user = x;
            valid = valid;
            stored = ground (arith, shows id);
            spent = ground (arith, other);
          }
        ]
