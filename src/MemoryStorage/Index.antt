-- ===== src/MemoryStorage/Index.antt =====
-- An index of the users by a key that a user may lack, as `usersByUsername` and `usersByEmail` are:
-- when it is exact, and what entering, deleting and writing through a pointer do to it.
use mathlib.Core.Path.{fun_ext}
use go_basicauth.Prelude.{
  ℕ, ◌+◌, ◌<◌, ◌≡◌, ◌≢◌, refl, ap, ◌⊎◌, Option, none, some, arith, Bool-cases, Option-cases, inl,
  inr, false,
}
use go_basicauth.Text.{Text, text_eq}
use go_basicauth.Text.Laws.{text_eq_iff}
use go_basicauth.Types.{User, Uuid}
use go_basicauth.MemoryStorage.{Pointer, set_id, set_name, entry, taken_by_other}

set_name-cases :
    (o : Option Text) (v : Option Pointer) (m : Text → Option Pointer) (j : Text)
    → (o ≡ some j) × (set_name o v m j ≡ v) ⊎ (o ≢ some j) × (set_name o v m j ≡ m j)
set_name-cases none v m j = inr (cc, refl)
set_name-cases (some k) v m j = elim (Bool-cases (text_eq k j)) [
  | inl same ↦ inl (ap some ((text_eq_iff k j).0 same), rw same)
  | inr other ↦ inr ((λ e. ground (arith, text_eq_iff k j)), rw other)
]

pub set_id_self {ℓ} : {A : Type ℓ} (k : ℕ) (v : A) (m : ℕ → A) → set_id k v m k ≡ v
set_id_self k v m = ground arith

pub set_id_twice {ℓ} :
    {A : Type ℓ} (k : ℕ) (v w : A) (m : ℕ → A) → set_id k w (set_id k v m) ≡ set_id k w m
set_id_twice k v w m = fun_ext λ j. ground arith

pub entry-some :
    (o : Option Text) (m : Text → Option Pointer) (k : Text) → o ≡ some k → entry o m ≡ m k
entry-some none m k e = cc
entry-some (some j) m k e = ap m (ground arith)

-- Every stored user is below `next` and stored under its own id.
pub record Owned (heap : Pointer → User) (next : Pointer) (users : Uuid → Option Pointer)
    : Type 0 where
  pub id_of : (id : Uuid) (p : Pointer) → users id ≡ some p → (heap p).id ≡ id
  pub allocated : (id : Uuid) (p : Pointer) → users id ≡ some p → p < next

module _ (heap : Pointer → User) (users : Uuid → Option Pointer) (key : User → Option Text) where
  -- The index has an entry for every stored user that has a key, and no other.
  pub record IsIndex (index : Text → Option Pointer) : Type 0 where
    pub entered :
        (id : Uuid) (p : Pointer) (k : Text)
        → users id ≡ some p
        → key (heap p) ≡ some k
        → index k ≡ some p
    pub keyed : (k : Text) (p : Pointer) → index k ≡ some p → key (heap p) ≡ some k
    pub live : (k : Text) (p : Pointer) → index k ≡ some p → users (heap p).id ≡ some p

module _ {heap : Pointer → User} {next : Pointer} {users : Uuid → Option Pointer}
    (owned : Owned heap next users) where
  pub Owned-insert :
      (user : User) → Owned (set_id next user heap) (next + 1) (set_id user.id (some next) users)
  Owned-insert user = record {
    id_of = λ id p e. ground (arith, owned.id_of id p, owned.allocated id p);
    allocated = λ id p e. ground (arith, owned.allocated id p);
  }

  pub Owned-delete : (id : Uuid) → Owned heap next (set_id id none users)
  Owned-delete id = record {
    id_of = λ j p e. ground (arith, owned.id_of j p);
    allocated = λ j p e. ground (arith, owned.allocated j p);
  }

  pub Owned-write :
      (p : Pointer) (user : User) → user.id ≡ (heap p).id → Owned (set_id p user heap) next users
  Owned-write p user same = record {
    id_of = λ j q e. ground (arith, owned.id_of j q);
    allocated = owned.allocated;
  }

  module _ {key : User → Option Text} {index : Text → Option Pointer}
      (exact : IsIndex heap users key index) where
    pub IsIndex-delete :
        (id : Uuid) (p : Pointer)
        → users id ≡ some p
        → IsIndex heap (set_id id none users) key (set_name (key (heap p)) none index)
    IsIndex-delete id p at = record {
      entered = λ j q k at' e. ground (
        arith,
        exact.entered j q k,
        exact.keyed k,
        set_name-cases (key (heap p)) none index k,
        exact.entered id p k at,
        owned.id_of j q,
        owned.id_of id p at,
      );
      keyed = λ k q e. ground (arith, exact.keyed k q, set_name-cases (key (heap p)) none index k);
      live = λ k q e.
          ground
            (arith, exact.live k q, exact.keyed k q, set_name-cases (key (heap p)) none index k);
    }

    -- A key that no other user has is free once the user itself is deleted.
    pub free_after_delete :
        (id : Uuid) (p : Pointer) (o : Option Text)
        → users id ≡ some p
        → taken_by_other heap id (entry o index) ≡ false
        → entry o (set_name (key (heap p)) none index) ≡ none
    unfolding taken_by_other
    free_after_delete id p none at h = refl
    free_after_delete id p (some k) at h = elim (Option-cases (index k)) [
      | inl missing ↦ ground (arith, set_name-cases (key (heap p)) none index k)
      | inr (q, found) ↦ ground (
        arith,
        set_name-cases (key (heap p)) none index k,
        exact.live k q found,
        exact.keyed k q found,
      )
    ]

    pub IsIndex-insert :
        (user : User)
        → users user.id ≡ none
        → entry (key user) index ≡ none
        → IsIndex
            (set_id next user heap)
            (set_id user.id (some next) users)
            key
            (set_name (key user) (some next) index)
    IsIndex-insert user fresh free = record {
      entered = λ id q k at e. ground (
        arith,
        exact.entered id q k,
        set_name-cases (key user) (some next) index k,
        entry-some (key user) index k,
        owned.allocated id q,
      );
      keyed = λ k q e. ground (
        arith,
        exact.keyed k q,
        exact.live k q,
        set_name-cases (key user) (some next) index k,
        owned.allocated (heap q).id q,
      );
      live = λ k q e. ground (
        arith,
        exact.live k q,
        set_name-cases (key user) (some next) index k,
        owned.allocated (heap q).id q,
      );
    }

    pub IsIndex-write :
        (p : Pointer) (user : User)
        → user.id ≡ (heap p).id
        → key user ≡ key (heap p)
        → IsIndex (set_id p user heap) users key index
    IsIndex-write p user same_id same_key = record {
      entered = λ id q k at e. ground (arith, exact.entered id q k);
      keyed = λ k q e. ground (arith, exact.keyed k q);
      live = λ k q e. ground (arith, exact.live k q);
    }
