-- ===== src/MemoryStorage/View.antt =====
-- The storage as a map from ids to users: what the writes to its parts do to that map.
use go_basicauth.Prelude.{◌≡◌, refl, Option, none, some, arith, Option-cases, inl, inr}
use go_basicauth.Text.{Text}
use go_basicauth.Types.{User, Uuid}
use go_basicauth.Storage.Contract.{Directory, Finds, assign}
use go_basicauth.MemoryStorage.{MemoryStorage, Pointer, set_id, fetch, clone_user}
use go_basicauth.MemoryStorage.Index.{Owned, IsIndex}

abbrev pub look : (Pointer → User) → Option Pointer → Option User
look heap none = none
look heap (some p) = some (heap p)

abbrev pub view : MemoryStorage → Directory
view s id = look s.heap (s.users id)

pub look-eq-some :
    (heap : Pointer → User) (o : Option Pointer) (x : User)
    → look heap o ≡ some x
    → (p : Pointer) × (o ≡ some p) × (heap p ≡ x)
look-eq-some heap none x e = cc
look-eq-some heap (some p) x e = (p, refl, cc)

module _ {heap : Pointer → User} {next : Pointer} {users : Uuid → Option Pointer} where
  module _ (owned : Owned heap next users) where
    pub look-insert :
        (user : User) (j : Uuid)
        → look (set_id next user heap) (set_id user.id (some next) users j)
          ≡ assign user.id (some user) (λ i. look heap (users i)) j
    look-insert user j = elim (Option-cases (users j)) [
      | inl missing ↦ ground arith
      | inr (p, at) ↦ ground (arith, owned.allocated j p at)
    ]

    pub look-write :
        (id : Uuid) (p : Pointer) (user : User) (j : Uuid)
        → users id ≡ some p
        → look (set_id p user heap) (users j) ≡ assign id (some user) (λ i. look heap (users i)) j
    look-write id p user j at = elim (Option-cases (users j)) [
      | inl missing ↦ ground arith
      | inr (q, at') ↦ ground (arith, owned.id_of j q at', owned.id_of id p at)
    ]

    -- A user read through an exact index is the stored user with that key.
    pub fetch-Finds :
        {key : User → Option Text} {index : Text → Option Pointer}
        → IsIndex heap users key index
        → (k : Text) → Finds (λ i. look heap (users i)) (λ x. key x ≡ some k) (fetch heap (index k))
    unfolding fetch clone_user
    fetch-Finds {key} {index} exact k = elim (Option-cases (index k)) [
      | inl missing ↦
          rw (missing, fetch)
            (
              refl,
              λ x at e.
                  let (p, at', same) = look-eq-some heap (users x.id) x at in
                  cc (missing, exact.entered x.id p k at' (rw same e)),
            )
      | inr (p, here) ↦ rw (here, fetch) (rw (exact.live k p here) refl, exact.keyed k p here)
    ]
