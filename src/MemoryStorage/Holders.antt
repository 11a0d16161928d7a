-- ===== src/MemoryStorage/Holders.antt =====
-- Who holds an entry of an exact index: what the guards of CreateUser and UpdateUser find out.
use go_basicauth.Prelude.{
  ◌≡◌, ◌≢◌, refl, ap, ◌∙◌, true, false, Option, none, some, arith, Option-cases, inl, inr, is_some,
}
use go_basicauth.Text.{Text}
use go_basicauth.Types.{User, Uuid}
use go_basicauth.Storage.Contract.{Stored}
use go_basicauth.MemoryStorage.{MemoryStorage, Pointer, entry, taken_by_other}
use go_basicauth.MemoryStorage.Index.{Owned, IsIndex, entry-some}
use go_basicauth.MemoryStorage.View.{view, look, look-eq-some}

pub Stored-at :
    (s : MemoryStorage) (id : Uuid) (p : Pointer)
    → Owned s.heap s.next s.users
    → s.users id ≡ some p
    → Stored (view s) (s.heap p)
Stored-at s id p owned at = ap (look s.heap) (ap s.users (owned.id_of id p at) ∙ at)

module _ (s : MemoryStorage) (key : User → Option Text) (index : Text → Option Pointer)
    (exact : IsIndex s.heap s.users key index) where
  -- Whom an entry of an index points to.
  holder :
      (o : Option Text) (p : Pointer)
      → entry o index ≡ some p
      → Stored (view s) (s.heap p) × ((k : Text) × (key (s.heap p) ≡ some k) × (o ≡ some k))
  holder none p e = cc
  holder (some k) p e = (rw (exact.live k p e) refl, (k, exact.keyed k p e, refl))

  -- A stored user with a key is what the entry for the key points to.
  held :
      (o : Option Text) (x : User) (k : Text)
      → Stored (view s) x
      → key x ≡ some k
      → o ≡ some k
      → (p : Pointer) × (entry o index ≡ some p) × (s.heap p ≡ x)
  held o x k at e e' =
      let (p, there, same) = look-eq-some s.heap (s.users x.id) x at in
      (p, entry-some o index k e' ∙ exact.entered x.id p k there (rw same e), same)

  pub occupied :
      (o : Option Text)
      → is_some (entry o index) ≡ true
      → (x : User) × Stored (view s) x × ((k : Text) × (key x ≡ some k) × (o ≡ some k))
  occupied o h = elim (Option-cases (entry o index)) [
    | inl free ↦ ground arith
    | inr (p, at) ↦ let (there, shared) = holder o p at in (s.heap p, there, shared)
  ]

  pub unoccupied :
      (o : Option Text)
      → is_some (entry o index) ≡ false
      → (x : User) (k : Text) → Stored (view s) x
      → key x ≡ some k
      → ¬ (o ≡ some k)
  unoccupied o h x k at e e' = let (p, there, same) = held o x k at e e' in ground arith

  pub occupied_by_other :
      (o : Option Text) (id : Uuid)
      → taken_by_other s.heap id (entry o index) ≡ true
      → (x : User) × Stored (view s) x
        × (x.id ≢ id)
        × ((k : Text) × (key x ≡ some k) × (o ≡ some k))
  unfolding taken_by_other
  occupied_by_other o id h = elim (Option-cases (entry o index)) [
    | inl free ↦ ground arith
    | inr (p, at) ↦ let (there, shared) = holder o p at in (s.heap p, there, ground arith, shared)
  ]

  pub unoccupied_by_other :
      (o : Option Text) (id : Uuid)
      → taken_by_other s.heap id (entry o index) ≡ false
      → (x : User) (k : Text) → Stored (view s) x
      → x.id ≢ id
      → key x ≡ some k
      → ¬ (o ≡ some k)
  unfolding taken_by_other
  unoccupied_by_other o id h x k at ne e e' =
      let (p, there, same) = held o x k at e e' in ground arith
