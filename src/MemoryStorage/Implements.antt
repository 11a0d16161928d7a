-- ===== src/MemoryStorage/Implements.antt =====
-- The storage in memory against the contract of the interface.
use go_basicauth.Prelude.{
  ◌≡◌, refl, false, Option, none, some, arith, Option-cases, inl, inr, is_some, is_some-eq-false,
  some_of_is_some, if_cases,
}
use go_basicauth.Text.{Unicode, to_lower}
use go_basicauth.Types.{User, Uuid, Result, ok}
use go_basicauth.Storage.Contract.{
  found, Creates, Updates, Deletes, Changes, Reserves, Resets, Removes, Enrols, Disables, Contract,
}
use go_basicauth.MemoryStorage.{
  MemoryStorage, Pointer, entry, clone_user, add_user, fetch, taken_by_other, keep_security,
  with_user, replace_user, consume_attempt, reset_attempts, consume_code, enrol, disable,
  get_user_by_id, get_user_by_username, get_user_by_email, create_user, update_user, delete_user,
  consume_totp_attempt, reset_totp_attempts, consume_backup_code, set_totp, clear_totp,
  memory_storage,
}
use go_basicauth.MemoryStorage.Codes.{RemovesFirst-consume_code, RemovesFirst-Removes}
use go_basicauth.MemoryStorage.Holders.{
  Stored-at, occupied, unoccupied, occupied_by_other, unoccupied_by_other,
}
use go_basicauth.MemoryStorage.View.{view, look, look-eq-some, look-insert, look-write, fetch-Finds}
use go_basicauth.MemoryStorage.Invariant.{
  WellFormed, insert_user-WellFormed, without-WellFormed, replace_user-WellFormed,
  with_user-WellFormed, name_key, mail_key,
}

module _ (u : Unicode) where
  abbrev pub Valid : MemoryStorage → Type 0
  Valid = WellFormed u

  fetch-found : (heap : Pointer → User) (o : Option Pointer) → fetch heap o ≡ found (look heap o)
  unfolding fetch clone_user
  fetch-found heap none = refl
  fetch-found heap (some p) = refl

  pub with_user-Changes :
      {A : Type 0} (s : MemoryStorage) (id : Uuid) (fn : User → Result A × User)
      (P : User → Result A → User → Type 0)
      → ((x : User) → P x (fn x).0 (fn x).1)
      → ((x : User) → (fn x).1.id ≡ x.id)
      → ((x : User) → (fn x).1.username ≡ x.username)
      → ((x : User) → (fn x).1.email ≡ x.email)
      → Valid s
      → Changes (to_lower u) view Valid A s id P (with_user id fn s)
  unfolding with_user
  with_user-Changes s id fn P holds same_id same_name same_mail w =
      let kept = with_user-WellFormed u s id fn same_id same_name same_mail w in
      elim (Option-cases (s.users id)) [
        | inl missing ↦
            inl (rw missing refl, rw (missing, with_user) refl, rw (missing, with_user) refl)
        | inr (p, at) ↦
            let x = s.heap p in
            inr (
              x,
              (fn x).1,
              rw at refl,
              rw (at, with_user) (holds x),
              (kept, λ j. rw (at, with_user) (look-write w.owned id p (fn x).1 j at)),
            )
      ]

  abbrev Outcome : Type 0
  Outcome = Result (Unit {0}) × MemoryStorage

  Creates-ok :
      (s : MemoryStorage) (user : User)
      → Valid s
      → is_some (s.users user.id) ≡ false
      → is_some (entry (name_key u user) s.users_by_username) ≡ false
      → is_some (entry (mail_key u user) s.users_by_email) ≡ false
      → Creates (to_lower u) view Valid s user (ok tt, add_user u user s)
  Creates-ok s user w fresh name mail = (
    rw (is_some-eq-false (s.users user.id) fresh) refl,
    (λ x at shares. elim shares [
      | inl (k, e, e') ↦ unoccupied s (name_key u) _ w.names (name_key u user) name x k at e e'
      | inr (k, e, e') ↦ unoccupied s (mail_key u) _ w.mails (mail_key u user) mail x k at e e'
    ]),
    unfold add_user in
        (
          insert_user-WellFormed u s user w (is_some-eq-false _ fresh) (is_some-eq-false _ name)
              (is_some-eq-false _ mail),
          look-insert w.owned user,
        ),
  )

  creates :
      (s : MemoryStorage) (user : User)
      → Valid s
      → Creates (to_lower u) view Valid s user (create_user u user s)
  unfolding create_user
  creates s user w =
      if_cases {A = Outcome} (Creates (to_lower u) view Valid s user) _ _ _
        (λ used.
          let (p, at) = some_of_is_some (s.users user.id) used in
          let same = w.owned.id_of user.id p at in
          (refl, refl, (s.heap p, Stored-at s user.id p w.owned at, inl same)))
        λ fresh.
          if_cases {A = Outcome} (Creates (to_lower u) view Valid s user) _ _ _
            (λ used.
              let (x, at, shared) =
                occupied s (name_key u) s.users_by_username w.names (name_key u user) used in
              (refl, refl, (x, at, inr (inl shared))))
            λ name.
              if_cases {A = Outcome} (Creates (to_lower u) view Valid s user) _ _ _
                (λ used.
                  let (x, at, shared) =
                    occupied s (mail_key u) s.users_by_email w.mails (mail_key u user) used in
                  (refl, refl, (x, at, inr (inr shared))))
                λ mail. Creates-ok s user w fresh name mail

  deletes :
      (s : MemoryStorage) (id : Uuid)
      → Valid s
      → Deletes (to_lower u) view Valid s id (delete_user u id s)
  unfolding delete_user
  deletes s id w = elim (Option-cases (s.users id)) [
    | inl missing ↦ rw (missing, delete_user) (refl, refl, rw missing refl)
    | inr (p, at) ↦
        rw (at, delete_user)
          ((λ e. cc (rw at at e)), (without-WellFormed u s id p w at, λ j. ground arith))
  ]

  Updates-ok :
      (s : MemoryStorage) (user : User) (p : Pointer)
      → Valid s
      → s.users user.id ≡ some p
      → taken_by_other s.heap user.id (entry (name_key u user) s.users_by_username) ≡ false
      → taken_by_other s.heap user.id (entry (mail_key u user) s.users_by_email) ≡ false
      → Updates (to_lower u) view Valid s user (ok tt, replace_user u user p s)
  Updates-ok s user p w at name mail = (
    s.heap p,
    rw at refl,
    (λ x there ne shares. elim shares [
      | inl (k, e, e') ↦ unoccupied_by_other s _ _ w.names _ user.id name x k there ne e e'
      | inr (k, e, e') ↦ unoccupied_by_other s _ _ w.mails _ user.id mail x k there ne e e'
    ]),
    (
      replace_user-WellFormed u s user p w at name mail,
      unfold replace_user keep_security in look-insert w.owned (keep_security (s.heap p) user),
    ),
  )

  updates :
      (s : MemoryStorage) (user : User)
      → Valid s
      → Updates (to_lower u) view Valid s user (update_user u user s)
  unfolding update_user
  updates s user w = elim (Option-cases (s.users user.id)) [
    | inl missing ↦ rw (missing, update_user) (refl, inl (refl, rw missing refl))
    | inr (p, at) ↦
        rw (at, update_user)
          (if_cases {A = Outcome} (Updates (to_lower u) view Valid s user) _ _ _
            (λ used.
              let (x, there, ne, shared) =
                occupied_by_other s (name_key u) s.users_by_username w.names (name_key u user)
                  user.id used in
              (refl, inr (refl, (x, there, ne, inl shared))))
            λ name.
              if_cases {A = Outcome} (Updates (to_lower u) view Valid s user) _ _ _
                (λ used.
                  let (x, there, ne, shared) =
                    occupied_by_other s (mail_key u) s.users_by_email w.mails (mail_key u user)
                      user.id used in
                  (refl, inr (refl, (x, there, ne, inr shared))))
                λ mail. Updates-ok s user p w at name mail)
  ]

  -- The storage in memory keeps every promise of the interface in all states that satisfy its
  -- invariant, with names and addresses compared by what strings.ToLower makes of them.
  pub memory_storage-Contract : Contract (to_lower u) (memory_storage u) view Valid
  unfolding get_user_by_id get_user_by_username get_user_by_email consume_totp_attempt
      reset_totp_attempts consume_backup_code set_totp clear_totp
  memory_storage-Contract = record {
    own_id = λ s id x w at.
        let (p, held, same) = look-eq-some s.heap (s.users id) x at in
        rw same at (w.owned.id_of id p held);
    by_id = λ s id w. fetch-found s.heap (s.users id);
    by_username = λ s name w. fetch-Finds w.owned w.names (to_lower u name);
    by_email = λ s mail w. fetch-Finds w.owned w.mails (to_lower u mail);
    creates = creates;
    updates = updates;
    deletes = deletes;
    reserves = λ s id max w.
        with_user-Changes s id (consume_attempt max) (Reserves max) (λ x. ground arith)
          (λ x. ground arith) (λ x. ground arith) (λ x. ground arith) w;
    resets = λ s id w.
        with_user-Changes s id reset_attempts Resets (λ x. (refl, refl)) (λ x. refl) (λ x. refl)
          (λ x. refl) w;
    removes = λ s now id hash w.
        with_user-Changes s id (consume_code now hash) (Removes hash)
          (λ x. RemovesFirst-Removes now hash x _ _ (RemovesFirst-consume_code now hash x))
          (λ x. ground arith) (λ x. ground arith) (λ x. ground arith) w;
    enrols = λ s now id secret hashes w.
        with_user-Changes s id (enrol now secret hashes) (Enrols now secret hashes)
          (λ x. (refl, refl)) (λ x. refl) (λ x. refl) (λ x. refl) w;
    disables = λ s now id w.
        with_user-Changes s id (disable now) Disables (λ x. (refl, refl)) (λ x. refl) (λ x. refl)
          (λ x. refl) w;
  }
