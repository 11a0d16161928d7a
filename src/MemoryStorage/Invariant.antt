-- ===== src/MemoryStorage/Invariant.antt =====
-- The invariant of the storage, method by method, and the states that calls reach.
use mathlib.Core.Path.{subst}
use go_basicauth.Prelude.{
  ℕ, ◌≡◌, refl, false, Option, none, some, List, arith, Option-cases, inl, inr, is_some-eq-false,
  if_cases, ◌+◌, ap,
}
use go_basicauth.Text.{Text, Unicode}
use go_basicauth.Types.{User, Uuid, Time, Result}
use go_basicauth.MemoryStorage.{
  MemoryStorage, Pointer, new_memory_storage, folded, set_id, set_name, entry, add_user,
  keep_security, taken_by_other, with_user, replace_user, consume_totp_attempt, consume_attempt,
  reset_totp_attempts, reset_attempts, consume_backup_code, consume_code, set_totp, enrol,
  clear_totp, disable, create_user, update_user, delete_user,
}
use go_basicauth.MemoryStorage.Index.{
  Owned, IsIndex, Owned-insert, Owned-delete, Owned-write, IsIndex-insert, IsIndex-delete,
  IsIndex-write, free_after_delete, set_id_self, set_id_twice,
}

module _ (u : Unicode) where
  -- The keys of the two indexes.
  abbrev pub name_key : User → Option Text
  name_key user = folded u user.username

  abbrev pub mail_key : User → Option Text
  mail_key user = folded u user.email

  -- Users stand under their ids, and the indexes by name and by address are exact.
  pub record WellFormed (s : MemoryStorage) : Type 0 where
    pub owned : Owned s.heap s.next s.users
    pub names : IsIndex s.heap s.users name_key s.users_by_username
    pub mails : IsIndex s.heap s.users mail_key s.users_by_email

  pub new_memory_storage-WellFormed : WellFormed new_memory_storage
  new_memory_storage-WellFormed = record {
    owned = record { id_of = λ id p e. cc; allocated = λ id p e. absurd (ground arith) };
    names = record { entered = λ id p k e f. cc; keyed = λ k p e. cc; live = λ k p e. cc };
    mails = record { entered = λ id p k e f. cc; keyed = λ k p e. cc; live = λ k p e. cc };
  }

  -- A storage with one more user, whose id, name and address are free.
  pub insert_user-WellFormed :
      (s : MemoryStorage) (user : User)
      → WellFormed s
      → s.users user.id ≡ none
      → entry (name_key user) s.users_by_username ≡ none
      → entry (mail_key user) s.users_by_email ≡ none
      → WellFormed (record {
        heap = set_id s.next user s.heap;
        next = s.next + 1;
        users = set_id user.id (some s.next) s.users;
        users_by_username = set_name (name_key user) (some s.next) s.users_by_username;
        users_by_email = set_name (mail_key user) (some s.next) s.users_by_email;
      })
  insert_user-WellFormed s user w fresh name mail = record {
    owned = Owned-insert w.owned user;
    names = IsIndex-insert w.owned w.names user fresh name;
    mails = IsIndex-insert w.owned w.mails user fresh mail;
  }

  abbrev pub without : MemoryStorage → Uuid → Pointer → MemoryStorage
  without s id p = record s {
    users = set_id id none s.users;
    users_by_username = set_name (name_key (s.heap p)) none s.users_by_username;
    users_by_email = set_name (mail_key (s.heap p)) none s.users_by_email;
  }

  pub without-WellFormed :
      (s : MemoryStorage) (id : Uuid) (p : Pointer)
      → WellFormed s
      → s.users id ≡ some p
      → WellFormed (without s id p)
  without-WellFormed s id p w at = record {
    owned = Owned-delete w.owned id;
    names = IsIndex-delete w.owned w.names id p at;
    mails = IsIndex-delete w.owned w.mails id p at;
  }

  pub create_user-WellFormed :
      (s : MemoryStorage) (user : User) → WellFormed s → WellFormed (create_user u user s).1
  unfolding create_user
  create_user-WellFormed s user w =
      if_cases {A = Result Unit × MemoryStorage} (λ r. WellFormed r.1) _ _ _ (λ _. w)
        λ fresh.
          if_cases {A = Result Unit × MemoryStorage} (λ r. WellFormed r.1) _ _ _ (λ _. w)
            λ name.
              if_cases {A = Result Unit × MemoryStorage} (λ r. WellFormed r.1) _ _ _ (λ _. w)
                λ mail.
                  unfold add_user in
                  insert_user-WellFormed s user w (is_some-eq-false _ fresh)
                    (is_some-eq-false _ name) (is_some-eq-false _ mail)

  pub delete_user-WellFormed :
      (s : MemoryStorage) (id : Uuid) → WellFormed s → WellFormed (delete_user u id s).1
  unfolding delete_user
  delete_user-WellFormed s id w = elim (Option-cases (s.users id)) [
    | inl missing ↦ rw (missing, delete_user) w
    | inr (p, at) ↦ rw (at, delete_user) (without-WellFormed s id p w at)
  ]

  -- Replacing a user is deleting it and entering the new value.
  pub replace_user-WellFormed :
      (s : MemoryStorage) (user : User) (p : Pointer)
      → WellFormed s
      → s.users user.id ≡ some p
      → taken_by_other s.heap user.id (entry (name_key user) s.users_by_username) ≡ false
      → taken_by_other s.heap user.id (entry (mail_key user) s.users_by_email) ≡ false
      → WellFormed (replace_user u user p s)
  unfolding replace_user
  replace_user-WellFormed s user p w at name mail =
      let updated = keep_security (s.heap p) user in
      let rest = without s user.id p in
      subst
        (λ m. WellFormed (record {
          heap = set_id s.next updated s.heap;
          next = s.next + 1;
          users = m;
          users_by_username = set_name (name_key user) (some s.next) rest.users_by_username;
          users_by_email = set_name (mail_key user) (some s.next) rest.users_by_email;
        }))
        (set_id_twice user.id none (some s.next) s.users)
        (insert_user-WellFormed rest updated (without-WellFormed s user.id p w at)
          (set_id_self user.id none s.users)
          (free_after_delete w.owned w.names user.id p (name_key user) at name)
          (free_after_delete w.owned w.mails user.id p (mail_key user) at mail))

  pub update_user-WellFormed :
      (s : MemoryStorage) (user : User) → WellFormed s → WellFormed (update_user u user s).1
  unfolding update_user
  update_user-WellFormed s user w = elim (Option-cases (s.users user.id)) [
    | inl missing ↦ rw (missing, update_user) w
    | inr (p, at) ↦
        rw (at, update_user)
          (if_cases {A = Result Unit × MemoryStorage} (λ r. WellFormed r.1) _ _ _ (λ _. w)
            λ name.
              if_cases {A = Result Unit × MemoryStorage} (λ r. WellFormed r.1) _ _ _ (λ _. w)
                λ mail. replace_user-WellFormed s user p w at name mail)
  ]

  -- A method of the security state keeps the id, the name and the address of the user.
  pub with_user-WellFormed :
      {A : Type 0} (s : MemoryStorage) (id : Uuid) (fn : User → Result A × User)
      → ((x : User) → (fn x).1.id ≡ x.id)
      → ((x : User) → (fn x).1.username ≡ x.username)
      → ((x : User) → (fn x).1.email ≡ x.email)
      → WellFormed s
      → WellFormed (with_user id fn s).1
  unfolding with_user
  with_user-WellFormed s id fn same_id same_name same_mail w = elim (Option-cases (s.users id)) [
    | inl missing ↦ rw (missing, with_user) w
    | inr (p, at) ↦
        let stored = s.heap p in
        rw (at, with_user)
          (record {
            owned = Owned-write w.owned p (fn stored).1 (same_id stored);
            names =
                IsIndex-write w.owned w.names p (fn stored).1 (same_id stored)
                  (ap (folded u) (same_name stored));
            mails =
                IsIndex-write w.owned w.mails p (fn stored).1 (same_id stored)
                  (ap (folded u) (same_mail stored));
          })
  ]

  consume_totp_attempt-WellFormed :
      (s : MemoryStorage) (id : Uuid) (max : ℕ)
      → WellFormed s
      → WellFormed (consume_totp_attempt id max s).1
  unfolding consume_totp_attempt
  consume_totp_attempt-WellFormed s id max =
      with_user-WellFormed s id (consume_attempt max) (λ x. ground arith) (λ x. ground arith)
        (λ x. ground arith)

  reset_totp_attempts-WellFormed :
      (s : MemoryStorage) (id : Uuid) → WellFormed s → WellFormed (reset_totp_attempts id s).1
  unfolding reset_totp_attempts
  reset_totp_attempts-WellFormed s id =
      with_user-WellFormed s id reset_attempts (λ x. refl) (λ x. refl) (λ x. refl)

  consume_backup_code-WellFormed :
      (s : MemoryStorage) (now : Time) (id : Uuid) (hash : Text)
      → WellFormed s
      → WellFormed (consume_backup_code now id hash s).1
  unfolding consume_backup_code
  consume_backup_code-WellFormed s now id hash =
      with_user-WellFormed s id (consume_code now hash) (λ x. ground arith) (λ x. ground arith)
        (λ x. ground arith)

  set_totp-WellFormed :
      (s : MemoryStorage) (now : Time) (id : Uuid) (secret : Text) (hashes : List Text)
      → WellFormed s
      → WellFormed (set_totp now id secret hashes s).1
  unfolding set_totp
  set_totp-WellFormed s now id secret hashes =
      with_user-WellFormed s id (enrol now secret hashes) (λ x. refl) (λ x. refl) (λ x. refl)

  clear_totp-WellFormed :
      (s : MemoryStorage) (now : Time) (id : Uuid)
      → WellFormed s
      → WellFormed (clear_totp now id s).1
  unfolding clear_totp
  clear_totp-WellFormed s now id =
      with_user-WellFormed s id (disable now) (λ x. refl) (λ x. refl) (λ x. refl)

  -- One call of a method that writes.
  pub data Step : MemoryStorage → MemoryStorage → Type 0 where
    create : (s : MemoryStorage) (user : User) → Step s (create_user u user s).1
    update : (s : MemoryStorage) (user : User) → Step s (update_user u user s).1
    delete : (s : MemoryStorage) (id : Uuid) → Step s (delete_user u id s).1
    attempt : (s : MemoryStorage) (id : Uuid) (max : ℕ) → Step s (consume_totp_attempt id max s).1
    reset : (s : MemoryStorage) (id : Uuid) → Step s (reset_totp_attempts id s).1
    code :
        (s : MemoryStorage) (now : Time) (id : Uuid) (hash : Text)
        → Step s (consume_backup_code now id hash s).1
    enrolled :
        (s : MemoryStorage) (now : Time) (id : Uuid) (secret : Text) (hashes : List Text)
        → Step s (set_totp now id secret hashes s).1
    disabled : (s : MemoryStorage) (now : Time) (id : Uuid) → Step s (clear_totp now id s).1

  -- The states that calls from the empty storage reach, in any order of the callers.
  pub data Reachable : MemoryStorage → Type 0 where
    empty : Reachable new_memory_storage
    after : {s t : MemoryStorage} → Reachable s → Step s t → Reachable t

  pub Step-WellFormed : {s t : MemoryStorage} → Step s t → WellFormed s → WellFormed t
  Step-WellFormed (create s user) w = create_user-WellFormed s user w
  Step-WellFormed (update s user) w = update_user-WellFormed s user w
  Step-WellFormed (delete s id) w = delete_user-WellFormed s id w
  Step-WellFormed (attempt s id max) w = consume_totp_attempt-WellFormed s id max w
  Step-WellFormed (reset s id) w = reset_totp_attempts-WellFormed s id w
  Step-WellFormed (code s now id hash) w = consume_backup_code-WellFormed s now id hash w
  Step-WellFormed (enrolled s now id secret hashes) w = set_totp-WellFormed s now id secret hashes w
  Step-WellFormed (disabled s now id) w = clear_totp-WellFormed s now id w

  -- In every reachable storage each user stands under its id, and the two indexes hold exactly the
  -- names and the addresses of the stored users.
  pub Reachable-WellFormed : {s : MemoryStorage} → Reachable s → WellFormed s
  Reachable-WellFormed empty = new_memory_storage-WellFormed
  Reachable-WellFormed (after r step) = Step-WellFormed step (Reachable-WellFormed r)
