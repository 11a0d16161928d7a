-- ===== src/MemoryStorage/Codes.antt =====
-- The loop of ConsumeBackupCode over the stored hashes.
use mathlib.Core.HLevel.{⊥_prop}
use mathlib.Core.List.{Mem, mem-cons, not-mem-nil}
use mathlib.Core.Logic.Or
use go_basicauth.Prelude.{
  ◌≡◌, refl, ap, Bool, true, false, none, some, List, [], ◌∷◌, ◌++◌, ◌⊎◌, arith, Option-cases,
  Bool-cases, inl, inr,
}
use go_basicauth.Text.{Text, text_eq}
use go_basicauth.Text.Laws.{text_eq_iff}
use go_basicauth.Types.{User, Time, Result, ok}
use go_basicauth.Storage.Contract.{Removes}
use go_basicauth.MemoryStorage.{remove_first, consume_code}

-- The first occurrence of the hash goes and the time of the last change is now, or the hash is not
-- there and nothing differs.
abbrev pub RemovesFirst : Time → Text → User → Result Bool → User → Type 0
RemovesFirst now hash x r y =
    ((r ≡ ok true)
      × ((before after : List Text) × (x.backup_code_hashes ≡ before ++ hash ∷ after)
          × ¬ Mem hash before
          × (y ≡ record x { backup_code_hashes = before ++ after; updated_at = now })))
    ⊎ ((r ≡ ok false) × ¬ Mem hash x.backup_code_hashes × (y ≡ x))

remove_first-eq-some :
    (hash : Text) (hs rest : List Text)
    → remove_first hash hs ≡ some rest
    → (before after : List Text) × (hs ≡ before ++ hash ∷ after)
      × ¬ Mem hash before
      × (rest ≡ before ++ after)
unfolding remove_first
remove_first-eq-some hash [] rest e = cc
remove_first-eq-some hash (h ∷ hs) rest e = elim (Bool-cases (text_eq h hash)) [
  | inl same ↦
      ([], hs, ap (λ t. t ∷ hs) ((text_eq_iff h hash).0 same), (λ m. not-mem-nil m), ground arith)
  | inr other ↦ elim (Option-cases (remove_first hash hs)) [
    | inl missing ↦ ground arith
    | inr (l, at) ↦
        let (before, after, split, passed, left) = remove_first-eq-some hash hs l at in
        (
          h ∷ before,
          after,
          ap (λ t. h ∷ t) split,
          (λ m.
              Or.elim ⊥_prop (mem-cons.0 m) (λ same. ground (arith, text_eq_iff h hash))
                (λ later. passed later)),
          ground arith,
        )
  ]
]

remove_first-eq-none : (hash : Text) (hs : List Text) → remove_first hash hs ≡ none → ¬ Mem hash hs
unfolding remove_first
remove_first-eq-none hash [] e m = not-mem-nil m
remove_first-eq-none hash (h ∷ hs) e m =
    Or.elim ⊥_prop (mem-cons.0 m) (λ same. ground (arith, text_eq_iff h hash))
      (λ later. remove_first-eq-none hash hs (ground arith) later)

pub RemovesFirst-consume_code :
    (now : Time) (hash : Text) (x : User)
    → RemovesFirst now hash x (consume_code now hash x).0 (consume_code now hash x).1
unfolding consume_code
RemovesFirst-consume_code now hash x =
    elim (Option-cases (remove_first hash x.backup_code_hashes)) [
      | inl missing ↦
          rw (missing, consume_code)
            (inr (refl, remove_first-eq-none hash x.backup_code_hashes missing, refl))
      | inr (rest, at) ↦
          let (before, after, split, passed, left) =
            remove_first-eq-some hash x.backup_code_hashes rest at in
          rw (at, consume_code)
            (inl (
              refl,
              (
                before,
                after,
                split,
                passed,
                ap (λ l. record x { backup_code_hashes = l; updated_at = now }) left,
              ),
            ))
    ]

pub RemovesFirst-Removes :
    (now : Time) (hash : Text) (x : User) (r : Result Bool) (y : User)
    → RemovesFirst now hash x r y
    → Removes hash x r y
RemovesFirst-Removes now hash x r y (inl (took, (before, after, split, _, left))) =
    rw left (inl (took, (before, after, split, refl), refl))
RemovesFirst-Removes now hash x r y (inr kept) = inr kept
