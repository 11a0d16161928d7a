-- ===== src/Tfa/Issued.antt =====
-- generateBackupCodes against findBackupCodeMatch: a code that was issued is found again.
use go_basicauth.Prelude.{
  ℕ, zero, suc, ◌*◌, ◌≤◌, ◌<◌, ◌≡◌, refl, ap, Option, none, some, List, [], ◌∷◌, ◌++◌, All, arith,
  length,
}
use go_basicauth.Text.{Text, runes, to_lower, trim_space}
use go_basicauth.Text.Plain.{IsVisible, IsPlain, IsRune, runes-IsRune, to_lower-trim_space}
use go_basicauth.Base64.RoundTrip.{IsByte}
use go_basicauth.Types.{ok}
use go_basicauth.Password.{Params, hash_password}
use go_basicauth.Password.RoundTrip.{IsArgon2, IsUsable, verify_password-hash_password}
use go_basicauth.Handler.{Libraries}
use go_basicauth.Tfa.{
  Draws, draw_code, draw_codes, rune_at, distinct, generate_backup_codes, find_backup_code_match,
}
use go_basicauth.Tfa.Matching.{Accepts, IsFirstMatch, find_backup_code_match-IsFirstMatch}

-- A source of randomness that does not fail: rand.Int gives a number below its bound, and a salt has
-- as many bytes as are asked for.
pub record IsRandom (draws : Draws) (p : Params) : Type 0 where
  pub int_below : (i max : ℕ) → 0 < max → (k : ℕ) × (draws.int i max ≡ some k) × (k < max)
  pub salt_read :
      (i : ℕ)
      → (salt : List ℕ) × (draws.salt i p.salt_length ≡ some salt)
        × (length salt ≡ p.salt_length)
        × All IsByte salt

rune_at-IsRune :
    (alpha : List Text) (k : ℕ) → All IsRune alpha → k < length alpha → IsRune (rune_at alpha k)
rune_at-IsRune [] k rs low = absurd (omega (arith, low))
rune_at-IsRune (r ∷ alpha) zero (h, rs) low = h
rune_at-IsRune (r ∷ alpha) (suc k) (h, rs) low = rune_at-IsRune alpha k rs (omega (arith, low))

-- A code as it is issued: of the given length, in plain bytes.
abbrev pub IsCode : ℕ → Text → Type 0
IsCode size code = (length code ≡ size) × All IsPlain code

IsCode-suc : (r code : Text) (n : ℕ) → IsRune r → IsCode n code → IsCode (suc n) (r ++ code)
IsCode-suc r code n (c, single, plain) (long, plains) =
    rw single (omega (arith, long), (plain, plains))

-- The hashes are those of the codes, in order.
abbrev pub Hashed : Libraries → ℕ → List Text → List Text → Type 0
Hashed lib size [] [] = Unit
Hashed lib size (c ∷ codes) (h ∷ hashes) =
    (IsCode size c × Accepts lib c h) × Hashed lib size codes hashes
Hashed lib size _ _ = ⊥

module _ {draws : Draws} {p : Params} (random : IsRandom draws p) (alpha : List Text)
    (rs : All IsRune alpha) (some_rune : 0 < length alpha) where
  draw_code-IsCode :
      (i n : ℕ) → (code : Text) × (draw_code draws alpha i n ≡ ok code) × IsCode n code
  unfolding draw_code
  draw_code-IsCode i zero = ([], refl, (refl, tt))
  draw_code-IsCode i (suc n) =
      let (k, drawn, low) = random.int_below i (length alpha) some_rune in
      let (code, more, shape) = draw_code-IsCode (suc i) n in
      (
        rune_at alpha k ++ code,
        rw (drawn, more, draw_code) refl,
        IsCode-suc (rune_at alpha k) code n (rune_at-IsRune alpha k rs low) shape,
      )

  module _ (lib : Libraries) (a : IsArgon2 lib.argon2) (usable : IsUsable p) (size : ℕ)
      (low : 0 < size) (high : size ≤ 72) where
    hash_code-Accepts :
        (i : ℕ) (code : Text)
        → IsCode size code
        → (h : Text) × (hash_password lib.argon2 (draws.salt i) code p ≡ ok h) × Accepts lib code h
    hash_code-Accepts i code (long, plain) =
        let (salt, read, salt_long, bytes) = random.salt_read i in
        let (h, hashed, accepted, _) =
          verify_password-hash_password lib.unicode a (draws.salt i) p salt code usable read
            salt_long bytes (rw long low) (rw long high) in
        (h, hashed, (p, accepted))

    draw_codes-Hashed :
        (i count : ℕ)
        → (plain hashed : List Text) × (draw_codes lib draws p alpha size i count
            ≡ ok (plain, hashed))
          × (length plain ≡ count)
          × Hashed lib size plain hashed
    unfolding draw_codes
    draw_codes-Hashed i zero = ([], [], refl, refl, tt)
    draw_codes-Hashed i (suc count) =
        let (code, drawn, shape) = draw_code-IsCode (i * size) size in
        let (h, made, accepted) = hash_code-Accepts i code shape in
        let (plain, hashed, rest, long, pairs) = draw_codes-Hashed (suc i) count in
        (
          code ∷ plain,
          h ∷ hashed,
          rw (drawn, made, rest, draw_codes) refl,
          ap (λ n. suc n) long,
          ((shape, accepted), pairs),
        )

module _ (lib : Libraries) where
  -- Among the hashes there is one that accepts the code.
  abbrev pub IsFindable : List Text → Text → Type 0
  IsFindable hashes code = ¬ All (λ h. ¬ Accepts lib code h) hashes

  All-IsFindable :
      (h : Text) (hashes codes : List Text)
      → All (IsFindable hashes) codes
      → All (IsFindable (h ∷ hashes)) codes
  All-IsFindable h hashes [] f = tt
  All-IsFindable h hashes (c ∷ codes) (f, fs) =
      ((λ (_, refused). f refused), All-IsFindable h hashes codes fs)

  Hashed-IsFindable :
      (size : ℕ) (codes hashes : List Text)
      → Hashed lib size codes hashes
      → All (IsFindable hashes) codes
  Hashed-IsFindable size [] hashes pairs = tt
  Hashed-IsFindable size (c ∷ codes) [] pairs = elim pairs [ ]
  Hashed-IsFindable size (c ∷ codes) (h ∷ hashes) ((_, accepted), pairs) = (
    (λ (refused, _). refused accepted),
    All-IsFindable h hashes codes (Hashed-IsFindable size codes hashes pairs),
  )

  -- A code that was issued is in plain bytes of the given length, is its own normalisation, and a
  -- text that normalises to it is found among the hashes.
  abbrev pub IsIssued : ℕ → List Text → Text → Type 0
  IsIssued size hashes code =
      (length code ≡ size)
      × (to_lower lib.unicode (trim_space lib.unicode code) ≡ code)
      × ((typed : Text)
          → to_lower lib.unicode (trim_space lib.unicode typed) ≡ code
          → (h : Text) × (find_backup_code_match lib hashes typed ≡ some h) × Accepts lib code h)

  find-IsFindable :
      (hashes : List Text) (code : Text) (r : Option Text)
      → IsFindable hashes code
      → IsFirstMatch lib code hashes r
      → (h : Text) × (r ≡ some h) × Accepts lib code h
  find-IsFindable hashes code none f refused = absurd (f refused)
  find-IsFindable hashes code (some h) f (_, _, _, _, accepted) = (h, refl, accepted)

  IsCode-IsIssued :
      (size : ℕ) (hashes : List Text) (code : Text)
      → IsCode size code
      → IsFindable hashes code
      → IsIssued size hashes code
  IsCode-IsIssued size hashes code (long, plain) f = (
    long,
    to_lower-trim_space lib.unicode code plain,
    λ typed same.
        find-IsFindable hashes code (find_backup_code_match lib hashes typed) f
          (rw same at (find_backup_code_match-IsFirstMatch lib hashes typed)),
  )

  Hashed-IsIssued :
      (size : ℕ) (all_hashes codes hashes : List Text)
      → Hashed lib size codes hashes
      → All (IsFindable all_hashes) codes
      → All (IsIssued size all_hashes) codes
  Hashed-IsIssued size all_hashes [] hashes pairs fs = tt
  Hashed-IsIssued size all_hashes (c ∷ codes) [] pairs fs = elim pairs [ ]
  Hashed-IsIssued size all_hashes (c ∷ codes) (h ∷ hashes) ((shape, _), pairs) (f, fs) = (
    IsCode-IsIssued size all_hashes c shape f,
    Hashed-IsIssued size all_hashes codes hashes pairs fs,
  )

distinct-le-length : (rs : List Text) → distinct rs ≤ length rs
distinct-le-length [] = omega arith
distinct-le-length (r ∷ rs) = ground (arith, distinct-le-length rs)

-- With IDKey as in `IsArgon2`, usable parameters, an alphabet of visible ASCII characters of which at
-- least two differ in lower case, codes of 1 to 72 bytes and a source of randomness that does not
-- fail, as many codes as asked for are returned with their hashes; each has the given length and is
-- its own normalisation, and for whatever is typed that normalises to it a hash is found that
-- verifies it.
pub generate_backup_codes-IsIssued :
    (lib : Libraries) (draws : Draws) (count size : ℕ) (alphabet : Text) (p : Params)
    → IsArgon2 lib.argon2
    → IsUsable p
    → IsRandom draws p
    → All IsVisible alphabet
    → 2 ≤ distinct (runes lib.unicode (to_lower lib.unicode alphabet))
    → 0 < size
    → size ≤ 72
    → (plain hashed : List Text) × (generate_backup_codes lib draws count size alphabet p
        ≡ ok (plain, hashed))
      × (length plain ≡ count)
      × All (IsIssued lib size hashed) plain
unfolding generate_backup_codes
generate_backup_codes-IsIssued lib draws count size alphabet p a usable random visible two low
      high =
    let alpha = runes lib.unicode (to_lower lib.unicode alphabet) in
    let some_rune : 0 < length alpha = omega (arith, distinct-le-length alpha) in
    let (plain, hashed, drawn, long, pairs) =
      draw_codes-Hashed random alpha (runes-IsRune lib.unicode alphabet visible) some_rune lib a
        usable size low high 0 count in
    (
      plain,
      hashed,
      ground (arith, drawn),
      long,
      Hashed-IsIssued lib size hashed plain hashed pairs
          (Hashed-IsFindable lib size plain hashed pairs),
    )
