-- ===== src/Password/RoundTrip.antt =====
-- VerifyPassword on what HashPassword returns.
use go_basicauth.Prelude.{ℕ, ◌^◌, ◌≤◌, ◌<◌, ◌≡◌, refl, ◌∙◌, true, some, List, All, arith, length}
use go_basicauth.Text.{Text, Unicode, text_eq}
use go_basicauth.Text.Laws.{text_eq_refl}
use go_basicauth.Base64.RoundTrip.{IsByte, decode-encode}
use go_basicauth.Types.{ok}
use go_basicauth.Password.{
  Params, Argon2, Random, hash_password, verify_password, compare_hash, encoded, min_salt_length,
  min_key_length,
}
use go_basicauth.Password.Bounds.{WithinLimits}
use go_basicauth.Password.Encoding.{split-encoded, scan_version_19, decode_params-params_text}

-- IDKey returns as many bytes as it is asked for, and this version of it is 0x13.
pub record IsArgon2 (a : Argon2) : Type 0 where
  pub version_19 : a.version ≡ 19
  pub key_length :
      (password : Text) (salt : List ℕ) (t m p n : ℕ) → length (a.id_key password salt t m p n) ≡ n
  pub key_bytes :
      (password : Text) (salt : List ℕ) (t m p n : ℕ) → All IsByte (a.id_key password salt t m p n)

-- Parameters under which a hash is not refused later.
pub record IsUsable (p : Params) : Type 0 where
  pub within : WithinLimits p
  pub salt_low : min_salt_length ≤ p.salt_length
  pub salt_high : p.salt_length < 2 ^ 32
  pub key_low : min_key_length ≤ p.key_length
  pub key_high : p.key_length < 2 ^ 32

module _ (u : Unicode) {argon2 : Argon2} (a : IsArgon2 argon2) where
  compare_hash_lem :
      (password : Text) (p : Params) (salt hash : List ℕ)
      → min_salt_length ≤ length salt
      → length salt < 2 ^ 32
      → min_key_length ≤ length hash
      → length hash < 2 ^ 32
      → compare_hash u argon2 password p salt hash
        ≡ ok (
          text_eq hash
              (argon2.id_key password salt p.iterations p.memory p.parallelism (length hash)),
          record p { salt_length = length salt; key_length = length hash },
        )
  unfolding compare_hash
  compare_hash_lem password p salt hash s s' h h' = ground arith

  verify_password-encoded :
      (password : Text) (p : Params) (salt hash : List ℕ)
      → WithinLimits p
      → All IsByte salt
      → All IsByte hash
      → verify_password u argon2 password (encoded argon2.version p salt hash)
        ≡ compare_hash u argon2 password (record p { salt_length = 0; key_length = 0 }) salt hash
  unfolding verify_password text_eq
  verify_password-encoded password p salt hash w hs hh =
      rw (a.version_19, split-encoded p salt hash hs hh)
        (ground (
          arith,
          scan_version_19 u,
          decode_params-params_text p,
          decode-encode salt hs,
          decode-encode hash hh,
        ))

  -- The digest that the hash of a password is made from.
  abbrev pub key_for : Params → List ℕ → Text → List ℕ
  key_for p salt password =
      argon2.id_key password salt p.iterations p.memory p.parallelism p.key_length

  verify_password-key_for :
      (p : Params) (salt : List ℕ) (password other : Text)
      → IsUsable p
      → length salt ≡ p.salt_length
      → All IsByte salt
      → verify_password u argon2 other (encoded argon2.version p salt (key_for p salt password))
        ≡ ok (text_eq (key_for p salt password) (key_for p salt other), p)
  verify_password-key_for p salt password other usable long bytes =
      let key = key_for p salt password in
      let long_key = a.key_length password salt p.iterations p.memory p.parallelism p.key_length in
      let key_bytes = a.key_bytes password salt p.iterations p.memory p.parallelism p.key_length in
      verify_password-encoded other p salt key usable.within bytes key_bytes
      ∙ compare_hash_lem other (record p { salt_length = 0; key_length = 0 }) salt key
          (rw long usable.salt_low) (rw long usable.salt_high) (rw long_key usable.key_low)
          (rw long_key usable.key_high)
      ∙ (rw (long_key, long) refl)

  -- With IDKey as in `IsArgon2`, parameters that VerifyPassword does not refuse and a salt of their
  -- length that was read, a password of 1 to 72 bytes is hashed, the hash accepts it, and any other
  -- password is accepted exactly when its digest is the same one; the parameters come back as they
  -- went in.
  pub verify_password-hash_password :
      (random : Random) (p : Params) (salt : List ℕ) (password : Text)
      → IsUsable p
      → random p.salt_length ≡ some salt
      → length salt ≡ p.salt_length
      → All IsByte salt
      → 0 < length password
      → length password ≤ 72
      → (h : Text) × (hash_password argon2 random password p ≡ ok h)
        × (verify_password u argon2 password h ≡ ok (true, p))
        × ((other : Text)
            → verify_password u argon2 other h
              ≡ ok (text_eq (key_for p salt password) (key_for p salt other), p))
  unfolding hash_password
  verify_password-hash_password random p salt password usable read long bytes low high =
      let key = key_for p salt password in
      let same = verify_password-key_for p salt password password usable long bytes in
      (
        encoded argon2.version p salt key,
        ground arith,
        rw (text_eq_refl key) at same,
        (λ other. verify_password-key_for p salt password other usable long bytes),
      )
