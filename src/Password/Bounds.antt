-- ===== src/Password/Bounds.antt =====
-- The limits that VerifyPassword puts on a stored hash.
use go_basicauth.Prelude.{
  ℕ, ◌≤◌, ◌^◌, ◌%◌, ◌≡◌, ◌≢◌, refl, true, false, Bool, List, [], ◌∷◌, Option, none, some, ap, arith,
  length, not, ◌↔◌,
}
use go_basicauth.Text.{Text, Unicode, codes, text_eq}
use go_basicauth.Text.Laws.{text_eq_iff}
use go_basicauth.Text.Split.{split}
use go_basicauth.Base64.{decode}
use go_basicauth.Decimal.{Scanned}
use go_basicauth.Types.{
  Result, Err, ok, err, invalid_hash, incompatible_version, param_limit_exceeded,
}
use go_basicauth.Password.{
  Params, Argon2, verify_password, verify_parts, compare_hash, ◌>>=◌, require, or_invalid,
  max_memory, max_iterations, max_parallelism, min_memory, min_iterations, min_salt_length,
  min_key_length, above_limits, below_limits, as_invalid, is_version, scan_version, decode_params,
}

-- What a hash must cost at least and may cost at most for its password to be checked.
pub record WithinLimits (p : Params) : Type 0 where
  pub memory_low : min_memory ≤ p.memory
  pub memory_high : p.memory ≤ max_memory
  pub iterations_low : min_iterations ≤ p.iterations
  pub iterations_high : p.iterations ≤ max_iterations
  pub parallelism_low : 1 ≤ p.parallelism
  pub parallelism_high : p.parallelism ≤ max_parallelism

limits_hold :
    (p : Params)
    → require (not (above_limits p)) param_limit_exceeded ≡ ok tt
    → require (not (below_limits p)) param_limit_exceeded ≡ ok tt
    → WithinLimits p
limits_hold p h k = ground arith

-- A chain that returned went through its first step.
>>=-ok :
    {A B : Type 0} {y : B} (m : Result A) (k : A → Result B)
    → m >>= k ≡ ok y
    → (x : A) × (m ≡ ok x) × (k x ≡ ok y)
>>=-ok (err e) k returned = cc
>>=-ok (ok x) k returned = (x, refl, returned)

as_invalid-ok : (r : Result Params) (p : Params) → as_invalid r ≡ ok p → r ≡ ok p
as_invalid-ok (ok q) p h = h
as_invalid-ok (err e) p h = cc

or_invalid-ok : {A : Type 0} (a : Option A) (x : A) → or_invalid a ≡ ok x → a ≡ some x
or_invalid-ok none x h = cc
or_invalid-ok (some y) x h = ground arith

require-ok : (b : Bool) (e : Err) → require b e ≡ ok tt → b ≡ true
require-ok true e h = refl
require-ok false e h = cc

-- The six parts of a stored hash, and what they are read as.
pub record Stored (u : Unicode) (argon2 : Argon2) (parts : List Text) : Type 0 where
  pub before : Text
  pub version : Text
  pub params : Text
  pub salt_text : Text
  pub digest_text : Text
  pub shape : parts ≡ before ∷ codes "argon2id" ∷ version ∷ params ∷ salt_text ∷ digest_text ∷ []
  pub scanned : Scanned
  pub version_read : scan_version u version ≡ some scanned
  pub version_same : is_version scanned argon2.version ≡ true
  pub costs : Params
  pub costs_read : decode_params params ≡ ok costs
  pub salt : List ℕ
  pub salt_read : decode salt_text ≡ some salt
  pub digest : List ℕ
  pub digest_read : decode digest_text ≡ some digest

module _ (u : Unicode) (argon2 : Argon2) where
  -- What a verdict on a password rests on: the parts of the stored hash, parameters in it that are
  -- within the limits, a salt and a digest of the least length, and a comparison of that digest with
  -- the one of the password. The parameters come back with the lengths that were found.
  pub record Checked (password : Text) (parts : List Text) (valid : Bool) (q : Params)
      : Type 0 where
    pub stored : Stored u argon2 parts
    pub within : WithinLimits stored.costs
    pub salt_long : min_salt_length ≤ length stored.salt
    pub digest_long : min_key_length ≤ length stored.digest
    pub returned : q ≡ record stored.costs {
      salt_length = length stored.salt % 2 ^ 32;
      key_length = length stored.digest % 2 ^ 32;
    }
    pub decided : (valid ≡ true) ↔ (
        stored.digest
        ≡ argon2.id_key password stored.salt q.iterations q.memory q.parallelism
            (length stored.digest % 2 ^ 32))

  compare_hash-Checked :
      (password : Text) {parts : List Text} (t : Stored u argon2 parts) (q : Params) (valid : Bool)
      → WithinLimits t.costs
      → compare_hash u argon2 password t.costs t.salt t.digest ≡ ok (valid, q)
      → Checked password parts valid q
  unfolding compare_hash
  compare_hash-Checked password {parts} t q valid w e =
      let key =
        argon2.id_key password t.salt t.costs.iterations t.costs.memory t.costs.parallelism
          (length t.digest % 2 ^ 32) in
      let decides = text_eq_iff t.digest key in
      record {
        stored = t;
        within = w;
        salt_long = ground arith;
        digest_long = ground arith;
        returned = ground arith;
        decided = (λ v. ground (arith, decides), λ d. ground (arith, decides));
      }

  pub verify_parts-Checked :
      (password : Text) (parts : List Text) (valid : Bool) (q : Params)
      → verify_parts u argon2 password parts ≡ ok (valid, q)
      → Checked password parts valid q
  unfolding verify_parts
  verify_parts-Checked password (a ∷ b ∷ c ∷ d ∷ s ∷ h ∷ []) valid q e =
      let (_, named, e₁) = >>=-ok (require (text_eq b (codes "argon2id")) invalid_hash) _ e in
      let (v, scanned, e₂) = >>=-ok (or_invalid (scan_version u c)) _ e₁ in
      let (_, same, e₃) =
        >>=-ok (require (is_version v argon2.version) incompatible_version) _ e₂ in
      let (p, costs, e₄) = >>=-ok (as_invalid (decode_params d)) _ e₃ in
      let (_, low, e₅) = >>=-ok (require (not (above_limits p)) param_limit_exceeded) _ e₄ in
      let (_, high, e₆) = >>=-ok (require (not (below_limits p)) param_limit_exceeded) _ e₅ in
      let (salt, salted, e₇) = >>=-ok (or_invalid (decode s)) _ e₆ in
      let (digest, digested, e₈) = >>=-ok (or_invalid (decode h)) _ e₇ in
      let algorithm = (text_eq_iff b (codes "argon2id")).0 (require-ok _ invalid_hash named) in
      compare_hash-Checked password
        (record {
          before = a;
          version = c;
          params = d;
          salt_text = s;
          digest_text = h;
          shape = ap (λ x. a ∷ x ∷ c ∷ d ∷ s ∷ h ∷ []) algorithm;
          scanned = v;
          version_read = or_invalid-ok (scan_version u c) v scanned;
          version_same = require-ok _ incompatible_version same;
          costs = p;
          costs_read = as_invalid-ok (decode_params d) p costs;
          salt = salt;
          salt_read = or_invalid-ok (decode s) salt salted;
          digest = digest;
          digest_read = or_invalid-ok (decode h) digest digested;
        })
        q valid (limits_hold p low high) e₈
  verify_parts-Checked password _ valid q e = cc

  compare_hash-err :
      (password other : Text) (p : Params) (salt digest : List ℕ) {e : Err}
      → compare_hash u argon2 password p salt digest ≡ err e
      → compare_hash u argon2 other p salt digest ≡ err e
  unfolding compare_hash
  compare_hash-err password other p salt digest h = ground arith

  verify_parts-err :
      (password other : Text) (parts : List Text) {e : Err}
      → verify_parts u argon2 password parts ≡ err e
      → verify_parts u argon2 other parts ≡ err e
  unfolding verify_parts
  verify_parts-err password other (a ∷ b ∷ c ∷ d ∷ s ∷ h ∷ []) e = ground arith
  verify_parts-err password other _ e = e

  -- A verdict on a password, of acceptance or of rejection, is given only on a hash whose six parts
  -- can be read, with parameters in their ranges and a salt and a digest of the least lengths; the
  -- password is accepted exactly if its digest under the salt and the parameters in the hash is the
  -- digest in the hash, and the parameters come back with the lengths that were found.
  pub verify_password-Checked :
      (password hash : Text) (valid : Bool) (q : Params)
      → verify_password u argon2 password hash ≡ ok (valid, q)
      → Checked password (split b'$' hash) valid q
  unfolding verify_password
  verify_password-Checked password hash valid q e =
      verify_parts-Checked password (split b'$' hash) valid q e

  -- A hash that is refused with an error for one password is refused with that error for every other.
  pub verify_password-err :
      (password other hash : Text) {e : Err}
      → verify_password u argon2 password hash ≡ err e
      → verify_password u argon2 other hash ≡ err e
  unfolding verify_password
  verify_password-err password other hash h = verify_parts-err password other (split b'$' hash) h

  verify_parts_of_other_shape :
      (password : Text) (parts : List Text)
      → length parts ≢ 6
      → verify_parts u argon2 password parts ≡ err invalid_hash
  unfolding verify_parts
  verify_parts_of_other_shape password (a ∷ b ∷ c ∷ d ∷ e ∷ f ∷ []) ne = absurd (ne refl)
  verify_parts_of_other_shape password _ ne = refl

  -- A text that does not consist of six parts is none of HashPassword's.
  pub verify_password_of_other_shape :
      (password hash : Text)
      → length (split b'$' hash) ≢ 6
      → verify_password u argon2 password hash ≡ err invalid_hash
  unfolding verify_password
  verify_password_of_other_shape password hash ne =
      verify_parts_of_other_shape password (split b'$' hash) ne
