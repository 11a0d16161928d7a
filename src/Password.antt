-- ===== src/Password.antt =====
-- util.go: hashing a password with argon2id and verifying it against an encoded hash.
pub mod Bounds
pub mod Encoding
pub mod RoundTrip
mod Tests
use go_basicauth.Prelude.{
  ℕ, ◌*◌, ◌^◌, ◌%◌, Bool, true, false, not, ◌&&◌, ◌||◌, Option, none, some, List, [], ◌∷◌, ◌++◌,
  ltb, ◌==◌, if◌then◌else◌, length,
}
use go_basicauth.Text.{Text, Unicode, codes, text_eq}
use go_basicauth.Text.Split.{split, split_once}
use go_basicauth.Decimal.{format, parse_uint, scan_int, Scanned, positive, negative}
use go_basicauth.Base64.{encode, decode}
use go_basicauth.Types.{
  Result, ok, err, Err, invalid_hash, incompatible_version, param_limit_exceeded, other,
}

abbrev pub max_memory : ℕ
max_memory = 128 * 1024

abbrev pub max_iterations : ℕ
max_iterations = 50

abbrev pub max_parallelism : ℕ
max_parallelism = 8

abbrev pub min_memory : ℕ
min_memory = 32 * 1024

abbrev pub min_iterations : ℕ
min_iterations = 1

abbrev pub min_salt_length : ℕ
min_salt_length = 16

abbrev pub min_key_length : ℕ
min_key_length = 16

pub record Params : Type 0 where
  pub memory : ℕ
  pub iterations : ℕ
  pub parallelism : ℕ
  pub salt_length : ℕ
  pub key_length : ℕ

abbrev pub default_password_hashing_params : Params
default_password_hashing_params = record {
  memory = 64 * 1024;
  iterations = 3;
  parallelism = 2;
  salt_length = 16;
  key_length = 32;
}

-- golang.org/x/crypto/argon2. `id_key password salt time memory threads keyLen` is IDKey; it panics
-- where `time` or `threads` is 0, and what the model has there stands for nothing.
pub record Argon2 : Type 0 where
  pub version : ℕ
  pub id_key : Text → List ℕ → ℕ → ℕ → ℕ → ℕ → List ℕ

-- The bytes that rand.Read fills a slice of the given length with; `none` where it fails.
abbrev pub Random : Type 0
Random = ℕ → Option (List ℕ)

abbrev join_dollar : Text → Text → Text
join_dollar s t = s ++ b'$' ∷ t

-- "$argon2id$v=%d$m=%d,t=%d,p=%d$%s$%s"
pub params_text : Params → Text
params_text p =
    (codes "m=" ++ format p.memory)
    ++ b',' ∷ ((codes "t=" ++ format p.iterations) ++ b',' ∷ (codes "p=" ++ format p.parallelism))

pub encoded : ℕ → Params → List ℕ → List ℕ → Text
unfolding params_text
encoded version p salt hash = join_dollar [] (
    join_dollar (codes "argon2id") (
      join_dollar (codes "v=" ++ format version)
        (join_dollar (params_text p) (join_dollar (encode salt) (encode hash)))))

module _ (argon2 : Argon2) where
  unfoldable pub hash_password : Random → Text → Params → Result Text
  unfolding encoded
  hash_password random password p =
      if length password == 0 || ltb 72 (length password)
      then err (other (codes "password length must be between 1 and 72 characters"))
      else elim (random p.salt_length) [
        | none ↦ err (other (codes "rand"))
        | some salt ↦ ok (
            encoded argon2.version p salt
              (argon2.id_key password salt p.iterations p.memory p.parallelism p.key_length))
      ]

abbrev pub no_params : Params
no_params = record { memory = 0; iterations = 0; parallelism = 0; salt_length = 0; key_length = 0 }

-- The switch on the key of one parameter.
set_param : Text → ℕ → Params → Result Params
set_param key n p =
    if text_eq key (codes "m")
    then ok (record p { memory = n })
    else if text_eq key (codes "t")
    then ok (record p { iterations = n })
    else if text_eq key (codes "p")
    then (if ltb 255 n
        then err (other (codes "parallelism exceeds uint8 range"))
        else ok (record p { parallelism = n }))
    else err (other (codes "unknown param"))

-- One round of the loop: a `key=value` item.
decode_item : Text → Params → Result Params
unfolding set_param
decode_item item p = elim (split_once b'=' item) [
  | none ↦ err (other (codes "bad param format"))
  | some (key, val) ↦ elim (parse_uint 32 val) [
    | none ↦ err (other (codes "strconv.ParseUint"))
    | some n ↦ set_param key n p
  ]
]

infixl 5 ◌>>=◌
abbrev pub ◌>>=◌ : {A B : Type 0} → Result A → (A → Result B) → Result B
err e >>= k = err e
ok x >>= k = k x

decode_items : List Text → Params → Result Params
unfolding decode_item
decode_items [] p = ok p
decode_items (item ∷ items) p = do q ← decode_item item p; decode_items items q

non_zero : Params → Result Params
non_zero p =
    if p.memory == 0 || p.iterations == 0 || p.parallelism == 0
    then err (other (codes "params cannot be zero"))
    else ok p

unfoldable pub decode_params : Text → Result Params
unfolding decode_items non_zero
decode_params s =
    let kv = split b',' s in
    if length kv == 3
    then (do p ← decode_items kv no_params; non_zero p)
    else err (other (codes "bad params format"))

abbrev pub above_limits : Params → Bool
above_limits p =
    ltb max_memory p.memory || ltb max_iterations p.iterations || ltb max_parallelism p.parallelism

abbrev pub below_limits : Params → Bool
below_limits p = ltb p.memory min_memory || ltb p.iterations min_iterations || ltb p.parallelism 1

abbrev pub or_invalid {ℓ} : {A : Type ℓ} → Option A → Result A
or_invalid none = err invalid_hash
or_invalid (some a) = ok a

-- Goes on where the test holds.
abbrev pub require : Bool → Err → Result (Unit {0})
require test e = if test then ok tt else err e

infixl 5 ◌>>◌
abbrev pub ◌>>◌ : {B : Type 0} → Result (Unit {0}) → Result B → Result B
step >> rest = step >>= λ done. rest

-- fmt.Sscanf(s, "v=%d", &version)
unfoldable pub scan_version : Unicode → Text → Option Scanned
scan_version u (c ∷ d ∷ s) = if c == b'v' && d == b'=' then scan_int u s else none
scan_version u _ = none

abbrev pub is_version : Scanned → ℕ → Bool
is_version (positive n) version = n == version
is_version (negative n) version = n == 0 && version == 0

-- An error of decodeParams is reported as ErrInvalidHash.
abbrev pub as_invalid : Result Params → Result Params
as_invalid (ok p) = ok p
as_invalid (err _) = err invalid_hash

module _ (u : Unicode) (argon2 : Argon2) where
  -- From the decoded salt and hash on. subtle.ConstantTimeCompare is equality of the bytes.
  pub compare_hash : Text → Params → List ℕ → List ℕ → Result (Bool × Params)
  compare_hash password p salt hash =
      if ltb (length salt) min_salt_length || ltb (length hash) min_key_length
      then err invalid_hash
      else let q : Params = record p {
        salt_length = length salt % 2 ^ 32;
        key_length = length hash % 2 ^ 32;
      } in
        let other_hash =
          argon2.id_key password salt q.iterations q.memory q.parallelism q.key_length in
        ok (text_eq hash other_hash, q)

  -- From the six parts on.
  pub verify_parts : Text → List Text → Result (Bool × Params)
  unfolding compare_hash
  verify_parts password (_ ∷ algorithm ∷ version ∷ params ∷ salt ∷ hash ∷ []) = do
    require (text_eq algorithm (codes "argon2id")) invalid_hash
    scanned ← or_invalid (scan_version u version)
    require (is_version scanned argon2.version) incompatible_version
    p ← as_invalid (decode_params params)
    require (not (above_limits p)) param_limit_exceeded
    require (not (below_limits p)) param_limit_exceeded
    salt_bytes ← or_invalid (decode salt)
    hash_bytes ← or_invalid (decode hash)
    compare_hash password p salt_bytes hash_bytes
  verify_parts password _ = err invalid_hash

  unfoldable pub verify_password : Text → Text → Result (Bool × Params)
  unfolding verify_parts
  verify_password password encoded_hash = verify_parts password (split b'$' encoded_hash)
