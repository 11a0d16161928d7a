-- ===== src/Samples.antt =====
-- Values that the tests and the witnesses share.
use go_basicauth.Prelude.{
  ◌≡◌, refl, ap, ℕ, zero, suc, true, false, Option, none, some, List, [], ◌∷◌, ◌++◌, ◌%◌, ◌<◌, All,
  arith, length,
}
use go_basicauth.Text.{Text, Unicode, codes, text_eq}
use go_basicauth.Types.{User, ok, err, user_not_found}
use go_basicauth.Handler.{Libraries}
use go_basicauth.Password.{Argon2, Params}
use go_basicauth.Password.RoundTrip.{IsArgon2, IsUsable}
use go_basicauth.Base64.RoundTrip.{IsByte}

-- Texts that are not ASCII are left as they are.
abbrev pub ascii : Unicode
ascii = record { lower = λ s. s; trim = λ s. s; runes = λ s. []; skip_space = λ s. s }

abbrev pub alice : User
alice = record {
  id = 1;
  username = some (codes "Alice");
  email = some (codes "a@x.io");
  password_hash = codes "h";
  created_at = 5;
  updated_at = 5;
  is_technical_user = false;
  api_key_hash = none;
  totp_secret = none;
  totp_enabled = false;
  totp_enrolled_at = none;
  backup_code_hashes = codes "b1" ∷ codes "b2" ∷ [];
  totp_failed_attempts = 1;
}

abbrev pub bob : User
bob = record alice { id = 2; username = some (codes "bob"); email = none }

-- A key function that repeats the length of the password.
abbrev pub repeat : ℕ → ℕ → List ℕ
repeat b zero = []
repeat b (suc n) = b ∷ repeat b n

pub length-repeat : (b n : ℕ) → length (repeat b n) ≡ n
length-repeat b zero = refl
length-repeat b (suc n) = ap (λ k. suc k) (length-repeat b n)

-- A user with a second factor.
abbrev pub carol : User
carol = record alice { totp_enabled = true; totp_secret = some (codes "S") }

abbrev pub argon2_19 : Argon2
argon2_19 = record {
  version = 19;
  id_key = λ password salt t m p n. repeat (length password % 256) n;
}

abbrev pub small_params : Params
small_params = record {
  memory = 65536;
  iterations = 3;
  parallelism = 2;
  salt_length = 16;
  key_length = 16;
}

pub repeat-IsByte : (b n : ℕ) → b < 256 → All IsByte (repeat b n)
repeat-IsByte b zero small = tt
repeat-IsByte b (suc n) small = (small, repeat-IsByte b n small)

pub argon2_19-IsArgon2 : IsArgon2 argon2_19
argon2_19-IsArgon2 = record {
  version_19 = refl;
  key_length = λ password salt t m p n. length-repeat (length password % 256) n;
  key_bytes = λ password salt t m p n. repeat-IsByte (length password % 256) n (omega arith);
}

pub small_params-IsUsable : IsUsable small_params
small_params-IsUsable = record {
  within = record {
    memory_low = omega arith;
    memory_high = omega arith;
    iterations_low = omega arith;
    iterations_high = omega arith;
    parallelism_low = omega arith;
    parallelism_high = omega arith;
  };
  salt_low = omega arith;
  salt_high = omega arith;
  key_low = omega arith;
  key_high = omega arith;
}

-- One character stands for the number of a user.
abbrev pub number : Text → Option ℕ
number [] = none
number (n ∷ _) = some n

abbrev pub libraries : Libraries
libraries = record {
  unicode = ascii;
  argon2 = argon2_19;
  uuid_string = λ n. n ∷ [];
  uuid_parse = number;
  join_paths = λ base path. base ++ path;
  encodes = λ s. true;
  validate_custom = λ code secret now period skew digits. ok (text_eq code secret);
  generate = λ issuer account period digits random. err user_not_found;
}

abbrev pub secret_hash : Text
secret_hash = codes "$argon2id$v=19$m=65536,t=3,p=2$AAAAAAAAAAAAAAAAAAAAAA$BgYGBgYGBgYGBgYGBgYGBg"
