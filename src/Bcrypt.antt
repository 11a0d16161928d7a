-- ===== src/Bcrypt.antt =====
-- legacy_bcrypt.go. `Compared` is what bcrypt.CompareHashAndPassword of golang.org/x/crypto returns:
-- nil, ErrMismatchedHashAndPassword, or another error.
use go_basicauth.Prelude.{Bool, true, false}
use go_basicauth.Text.{Text}
use go_basicauth.Types.{Result, ok, err, Err}

pub data Compared : Type 0 where
  matched mismatched : Compared
  failed : Err → Compared

-- BcryptVerifier, where `compare_hash_and_password` is the function of bcrypt
unfoldable pub bcrypt_verifier : (Text → Text → Compared) → Text → Text → Result Bool
bcrypt_verifier compare_hash_and_password password stored_hash =
    elim (compare_hash_and_password stored_hash password) [
      | matched ↦ ok true
      | mismatched ↦ ok false
      | failed e ↦ err e
    ]
