-- ===== src/Types.antt =====
-- types.go: the user, the requests, the settings and the errors; and the result of a fallible call.
-- A time.Time is the ℕ of its nanoseconds since 1970, a uuid.UUID the ℕ of its 16 bytes. An `int`
-- setting that the code compares with 0 from above only is ℕ: a negative value acts as 0 there.
use go_basicauth.Prelude.{ℕ, ◌≡◌, refl, ◌⊎◌, inl, inr, Bool, Option, List}
use go_basicauth.Text.{Text}

abbrev pub Uuid : Type 0
Uuid = ℕ

abbrev pub Time : Type 0
Time = ℕ

pub record User : Type 0 where
  pub id : Uuid
  pub username : Option Text
  pub email : Option Text
  pub password_hash : Text
  pub created_at : Time
  pub updated_at : Time
  pub is_technical_user : Bool
  pub api_key_hash : Option Text
  pub totp_secret : Option Text
  pub totp_enabled : Bool
  pub totp_enrolled_at : Option Time
  pub backup_code_hashes : List Text
  pub totp_failed_attempts : ℕ

-- The error values of the package, and those made on the spot by `errors.New` or `fmt.Errorf`.
pub data Err : Type 0 where
  invalid_credentials user_already_exists user_not_found invalid_email invalid_username : Err
  password_too_weak session_not_found unauthorized internal_server missing_credentials : Err
  registration_disabled tfa_required tfa_already_enabled tfa_not_enabled invalid_tfa_code : Err
  tfa_pending_only tfa_setup_required tfa_attempts_exhausted : Err
  invalid_hash incompatible_version param_limit_exceeded : Err
  other : Text → Err

-- `(value, error)`: the value where the error is nil.
pub data Result {ℓ} (A : Type ℓ) : Type ℓ where
  ok : A → Result A
  err : Err → Result A

pub Result-cases {ℓ} :
    {A : Type ℓ} (r : Result A) → ((e : Err) × (r ≡ err e)) ⊎ ((a : A) × (r ≡ ok a))
Result-cases (ok a) = inr (a, refl)
Result-cases (err e) = inl (e, refl)

pub record UserResponse : Type 0 where
  pub id : Uuid
  pub username : Option Text
  pub email : Option Text
  pub created_at : Time
  pub updated_at : Time
  pub is_technical_user : Bool
  pub totp_enabled : Bool

pub record PasswordRequirements : Type 0 where
  pub min_length : ℕ
  pub require_uppercase : Bool
  pub require_lowercase : Bool
  pub require_numbers : Bool
  pub require_special : Bool

pub data PublicPathType : Type 0 where
  exact prefix : PublicPathType
  -- any other string
  unknown : PublicPathType

pub record PublicPath : Type 0 where
  pub type : PublicPathType
  pub path : Text

pub data PathAccessType : Type 0 where
  public private : PathAccessType
  -- any other string
  unknown_access : PathAccessType

pub record PathRule : Type 0 where
  pub type : PublicPathType
  pub path : Text
  pub access : PathAccessType
