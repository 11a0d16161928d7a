-- ===== src/Settings.antt =====
-- The settings of types.go and the options of handler.go. Durations are in nanoseconds.
use go_basicauth.Prelude.{ℕ, ◌*◌, ◌^◌, Bool, true, false, Option, none, List, []}
use go_basicauth.Text.{Text, codes}
use go_basicauth.Types.{User, Result, PasswordRequirements, PublicPath, PathRule}
use go_basicauth.Password.{Params, default_password_hashing_params}

abbrev pub Duration : Type 0
Duration = ℕ

abbrev pub second : Duration
second = 10 ^ 9

abbrev pub minute : Duration
minute = 60 * second

pub record Messages : Type 0 where
  pub registration_success : Text
  pub login_success : Text
  pub logout_success : Text
  pub invalid_credentials : Text
  pub user_already_exists : Text
  pub password_too_weak : Text
  pub internal_error : Text
  pub unauthorized : Text
  pub tfa_required : Text
  pub tfa_success : Text
  pub invalid_tfa_code : Text
  pub tfa_already_enabled : Text
  pub tfa_not_enabled : Text
  pub tfa_pending_only : Text
  pub tfa_disabled : Text
  pub tfa_setup_required : Text

pub record TfaSettings : Type 0 where
  pub issuer : Text
  pub account_label : Option (User → Text)
  pub period : ℕ
  pub digits : ℕ
  pub skew_windows : ℕ
  pub backup_code_count : ℕ
  pub backup_code_length : ℕ
  pub backup_code_alphabet : Text
  pub pending_session_ttl : Duration
  pub max_verify_attempts : ℕ
  pub required : Bool

pub data SameSite : Type 0 where
  default_mode lax_mode strict_mode none_mode : SameSite

pub record BasicAuthSettings : Type 0 where
  pub enable_username_login : Bool
  pub enable_email_login : Bool
  pub enable_tfa : Bool
  pub enable_registration : Bool
  pub session_name : Text
  pub session_expiration : Duration
  pub session_secret_key : List ℕ
  pub session_encryption_key : List ℕ
  pub cookie_secure : Bool
  pub cookie_http_only : Bool
  pub cookie_same_site : SameSite
  pub cookie_path : Text
  pub cookie_domain : Text
  pub public_paths : List PublicPath
  pub path_rules : List PathRule
  pub password_requirements : PasswordRequirements
  pub tfa : TfaSettings
  pub messages : Messages
  pub hashing_params : Params
  pub legacy_password_verifier : Option (Text → Text → Result Bool)

-- DefaultSettings
abbrev pub default_settings : BasicAuthSettings
default_settings = record {
  enable_username_login = true;
  enable_email_login = true;
  enable_tfa = false;
  enable_registration = false;
  session_name = codes "basicauth_session";
  session_expiration = 24 * 60 * minute;
  session_secret_key = [];
  session_encryption_key = [];
  cookie_secure = true;
  cookie_http_only = true;
  cookie_same_site = lax_mode;
  cookie_path = codes "/";
  cookie_domain = [];
  public_paths = [];
  path_rules = [];
  password_requirements = record {
    min_length = 8;
    require_uppercase = true;
    require_lowercase = true;
    require_numbers = true;
    require_special = false;
  };
  tfa = record {
    issuer = [];
    account_label = none;
    period = 30;
    digits = 6;
    skew_windows = 1;
    backup_code_count = 10;
    backup_code_length = 10;
    backup_code_alphabet = codes "0123456789";
    pending_session_ttl = 5 * minute;
    max_verify_attempts = 5;
    required = false;
  };
  messages = record {
    registration_success = codes "Registration successful";
    login_success = codes "Login successful";
    logout_success = codes "Logout successful";
    invalid_credentials = codes "Invalid credentials";
    user_already_exists = codes "User already exists";
    password_too_weak = codes "Password does not meet requirements";
    internal_error = codes "Internal server error";
    unauthorized = codes "Unauthorized";
    tfa_required = codes "Two-factor authentication required";
    tfa_success = codes "Two-factor authentication successful";
    invalid_tfa_code = codes "Invalid two-factor authentication code";
    tfa_already_enabled = codes "Two-factor authentication is already enabled";
    tfa_not_enabled = codes "Two-factor authentication is not enabled";
    tfa_pending_only = codes "No pending two-factor authentication challenge";
    tfa_disabled = codes "Two-factor authentication disabled";
    tfa_setup_required = codes "Two-factor authentication setup required";
  };
  hashing_params = default_password_hashing_params;
  legacy_password_verifier = none;
}

-- Options without the engine and the storage. UserKey counts as set or not; UserTransformer is a
-- function of the user alone, into the application's own type `V`.
pub record Options (V : Type 0) : Type 0 where
  pub authentication_base_url : Text
  pub settings : BasicAuthSettings
  pub user_key : Bool
  pub user_transformer : Option (User → V)
