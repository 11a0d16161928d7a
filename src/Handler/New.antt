-- ===== src/Handler/New.antt =====
-- NewHandler of handler.go.
pub mod Checked
mod Tests
use go_basicauth.Prelude.{
  ℕ, Bool, true, false, not, Option, none, some, List, ◌==◌, if◌then◌else◌, length, is_some,
}
use go_basicauth.Text.{Text, codes}
use go_basicauth.Types.{User, Result, ok, err, other}
use go_basicauth.Settings.{BasicAuthSettings, SameSite, default_settings, Options}
use go_basicauth.Storage.{Storage}
use go_basicauth.Handler.{whole_seconds}

-- *Options as the application fills it in. Of the engine it only counts whether there is one.
pub record Given (S V : Type 0) : Type 0 where
  pub engine : Bool
  pub storage : Option (Storage S)
  pub authentication_base_url : Text
  pub settings : Option BasicAuthSettings
  pub user_key : Bool
  pub user_transformer : Option (User → V)

-- sessions.Options
pub record CookieOptions : Type 0 where
  pub path : Text
  pub domain : Text
  pub max_age : ℕ
  pub secure : Bool
  pub http_only : Bool
  pub same_site : SameSite

-- *sessions.CookieStore: the key pair of its codec, the age up to which the codec takes a cookie, in
-- seconds, and the attributes of a new session.
pub record CookieStore : Type 0 where
  pub hash_key : List ℕ
  pub block_key : List ℕ
  pub codec_max_age : ℕ
  pub options : CookieOptions

pub record Handler (S V : Type 0) : Type 0 where
  pub storage : Storage S
  pub options : Options V
  pub session_store : CookieStore

-- The store for the settings: NewCookieStore, MaxAge, and the assignment of Options.
abbrev pub cookie_store : BasicAuthSettings → CookieStore
cookie_store settings = record {
  hash_key = settings.session_secret_key;
  block_key = settings.session_encryption_key;
  codec_max_age = whole_seconds settings.session_expiration;
  options = record {
    path = settings.cookie_path;
    domain = settings.cookie_domain;
    max_age = whole_seconds settings.session_expiration;
    secure = settings.cookie_secure;
    http_only = settings.cookie_http_only;
    same_site = settings.cookie_same_site;
  };
}

-- The settings that are used: DefaultSettings() where there are none.
abbrev pub settled : Option BasicAuthSettings → BasicAuthSettings
settled none = default_settings
settled (some settings) = settings

module _ {S V : Type 0} where
  -- NewHandler past its checks.
  abbrev pub built : Given S V → Storage S → Handler S V
  built given storage = record {
    storage = storage;
    options = record {
      authentication_base_url = given.authentication_base_url;
      settings = settled given.settings;
      user_key = given.user_key;
      user_transformer = given.user_transformer;
    };
    session_store = cookie_store (settled given.settings);
  }

  unfoldable pub new_handler : Given S V → Result (Handler S V)
  new_handler given =
      if not given.engine
      then err (other (codes "gin engine is required"))
      else elim given.storage [
        | none ↦ err (other (codes "storage implementation is required"))
        | some storage ↦
            let settings = settled given.settings in
            if not (length settings.session_secret_key == 64)
            then err (other (codes "session secret key must be 64 bytes (for HMAC-SHA256)"))
            else if not (length settings.session_encryption_key == 32)
            then err (other (codes "session encryption key must be 32 bytes (for AES-256)"))
            else ok (built given storage)
      ]
