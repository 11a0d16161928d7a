-- ===== src/Handler/Samples.antt =====
-- What the tests of the handlers share.
use go_basicauth.Prelude.{ℕ, true, false, none, some, [], ◌∷◌}
use go_basicauth.Text.{codes, text_eq}
use go_basicauth.Types.{ok, public, prefix}
use go_basicauth.Settings.{Options, default_settings}
use go_basicauth.Request.{Context, Session, string, seconds}
use go_basicauth.Handler.{Moment}
use go_basicauth.MemoryStorage.{MemoryStorage, new_memory_storage, create_user}
use go_basicauth.Samples.{ascii, alice, carol, repeat}

abbrev pub moment : Moment
moment = record { now = 7; random = λ n. some (repeat 7 n); new_uuid = 9 }

-- An old hash is the password itself.
abbrev pub options : Options ℕ
options = record {
  authentication_base_url = [];
  settings = record default_settings {
    enable_tfa = true;
    path_rules = record { type = prefix; path = codes "/open"; access = public } ∷ [];
    legacy_password_verifier = some (λ password stored. ok (text_eq password stored));
  };
  user_key = false;
  user_transformer = none;
}

abbrev pub no_session : Session
no_session = record {
  user_id = none;
  pending_tfa_user_id = none;
  pending_tfa_expires_at = none;
  pending_tfa_secret = none;
  max_age = seconds 86400;
}

abbrev pub fresh : MemoryStorage → Context MemoryStorage ℕ
fresh s = record {
  storage = s;
  session = no_session;
  broken = false;
  cookies = [];
  replies = [];
  user = none;
  value = none;
  aborted = false;
}

abbrev pub carol_only : MemoryStorage
carol_only = (create_user ascii carol new_memory_storage).1

abbrev pub alice_only : MemoryStorage
alice_only = (create_user ascii alice new_memory_storage).1

abbrev pub alice_session : Session
alice_session = record no_session { user_id = some (string (1 ∷ [])) }
