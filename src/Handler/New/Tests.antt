-- ===== src/Handler/New/Tests.antt =====
-- Options for NewHandler.
use go_basicauth.Prelude.{ℕ, ◌≡◌, ◌∙◌, sym, refl, ap, true, false, none, some, List, [], length}
use go_basicauth.Types.{ok, err, Err}
use go_basicauth.Settings.{BasicAuthSettings, default_settings}
use go_basicauth.Storage.{Storage}
use go_basicauth.MemoryStorage.{MemoryStorage, memory_storage}
use go_basicauth.Keys.{generate_session_secret_key, generate_session_encryption_key}
use go_basicauth.Handler.New.{Given, Handler, new_handler, built}
use go_basicauth.Handler.New.Checked.{
  IsComplete, IsMade, new_handler-IsMade, new_handler_without_settings,
  new_handler_of_generated_keys,
}
use go_basicauth.Samples.{ascii, repeat, length-repeat}

abbrev keyed : BasicAuthSettings
keyed = record default_settings {
  session_secret_key = repeat 7 64;
  session_encryption_key = repeat 7 32;
}

abbrev complete : Given MemoryStorage ℕ
complete = record {
  engine = true;
  storage = some (memory_storage ascii);
  authentication_base_url = [];
  settings = some keyed;
  user_key = false;
  user_transformer = none;
}

accepted : new_handler complete ≡ ok (built complete (memory_storage ascii))
unfolding new_handler
accepted = refl

new_handler-IsMade_example :
    (storage : Storage MemoryStorage) × (settings : BasicAuthSettings) × IsComplete complete storage
      settings
    × IsMade complete storage settings (built complete (memory_storage ascii))
new_handler-IsMade_example =
    new_handler-IsMade complete (built complete (memory_storage ascii)) accepted

new_handler_without_settings_example :
    (e : Err) × (new_handler (record complete { settings = none }) ≡ err e)
new_handler_without_settings_example =
    new_handler_without_settings (record complete { settings = none }) refl

secret_generated : generate_session_secret_key (λ n. some (repeat 7 n)) ≡ ok (repeat 7 64)
unfolding generate_session_secret_key
secret_generated = refl

encryption_generated : generate_session_encryption_key (λ n. some (repeat 7 n)) ≡ ok (repeat 7 32)
unfolding generate_session_encryption_key
encryption_generated = refl

filled : (n : ℕ) (bytes : List ℕ) → some (repeat 7 n) ≡ some bytes → length bytes ≡ n
filled n bytes e = let same : repeat 7 n ≡ bytes = cc e in sym (ap length same) ∙ length-repeat 7 n

new_handler_of_generated_keys_example :
    (h : Handler MemoryStorage ℕ) × (new_handler complete ≡ ok h)
    × IsMade complete (memory_storage ascii) keyed h
new_handler_of_generated_keys_example =
    new_handler_of_generated_keys complete (λ n. some (repeat 7 n)) (memory_storage ascii) keyed
      filled secret_generated encryption_generated refl refl refl
