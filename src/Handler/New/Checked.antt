-- ===== src/Handler/New/Checked.antt =====
-- What NewHandler accepts, and what it makes of it.
use mathlib.Core.Path.{subst}
use go_basicauth.Prelude.{
  ℕ, ◌≡◌, inl, inr, refl, sym, ap, true, none, some, List, arith, length, Option-cases,
}
use go_basicauth.Types.{ok, err, Err, Result-cases}
use go_basicauth.Settings.{BasicAuthSettings}
use go_basicauth.Storage.{Storage}
use go_basicauth.Password.{Random}
use go_basicauth.Keys.{generate_session_secret_key, generate_session_encryption_key}
use go_basicauth.Handler.{whole_seconds}
use go_basicauth.Handler.New.{Given, Handler, new_handler, settled, built}

module _ {S V : Type 0} (given : Given S V) where
  -- The options of a handler that works.
  pub record IsComplete (storage : Storage S) (settings : BasicAuthSettings) : Type 0 where
    pub engine : given.engine ≡ true
    pub stored : given.storage ≡ some storage
    pub settings_given : given.settings ≡ some settings
    pub secret_key : length settings.session_secret_key ≡ 64
    pub encryption_key : length settings.session_encryption_key ≡ 32

  IsComplete-of_ok :
      (h : Handler S V)
      → new_handler given ≡ ok h
      → (storage : Storage S) × (settings : BasicAuthSettings) × IsComplete storage settings
        × (h ≡ built given storage)
  unfolding new_handler
  IsComplete-of_ok h e = elim (Option-cases given.storage) [
    | inl missing ↦ absurd (ground arith)
    | inr (storage, stored) ↦ elim (Option-cases given.settings) [
      | inl missing ↦ absurd (ground arith)
      | inr (settings, settings_given) ↦ (
        storage,
        settings,
        record {
          engine = ground arith;
          stored = stored;
          settings_given = settings_given;
          secret_key = ground arith;
          encryption_key = ground arith;
        },
        ground arith,
      )
    ]
  ]

  ok-of_IsComplete :
      (storage : Storage S) (settings : BasicAuthSettings)
      → IsComplete storage settings
      → new_handler given ≡ ok (built given storage)
  unfolding new_handler
  ok-of_IsComplete storage settings c = ground arith

  -- The handler that is made of the options: its parts, and an expiry of the codec that is the one
  -- of the cookie, and the configured one.
  pub record IsMade (storage : Storage S) (settings : BasicAuthSettings) (h : Handler S V)
      : Type 0 where
    pub storage_kept : h.storage ≡ storage
    pub settings_kept : h.options.settings ≡ settings
    pub base_url_kept : h.options.authentication_base_url ≡ given.authentication_base_url
    pub transformer_kept : h.options.user_transformer ≡ given.user_transformer
    pub signs : h.session_store.hash_key ≡ settings.session_secret_key
    pub encrypts : h.session_store.block_key ≡ settings.session_encryption_key
    pub expires : h.session_store.codec_max_age ≡ whole_seconds settings.session_expiration
    pub agrees : h.session_store.options.max_age ≡ h.session_store.codec_max_age

  built-IsMade :
      (storage : Storage S) (settings : BasicAuthSettings)
      → given.settings ≡ some settings
      → IsMade storage settings (built given storage)
  built-IsMade storage settings kept = record {
    storage_kept = refl;
    settings_kept = ap settled kept;
    base_url_kept = refl;
    transformer_kept = refl;
    signs = ap (λ g. (settled g).session_secret_key) kept;
    encrypts = ap (λ g. (settled g).session_encryption_key) kept;
    expires = ap (λ g. whole_seconds (settled g).session_expiration) kept;
    agrees = refl;
  }

  -- NewHandler returns a handler only for complete options: an engine, a storage, and settings with
  -- keys of 64 and of 32 bytes; the handler is made of these, and its codec and its cookies expire
  -- after SessionExpiration alike.
  pub new_handler-IsMade :
      (h : Handler S V)
      → new_handler given ≡ ok h
      → (storage : Storage S) × (settings : BasicAuthSettings) × IsComplete storage settings
        × IsMade storage settings h
  new_handler-IsMade h e =
      let (storage, settings, complete, same) = IsComplete-of_ok h e in
      (
        storage,
        settings,
        complete,
        subst (IsMade storage settings) (sym same)
            (built-IsMade storage settings complete.settings_given),
      )

  -- Options without settings are refused, although DefaultSettings() takes their place: these have no
  -- keys.
  pub new_handler_without_settings : given.settings ≡ none → (e : Err) × (new_handler given ≡ err e)
  new_handler_without_settings missing = elim (Result-cases (new_handler given)) [
    | inl refused ↦ refused
    | inr (h, made) ↦
        let (_, _, complete, _) = IsComplete-of_ok h made in
        absurd (cc (missing, complete.settings_given))
  ]

  -- Options with an engine, a storage, and settings with the keys that GenerateSessionSecretKey and
  -- GenerateSessionEncryptionKey return are accepted, where rand.Read fills what it is given.
  pub new_handler_of_generated_keys :
      (random : Random) (storage : Storage S) (settings : BasicAuthSettings)
      → ((n : ℕ) (bytes : List ℕ) → random n ≡ some bytes → length bytes ≡ n)
      → generate_session_secret_key random ≡ ok settings.session_secret_key
      → generate_session_encryption_key random ≡ ok settings.session_encryption_key
      → given.engine ≡ true
      → given.storage ≡ some storage
      → given.settings ≡ some settings
      → (h : Handler S V) × (new_handler given ≡ ok h) × IsMade storage settings h
  unfolding generate_session_secret_key generate_session_encryption_key
  new_handler_of_generated_keys random storage settings fills secret encryption engine stored
        settings_given =
      let complete : IsComplete storage settings = record {
        engine = engine;
        stored = stored;
        settings_given = settings_given;
        secret_key = elim (Option-cases (random 64)) [
          | inl failed ↦ absurd (ground arith)
          | inr (bytes, got) ↦ ground (arith, fills 64 bytes)
        ];
        encryption_key = elim (Option-cases (random 32)) [
          | inl failed ↦ absurd (ground arith)
          | inr (bytes, got) ↦ ground (arith, fills 32 bytes)
        ];
      } in
      (
        built given storage,
        ok-of_IsComplete storage settings complete,
        built-IsMade storage settings settings_given,
      )
