-- ===== src/Handler/Enrol/Tests.antt =====
-- A user who enrols, and one who disables the second factor.
use go_basicauth.Prelude.{ℕ, ◌≡◌, ◌⊎◌, refl, true, none, some, []}
use go_basicauth.Text.{codes, text_eq, trim_space}
use go_basicauth.Types.{User}
use go_basicauth.Settings.{Options}
use go_basicauth.Request.{Context, string, bound}
use go_basicauth.Handler.Enrol.{
  TfaEnableRequest, TfaDisableRequest, is_password, enable, handle_tfa_enable, handle_tfa_disable,
}
use go_basicauth.Handler.Enrol.Sound.{IsEnrolled, handle_tfa_enable_sound, handle_tfa_disable_sound}
use go_basicauth.Tfa.{Draws, validate_totp_code}
use go_basicauth.MemoryStorage.{
  MemoryStorage, new_memory_storage, create_user, memory_storage, set_totp, clear_totp,
}
use go_basicauth.Text.Split.{split, split_once}
use go_basicauth.Decimal.{scan_int}
use go_basicauth.Base64.{decode}
use go_basicauth.Password.{scan_version, decode_params, verify_password}
use go_basicauth.Samples.{ascii, alice, libraries, secret_hash}
use go_basicauth.Handler.Samples.{moment, options, no_session, fresh}

-- A request of a user whose password is "secret", which is also the secret of a pending setup.
abbrev dora : User
dora = record alice { password_hash = secret_hash }

abbrev enrolling : Context MemoryStorage ℕ
enrolling = record (fresh (create_user ascii dora new_memory_storage).1) {
  user = some dora;
  session = record no_session { pending_tfa_secret = some (string (codes "secret")) };
}

abbrev no_draws : Draws
no_draws = record { int = λ i max. some 0; salt = λ i n. none }

abbrev enrolment : TfaEnableRequest
enrolment = record { code = codes "secret"; password = codes "secret" }

-- Options without backup codes.
abbrev no_backup : Options ℕ
no_backup = record options {
  settings = record options.settings {
    tfa = record options.settings.tfa { backup_code_count = 0 };
  };
}

dora_enrolled :
    (handle_tfa_enable libraries
      (memory_storage ascii)
      no_backup
      moment
      no_draws
      (bound enrolment)
      enrolling).1.storage
    ≡ (set_totp 7 1 (codes "secret") [] enrolling.storage).1
unfolding handle_tfa_enable set_totp verify_password create_user split text_eq scan_version scan_int
    decode_params split_once decode validate_totp_code trim_space enable
dora_enrolled = refl

handle_tfa_enable_sound_example :
    let after_enrolment =
      (handle_tfa_enable libraries
        (memory_storage ascii)
        no_backup
        moment
        no_draws
        (bound enrolment)
        enrolling).1.storage in
    (after_enrolment ≡ enrolling.storage)
    ⊎ IsEnrolled libraries
        (memory_storage ascii)
        no_backup
        moment
        no_draws
        enrolling
        enrolment
        after_enrolment
handle_tfa_enable_sound_example =
    handle_tfa_enable_sound libraries (memory_storage ascii) no_backup moment no_draws enrolling
      enrolment

abbrev disabling : Context MemoryStorage ℕ
disabling = record enrolling { user = some (record dora { totp_enabled = true }) }

abbrev goodbye : TfaDisableRequest
goodbye = record { password = codes "secret" }

handle_tfa_disable_sound_example :
    let after_disabling =
      (handle_tfa_disable libraries
        (memory_storage ascii)
        options
        moment
        (bound goodbye)
        disabling).1.storage in
    (after_disabling ≡ disabling.storage)
    ⊎ ((user : User) × (disabling.user ≡ some user)
        × (user.totp_enabled ≡ true)
        × (is_password libraries (memory_storage ascii) options moment user (codes "secret") ≡ true)
        × (after_disabling ≡ (clear_totp 7 user.id disabling.storage).1))
handle_tfa_disable_sound_example =
    handle_tfa_disable_sound libraries (memory_storage ascii) options moment disabling goodbye
