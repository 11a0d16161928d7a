-- ===== src/Keys.antt =====
-- helpers.go: the keys of the session cookie.
use go_basicauth.Prelude.{ℕ, none, some, List}
use go_basicauth.Text.{codes}
use go_basicauth.Types.{Result, ok, err, other}
use go_basicauth.Password.{Random}

-- make([]byte, n), and rand.Read into it
abbrev pub read_key : Random → ℕ → Result (List ℕ)
read_key random n = elim (random n) [ none ↦ err (other (codes "rand")) | some key ↦ ok key ]

unfoldable pub generate_session_secret_key : Random → Result (List ℕ)
generate_session_secret_key random = read_key random 64

unfoldable pub generate_session_encryption_key : Random → Result (List ℕ)
generate_session_encryption_key random = read_key random 32

unfoldable pub generate_session_key : Random → Result (List ℕ)
unfolding generate_session_secret_key
generate_session_key random = generate_session_secret_key random
