-- ===== src/Validation/Accepted.antt =====
-- What the three validations accept, without regular expressions.
use mathlib.Core.Path.{subst}
use go_basicauth.Prelude.{
  ℕ, ◌≡◌, ◌≢◌, ◌≤◌, ◌↔◌, ◌⊎◌, inl, inr, refl, sym, ap, ◌∙◌, Bool, true, false, not, ◌&&◌, [], ◌∷◌,
  ◌++◌, arith, ◌==◌, ==_iff, All, length, any, Bool-cases,
}
use go_basicauth.Text.{Text, text_eq}
use go_basicauth.Types.{ok, PasswordRequirements}
use go_basicauth.Validation.Regex.{class, seq, plus, matches}
use go_basicauth.Validation.Regex.Meaning.{Repeats, stop, more, Matches, matches_iff}
use go_basicauth.Validation.{
  is_upper, is_lower, is_digit, is_letter, is_special, is_local, is_domain, is_word, email_regex,
  username_regex, validate_email, validate_username, validate_password,
}

abbrev pub Chars : (ℕ → Bool) → Text → Type 0
Chars test = All (λ b. test b ≡ true)

module _ (test : ℕ → Bool) where
  star_sound : {s : Text} → Repeats (Matches (class test)) s → Chars test s
  star_sound (stop e) = rw e tt
  star_sound (more b piece rest e (c, one, h) n) =
      subst (Chars test) (sym (e ∙ ap (λ w. w ++ rest) one)) (h, star_sound n)

  star_complete : (s : Text) → Chars test s → Repeats (Matches (class test)) s
  star_complete [] h = stop refl
  star_complete (b ∷ s) (h, hs) = more b [] s refl (b, refl, h) (star_complete s hs)

  plus_sound : (s : Text) → Matches (plus (class test)) s → (1 ≤ length s) × Chars test s
  plus_sound s (front, back, e, (b, one, h), m) =
      subst (λ w. (1 ≤ length w) × Chars test w) (sym (e ∙ ap (λ w. w ++ back) one))
        (omega arith, (h, star_sound m))

  plus_complete : (s : Text) → 1 ≤ length s → Chars test s → Matches (plus (class test)) s
  plus_complete [] l h = absurd (omega arith)
  plus_complete (b ∷ s) l (h, hs) = (b ∷ [], s, refl, (b, refl, h), star_complete s hs)

-- A user name is accepted exactly if it has 3 to 50 characters, each a letter, a digit or `_`.
pub validate_username_iff :
    (username : Text)
    → (validate_username username ≡ ok tt)
      ↔ ((3 ≤ length username) × (length username ≤ 50) × Chars is_word username)
unfolding validate_username
validate_username_iff username =
    let meaning = matches_iff username_regex username in
    (
      (λ accepted.
          let matched : matches username_regex username ≡ true = ground arith in
          (ground arith, ground arith, (plus_sound is_word username (meaning.0 matched)).1)),
      (λ (low, high, chars).
          let matched = meaning.1 (plus_complete is_word username (omega arith) chars) in
          ground arith),
    )

-- The parts of an address: `local@domain.tld`.
pub record IsAddress (email : Text) : Type 0 where
  pub local : Text
  pub domain : Text
  pub tld : Text
  pub parts : email ≡ local ++ b'@' ∷ (domain ++ b'.' ∷ tld)
  pub local_long : 1 ≤ length local
  pub local_chars : Chars is_local local
  pub domain_long : 1 ≤ length domain
  pub domain_chars : Chars is_domain domain
  pub tld_long : 2 ≤ length tld
  pub tld_chars : Chars is_letter tld

class_is : (c b : ℕ) (s : Text) → s ≡ b ∷ [] → b == c ≡ true → s ≡ c ∷ []
class_is c b s e h = e ∙ ap (λ d. d ∷ []) ((==_iff b c).0 h)

email_sound : (email : Text) → Matches email_regex email → IsAddress email
email_sound email
      (
        local,
        _,
        e,
        ml,
        (
          at,
          after_at,
          e',
          (b, ma, ha),
          (domain, _, f, md, (dot, tld, f', (d, mt, ht), (first, more_tld, g, (l, mf, hf), mm))),
        ),
      ) =
    let dot_is = class_is b'.' d dot mt ht in
    let at_is = class_is b'@' b at ma ha in
    let (l1, c1) = plus_sound is_local local ml in
    let (l2, c2) = plus_sound is_domain domain md in
    let (l3, c3) = plus_sound is_letter more_tld mm in
    let tld_is : tld ≡ l ∷ more_tld = g ∙ ap (λ w. w ++ more_tld) mf in
    record {
      local = local;
      domain = domain;
      tld = tld;
      parts =
          e
          ∙ ap (λ w. local ++ w)
              (e'
                ∙ ap (λ w. w ++ after_at) at_is
                ∙ ap (λ w. b'@' ∷ w) (f ∙ ap (λ w. domain ++ w) (f' ∙ ap (λ w. w ++ tld) dot_is)));
      local_long = l1;
      local_chars = c1;
      domain_long = l2;
      domain_chars = c2;
      tld_long = rw tld_is (omega arith);
      tld_chars = rw tld_is (hf, c3);
    }

two_complete :
    (s : Text)
    → 2 ≤ length s
    → Chars is_letter s
    → Matches (seq (class is_letter) (plus (class is_letter))) s
two_complete [] long h = absurd (omega arith)
two_complete (b ∷ s) long (h, hs) =
    (b ∷ [], s, refl, (b, refl, h), plus_complete is_letter s (omega arith) hs)

email_complete : (email : Text) → IsAddress email → Matches email_regex email
email_complete email a = (
  a.local,
  b'@' ∷ (a.domain ++ b'.' ∷ a.tld),
  a.parts,
  plus_complete is_local a.local a.local_long a.local_chars,
  (
    b'@' ∷ [],
    a.domain ++ b'.' ∷ a.tld,
    refl,
    (b'@', refl, refl),
    (
      a.domain,
      b'.' ∷ a.tld,
      refl,
      plus_complete is_domain a.domain a.domain_long a.domain_chars,
      (b'.' ∷ [], a.tld, refl, (b'.', refl, refl), two_complete a.tld a.tld_long a.tld_chars),
    ),
  ),
)

text_eq_empty : (s : Text) → s ≢ [] → text_eq s [] ≡ false
unfolding text_eq
text_eq_empty [] ne = absurd (ne refl)
text_eq_empty (b ∷ s) ne = refl

email_not_empty : (local rest : Text) → local ++ b'@' ∷ rest ≢ []
email_not_empty [] rest e = cc
email_not_empty (b ∷ local) rest e = cc

-- An address is accepted exactly if it is `local@domain.tld`: a local part of letters, digits and
-- `._%+-`, a domain of letters, digits, dots and dashes, and at the end two letters or more.
pub validate_email_iff : (email : Text) → (validate_email email ≡ ok tt) ↔ IsAddress email
unfolding validate_email
validate_email_iff email =
    let meaning = matches_iff email_regex email in
    (
      (λ accepted.
          let matched : matches email_regex email ≡ true = ground arith in
          email_sound email (meaning.0 matched)),
      (λ a.
          let matched = meaning.1 (email_complete email a) in
          let full : text_eq email [] ≡ false =
            text_eq_empty email
              λ e. email_not_empty a.local (a.domain ++ b'.' ∷ a.tld) (sym a.parts ∙ e) in
          ground arith),
    )

-- The text has a character that passes the test.
abbrev pub Has : (ℕ → Bool) → Text → Type 0
Has test s = (front back : Text) × (b : ℕ) × (s ≡ front ++ b ∷ back) × (test b ≡ true)

any_sound : (test : ℕ → Bool) (s : Text) → any test s ≡ true → Has test s
any_sound test [] h = cc
any_sound test (b ∷ s) h = elim (Bool-cases (test b)) [
  | inl e ↦ ([], s, b, refl, e)
  | inr e ↦
      let (front, back, c, parts, here) = any_sound test s (ground arith) in
      (b ∷ front, back, c, ap (λ w. b ∷ w) parts, here)
]

any_complete :
    (test : ℕ → Bool) (front back : Text) (b : ℕ)
    → test b ≡ true
    → any test (front ++ b ∷ back) ≡ true
any_complete test [] back b h = ground arith
any_complete test (c ∷ front) back b h = ground (arith, any_complete test front back b h)

-- A character is there where it is required.
abbrev pub Meets : Bool → (ℕ → Bool) → Text → Type 0
Meets required test s = (required ≡ false) ⊎ Has test s

Meets-of_check :
    (required : Bool) (test : ℕ → Bool) (s : Text)
    → required && not (any test s) ≡ false
    → Meets required test s
Meets-of_check required test s h = elim (Bool-cases (any test s)) [
  | inl found ↦ inr (any_sound test s found)
  | inr missing ↦ inl (ground arith)
]

check_of_Meets :
    (required : Bool) (test : ℕ → Bool) (s : Text)
    → Meets required test s
    → required && not (any test s) ≡ false
check_of_Meets required test s (inl free) = ground arith
check_of_Meets required test s (inr (front, back, b, parts, h)) =
    ground (arith, any_complete test front back b h, ap (any test) parts)

-- A password is accepted exactly if it is as long as required and has every character that is
-- required: of the upper case, of the lower case, a digit, a special one.
pub validate_password_iff :
    (password : Text) (reqs : PasswordRequirements)
    → (validate_password password reqs ≡ ok tt) ↔ (
        (reqs.min_length ≤ length password)
        × Meets reqs.require_uppercase is_upper password
        × Meets reqs.require_lowercase is_lower password
        × Meets reqs.require_numbers is_digit password
        × Meets reqs.require_special is_special password)
unfolding validate_password
validate_password_iff password reqs = (
  (λ accepted. (
    ground arith,
    Meets-of_check _ _ _ (ground arith),
    Meets-of_check _ _ _ (ground arith),
    Meets-of_check _ _ _ (ground arith),
    Meets-of_check _ _ _ (ground arith),
  )),
  (λ (long, upper, lower, digits, special).
      let a = check_of_Meets _ _ _ upper in
      let b = check_of_Meets _ _ _ lower in
      let c = check_of_Meets _ _ _ digits in let d = check_of_Meets _ _ _ special in ground arith),
)
