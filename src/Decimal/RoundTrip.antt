-- ===== src/Decimal/RoundTrip.antt =====
-- ParseUint on what `%d` prints.
use go_basicauth.Prelude.{
  ℕ, zero, suc, ◌+◌, ◌-◌, ◌*◌, ◌/◌, ◌%◌, ◌^◌, ◌≤◌, ◌<◌, ◌≡◌, ◌≢◌, refl, some, [], ◌∷◌, arith, ◌⊎◌,
}
use go_basicauth.Text.{Text}
use go_basicauth.Text.Split.{Lacks}
use go_basicauth.Decimal.{digits, format, parse_from, parse_uint, is_digit}

parse_from-digits :
    (most f n : ℕ) (out : Text)
    → n < f
    → n ≤ most
    → parse_from most (digits f n out) 0 ≡ parse_from most out n
unfolding digits parse_from is_digit
parse_from-digits most zero n out h k = absurd (omega arith)
parse_from-digits most (suc f) n out h k =
    ground (arith, parse_from-digits most f (n / 10) ((b'0' + n % 10) ∷ out))

digits-ne-nil : (f n : ℕ) (out : Text) → out ≢ [] → digits f n out ≢ []
unfolding digits
digits-ne-nil zero n out h = h
digits-ne-nil (suc f) n out h = ground (arith, digits-ne-nil f (n / 10) ((b'0' + n % 10) ∷ out))

parse_uint_of_ne_nil :
    (bits : ℕ) (s : Text) → s ≢ [] → parse_uint bits s ≡ parse_from (2 ^ bits - 1) s 0
unfolding parse_uint
parse_uint_of_ne_nil bits [] h = absurd (h refl)
parse_uint_of_ne_nil bits (c ∷ s) h = refl

format-ne-nil : (n : ℕ) → format n ≢ []
unfolding format digits
format-ne-nil n = ground (arith, digits-ne-nil n (n / 10) ((b'0' + n % 10) ∷ []))

-- A number below 2 ^ bits is read back from its decimal digits.
pub parse_uint-format : (bits n : ℕ) → n ≤ 2 ^ bits - 1 → parse_uint bits (format n) ≡ some n
parse_uint-format bits n h =
    rw (parse_uint_of_ne_nil bits (format n) (format-ne-nil n))
      (unfold format parse_from in parse_from-digits (2 ^ bits - 1) (suc n) n [] (omega arith) h)

digits-Lacks :
    (sep f n : ℕ) (out : Text)
    → (sep < b'0') ⊎ (b'9' < sep)
    → Lacks sep out
    → Lacks sep (digits f n out)
unfolding digits
digits-Lacks sep zero n out h k = k
digits-Lacks sep (suc f) n out h k =
    ground (arith, digits-Lacks sep f (n / 10) ((b'0' + n % 10) ∷ out))

-- A decimal number holds no byte that is not a digit.
pub format-Lacks : (sep n : ℕ) → (sep < b'0') ⊎ (b'9' < sep) → Lacks sep (format n)
unfolding format
format-Lacks sep n h = digits-Lacks sep (suc n) n [] h tt

parse_from-le : (most : ℕ) (s : Text) (n m : ℕ) → n ≤ most → parse_from most s n ≡ some m → m ≤ most
unfolding parse_from
parse_from-le most [] n m h e = ground arith
parse_from-le most (c ∷ s) n m h e = ground (arith, parse_from-le most s (n * 10 + (c - b'0')) m)

-- What ParseUint returns fits the width.
pub parse_uint-le : (bits : ℕ) (s : Text) (n : ℕ) → parse_uint bits s ≡ some n → n ≤ 2 ^ bits - 1
unfolding parse_uint
parse_uint-le bits [] n e = cc
parse_uint-le bits (c ∷ s) n e = parse_from-le (2 ^ bits - 1) (c ∷ s) 0 n (omega arith) e
