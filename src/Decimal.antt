-- ===== src/Decimal.antt =====
-- Decimal numbers: `%d` of fmt.Sprintf, strconv.ParseUint(s, 10, 32) and `%d` of fmt.Sscanf.
pub mod RoundTrip
use go_basicauth.Prelude.{
  ℕ, zero, suc, ◌+◌, ◌-◌, ◌*◌, ◌/◌, ◌%◌, ◌^◌, Bool, ◌&&◌, Option, none, some, [], ◌∷◌, ltb, leb,
  ◌==◌, if◌then◌else◌,
}
use go_basicauth.Text.{Text, Unicode, is_space}

-- The digits of `n`, in front of `out`. The fuel is a number above `n`.
pub digits : ℕ → ℕ → Text → Text
digits zero n out = out
digits (suc f) n out =
    let rest = digits f (n / 10) ((b'0' + n % 10) ∷ out) in
    if ltb n 10 then (b'0' + n) ∷ out else rest

-- fmt.Sprintf("%d", n)
unfoldable pub format : ℕ → Text
unfolding digits
format n = digits (suc n) n []

pub is_digit : ℕ → Bool
is_digit c = leb b'0' c && leb c b'9'

-- The loop of ParseUint, which stops at a number above `most` at once.
pub parse_from : ℕ → Text → ℕ → Option ℕ
unfolding is_digit
parse_from most [] n = some n
parse_from most (c ∷ s) n =
    let next = n * 10 + (c - b'0') in
    let rest = parse_from most s next in if is_digit c && leb next most then rest else none

-- strconv.ParseUint(s, 10, bits)
unfoldable pub parse_uint : ℕ → Text → Option ℕ
unfolding parse_from
parse_uint bits [] = none
parse_uint bits (c ∷ s) = parse_from (2 ^ bits - 1) (c ∷ s) 0

take_digits : Text → Text
unfolding is_digit
take_digits [] = []
take_digits (c ∷ s) = let rest = take_digits s in if is_digit c then c ∷ rest else []

-- A number read by `%d` into an int of 64 bits: its sign and its size.
pub data Scanned : Type 0 where
  positive negative : ℕ → Scanned

number_of : (ℕ → Scanned) → ℕ → Option ℕ → Option Scanned
number_of sign most none = none
number_of sign most (some n) = if leb n most then some (sign n) else none

signed : Text → Option Scanned
unfolding number_of take_digits parse_uint
signed [] = none
signed (c ∷ s) =
    if c == b'-'
    then number_of negative (2 ^ 63) (parse_uint 64 (take_digits s))
    else if c == b'+'
    then number_of positive (2 ^ 63 - 1) (parse_uint 64 (take_digits s))
    else number_of positive (2 ^ 63 - 1) (parse_uint 64 (take_digits (c ∷ s)))

-- The white space before the number. A line feed is refused, also where a carriage return that is
-- skipped stands before it.
after_space : Unicode → Text → Option Text
after_space u [] = none
after_space u (c ∷ s) =
    let rest = after_space u s in
    if c == 10
    then none
    else if is_space c
    then rest
    else if leb 128 c
    then some (u.skip_space (c ∷ s))
    else some (c ∷ s)

-- `_, err := fmt.Sscanf(s, prefix + "%d", &n)` after the prefix is read; what follows the number is
-- not looked at.
unfoldable pub scan_int : Unicode → Text → Option Scanned
unfolding after_space signed
scan_int u s = elim (after_space u s) [ none ↦ none | some rest ↦ signed rest ]
