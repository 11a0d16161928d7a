-- ===== src/Base64.antt =====
-- base64.RawStdEncoding: the standard alphabet, without padding.
pub mod RoundTrip
use go_basicauth.Prelude.{
  ℕ, ◌+◌, ◌-◌, ◌*◌, ◌/◌, ◌%◌, Bool, ◌&&◌, ◌||◌, Option, none, some, List, [], ◌∷◌, ltb, leb, ◌==◌,
  if◌then◌else◌,
}
use go_basicauth.Text.{Text}

-- The byte of the alphabet for six bits.
pub letter : ℕ → ℕ
letter v =
    if ltb v 26
    then b'A' + v
    else if ltb v 52
    then b'a' + (v - 26)
    else if ltb v 62
    then b'0' + (v - 52)
    else if v == 62
    then b'+'
    else b'/'

-- EncodeToString
unfoldable pub encode : List ℕ → Text
unfolding letter
encode [] = []
encode (a ∷ []) = letter (a / 4) ∷ letter (a % 4 * 16) ∷ []
encode (a ∷ b ∷ []) = letter (a / 4) ∷ letter (a % 4 * 16 + b / 16) ∷ letter (b % 16 * 4) ∷ []
encode (a ∷ b ∷ c ∷ rest) =
    letter (a / 4)
    ∷ letter (a % 4 * 16 + b / 16)
    ∷ letter (b % 16 * 4 + c / 64)
    ∷ letter (c % 64)
    ∷ encode rest

-- The six bits that a byte of the alphabet stands for.
pub sextet : ℕ → Option ℕ
sextet c =
    if leb b'A' c && leb c b'Z'
    then some (c - b'A')
    else if leb b'a' c && leb c b'z'
    then some (c - b'a' + 26)
    else if leb b'0' c && leb c b'9'
    then some (c - b'0' + 52)
    else if c == b'+'
    then some 62
    else if c == b'/'
    then some 63
    else none

push : Option ℕ → Option (List ℕ) → Option (List ℕ)
push none rest = none
push (some v) none = none
push (some v) (some vs) = some (v ∷ vs)

-- The decoder skips line feeds and carriage returns.
pub sextets : Text → Option (List ℕ)
unfolding sextet push
sextets [] = some []
sextets (c ∷ s) = let rest = sextets s in if c == 10 || c == 13 then rest else push (sextet c) rest

prepend : ℕ → Option (List ℕ) → Option (List ℕ)
prepend a none = none
prepend a (some rest) = some (a ∷ rest)

-- Bits that are left over at the end are dropped, and one sextet alone is an error.
pub octets : List ℕ → Option (List ℕ)
unfolding prepend
octets [] = some []
octets (p ∷ []) = none
octets (p ∷ q ∷ []) = some ((p * 4 + q / 16) ∷ [])
octets (p ∷ q ∷ r ∷ []) = some ((p * 4 + q / 16) ∷ (q % 16 * 16 + r / 4) ∷ [])
octets (p ∷ q ∷ r ∷ t ∷ rest) =
    prepend (p * 4 + q / 16)
      (prepend (q % 16 * 16 + r / 4) (prepend (r % 4 * 64 + t) (octets rest)))

-- DecodeString; `none` is a CorruptInputError
unfoldable pub decode : Text → Option (List ℕ)
unfolding sextets octets
decode s = elim (sextets s) [ none ↦ none | some vs ↦ octets vs ]
