-- ===== src/Base64/RoundTrip.antt =====
-- Decoding what was encoded.
use go_basicauth.Prelude.{
  ℕ, ◌+◌, ◌*◌, ◌/◌, ◌%◌, ◌<◌, ◌≡◌, ◌≢◌, refl, some, List, [], ◌∷◌, arith, All,
}
use go_basicauth.Text.{Text}
use go_basicauth.Text.Split.{Lacks}
use go_basicauth.Base64.{letter, sextet, encode, sextets, octets, decode}

abbrev pub IsByte : ℕ → Type 0
IsByte b = b < 256

sextet-letter : (v : ℕ) → v < 64 → sextet (letter v) ≡ some v
unfolding sextet letter
sextet-letter v h = ground arith

letter-ne : (v : ℕ) → v < 64 → (letter v ≢ 10) × (letter v ≢ 13) × (letter v ≢ b'$')
unfolding letter
letter-ne v h = ground arith

sextets-letter :
    (v : ℕ) (s : Text) (vs : List ℕ)
    → v < 64
    → sextets s ≡ some vs
    → sextets (letter v ∷ s) ≡ some (v ∷ vs)
unfolding sextets
sextets-letter v s vs h e = ground (arith, sextet-letter v, letter-ne v)

-- The sextets of a text of bytes.
split_bits : List ℕ → List ℕ
split_bits [] = []
split_bits (a ∷ []) = (a / 4) ∷ (a % 4 * 16) ∷ []
split_bits (a ∷ b ∷ []) = (a / 4) ∷ (a % 4 * 16 + b / 16) ∷ (b % 16 * 4) ∷ []
split_bits (a ∷ b ∷ c ∷ rest) =
    (a / 4) ∷ (a % 4 * 16 + b / 16) ∷ (b % 16 * 4 + c / 64) ∷ (c % 64) ∷ split_bits rest

sextets-encode : (bs : List ℕ) → All IsByte bs → sextets (encode bs) ≡ some (split_bits bs)
unfolding split_bits encode
sextets-encode [] h = unfold sextets in refl
sextets-encode (a ∷ []) h =
    sextets-letter _ _ _ (omega arith) (sextets-letter _ _ _ (omega arith) (unfold sextets in refl))
sextets-encode (a ∷ b ∷ []) h = sextets-letter _ _ _ (omega arith) (
    sextets-letter _ _ _ (omega arith)
      (sextets-letter _ _ _ (omega arith) (unfold sextets in refl)))
sextets-encode (a ∷ b ∷ c ∷ rest) (ha, (hb, (hc, h))) = sextets-letter _ _ _ (omega arith) (
    sextets-letter _ _ _ (omega arith) (
      sextets-letter _ _ _ (omega arith)
        (sextets-letter _ _ _ (omega arith) (sextets-encode rest h))))

octets-split_bits : (bs : List ℕ) → All IsByte bs → octets (split_bits bs) ≡ some bs
unfolding octets split_bits
octets-split_bits [] h = refl
octets-split_bits (a ∷ []) h = ground arith
octets-split_bits (a ∷ b ∷ []) h = ground arith
octets-split_bits (a ∷ b ∷ c ∷ rest) (ha, (hb, (hc, h))) = ground (arith, octets-split_bits rest h)

-- Every list of bytes is decoded from its encoding.
pub decode-encode : (bs : List ℕ) → All IsByte bs → decode (encode bs) ≡ some bs
unfolding decode
decode-encode bs h = ground (arith, sextets-encode bs h, octets-split_bits bs h)

-- The alphabet has no dollar sign.
pub encode-Lacks : (bs : List ℕ) → All IsByte bs → Lacks b'$' (encode bs)
unfolding encode
encode-Lacks [] h = tt
encode-Lacks (a ∷ []) h = grind (arith, letter-ne)
encode-Lacks (a ∷ b ∷ []) h = grind (arith, letter-ne)
encode-Lacks (a ∷ b ∷ c ∷ rest) (ha, (hb, (hc, h))) = grind (arith, letter-ne, encode-Lacks rest h)
