-- ===== src/Password/Encoding.antt =====
-- Taking apart what HashPassword put together.
use go_basicauth.Prelude.{
  ℕ, ◌^◌, ◌<◌, ◌≡◌, ◌≢◌, inl, refl, ap, ◌∙◌, some, List, [], ◌∷◌, ◌++◌, All, All-append, arith,
}
use go_basicauth.Text.{Text, Unicode, codes, text_eq}
use go_basicauth.Text.Split.{split, split_once, Lacks, split_of_Lacks, split-append}
use go_basicauth.Decimal.{format, scan_int, positive}
use go_basicauth.Decimal.RoundTrip.{parse_uint-format, format-Lacks}
use go_basicauth.Base64.{encode}
use go_basicauth.Base64.RoundTrip.{IsByte, encode-Lacks}
use go_basicauth.Types.{ok}
use go_basicauth.Password.{Params, encoded, params_text, decode_params, scan_version}

-- A parameter, as `letter=number`.
abbrev setting : ℕ → ℕ → Text
setting letter n = letter ∷ b'=' ∷ format n

setting-Lacks : (sep letter n : ℕ) → sep < b'0' → letter ≢ sep → Lacks sep (setting letter n)
setting-Lacks sep letter n below ne = (ne, ((omega arith), format-Lacks sep n (inl below)))

params_text-Lacks : (p : Params) → Lacks b'$' (params_text p)
unfolding params_text
params_text-Lacks p =
    let item =
      λ (letter n : ℕ) (ne : letter ≢ b'$'). setting-Lacks b'$' letter n (omega arith) ne in
    All-append _ (setting b'm' p.memory) _ (item b'm' p.memory (omega arith)) (
      omega arith,
      All-append _ (setting b't' p.iterations) _ (item b't' p.iterations (omega arith))
          (omega arith, item b'p' p.parallelism (omega arith)),
    )

split-join :
    (sep : ℕ) (s t : Text) {rest : List Text}
    → Lacks sep s
    → split sep t ≡ rest
    → split sep (s ++ sep ∷ t) ≡ s ∷ rest
split-join sep s t h e = split-append sep s t h ∙ ap (λ r. s ∷ r) e

pub split-encoded :
    (p : Params) (salt hash : List ℕ)
    → All IsByte salt
    → All IsByte hash
    → split b'$' (encoded 19 p salt hash)
      ≡ [] ∷ codes "argon2id" ∷ codes "v=19" ∷ params_text p ∷ encode salt ∷ encode hash ∷ []
unfolding encoded format
split-encoded p salt hash hs hh = split-join b'$' [] _ tt (
    split-join b'$' (codes "argon2id") _ (omega arith) (
      split-join b'$' (codes "v=19") _ (omega arith) (
        split-join b'$' (params_text p) _ (params_text-Lacks p) (
          split-join b'$' (encode salt) _ (encode-Lacks salt hs)
            (split_of_Lacks b'$' (encode hash) (encode-Lacks hash hh))))))

pub scan_version_19 : (u : Unicode) → scan_version u (codes "v=19") ≡ some (positive 19)
unfolding scan_version scan_int
scan_version_19 u = refl

split-params_text :
    (p : Params)
    → split b',' (params_text p)
      ≡ setting b'm' p.memory ∷ setting b't' p.iterations ∷ setting b'p' p.parallelism ∷ []
unfolding params_text
split-params_text p =
    let item =
      λ (letter n : ℕ) (ne : letter ≢ b','). setting-Lacks b',' letter n (omega arith) ne in
    split-join b',' (setting b'm' p.memory) _ (item b'm' p.memory (omega arith)) (
      split-join b',' (setting b't' p.iterations) _ (item b't' p.iterations (omega arith))
        (split_of_Lacks b',' (setting b'p' p.parallelism) (item b'p' p.parallelism (omega arith))))

-- Parameters of the widths of the struct, none of them zero, are read back.
pub decode_params-params_text :
    (p : Params)
    → 0 < p.memory
    → p.memory < 2 ^ 32
    → 0 < p.iterations
    → p.iterations < 2 ^ 32
    → 0 < p.parallelism
    → p.parallelism < 256
    → decode_params (params_text p) ≡ ok (record p { salt_length = 0; key_length = 0 })
unfolding decode_params text_eq split_once
decode_params-params_text p m m' t t' q q' = rw (split-params_text p) (
    ground (
      arith,
      parse_uint-format 32 p.memory,
      parse_uint-format 32 p.iterations,
      parse_uint-format 32 p.parallelism,
    ))
