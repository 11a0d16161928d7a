-- ===== src/Storage/Written.antt =====
-- What an action does to a storage, as the calls that it makes.
use go_basicauth.Prelude.{
  ℕ, ◌+◌, ◌≤◌, ◌≡◌, refl, sym, ap, ◌∙◌, List, [], ◌∷◌, ◌++◌, All, All-append, arith,
}
use mathlib.Core.Path.{subst}
use go_basicauth.Storage.{Storage}
use go_basicauth.Storage.Calls.{Call, after, total}

module _ {S : Type 0} (ops : Storage S) where
  pub run : List Call → S → S
  run [] s = s
  run (c ∷ cs) s = run cs (after ops c s)

  run-append : (cs ds : List Call) (s : S) → run (cs ++ ds) s ≡ run ds (run cs s)
  unfolding run
  run-append [] ds s = refl
  run-append (c ∷ cs) ds s = run-append cs ds (after ops c s)

  total-append :
      (grant : Call → S → ℕ) (cs ds : List Call) (s : S)
      → total ops grant (cs ++ ds) s ≡ total ops grant cs s + total ops grant ds (run cs s)
  unfolding total run
  total-append grant [] ds s = omega arith
  total-append grant (c ∷ cs) ds s = omega (arith, total-append grant cs ds (after ops c s))

  module _ (P : Call → Type 0) (grant : Call → S → ℕ) where
    -- Calls of the given kind lead from `s` to `t`, and are granted at least `n`.
    pub record Written (s t : S) (n : ℕ) : Type 0 where
      pub calls : List Call
      pub only : All P calls
      pub result : t ≡ run calls s
      pub counted : n ≤ total ops grant calls s

    pub Written-none : {s t : S} → t ≡ s → Written s t 0
    unfolding run
    Written-none {s} {t} same = record {
      calls = [];
      only = tt;
      result = same;
      counted = omega arith;
    }

    pub Written-one : {s t : S} (c : Call) → P c → t ≡ after ops c s → Written s t (grant c s)
    unfolding run total
    Written-one {s} {t} c p made = record {
      calls = c ∷ [];
      only = (p, tt);
      result = made;
      counted = omega arith;
    }

    pub Written-fewer : {s t : S} {n : ℕ} (k : ℕ) → k ≤ n → Written s t n → Written s t k
    Written-fewer k low w = record {
      calls = w.calls;
      only = w.only;
      result = w.result;
      counted = omega (arith, low, w.counted);
    }

    -- One call, whatever it is granted.
    pub Written-call : {s t : S} (c : Call) → P c → t ≡ after ops c s → Written s t 0
    Written-call c p made = Written-fewer 0 (omega arith) (Written-one c p made)

    pub Written-then : {s t r : S} {n k : ℕ} → Written s t n → Written t r k → Written s r (n + k)
    Written-then {s} {t} {r} {n} {k} v w = record {
      calls = v.calls ++ w.calls;
      only = All-append P v.calls w.calls v.only w.only;
      result = w.result ∙ ap (run w.calls) v.result ∙ sym (run-append v.calls w.calls s);
      counted = omega (
        arith,
        v.counted,
        subst (λ x. k ≤ total ops grant w.calls x) v.result w.counted,
        total-append grant v.calls w.calls s,
      );
    }

    -- What writes something, and then what is granted nothing that counts.
    pub Written-followed : {s t r : S} {n : ℕ} → Written s t n → Written t r 0 → Written s r n
    Written-followed {n = n} v w = Written-fewer n (omega arith) (Written-then v w)

    -- The same for an equal state, and for a smaller count.
    pub Written-at : {s t r : S} {n k : ℕ} → r ≡ t → k ≤ n → Written s t n → Written s r k
    Written-at {s} {t} {r} {n} {k} same low w =
        subst (λ x. Written s x k) (sym same) (Written-fewer k low w)
