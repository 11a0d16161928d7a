-- ===== src/Rules/Longest.antt =====
-- findLongestMatchingRule against a description of what it looks for.
use mathlib.Core.Path.{subst}
use go_basicauth.Prelude.{
  ℕ, ◌≤◌, ◌<◌, ◌≡◌, ◌⊎◌, inl, inr, ◌≢◌, refl, ap, sym, true, false, ◌&&◌, ltb, Option, none, some,
  List, [], ◌∷◌, ◌++◌, arith, All, Bool-cases, Option-cases, length,
}
use go_basicauth.Text.{Text}
use go_basicauth.Types.{PathRule, PublicPath}
use go_basicauth.Rules.{rule_matches, longest_from, all_rules, find_longest_matching_rule}

module _ (path : Text) where
  -- A rule that matches the path is shorter than `n`, or at most as long.
  abbrev pub Below : ℕ → PathRule → Type 0
  Below n r = rule_matches path r ≡ true → length r.path < n

  abbrev pub AtMost : ℕ → PathRule → Type 0
  AtMost n r = rule_matches path r ≡ true → length r.path ≤ n

  -- The rule matches and is longer than `n`; no matching rule is longer, and none before it as long.
  pub record Wins (n : ℕ) (rules : List PathRule) (r : PathRule) : Type 0 where
    pub before : List PathRule
    pub behind : List PathRule
    pub listed : rules ≡ before ++ r ∷ behind
    pub matches : rule_matches path r ≡ true
    pub longer : n < length r.path
    pub first : All (Below (length r.path)) before
    pub longest : All (AtMost (length r.path)) behind

  Wins-cons :
      (n m : ℕ) (rule : PathRule) (rules : List PathRule) (r : PathRule)
      → n ≤ m
      → (rule_matches path rule ≡ true → length rule.path ≤ m)
      → Wins m rules r
      → Wins n (rule ∷ rules) r
  Wins-cons n m rule rules r le fits w = record {
    before = rule ∷ w.before;
    behind = w.behind;
    listed = ap (λ t. rule ∷ t) w.listed;
    matches = w.matches;
    longer = omega (arith, w.longer);
    first = ((λ e. omega (arith, fits e, w.longer)), w.first);
    longest = w.longest;
  }

  -- A rule that the loop passes over.
  passed_over :
      (n : ℕ) (rule : PathRule)
      → rule_matches path rule && ltb n (length rule.path) ≡ false
      → AtMost n rule
  passed_over n rule worse matches = ground arith

  Wins-head :
      (n : ℕ) (rule : PathRule) (rules : List PathRule) (r : PathRule)
      → rule_matches path rule && ltb n (length rule.path) ≡ true
      → rule ≡ r
      → All (AtMost (length rule.path)) rules
      → Wins n (rule ∷ rules) r
  Wins-head n rule rules r better same rest = subst (Wins n (rule ∷ rules)) same (record {
    before = [];
    behind = rules;
    listed = refl;
    matches = ground arith;
    longer = ground arith;
    first = tt;
    longest = rest;
  })

  longest_from-Wins :
      (best : Option PathRule) (n : ℕ) (rules : List PathRule) (r : PathRule)
      → longest_from path best n rules ≡ some r
      → (best ≡ some r) × All (AtMost n) rules ⊎ Wins n rules r
  unfolding longest_from
  longest_from-Wins best n [] r e = inl (e, tt)
  longest_from-Wins best n (rule ∷ rules) r e =
      elim (Bool-cases (rule_matches path rule && ltb n (length rule.path))) [
        | inl better ↦
            elim (longest_from-Wins (some rule) (length rule.path) rules r (ground arith)) [
              | inl (same, rest) ↦ inr (Wins-head n rule rules r better (cc same) rest)
              | inr w ↦
                  inr (
                    Wins-cons n (length rule.path) rule rules r (ground arith) (λ _. omega arith) w)
            ]
        | inr worse ↦
            let fits = passed_over n rule worse in
            elim (longest_from-Wins best n rules r (ground arith)) [
              | inl (same, rest) ↦ inl (same, (fits, rest))
              | inr w ↦ inr (Wins-cons n n rule rules r (omega arith) fits w)
            ]
      ]

  longest_from-ne-none :
      (rule : PathRule) (n : ℕ) (rules : List PathRule)
      → longest_from path (some rule) n rules ≢ none
  unfolding longest_from
  longest_from-ne-none rule n [] e = cc
  longest_from-ne-none rule n (next ∷ rules) e =
      ground (
        arith,
        longest_from-ne-none next (length next.path) rules,
        longest_from-ne-none rule n rules,
      )

  longest_from-none :
      (best : Option PathRule) (n : ℕ) (rules : List PathRule)
      → longest_from path best n rules ≡ none
      → All (AtMost n) rules
  unfolding longest_from
  longest_from-none best n [] e = tt
  longest_from-none best n (rule ∷ rules) e =
      elim (Bool-cases (rule_matches path rule && ltb n (length rule.path))) [
        | inl better ↦ absurd (longest_from-ne-none rule (length rule.path) rules (ground arith))
        | inr worse ↦ (passed_over n rule worse, longest_from-none best n rules (ground arith))
      ]

  -- What the search for a rule says of the rules that it was given.
  abbrev pub IsLongestMatch : List PathRule → Option PathRule → Type 0
  IsLongestMatch rules (some r) = Wins 0 rules r
  IsLongestMatch rules none = All (AtMost 0) rules

-- The search finds the longest rule that matches the path, the first of that length where the public
-- paths stand before the path rules, and finds nothing only where every matching rule has an empty
-- path.
pub find_longest_matching_rule-IsLongestMatch :
    (public_paths : List PublicPath) (path_rules : List PathRule) (path : Text)
    → IsLongestMatch path
        (all_rules public_paths path_rules)
        (find_longest_matching_rule public_paths path_rules path)
unfolding find_longest_matching_rule
find_longest_matching_rule-IsLongestMatch public_paths path_rules path =
    let rules = all_rules public_paths path_rules in
    let found = longest_from path none 0 rules in
    elim (Option-cases found) [
      | inl missing ↦
          subst (IsLongestMatch path rules) (sym missing)
            (longest_from-none path none 0 rules missing)
      | inr (r, at) ↦ elim (longest_from-Wins path none 0 rules r at) [
        | inl (impossible, _) ↦ cc impossible
        | inr w ↦ subst (IsLongestMatch path rules) (sym at) w
      ]
    ]
