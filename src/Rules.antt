-- ===== src/Rules.antt =====
-- The access rules of handler.go: findLongestMatchingRule and ruleMatches.
pub mod Longest
mod Tests
use go_basicauth.Prelude.{
  ℕ, Bool, false, Option, none, some, List, [], ◌∷◌, ◌++◌, map, ltb, if◌then◌else◌, length, ◌&&◌,
}
use go_basicauth.Text.{Text, text_eq, has_prefix}
use go_basicauth.Types.{PublicPath, PublicPathType, exact, prefix, unknown, PathRule, public}

-- ruleMatches
unfoldable pub rule_matches : Text → PathRule → Bool
rule_matches path rule = elim rule.type [
  | exact ↦ text_eq path rule.path
  | prefix ↦ has_prefix path rule.path
  | unknown ↦ false
]

-- A deprecated PublicPath as a rule.
abbrev pub to_rule : PublicPath → PathRule
to_rule p = record { type = p.type; path = p.path; access = public }

unfoldable pub all_rules : List PublicPath → List PathRule → List PathRule
all_rules public_paths path_rules = map to_rule public_paths ++ path_rules

-- The loop, over `longestMatch`, which is none until `found`, and `longestLength`.
pub longest_from : Text → Option PathRule → ℕ → List PathRule → Option PathRule
longest_from path best longest [] = best
longest_from path best longest (rule ∷ rules) =
    let taken = longest_from path (some rule) (length rule.path) rules in
    let passed = longest_from path best longest rules in
    if rule_matches path rule && ltb longest (length rule.path) then taken else passed

-- findLongestMatchingRule; `(PathRule{}, false)` is `none`
unfoldable pub find_longest_matching_rule : List PublicPath → List PathRule → Text → Option PathRule
unfolding longest_from rule_matches all_rules
find_longest_matching_rule public_paths path_rules path =
    longest_from path none 0 (all_rules public_paths path_rules)
