-- ===== src/Rules/Tests.antt =====
-- Rules that compete for a path.
use go_basicauth.Prelude.{◌≡◌, refl, some, List, [], ◌∷◌}
use go_basicauth.Text.{codes, has_prefix, text_eq}
use go_basicauth.Types.{PathRule, PublicPath, public, private, prefix}
use go_basicauth.Rules.{find_longest_matching_rule, all_rules}
use go_basicauth.Rules.Longest.{IsLongestMatch, find_longest_matching_rule-IsLongestMatch}

abbrev open_paths : List PublicPath
open_paths = record { type = prefix; path = codes "/api" } ∷ []

abbrev closed : PathRule
closed = record { type = prefix; path = codes "/api/admin"; access = private }

abbrev rules : List PathRule
rules = record closed { path = codes "/a" } ∷ closed ∷ []

longest_wins : find_longest_matching_rule open_paths rules (codes "/api/admin/x") ≡ some closed
unfolding find_longest_matching_rule has_prefix text_eq
longest_wins = refl

public_first :
    find_longest_matching_rule open_paths
      (record closed { path = codes "/api" } ∷ [])
      (codes "/api/x")
    ≡ some (record { type = prefix; path = codes "/api"; access = public })
unfolding find_longest_matching_rule has_prefix text_eq
public_first = refl

find_longest_matching_rule-IsLongestMatch_example :
    IsLongestMatch
      (codes "/api/x")
      (all_rules open_paths rules)
      (find_longest_matching_rule open_paths rules (codes "/api/x"))
find_longest_matching_rule-IsLongestMatch_example =
    find_longest_matching_rule-IsLongestMatch open_paths rules (codes "/api/x")
