-- ===== src/Blocklist/Matching.antt =====
-- What the parsed list matches, and that the patterns for the query exclude what it matches.
use assemblage.Prelude.{◌≡◌, refl, false, nat_eq, list_eq, [], ◌∷◌, Text, codes, some, arith}
use assemblage.Str.{strip, lower}
use assemblage.Str.Split.{before_first}
use assemblage.Blocklist.{
  empty, parse, parse_line, matches, split_repo_url, like_patterns, escape_like,
}

pub parse-nil : parse [] ≡ empty
unfolding parse parse_line strip before_first list_eq
parse-nil = refl

pub matches-empty : (url : Text) → matches empty url ≡ false
unfolding matches
matches-empty url = ground arith

split_example :
    split_repo_url (codes "https://api.github.com/repos/Some/One.git")
    ≡ some (codes "some", codes "one")
unfolding split_repo_url list_eq nat_eq lower
split_example = refl

patterns_example :
    like_patterns (parse (codes "Big_Co # all\nhttps://github.com/a/B.git\n"))
    ≡ codes "%/big\\_co/%" ∷ codes "%/a/b" ∷ codes "%/a/b/%" ∷ []
unfolding like_patterns parse parse_line strip before_first escape_like split_repo_url list_eq
    nat_eq lower
patterns_example = refl
