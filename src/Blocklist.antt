-- ===== src/Blocklist.antt =====
-- backend/assemblage/blocklist.py: which repositories are never handed to a builder.
pub mod Like
pub mod File
pub mod Matching
use assemblage.Prelude.{
  ℕ, Bool, true, false, not, ◌||◌, ◌&&◌, if◌then◌else◌, ◌==◌, nat_eq, list_eq, contains, List, [],
  ◌∷◌, ◌++◌, map, Text, codes, Option, none, some,
}
use assemblage.Str.{lower, strip, ends_with, without_end, sorted}
use assemblage.Str.Replace.{replace}
use assemblage.Str.Split.{split, lines, after_first, before_first}

-- Every `\`, then every `%`, then every `_` gets a `\` in front.
unfoldable pub escape_like : Text → Text
unfolding replace
escape_like value =
    replace (codes "_") (codes "\\_")
      (replace (codes "%") (codes "\\%") (replace (codes "\\") (codes "\\\\") value))

-- The pieces that are not empty.
non_empty : List Text → List Text
non_empty [] = []
non_empty (p ∷ ps) = let rest = non_empty ps in if p == [] then rest else p ∷ rest

-- parts[-2], parts[-1], if there are so many.
last_two : List Text → Option (Text × Text)
last_two [] = none
last_two (a ∷ []) = none
last_two (a ∷ b ∷ []) = some (a, b)
last_two (a ∷ b ∷ c ∷ ps) = last_two (b ∷ c ∷ ps)

strip_git : Text → Text
unfolding ends_with without_end
strip_git name = if ends_with (codes ".git") name then without_end (codes ".git") name else name

-- The owner and the name, if neither is empty.
named : Text → Text → Option (Text × Text)
named owner name = if owner == [] || name == [] then none else some (lower owner, lower name)

unfoldable pub split_repo_url : Text → Option (Text × Text)
unfolding non_empty last_two strip_git named split after_first
split_repo_url url = elim (last_two (non_empty (split b'/' (after_first (codes "://") url)))) [
  | none ↦ none
  | some (owner, name) ↦ named owner (strip_git name)
]

-- Two sets of texts.
pub record Blocklist : Type 0 where
  pub owners : List Text
  pub repos : List Text

abbrev pub empty : Blocklist
empty = record { owners = []; repos = [] }

-- s.add(x)
unfoldable pub add : Text → List Text → List Text
add x s = if contains s x then s else x ∷ s

slug : Text → Text → Text
slug owner name = owner ++ b'/' ∷ name

-- What one line of the file adds.
unfoldable pub parse_line : Text → Blocklist → Blocklist
unfolding add slug
parse_line raw b =
    let entry = strip (before_first b'#' raw) in
    if entry == []
    then b
    else if not (contains entry b'/')
    then record b { owners = add (lower entry) b.owners }
    else elim (split_repo_url entry) [
      | none ↦ b
      | some (owner, name) ↦ record b { repos = add (slug owner name) b.repos }
    ]

parse_lines : List Text → Blocklist → Blocklist
unfolding parse_line
parse_lines [] b = b
parse_lines (raw ∷ rest) b = parse_lines rest (parse_line raw b)

unfoldable pub parse : Text → Blocklist
unfolding parse_lines lines
parse text = parse_lines (lines text) empty

unfoldable pub matches : Blocklist → Text → Bool
unfolding slug
matches b url = elim (split_repo_url url) [
  | none ↦ false
  | some (owner, name) ↦ contains b.owners owner || contains b.repos (slug owner name)
]

owner_pattern : Text → Text
owner_pattern owner = codes "%/" ++ escape_like owner ++ codes "/%"

repo_patterns : List Text → List Text
repo_patterns [] = []
repo_patterns (s ∷ ss) =
    (codes "%/" ++ escape_like s) ∷ (codes "%/" ++ escape_like s ++ codes "/%") ∷ repo_patterns ss

unfoldable pub like_patterns : Blocklist → List Text
unfolding owner_pattern repo_patterns sorted
like_patterns b = map owner_pattern (sorted b.owners) ++ repo_patterns (sorted b.repos)
