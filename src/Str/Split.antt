-- ===== src/Str/Split.antt =====
-- Splitting a text.
use assemblage.Prelude.{
  ℕ, Bool, if◌then◌else◌, List, [], ◌∷◌, Text, length, drop, contains, ◌==◌, nat_eq, Option, none,
  some,
}
use assemblage.Str.{starts_with}

-- A character in front of the first piece.
unfoldable pub onto_first : ℕ → List Text → List Text
onto_first c [] = (c ∷ []) ∷ []
onto_first c (p ∷ ps) = (c ∷ p) ∷ ps

-- The pieces of `s` between the characters that `sep` accepts.
unfoldable pub split_where : (ℕ → Bool) → Text → List Text
unfolding onto_first
split_where sep [] = [] ∷ []
split_where sep (c ∷ s) =
    let rest = split_where sep s in if sep c then [] ∷ rest else onto_first c rest

-- s.split(c) for one character
unfoldable pub split : ℕ → Text → List Text
unfolding split_where
split c = split_where (λ d. d == c)

-- s.splitlines(), where "\r\n" counts as two ends of line: an empty line more.
abbrev pub line_ends : List ℕ
line_ends = 10 ∷ 11 ∷ 12 ∷ 13 ∷ 28 ∷ 29 ∷ 30 ∷ 133 ∷ 8232 ∷ 8233 ∷ []

unfoldable pub lines : Text → List Text
unfolding split_where
lines = split_where (contains line_ends)

-- What stands behind the first `sep`.
unfoldable pub behind : Text → Text → Option Text
unfolding starts_with
behind sep [] = if starts_with sep [] then some [] else none
behind sep (c ∷ s) =
    let rest = behind sep s in
    if starts_with sep (c ∷ s) then some (drop (length sep) (c ∷ s)) else rest

-- s.split(sep, 1)[-1]
unfoldable pub after_first : Text → Text → Text
unfolding behind
after_first sep s = elim (behind sep s) [ none ↦ s | some t ↦ t ]

-- s.split(c, 1)[0] for one character
unfoldable pub before_first : ℕ → Text → Text
before_first c [] = []
before_first c (d ∷ s) = let rest = before_first c s in if d == c then [] else d ∷ rest
