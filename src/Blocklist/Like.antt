-- ===== src/Blocklist/Like.antt =====
-- The documented meaning of SQL's `value ILIKE pattern ESCAPE '\'`, as a function that can be run.
use assemblage.Prelude.{
  ℕ, Bool, false, ◌||◌, ◌&&◌, if◌then◌else◌, ◌==◌, nat_eq, list_eq, [], ◌∷◌, Text,
}
use assemblage.Str.{lower_char}

-- Some end of the text passes the test.
any_end : (Text → Bool) → Text → Bool
any_end p [] = p []
any_end p (c ∷ s) = p (c ∷ s) || any_end p s

-- The text begins with the character, in either case, and its rest passes the test.
one : ℕ → (Text → Bool) → Text → Bool
unfolding lower_char
one c p [] = false
one c p (d ∷ s) = lower_char c == lower_char d && p s

any_one : (Text → Bool) → Text → Bool
any_one p [] = false
any_one p (d ∷ s) = p s

-- `escaped`: a `\` stands in front of the pattern.
like_from : Bool → Text → Text → Bool
unfolding any_end one any_one
like_from escaped [] s = s == []
like_from escaped (c ∷ p) s =
    let rest = like_from (if escaped then false else c == b'\\') p in
    if escaped
    then one c rest s
    else if c == b'%'
    then any_end rest s
    else if c == b'_'
    then any_one rest s
    else if c == b'\\'
    then rest s
    else one c rest s

unfoldable pub like : Text → Text → Bool
unfolding like_from
like pattern value = like_from false pattern value
