-- ===== src/Str.antt =====
-- Python's `str` methods that the program calls, over texts as code points. `lower` and `ilike`
-- compare letters of ASCII; texts outside ASCII keep their code points.
pub mod Replace
pub mod Split
use assemblage.Prelude.{
  ℕ, suc, ◌+◌, ◌-◌, Bool, true, false, ◌&&◌, ◌||◌, ltb, leb, ◌==◌, nat_eq, list_eq, contains,
  if◌then◌else◌, List, [], ◌∷◌, ◌++◌, map, Text, codes, length, drop, take, Option, none, some,
}

unfoldable pub lower_char : ℕ → ℕ
lower_char c = if leb b'A' c && leb c b'Z' then c + 32 else c

-- s.lower()
unfoldable pub lower : Text → Text
unfolding lower_char
lower = map lower_char

-- s.startswith(p)
unfoldable pub starts_with : Text → Text → Bool
starts_with [] s = true
starts_with (c ∷ p) [] = false
starts_with (c ∷ p) (d ∷ s) = c == d && starts_with p s

-- p in s
unfoldable pub is_infix : Text → Text → Bool
unfolding starts_with
is_infix p [] = starts_with p []
is_infix p (c ∷ s) = starts_with p (c ∷ s) || is_infix p s

-- s.endswith(p), and s[:-len(p)]
unfoldable pub ends_with : Text → Text → Bool
ends_with p s = leb (length p) (length s) && drop (length s - length p) s == p

unfoldable pub without_end : Text → Text → Text
without_end p s = take (length s - length p) s

-- s[-n:] for a positive n
unfoldable pub last_n : ℕ → Text → Text
last_n n s = drop (length s - n) s

-- What `s.strip()` takes off.
abbrev pub whitespace : List ℕ
whitespace =
    9 ∷ 10 ∷ 11 ∷ 12 ∷ 13 ∷ 28 ∷ 29 ∷ 30 ∷ 31 ∷ 32 ∷ 133 ∷ 160 ∷ 5760 ∷ 8192 ∷ 8193 ∷ 8194 ∷ 8195
    ∷ 8196 ∷ 8197 ∷ 8198 ∷ 8199 ∷ 8200 ∷ 8201 ∷ 8202 ∷ 8232 ∷ 8233 ∷ 8239 ∷ 8287 ∷ 12288 ∷ []

unfoldable pub lstrip : Text → Text
lstrip [] = []
lstrip (c ∷ s) = let rest = lstrip s in if contains whitespace c then rest else c ∷ s

-- The text without the whitespace at its end.
rstrip_cons : ℕ → Text → Text
rstrip_cons c [] = if contains whitespace c then [] else c ∷ []
rstrip_cons c (d ∷ s) = c ∷ d ∷ s

unfoldable pub rstrip : Text → Text
unfolding rstrip_cons
rstrip [] = []
rstrip (c ∷ s) = rstrip_cons c (rstrip s)

unfoldable pub strip : Text → Text
unfolding lstrip rstrip
strip s = rstrip (lstrip s)

-- The order of `sorted` on texts.
unfoldable pub text_leb : Text → Text → Bool
text_leb [] t = true
text_leb (c ∷ s) [] = false
text_leb (c ∷ s) (d ∷ t) = ltb c d || (c == d && text_leb s t)

insert_sorted : Text → List Text → List Text
insert_sorted s [] = s ∷ []
insert_sorted s (t ∷ ts) =
    let rest = insert_sorted s ts in if text_leb s t then s ∷ t ∷ ts else t ∷ rest

-- sorted(xs)
unfoldable pub sorted : List Text → List Text
unfolding insert_sorted text_leb
sorted [] = []
sorted (s ∷ ts) = insert_sorted s (sorted ts)
