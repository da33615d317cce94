-- ===== src/Str/Replace.antt =====
-- `s.replace(old, new)`: every occurrence, from the left, none overlapping another.
use assemblage.Prelude.{ℕ, zero, suc, ◌-◌, Bool, if◌then◌else◌, [], ◌∷◌, ◌++◌, Text, length}
use assemblage.Str.{starts_with}

-- How many characters are still to be passed over after this one.
passing : Text → ℕ → Bool → ℕ
passing old zero hit = if hit then length old - 1 else 0
passing old (suc k) hit = k

emit : Text → ℕ → Bool → ℕ → Text → Text
emit new zero hit c rest = if hit then new ++ rest else c ∷ rest
emit new (suc k) hit c rest = rest

-- `k` characters of an occurrence are left.
replace_from : Text → Text → ℕ → Text → Text
unfolding passing emit
replace_from old new k [] = []
replace_from old new k (c ∷ s) =
    let hit = starts_with old (c ∷ s) in
    emit new k hit c (replace_from old new (passing old k hit) s)

unfoldable pub replace : Text → Text → Text → Text
unfolding replace_from starts_with
replace old new s = replace_from old new 0 s
