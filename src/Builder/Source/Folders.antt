-- ===== src/Builder/Source/Folders.antt =====
-- The owner and the project are the last parts of the folder of a clone.
use assemblage.Prelude.{
  ℕ, ◌≡◌, ◌≢◌, refl, sym, ap, ◌∙◌, Bool, true, false, ◌==◌, nat_eq, list_eq, contains,
  if◌then◌else◌, List, [], ◌∷◌, ◌++◌, Text, codes, Bool-cases, inl, inr, arith,
}
use mathlib.Core.List.{append_assoc}
use assemblage.Str.Split.{split, split_where, onto_first}
use assemblage.Storage.Layout.{joined}
use assemblage.Builder.Source.{rstrip_slash, last_two, owner_project}

-- A name has no slash.
abbrev pub IsName : Text → Type 0
IsName s = contains s b'/' ≡ false

abbrev is_slash : ℕ → Bool
is_slash d = d == b'/'

split-name : (s : Text) → IsName s → split_where is_slash s ≡ s ∷ []
unfolding split_where onto_first
split-name [] h = refl
split-name (c ∷ s) h = ground (arith, split-name s)

split-nonempty : (x : Text) → split_where is_slash x ≢ []
unfolding split_where onto_first
split-nonempty [] e = absurd (cc)
split-nonempty (c ∷ x) e = by (is_slash c) (split_where is_slash x) e
  where
    by : (b : Bool) (ps : List Text) → (if b then [] ∷ ps else onto_first c ps) ≡ [] → ⊥
    by true ps e = absurd (cc)
    by false [] e = absurd (cc)
    by false (p ∷ ps) e = absurd (cc)

onto_first-append :
    (c : ℕ) (ps : List Text) (s : Text)
    → ps ≢ []
    → onto_first c (ps ++ s ∷ []) ≡ onto_first c ps ++ s ∷ []
unfolding onto_first
onto_first-append c [] s h = absurd (h refl)
onto_first-append c (p ∷ ps) s h = refl

split-last :
    (x s : Text)
    → IsName s
    → split_where is_slash (x ++ b'/' ∷ s) ≡ split_where is_slash x ++ s ∷ []
unfolding split_where nat_eq
split-last [] s h = ap (λ l. [] ∷ l) (split-name s h)
split-last (c ∷ x) s h = elim (Bool-cases (is_slash c)) [
  | inl e ↦ rw (e, split_where) (ap (λ l. [] ∷ l) (split-last x s h))
  | inr e ↦
      rw (e, split_where)
        (ap (onto_first c) (split-last x s h)
          ∙ onto_first-append c (split_where is_slash x) s (split-nonempty x))
]

last_two-append : (ps : List Text) (a b : Text) → last_two (ps ++ a ∷ b ∷ []) ≡ (a, b)
unfolding last_two
last_two-append [] a b = refl
last_two-append (p ∷ []) a b = refl
last_two-append (p ∷ q ∷ []) a b = refl
last_two-append (p ∷ q ∷ r ∷ ps) a b = last_two-append (q ∷ r ∷ ps) a b

rstrip-name : (s : Text) → IsName s → rstrip_slash s ≡ s
unfolding rstrip_slash
rstrip-name [] h = refl
rstrip-name (c ∷ s) h = ground (arith, rstrip-name s)

append-nonempty : (x : Text) (c : ℕ) (s : Text) → ((x ++ c ∷ s) == []) ≡ false
unfolding list_eq
append-nonempty [] c s = refl
append-nonempty (d ∷ x) c s = refl

rstrip-append :
    (x : Text) (c : ℕ) (s : Text) → IsName (c ∷ s) → rstrip_slash (x ++ c ∷ s) ≡ x ++ c ∷ s
unfolding rstrip_slash
rstrip-append [] c s h = rstrip-name (c ∷ s) h
rstrip-append (d ∷ x) c s h =
    let rest = rstrip-append x c s h in
    let more = append-nonempty x c s in rw (rest, more) (ground arith)

-- For names without a slash, the folder of a clone has the owner and the project at its end.
pub owner_project-joined :
    (base owner : Text) (c : ℕ) (project : Text)
    → IsName owner
    → IsName (c ∷ project)
    → owner_project (joined base (joined owner (c ∷ project))) ≡ (owner, c ∷ project)
unfolding owner_project split
owner_project-joined base owner c project h k =
    ap (λ s. last_two (split_where is_slash s))
      (ap rstrip_slash path
        ∙ rstrip-append (before ++ codes "/") c project k
        ∙ append_assoc before (codes "/") (c ∷ project))
    ∙ ap last_two (
        split-last before (c ∷ project) k
        ∙ ap (λ ps. ps ++ (c ∷ project) ∷ []) (split-last base owner h)
        ∙ append_assoc (split_where is_slash base) (owner ∷ []) ((c ∷ project) ∷ []))
    ∙ last_two-append (split_where is_slash base) owner (c ∷ project)
  where
    before : Text
    before = base ++ (codes "/" ++ owner)

    path : joined base (joined owner (c ∷ project)) ≡ before ++ codes "/" ++ c ∷ project
    path = sym (
        append_assoc before (codes "/") (c ∷ project)
        ∙ append_assoc base (codes "/" ++ owner) (codes "/" ++ c ∷ project))
