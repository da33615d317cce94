-- ===== src/Build/Detect/Choice.antt =====
-- Which build system `get_build_system` answers.
use assemblage.Prelude.{
  ◌≡◌, ◌≢◌, refl, sym, ap, ◌∙◌, ◌⊎◌, inl, inr, Bool, true, false, ◌||◌, ◌&&◌, ◌==◌, nat_eq, list_eq,
  ==_eq, ==_refl, contains, List, [], ◌∷◌, ◌++◌, map, Text, codes, arith, Bool-cases,
}
use mathlib.Core.Bool.{false≢true}
use assemblage.Str.{lower, lower_char, strip, is_infix, starts_with}
use assemblage.Db.Query.{exists, where_, All}
use assemblage.Build.Detect.{
  build_systems, priority_order, names_tool, tools_in, set_defaults, detect, detected_tools,
  fallback, by_priority, choose, get_build_system,
}

contains-append :
    (xs ys : List Text) (t : Text) → contains (xs ++ ys) t ≡ (contains xs t || contains ys t)
contains-append [] ys t = refl
contains-append (x ∷ xs) ys t = ground (arith, contains-append xs ys t)

or_swap : (a b c : Bool) → ((a || b) || c) ≡ (a || (b || c))
or_swap a b c = ground arith

or_seen : (s x ts : Bool) → (x ≡ true → s ≡ true) → (s || ts) ≡ (s || (x || ts))
or_seen s x ts h = ground arith

or_new : (s x ts : Bool) → ((s || (x || false)) || ts) ≡ (s || (x || ts))
or_new s x ts = ground arith

contains-set_defaults :
    (ts seen : List Text) (t : Text)
    → contains (set_defaults ts seen) t ≡ (contains seen t || contains ts t)
unfolding set_defaults
contains-set_defaults [] seen t = ground arith
contains-set_defaults (x ∷ ts) seen t = elim (Bool-cases (contains seen x)) [
  | inl e ↦
      rw (e, set_defaults)
        (contains-set_defaults ts seen t
          ∙ or_seen (contains seen t) (t == x) (contains ts t)
              (λ q. ap (contains seen) (==_eq t x q) ∙ e))
  | inr e ↦
      rw (e, set_defaults)
        (contains-set_defaults ts (seen ++ x ∷ []) t
          ∙ ap (λ b. b || contains ts t) (contains-append seen (x ∷ []) t)
          ∙ or_new (contains seen t) (t == x) (contains ts t))
]

-- Is a tool among those of one of the files?
pub named_by : List Text → Text → Bool
named_by files t = exists (λ f. contains (tools_in f) t) files

contains-detect :
    (files seen : List Text) (t : Text)
    → contains (detect files seen) t ≡ (contains seen t || named_by files t)
unfolding detect named_by exists
contains-detect [] seen t = ground arith
contains-detect (f ∷ files) seen t =
    contains-detect files (set_defaults (tools_in f) seen) t
    ∙ ap (λ b. b || named_by files t) (contains-set_defaults (tools_in f) seen t)
    ∙ or_swap (contains seen t) (contains (tools_in f) t) (named_by files t)

contains-where :
    (p : Text × List Text → Bool) (k : Text) (xs : List (Text × List Text))
    → All (λ t. (k == t.0 && p t) ≡ false) xs
    → contains (map (λ (t : Text × List Text). t.0) (where_ p xs)) k ≡ false
unfolding where_
contains-where p k [] h = refl
contains-where p k (x ∷ xs) h = elim (Bool-cases (p x)) [
  | inl e ↦ rw (e, where_) (ground (arith, h.0, contains-where p k xs h.1))
  | inr e ↦ rw (e, where_) (contains-where p k xs h.1)
]

-- No capital letter is left in a lower text.
is_infix-lower : (p s : Text) → is_infix (b'B' ∷ p) (lower s) ≡ false
unfolding is_infix starts_with lower lower_char
is_infix-lower p [] = refl
is_infix-lower p (c ∷ s) = ground (arith, is_infix-lower p s)

named_by-nowhere :
    (files : List Text) (t : Text)
    → ((f : Text) → contains (tools_in f) t ≡ false)
    → named_by files t ≡ false
unfolding named_by exists
named_by-nowhere [] t h = refl
named_by-nowhere (f ∷ files) t h = rw (h f) (named_by-nowhere files t h)

buck_unnamed : (f : Text) → contains (tools_in f) (codes "buck") ≡ false
unfolding tools_in list_eq nat_eq
buck_unnamed f = contains-where (names_tool f) (codes "buck") build_systems (
  refl,
  (
    refl,
    (
      refl,
      (
        refl,
        (
          refl,
          (
            refl,
            (
              refl,
              (refl, (buck, (refl, (refl, (refl, (refl, (refl, (refl, (refl, (refl, tt)))))))))),
            ),
          ),
        ),
      ),
    ),
  ),
)
  where
    buck : (codes "buck" == codes "buck" && names_tool f (codes "buck", codes "BUCK" ∷ [])) ≡ false
    buck = unfold names_tool exists in rw (is_infix-lower (codes "UCK") (strip f)) refl

-- Each tool of the order up to the answer is the answer or is named by no file.
abbrev pub IsFirst : List Text → List Text → Text → Type 0
IsFirst files [] r = Unit
IsFirst files (t ∷ ts) r = (t ≡ r) ⊎ (named_by files t ≡ false) × IsFirst files ts r

by_priority-detected :
    (ts d : List Text) (t : Text) → contains d t ≡ true → contains d (by_priority ts d t) ≡ true
unfolding by_priority
by_priority-detected [] d t h = h
by_priority-detected (x ∷ ts) d t h = elim (Bool-cases (contains d x)) [
  | inl e ↦ rw (e, by_priority) e
  | inr e ↦ rw (e, by_priority) (by_priority-detected ts d t h)
]

by_priority-IsFirst :
    (files ts d : List Text) (t : Text)
    → ((k : Text) → contains d k ≡ named_by files k)
    → IsFirst files ts (by_priority ts d t)
unfolding by_priority
by_priority-IsFirst files [] d t h = tt
by_priority-IsFirst files (x ∷ ts) d t h = elim (Bool-cases (contains d x)) [
  | inl e ↦ rw (e, by_priority) (inl refl)
  | inr e ↦ rw (e, by_priority) (inr (sym (h x) ∙ e, by_priority-IsFirst files ts d t h))
]

detected-named :
    (files : List Text) (t : Text) → contains (detected_tools files) t ≡ named_by files t
unfolding detected_tools
detected-named files t = contains-detect files [] t

choose-named :
    (files d : List Text) (t : Text)
    → ((k : Text) → contains d k ≡ named_by files k)
    → named_by files t ≡ true
    → (named_by files (choose files d) ≡ true) × IsFirst files priority_order (choose files d)
unfolding choose
choose-named files [] t h n = absurd (false≢true (h t ∙ n))
choose-named files (x ∷ d) t h n = (
  sym (h _) ∙ by_priority-detected priority_order (x ∷ d) x (rw (==_refl x) refl),
  by_priority-IsFirst files priority_order (x ∷ d) x h,
)

-- If a file name holds a keyword of some tool, the answer is a tool that a file names, and no tool
-- before it in the priority order is named by any file.
pub get_build_system-IsFirst :
    (files : List Text) (t : Text)
    → named_by files t ≡ true
    → (named_by files (get_build_system files) ≡ true)
      × IsFirst files priority_order (get_build_system files)
unfolding get_build_system
get_build_system-IsFirst files t n =
    choose-named files (detected_tools files) t (detected-named files) n

fallback-not_buck : (files : List Text) → fallback files ≢ codes "buck"
unfolding fallback
fallback-not_buck files e = ground arith

choose-not_buck :
    (files d : List Text)
    → ((k : Text) → contains d k ≡ named_by files k)
    → choose files d ≢ codes "buck"
unfolding choose
choose-not_buck files [] h e = fallback-not_buck files e
choose-not_buck files (x ∷ d) h e = false≢true (
    sym (h (codes "buck") ∙ named_by-nowhere files (codes "buck") buck_unnamed)
    ∙ sym (ap (contains (x ∷ d)) e)
    ∙ by_priority-detected priority_order (x ∷ d) x (rw (==_refl x) refl))

-- No list of files is answered with "buck": its keyword is compared with a name in lower case.
pub get_build_system-not_buck : (files : List Text) → get_build_system files ≢ codes "buck"
unfolding get_build_system
get_build_system-not_buck files =
    choose-not_buck files (detected_tools files) (detected-named files)

pub makefile_named : named_by (codes "src/Makefile" ∷ []) (codes "make") ≡ true
unfolding named_by tools_in where_ exists names_tool lower lower_char strip is_infix starts_with
    list_eq nat_eq
makefile_named = refl
