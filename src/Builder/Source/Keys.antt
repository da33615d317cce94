-- ===== src/Builder/Source/Keys.antt =====
-- The keys of archives and pointers do not meet.
use assemblage.Prelude.{
  ℕ, ◌≡◌, ◌≢◌, refl, sym, ap, ◌∙◌, subst, nat_eq, list_eq, List, [], ◌∷◌, ◌++◌, Option, none, some,
  Text, codes, arith,
}
use mathlib.Core.Option.{some-injective}
use mathlib.Core.List.{append_assoc, append_cancel_right}
use assemblage.Storage.Bucket.{object_at, at-same, at-other}
use assemblage.Storage.Layout.{archive_key, pointer_key}

abbrev text_dec : Discrete Text
text_dec = list_eq.dec

-- The keys of the pointer and of an archive under one prefix `owner/project`.
abbrev pub pointer_in : Text → Text
pointer_in q = q ++ codes "/latest.txt"

abbrev pub archive_in : Text → Text → Text
archive_in q commit = q ++ (codes "/" ++ (commit ++ codes ".tar.gz"))

-- A pointer names a commit whose archive is in the bucket.
abbrev pub IsPointed : List (Text × Text) → Type 0
IsPointed objects =
    (q commit : Text)
    → object_at (pointer_in q) objects ≡ some commit
    → object_at (archive_in q commit) objects ≢ none

pub pointer_key-in :
    (owner project : Text)
    → pointer_key owner project ≡ pointer_in (owner ++ (codes "/" ++ project))
unfolding pointer_key
pointer_key-in owner project = sym (append_assoc owner (codes "/" ++ project) (codes "/latest.txt"))

pub archive_key-in :
    (owner project commit : Text)
    → archive_key owner project commit ≡ archive_in (owner ++ (codes "/" ++ project)) commit
unfolding archive_key
archive_key-in owner project commit =
    sym (append_assoc owner (codes "/" ++ project) (codes "/" ++ (commit ++ codes ".tar.gz")))

unfoldable pub last_char : Text → ℕ
last_char [] = 0
last_char (c ∷ []) = c
last_char (c ∷ d ∷ s) = last_char (d ∷ s)

pub last_char-append : (x s : Text) (c : ℕ) → last_char (x ++ c ∷ s) ≡ last_char (c ∷ s)
unfolding last_char
last_char-append [] s c = refl
last_char-append (a ∷ []) s c = refl
last_char-append (a ∷ b ∷ x) s c = last_char-append (b ∷ x) s c

pub keys-differ : (q q' commit : Text) → pointer_in q ≢ archive_in q' commit
unfolding last_char
keys-differ q q' commit e =
    let ends_in_t : last_char (pointer_in q) ≡ b't' =
      last_char-append q (codes "latest.txt") b'/' in
    let ends_in_z : last_char (archive_in q' commit) ≡ b'z' =
      last_char-append q' (commit ++ codes ".tar.gz") b'/'
      ∙ last_char-append (codes "/" ++ commit) (codes "tar.gz") b'.' in
    ne (sym ends_in_t ∙ ap last_char e ∙ ends_in_z)
  where
    ne : ◌≢◌ {A = ℕ} b't' b'z'
    ne h = omega (arith, h)

pub some-here : (o : Option Text) (v : Text) → o ≡ some v → o ≢ none
some-here o v e h = cc

-- An archive that is put under its key breaks no pointer.
pub archive-IsPointed :
    (q commit archive : Text) (os : List (Text × Text))
    → IsPointed os
    → IsPointed ((archive_in q commit, archive) ∷ os)
archive-IsPointed q commit archive os h q' c e =
    elim (text_dec (archive_in q commit) (archive_in q' c)) [
      | yes same ↦ some-here _ archive (
          subst (λ k. object_at k ((archive_in q commit, archive) ∷ os) ≡ some archive) same
            (at-same (archive_in q commit) archive os))
      | no other ↦ λ gone.
          h q' c
            (sym (
                at-other (pointer_in q') (archive_in q commit) archive os
                  (λ d. keys-differ q' q commit (sym d)))
              ∙ e)
            (sym (at-other (archive_in q' c) (archive_in q commit) archive os other) ∙ gone)
    ]

-- A pointer that is put when its archive is there.
pub pointer-IsPointed :
    (q commit : Text) (os : List (Text × Text))
    → object_at (archive_in q commit) os ≢ none
    → IsPointed os
    → IsPointed ((pointer_in q, commit) ∷ os)
pointer-IsPointed q commit os here h q' c e gone = elim (text_dec (pointer_in q) (pointer_in q')) [
  | yes same ↦
      let prefix : q ≡ q' = append_cancel_right q q' (codes "/latest.txt") same in
      let stored : some commit ≡ some c =
        sym (
          subst (λ k. object_at k ((pointer_in q, commit) ∷ os) ≡ some commit) same
            (at-same (pointer_in q) commit os))
        ∙ e in
      let hash : commit ≡ c = some-injective commit c stored in
      here (
        ap (λ k. object_at k os) (ap (λ p. archive_in p commit) prefix ∙ ap (archive_in q') hash)
        ∙ kept)
  | no other ↦ h q' c (sym (at-other (pointer_in q') (pointer_in q) commit os other) ∙ e) kept
]
  where
    kept : object_at (archive_in q' c) os ≡ none
    kept = sym (at-other (archive_in q' c) (pointer_in q) commit os (keys-differ q q' c)) ∙ gone
