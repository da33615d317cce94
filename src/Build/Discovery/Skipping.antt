-- ===== src/Build/Discovery/Skipping.antt =====
-- No binary is taken from a skipped folder.
use assemblage.Prelude.{
  ◌≡◌, Bool, true, false, List, [], ◌∷◌, ◌++◌, Text, codes, Bool-cases, inl, inr, if◌then◌else◌,
}
use assemblage.Db.Query.{All}
use assemblage.Db.Query.Laws.{All-append}
use assemblage.Build.Discovery.{
  File, Folder, folder, Folders, nil, cons, name_of, is_taken, taken_files, is_skipped, walk,
  walk_all, find_binaries,
}

-- No folder on the way is one of the skipped ones.
abbrev pub IsOwn : List Text × Text → Type 0
IsOwn x = All (λ name. is_skipped name ≡ false) x.0

taken_files-AreOwn :
    (save : Bool) (root : Text) (above : List Text) (fs : List File)
    → All (λ name. is_skipped name ≡ false) above
    → All IsOwn (taken_files save root above fs)
unfolding taken_files
taken_files-AreOwn save root above [] h = tt
taken_files-AreOwn save root above (f ∷ fs) h =
    by (is_taken save location f) (taken_files-AreOwn save root above fs h)
  where
    location : Text
    location = root ++ (codes "/" ++ f.name)

    by :
        (b : Bool)
        → All IsOwn (taken_files save root above fs)
        → All IsOwn (
            if b
            then (above, location) ∷ taken_files save root above fs
            else taken_files save root above fs)
    by true rest = (h, rest)
    by false rest = rest

mutual
  unfolding walk

  walk-AreOwn :
      (save : Bool) (root : Text) (above : List Text) (f : Folder)
      → All (λ name. is_skipped name ≡ false) above
      → All IsOwn (walk save root above f)
  walk-AreOwn save root above (folder name files below) h =
      All-append IsOwn (taken_files save root above files) (walk_all save root above below)
        (taken_files-AreOwn save root above files h) (walk_all-AreOwn save root above below h)

  walk_all-AreOwn :
      (save : Bool) (root : Text) (above : List Text) (fs : Folders)
      → All (λ name. is_skipped name ≡ false) above
      → All IsOwn (walk_all save root above fs)
  walk_all-AreOwn save root above nil h = tt
  walk_all-AreOwn save root above (cons f fs) h = elim (Bool-cases (is_skipped (name_of f))) [
    | inl e ↦ rw (e, walk_all) (walk_all-AreOwn save root above fs h)
    | inr e ↦
        rw (e, walk_all)
          (All-append IsOwn
            (walk save (root ++ (codes "/" ++ name_of f)) (above ++ name_of f ∷ []) f)
            (walk_all save root above fs)
            (walk-AreOwn save (root ++ (codes "/" ++ name_of f)) (above ++ name_of f ∷ []) f
              (All-append (λ name. is_skipped name ≡ false) above (name_of f ∷ []) h (e, tt)))
            (walk_all-AreOwn save root above fs h))
  ]

-- Whatever the tree holds, no file is taken from below a folder that is skipped, such as `vendor` or
-- `.git` in any case of letters. The folder where the search begins is not tested.
pub find_binaries-AreOwn :
    (save_assembly : Bool) (path : Text) (tree : Folder)
    → All IsOwn (find_binaries save_assembly path tree)
unfolding find_binaries
find_binaries-AreOwn save_assembly path tree = walk-AreOwn save_assembly path [] tree tt
