-- ===== src/Build/Discovery.antt =====
-- `find_binaries` of backend/assemblage/build/discovery.py over a tree of folders.
pub mod Skipping
use assemblage.Prelude.{
  Bool, true, false, not, ◌&&◌, ◌||◌, ◌==◌, nat_eq, list_eq, if◌then◌else◌, List, [], ◌∷◌, ◌++◌,
  contains, Option, none, some, Text, codes,
}
use assemblage.Str.{lower, ends_with}
use assemblage.Db.Query.{exists}

abbrev pub skip_dirs : List Text
skip_dirs =
    codes ".git"
    ∷ codes "third_party"
    ∷ codes "3rdparty"
    ∷ codes "thirdparty"
    ∷ codes "vendor"
    ∷ codes "external"
    ∷ codes "deps"
    ∷ codes "debian"
    ∷ codes "node_modules"
    ∷ codes ".cache"
    ∷ codes "testdata"
    ∷ codes "test_data"
    ∷ []

binary_exts : List Text
binary_exts = codes ".pdb" ∷ codes ".exe" ∷ codes ".dll" ∷ codes ".lib" ∷ []

-- The test is made on the path in lower case, so ".S" is never at its end.
assembly_exts : List Text
assembly_exts =
    codes ".s"
    ∷ codes ".ii"
    ∷ codes ".bc"
    ∷ codes ".S"
    ∷ codes ".obj"
    ∷ codes ".asm"
    ∷ codes ".cod"
    ∷ []

-- A file: does it exist, is it a regular file, and what the ELF or PE reader says of it: true for an
-- executable, none where opening it raises.
pub record File : Type 0 where
  pub name : Text
  pub exists_now : Bool
  pub is_file : Bool
  pub executable : Option Bool

mutual
  -- A folder with its files and the folders in it.
  pub data Folder : Type 0 where
    folder : Text → List File → Folders → Folder

  pub data Folders : Type 0 where
    nil : Folders
    cons : Folder → Folders → Folders

ends_with_any : List Text → Text → Bool
unfolding exists ends_with
ends_with_any exts location = exists (λ e. ends_with e location) exts

read_as_executable : Option Bool → Bool
read_as_executable none = false
read_as_executable (some b) = b

-- Is the file at this location taken?
unfoldable pub is_taken : Bool → Text → File → Bool
unfolding ends_with_any assembly_exts binary_exts read_as_executable lower
is_taken save_assembly location f =
    f.exists_now
    && ((save_assembly && ends_with_any assembly_exts (lower location))
        || f.name == codes "pdbinfo.json"
        || (ends_with_any binary_exts (lower location) && f.is_file)
        || read_as_executable f.executable)

-- The taken files of a folder, each with the names of the folders that lead to it.
unfoldable pub taken_files : Bool → Text → List Text → List File → List (List Text × Text)
unfolding is_taken
taken_files save_assembly root above [] = []
taken_files save_assembly root above (f ∷ fs) =
    let rest = taken_files save_assembly root above fs in
    let location = root ++ (codes "/" ++ f.name) in
    if is_taken save_assembly location f then (above, location) ∷ rest else rest

unfoldable pub is_skipped : Text → Bool
unfolding lower
is_skipped name = contains skip_dirs (lower name)

unfoldable pub name_of : Folder → Text
name_of (folder name files below) = name

unfoldable mutual
  unfolding taken_files is_skipped name_of

  -- `os.walk` from a folder at `root`: a skipped folder is not entered.
  pub walk : Bool → Text → List Text → Folder → List (List Text × Text)
  walk save_assembly root above (folder name files below) =
      taken_files save_assembly root above files ++ walk_all save_assembly root above below

  pub walk_all : Bool → Text → List Text → Folders → List (List Text × Text)
  walk_all save_assembly root above nil = []
  walk_all save_assembly root above (cons f fs) =
      let rest = walk_all save_assembly root above fs in
      let here =
        walk save_assembly (root ++ (codes "/" ++ name_of f)) (above ++ name_of f ∷ []) f in
      if is_skipped (name_of f) then rest else here ++ rest

-- The locations, with the folders below `path` that lead to each.
unfoldable pub find_binaries : Bool → Text → Folder → List (List Text × Text)
unfolding walk
find_binaries save_assembly path tree = walk save_assembly path [] tree
