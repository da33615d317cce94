-- ===== src/Builder/Ir.antt =====
-- backend/assemblage/builder/ir.py: the IR files of a build, and one tarball for each stage of them.
pub mod Grouping
pub mod Packing
use assemblage.Prelude.{
  ℕ, suc, ◌+◌, Bool, true, false, not, ◌&&◌, ◌||◌, ltb, ◌==◌, nat_eq, list_eq, if◌then◌else◌, List,
  [], ◌∷◌, ◌++◌, length, contains, map, Option, none, some, Text, codes, decimal, sort,
}
use assemblage.Str.{ends_with, without_end, text_leb}
use assemblage.Str.Split.{split}
use assemblage.Enums.{IrStage, IrScope, ir_stage_value, ir_stage_eq, rides_along}
use assemblage.Db.Query.{where_}

pub record IrDump : Type 0 where
  pub stage : IrStage
  pub crate : Text
  pub scope : Text
  pub path : Text
  pub raw_bytes : ℕ

pub record IrBundle : Type 0 where
  pub tarballs : List (IrStage × Text)
  pub dumps : List IrDump
  pub skipped : List (Text × Text)

unfoldable pub sum : List ℕ → ℕ
sum [] = 0
sum (n ∷ ns) = n + sum ns

pub raw_bytes : IrBundle → ℕ
unfolding sum
raw_bytes b = sum (map (λ (d : IrDump). d.raw_bytes) b.dumps)

pub stored_bytes : IrBundle → ℕ
unfolding sum
stored_bytes b = sum (map (λ (t : IrStage × Text). length t.1) b.tarballs)

-- name.replace("-", "_")
unfoldable pub normalize_crate : Text → Text
normalize_crate [] = []
normalize_crate (c ∷ s) = (if c == b'-' then b'_' else c) ∷ normalize_crate s

last_part : List Text → Text
last_part [] = []
last_part (p ∷ []) = p
last_part (p ∷ q ∷ ps) = last_part (q ∷ ps)

unfoldable pub basename : Text → Text
unfolding split last_part
basename path = last_part (split b'/' path)

-- `rpartition`: the text before the last `c` and the one behind it.
rpartition : ℕ → Text → Option (Text × Text)
rpartition c [] = none
rpartition c (d ∷ s) = elim (rpartition c s) [
  | some parts ↦ some (d ∷ parts.0, parts.1)
  | none ↦ if d == c then some ([], s) else none
]

-- The suffixes of `_SUFFIX_TO_STAGE`.
suffix_to_stage : List (Text × IrStage)
suffix_to_stage =
    (codes ".ll", IrStage.llvm_ir) ∷ (codes ".mir", IrStage.mir) ∷ (codes ".s", IrStage.asm) ∷ []

without_suffix : List (Text × IrStage) → Text → Text
unfolding ends_with without_end
without_suffix [] stem = stem
without_suffix (e ∷ es) stem =
    let rest = without_suffix es stem in if ends_with e.0 stem then without_end e.0 stem else rest

is_hex : Text → Bool
is_hex [] = true
is_hex (c ∷ s) = contains (codes "0123456789abcdef") c && is_hex s

without_hash : Text → Option (Text × Text) → Text
unfolding is_hex
without_hash stem none = stem
without_hash stem (some (head, [])) = stem
without_hash stem (some (head, c ∷ tail)) = if is_hex (c ∷ tail) then head else stem

unfoldable pub crate_of : Text → Text
unfolding normalize_crate without_hash rpartition without_suffix basename suffix_to_stage
crate_of path =
    let stem = without_suffix suffix_to_stage (basename path) in
    normalize_crate (without_hash stem (rpartition b'-' stem))

unfoldable pub classify_scope : Text → List Text → Text
unfolding normalize_crate
classify_scope crate repo_crates =
    if contains repo_crates (normalize_crate crate) then codes "repo" else codes "dependency"

-- A file that `os.walk` finds: its path, and its size if it can be read.
abbrev Walked : Type 0
Walked = List (Text × Option ℕ)

all_dots : Text → Bool
all_dots [] = true
all_dots (c ∷ s) = c == b'.' && all_dots s

-- os.path.splitext(name)[1]
extension : Text → Text
unfolding rpartition all_dots
extension name = elim (rpartition b'.' name) [
  | none ↦ []
  | some parts ↦ if all_dots parts.0 then [] else b'.' ∷ parts.1
]

stage_of : List (Text × IrStage) → Text → Option IrStage
stage_of [] ext = none
stage_of (e ∷ es) ext = let rest = stage_of es ext in if e.0 == ext then some e.1 else rest

-- Is the crate kept under this scope?
in_scope : IrScope → Text → Bool
in_scope IrScope.repo crate_scope = crate_scope == codes "repo"
in_scope IrScope.all crate_scope = true

found_file : List IrStage → List Text → IrScope → Text → Option IrStage → Option ℕ → List IrDump
unfolding crate_of classify_scope in_scope
found_file wanted crates scope path none size = []
found_file wanted crates scope path (some stage) none = []
found_file wanted crates scope path (some stage) (some size) =
    let crate = crate_of path in
    let crate_scope = classify_scope crate crates in
    if contains wanted stage && in_scope scope crate_scope
    then record { stage = stage; crate = crate; scope = crate_scope; path = path; raw_bytes = size }
      ∷ []
    else []

found_files : List IrStage → List Text → IrScope → Walked → List IrDump
unfolding found_file extension stage_of basename suffix_to_stage
found_files wanted crates scope [] = []
found_files wanted crates scope ((path, size) ∷ fs) =
    found_file wanted crates scope path (stage_of suffix_to_stage (extension (basename path))) size
    ++ found_files wanted crates scope fs

-- The order of the triples (stage, crate, path).
dump_leb : IrDump → IrDump → Bool
unfolding text_leb ir_stage_value
dump_leb a b =
    if a.stage == b.stage
    then (if a.crate == b.crate then text_leb a.path b.path else text_leb a.crate b.crate)
    else text_leb (ir_stage_value a.stage) (ir_stage_value b.stage)

pub discover_ride_along : List IrStage → List Text → IrScope → Walked → List IrDump
unfolding found_files sort dump_leb where_ rides_along
discover_ride_along stages repo_crates scope files =
    sort dump_leb (found_files (where_ rides_along stages) repo_crates scope files)

-- The dumps by stage, in the order in which the stages first come.
abbrev pub Groups : Type 0
Groups = List (IrStage × List IrDump)

unfoldable pub add_dump : IrDump → Groups → Groups
add_dump d [] = (d.stage, d ∷ []) ∷ []
add_dump d (g ∷ gs) =
    let rest = add_dump d gs in if g.0 == d.stage then (g.0, g.1 ++ d ∷ []) ∷ gs else g ∷ rest

unfoldable pub group : List IrDump → Groups → Groups
unfolding add_dump
group [] gs = gs
group (d ∷ ds) gs = group ds (add_dump d gs)

unfoldable pub stage_leb : IrStage × List IrDump → IrStage × List IrDump → Bool
unfolding text_leb ir_stage_value
stage_leb a b = text_leb (ir_stage_value a.0) (ir_stage_value b.0)

-- `readable` says which files can be opened, and `tar_gz` stands for the tarball of some of them.
module _ (readable : IrDump → Bool) (tar_gz : List IrDump → Text) (max_bytes : ℕ) where
  unfoldable pub blob_of : List IrDump → Text
  unfolding where_
  blob_of entries = tar_gz (where_ readable entries)

  unfoldable pub too_large : Text → Bool
  too_large blob = not (max_bytes == 0) && ltb max_bytes (length blob)

  unfoldable pub reason : Text → Text
  unfolding decimal
  reason blob =
      codes "stage tarball "
      ++ (decimal (length blob) ++ (codes " bytes exceeds IR_MAX_BYTES=" ++ decimal max_bytes))

  unfoldable pub add_stage : IrStage → List IrDump → IrBundle → IrBundle
  unfolding blob_of too_large reason ir_stage_value
  add_stage stage entries later =
      let blob = blob_of entries in
      if too_large blob
      then record later { skipped = (ir_stage_value stage, reason blob) ∷ later.skipped }
      else record later {
        tarballs = (stage, blob) ∷ later.tarballs;
        dumps = entries ++ later.dumps;
      }

  unfoldable pub pack_groups : Groups → IrBundle
  unfolding add_stage
  pack_groups [] = record { tarballs = []; dumps = []; skipped = [] }
  pack_groups (g ∷ gs) = add_stage g.0 g.1 (pack_groups gs)

  unfoldable pub pack : List IrDump → IrBundle
  unfolding pack_groups sort stage_leb group
  pack dumps = pack_groups (sort stage_leb (group dumps []))
