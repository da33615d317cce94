-- ===== src/Storage/Layout.antt =====
-- backend/assemblage/storage/layout.py: the keys of the objects in the buckets.
pub mod Injectivity
use assemblage.Prelude.{Bool, ◌==◌, nat_eq, if◌then◌else◌, List, [], ◌∷◌, ◌++◌, Text, codes}

abbrev pub metadata_filename : Text
metadata_filename = codes "assemblage_meta.json"

abbrev pub ir_dirname : Text
ir_dirname = codes "ir"

abbrev pub ir_manifest_filename : Text
ir_manifest_filename = codes "manifest.json"

abbrev pub compressed_suffix : Text
compressed_suffix = codes ".zst"

abbrev pub binaries_dirname : Text
binaries_dirname = codes "binaries"

abbrev pub metadata_dirname : Text
metadata_dirname = codes "metadata"

abbrev pub export_manifest_filename : Text
export_manifest_filename = codes "export.json"

-- Two parts of a key.
abbrev pub joined : Text → Text → Text
joined a b = a ++ (codes "/" ++ b)

abbrev pub under : Text → Text → Text
under a b = a ++ (codes "_" ++ b)

abbrev pub dashed : Text → Text → Text
dashed a b = a ++ (codes "-" ++ b)

unfoldable pub artifact_prefix : Text → Text → Text → Text → Text → Text
artifact_prefix owner project sha12 compiler flag =
    under owner (under project (under sha12 (under compiler flag)))

unfoldable pub rust_artifact_prefix : Text → Text → Text → Text → Text → Text → Text
rust_artifact_prefix owner project sha12 backend mode flag =
    under owner (under project (under sha12 (codes "rustc-" ++ under backend (under mode flag))))

unfoldable pub artifact_key : Text → Text → Text
artifact_key prefix filename = joined prefix filename

unfoldable pub metadata_key : Text → Text
metadata_key prefix = joined prefix metadata_filename

unfoldable pub ir_prefix : Text → Text
ir_prefix prefix = joined prefix ir_dirname

unfoldable pub ir_tarball_key : Text → Text → Text
unfolding ir_prefix
ir_tarball_key prefix stage = joined (ir_prefix prefix) (stage ++ codes ".tar.gz")

unfoldable pub ir_manifest_key : Text → Text
unfolding ir_prefix
ir_manifest_key prefix = joined (ir_prefix prefix) ir_manifest_filename

-- flag.lstrip('-')
unfoldable pub without_dashes : Text → Text
without_dashes [] = []
without_dashes (c ∷ s) = let rest = without_dashes s in if c == b'-' then rest else c ∷ s

unfoldable pub build_dir : Text → Text → Text → Text → Text → Text → Text
unfolding without_dashes
build_dir owner project sha12 flag backend mode =
    under owner (under project (dashed sha12 (dashed (without_dashes flag) (dashed backend mode))))

unfoldable pub binary_key : Text → Text → Text
binary_key prefix filename = joined prefix (joined binaries_dirname (filename ++ compressed_suffix))

unfoldable pub compressed_metadata_key : Text → Text
compressed_metadata_key prefix =
    joined prefix (joined metadata_dirname (metadata_filename ++ compressed_suffix))

unfoldable pub export_manifest_key : Text → Text
export_manifest_key prefix = joined prefix export_manifest_filename

unfoldable pub archive_key : Text → Text → Text → Text
archive_key owner project sha12 = joined owner (joined project (sha12 ++ codes ".tar.gz"))

unfoldable pub pointer_key : Text → Text → Text
pointer_key owner project = joined owner (joined project (codes "latest.txt"))
