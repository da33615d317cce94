-- ===== src/Builder/Artifacts.antt =====
-- backend/assemblage/builder/artifacts.py, for a builder with an artifact bucket: the binaries of a
-- build and the manifest that accounts for them.
pub mod Storing
use assemblage.Prelude.{
  ℕ, ◌+◌, Bool, true, false, not, ◌&&◌, ◌==◌, nat_eq, list_eq, if◌then◌else◌, List, [], ◌∷◌, ◌++◌,
  contains, length, map, Option, none, some, Text, codes,
}
use assemblage.Str.{lower}
use assemblage.Db.Query.{where_}
use assemblage.Storage.Bucket.{Bucket, put}
use assemblage.Storage.Layout.{
  build_dir, binary_key, export_manifest_key, compressed_suffix, compressed_metadata_key,
  metadata_filename,
}
use assemblage.Builder.Ir.{basename, sum}

pub record ObjectRecord : Type 0 where
  pub file : Text
  pub raw_bytes : ℕ
  pub stored_bytes : ℕ

-- What `build_prefix` asks of a strategy: a Rust build has a codegen backend.
pub record BuildStrategy : Type 0 where
  pub codegen_backend : Option Text
  pub compiler : Text
  pub build_mode : Text

unfoldable pub build_prefix : BuildStrategy → Text → Text → Text → Text → Text
unfolding build_dir
build_prefix s owner project commit_hexsha compiler_flag =
    build_dir owner project commit_hexsha compiler_flag
      (elim s.codegen_backend [ some backend ↦ backend | none ↦ s.compiler ]) s.build_mode

-- A file that the strategy finds: its size and its compressed content, none if either raises.
pub record Binary : Type 0 where
  pub path : Text
  pub exists : Bool
  pub packed : Option (ℕ × Text)

-- `save_metadata_to_s3`: the size of the document and its compressed content, none if either raises.
pub save_metadata_to_s3 : Text → Option (ℕ × Text) → Bucket → Option ObjectRecord × Bucket
unfolding put compressed_metadata_key
save_metadata_to_s3 prefix none b = (none, b)
save_metadata_to_s3 prefix (some (raw, packed)) b =
    let (fine, b') = put (compressed_metadata_key prefix) packed b in
    (
      if fine
          then some (record {
            file = metadata_filename ++ compressed_suffix;
            raw_bytes = raw;
            stored_bytes = length packed;
          })
          else none,
      b',
    )

pub record SavedBinaries : Type 0 where
  pub all_saved : Bool
  pub file_names : List Text
  pub records : List ObjectRecord

-- A file that was compressed is reported and recorded, also if its upload failed.
unfoldable pub with_file : Binary → ℕ → Text → Bool → SavedBinaries → SavedBinaries
unfolding basename
with_file f raw packed fine later = record {
  all_saved = fine && later.all_saved;
  file_names = f.path ∷ later.file_names;
  records =
      record {
        file = basename f.path ++ compressed_suffix;
        raw_bytes = raw;
        stored_bytes = length packed;
      }
      ∷ later.records;
}

-- One file of the loop, before the files `later`.
unfoldable pub save_file :
    Text
    → Binary
    → (Bucket → SavedBinaries × Bucket)
    → Option (ℕ × Text)
    → Bucket
    → SavedBinaries × Bucket
unfolding with_file put binary_key basename
save_file prefix f later none b =
    let (saved, b') = later b in (record saved { all_saved = false }, b')
save_file prefix f later (some (raw, packed)) b =
    let (fine, b1) = put (binary_key prefix (basename f.path)) packed b in
    let (saved, b2) = later b1 in (with_file f raw packed fine saved, b2)

unfoldable pub save_files : Text → List Binary → Bucket → SavedBinaries × Bucket
unfolding save_file
save_files prefix [] b = (record { all_saved = true; file_names = []; records = [] }, b)
save_files prefix (f ∷ fs) b = save_file prefix f (save_files prefix fs) f.packed b

-- The files that are there and that the source did not have, in the order of the set.
unfoldable pub bin_found : List Text → List Binary → List Binary
unfolding where_
bin_found original_files = where_ (λ (f : Binary). f.exists && not (contains original_files f.path))

unfoldable pub saved_found : Text → List Binary → Bucket → SavedBinaries × Bucket
unfolding save_files
saved_found prefix [] b = (record { all_saved = false; file_names = []; records = [] }, b)
saved_found prefix (f ∷ fs) b = save_files prefix (f ∷ fs) b

unfoldable pub save_binaries : Text → List Text → List Binary → Bucket → SavedBinaries × Bucket
unfolding saved_found bin_found
save_binaries prefix original_files found b = saved_found prefix (bin_found original_files found) b

-- The fields of `export.json` that are computed.
pub record ExportManifest : Type 0 where
  pub source_prefix : Text
  pub binaries : List ObjectRecord
  pub metadata : Option ObjectRecord
  pub ir : List ObjectRecord
  pub has_ir : Bool
  pub has_metadata : Bool
  pub raw_bytes : ℕ
  pub stored_bytes : ℕ
  pub repo_url : Text
  pub commit : Text

one_or_none : Option ObjectRecord → List ObjectRecord
one_or_none none = []
one_or_none (some r) = r ∷ []

pub export_manifest :
    Text
    → Text
    → Text
    → Option ObjectRecord
    → List ObjectRecord
    → List ObjectRecord
    → ExportManifest
unfolding sum one_or_none
export_manifest prefix url commit_hexsha metadata binaries ir =
    let all = binaries ++ (ir ++ one_or_none metadata) in
    record {
      source_prefix = prefix;
      binaries = binaries;
      metadata = metadata;
      ir = ir;
      has_ir = not (length ir == 0);
      has_metadata = not (length (one_or_none metadata) == 0);
      raw_bytes = sum (map (λ (r : ObjectRecord). r.raw_bytes) all);
      stored_bytes = sum (map (λ (r : ObjectRecord). r.stored_bytes) all);
      repo_url = url;
      commit = commit_hexsha;
    }
