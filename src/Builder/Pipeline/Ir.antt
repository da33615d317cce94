-- ===== src/Builder/Pipeline/Ir.antt =====
-- `_persist_ir` of backend/assemblage/builder/pipeline.py: the tarballs of a bundle go to the bucket,
-- and a record of each is reported. The answers of `put_bytes` are not looked at.
pub mod Storing
use assemblage.Prelude.{
  ℕ, ◌≡◌, refl, ap, ◌∙◌, Bool, true, false, ◌==◌, nat_eq, list_eq, if◌then◌else◌, List, [], ◌∷◌,
  ◌++◌, length, contains, map, Option, none, some, Text, codes,
}
use assemblage.Enums.{IrStage, IrScope, ir_stage_eq, ir_stage_value}
use assemblage.Messages.{IrStageRecord}
use assemblage.Db.Query.{where_}
use assemblage.Storage.Bucket.{Bucket, put}
use assemblage.Storage.Layout.{ir_tarball_key, ir_manifest_key}
use assemblage.Builder.Artifacts.{ObjectRecord}
use assemblage.Builder.Ir.{IrDump, IrBundle, sum}
use assemblage.Builder.Ir.Grouping.{of_stage}
use assemblage.Builder.Pipeline.{StoredIr}

-- What `collect_ir` does: there is no such hook, it raises, or it returns a bundle or None.
pub data Collected : Type 0 where
  no_hook : Collected
  raised : Collected
  returned : Option IrBundle → Collected

-- What the strategy says of its IR.
pub record IrStrategy : Type 0 where
  pub ir_scope : IrScope
  pub toolchain : Text
  pub codegen_backend : Text

-- What is reported, what is returned, and the bucket.
pub record Persisted : Type 0 where
  pub report : Option StoredIr
  pub stored : List ObjectRecord
  pub bucket : Bucket

-- The members of the set of some texts, each once.
set_of : List Text → List Text
set_of [] = []
set_of (t ∷ ts) = let rest = set_of ts in if contains rest t then rest else t ∷ rest

raw_of : List IrDump → ℕ
unfolding sum
raw_of entries = sum (map (λ (d : IrDump). d.raw_bytes) entries)

unfoldable pub stage_record : Text → List IrDump → IrStage → Text → IrStageRecord
unfolding raw_of set_of where_ ir_tarball_key ir_stage_value
stage_record prefix dumps stage blob =
    let entries = where_ (of_stage stage) dumps in
    record {
      stage = stage;
      s3_key = ir_tarball_key prefix (ir_stage_value stage);
      file_count = length entries;
      crate_count = length (set_of (map (λ (d : IrDump). d.crate) entries));
      raw_bytes = raw_of entries;
      stored_bytes = length blob;
    }

unfoldable pub object_record : List IrDump → IrStage → Text → ObjectRecord
unfolding raw_of where_ ir_stage_value
object_record dumps stage blob = record {
  file = ir_stage_value stage ++ codes ".tar.gz";
  raw_bytes = raw_of (where_ (of_stage stage) dumps);
  stored_bytes = length blob;
}

-- The loop over the tarballs.
unfoldable pub put_stages : Text → List (IrStage × Text) → Bucket → Bucket
unfolding put ir_tarball_key ir_stage_value
put_stages prefix [] b = b
put_stages prefix ((stage, blob) ∷ ts) b =
    put_stages prefix ts (put (ir_tarball_key prefix (ir_stage_value stage)) blob b).1

unfoldable pub stage_records : Text → List IrDump → List (IrStage × Text) → List IrStageRecord
unfolding stage_record
stage_records prefix dumps [] = []
stage_records prefix dumps ((stage, blob) ∷ ts) =
    stage_record prefix dumps stage blob ∷ stage_records prefix dumps ts

unfoldable pub object_records : List IrDump → List (IrStage × Text) → List ObjectRecord
unfolding object_record
object_records dumps [] = []
object_records dumps ((stage, blob) ∷ ts) = object_record dumps stage blob ∷ object_records dumps ts

abbrev pub nothing : Bucket → Persisted
nothing b = record { report = none; stored = []; bucket = b }

-- `manifest` stands for the JSON document of the manifest.
unfoldable pub persist_bundle :
    (IrBundle → IrStrategy → Text)
    → IrStrategy
    → Text
    → IrBundle
    → List (IrStage × Text)
    → Bucket
    → Persisted
unfolding put_stages stage_records object_records put ir_manifest_key
persist_bundle manifest strategy prefix bundle [] b = nothing b
persist_bundle manifest strategy prefix bundle (t ∷ ts) b = record {
  report = some (record {
    scope = strategy.ir_scope;
    toolchain = strategy.toolchain;
    codegen_backend = strategy.codegen_backend;
    stages = stage_records prefix bundle.dumps (t ∷ ts);
  });
  stored = object_records bundle.dumps (t ∷ ts);
  bucket =
      (put (ir_manifest_key prefix) (manifest bundle strategy) (put_stages prefix (t ∷ ts) b)).1;
}

-- For a builder with an artifact bucket.
unfoldable pub persist_ir :
    (IrBundle → IrStrategy → Text) → IrStrategy → Text → Collected → Bucket → Persisted
unfolding persist_bundle
persist_ir manifest strategy prefix (returned (some bundle)) b =
    persist_bundle manifest strategy prefix bundle bundle.tarballs b
persist_ir manifest strategy prefix other b = nothing b
