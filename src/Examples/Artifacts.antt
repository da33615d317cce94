-- ===== src/Examples/Artifacts.antt =====
-- A builder with buckets: the source of a task, its IR, its binaries and its command.
use assemblage.Prelude.{
  contains, Option, ℕ, ◌≡◌, ◌≢◌, refl, ap, true, false, ◌&&◌, ◌==◌, if◌then◌else◌, List, [], ◌∷◌,
  ◌++◌, length, map, none, some, Text, codes, list_eq, nat_eq, arith,
}
use assemblage.Enums.{IrStage, IrScope, ir_stage_eq, ir_stage_value}
use assemblage.Db.Query.{All, where_}
use assemblage.Storage.Bucket.{Bucket, object_at}
use assemblage.Builder.Source.{Host, acquire_source, parse_github_name}
use assemblage.Builder.Source.Keys.{IsPointed}
use assemblage.Builder.Source.Pointers.{acquire_source-IsPointed}
use assemblage.Builder.Source.Restoring.{
  working, first_result, next_result, acquire_source-acquire_source,
}
use assemblage.Builder.Ir.{IrDump, IrBundle, pack, basename}
use assemblage.Builder.Ir.Grouping.{of_stage, nonempty}
use assemblage.Builder.Ir.Packing.{tarball}
use assemblage.Builder.Pipeline.Ir.{IrStrategy, returned, persist_ir}
use assemblage.Builder.Pipeline.Ir.Storing.{replaced, persist_ir-pack}
use assemblage.Storage.Layout.{ir_tarball_key}
use assemblage.Builder.Artifacts.{Binary, save_binaries, bin_found}
use assemblage.Builder.Artifacts.Storing.{IsStored, save_binaries-IsStored}
use assemblage.Build.Detect.{get_build_system}
use assemblage.Build.Linux.{LinuxBuildStrategy, Completed, build, file_name}
use assemblage.Build.Linux.Commands.{outcome, script, build-script}
use assemblage.Build.Discovery.{
  File, Folder, folder, nil, cons, find_binaries, walk, is_taken, is_skipped,
}
use assemblage.Build.Discovery.Skipping.{IsOwn, find_binaries-AreOwn}
use assemblage.Build.Rust.Backends.{RustCodegenBackend, Environment, cargo_env}
use assemblage.Build.Rust.Strategy
use assemblage.Build.Rust.Strategy.{
  RustPrepared, RustBuildStrategy, Machine, cargo_command, expected, build-expected,
}
use assemblage.Str.{ends_with, strip}
use assemblage.Examples.Builder.{task}

abbrev host : Host
host = record {
  url_path = λ url. codes "/o/p";
  base_path = codes "/tmp";
  random_owner = codes "r1";
  random_project = codes "r2";
  unpack = λ archive. none;
  cloned = true;
  clone_output = [];
  head = some (codes "abc123\n");
  make_archive = some (codes "tarball");
}

-- The second upload, that of the pointer, fails.
abbrev empty_bucket : Bucket
empty_bucket = record { objects = []; works = true ∷ true ∷ false ∷ [] }

acquire_source-IsPointed_example : IsPointed (acquire_source host task true empty_bucket).1.objects
unfolding object_at
acquire_source-IsPointed_example =
    acquire_source-IsPointed host task true empty_bucket (λ q c e. absurd (cc))

abbrev next_host : Host
next_host = record host { base_path = codes "/srv"; cloned = false }

path_names : parse_github_name host.url_path task.url ≡ some (codes "o", codes "p")
unfolding parse_github_name list_eq nat_eq
path_names = refl

stripped : strip (codes "abc123\n") ≡ codes "abc123"
unfolding strip nat_eq
stripped = refl

stable : strip (codes "abc123") ≡ codes "abc123"
unfolding strip nat_eq
stable = refl

acquire_source-acquire_source_example :
    ((acquire_source host task true (working [])).0
      ≡ first_result b'o' [] b'p' [] b'a' (codes "bc123") host task)
    × (acquire_source next_host task true (acquire_source host task true (working [])).1 ≡ (
      next_result b'o' [] b'p' [] b'a' (codes "bc123") next_host task,
      (acquire_source host task true (working [])).1,
    ))
unfolding object_at nat_eq
acquire_source-acquire_source_example =
    acquire_source-acquire_source b'o' [] b'p' [] b'a' (codes "bc123") host next_host task task
      (codes "abc123\n") (codes "tarball") [] path_names path_names refl refl refl refl refl refl
      stripped stable refl refl refl

abbrev dump : IrStage → Text → IrDump
dump stage crate = record {
  stage = stage;
  crate = crate;
  scope = codes "repo";
  path = crate;
  raw_bytes = 5;
}

abbrev dumps : List IrDump
dumps =
    dump IrStage.mir (codes "a")
    ∷ dump IrStage.llvm_ir (codes "a")
    ∷ dump IrStage.mir (codes "b")
    ∷ []

abbrev joined_crates : List IrDump → Text
joined_crates [] = []
joined_crates (d ∷ ds) = d.crate ++ joined_crates ds

abbrev ir_strategy : IrStrategy
ir_strategy = record {
  ir_scope = IrScope.repo;
  toolchain = codes "nightly";
  codegen_backend = codes "llvm";
}

abbrev no_manifest : IrBundle → IrStrategy → Text
no_manifest bundle strategy = []

persist_ir-pack_example :
    object_at
      (ir_tarball_key (codes "x") (ir_stage_value IrStage.mir))
      (persist_ir no_manifest ir_strategy
        (codes "x")
        (returned (some (pack (λ d. true) joined_crates 2 dumps)))
        (working [])).bucket.objects
    ≡ replaced
        (tarball (λ d. true) joined_crates 2 (nonempty (where_ (of_stage IrStage.mir) dumps)))
        (object_at (ir_tarball_key (codes "x") (ir_stage_value IrStage.mir)) [])
persist_ir-pack_example =
    persist_ir-pack no_manifest ir_strategy (λ d. true) joined_crates 2 dumps (codes "x")
      IrStage.mir []

abbrev binaries : List Binary
binaries =
    record { path = codes "/tmp/o/p/bin/a"; exists = true; packed = some (9, codes "A") }
    ∷ record { path = codes "/tmp/o/p/bin/b"; exists = true; packed = some (8, codes "B") }
    ∷ record { path = codes "/tmp/o/p/README"; exists = true; packed = none }
    ∷ []

abbrev first_code : Text → ℕ
first_code [] = 0
first_code (c ∷ s) = c

other_name : basename (codes "/tmp/o/p/bin/b") ≢ basename (codes "/tmp/o/p/bin/a")
unfolding basename nat_eq
other_name e = omega (arith, ap first_code e)

save_binaries-IsStored_example :
    All
      (IsStored
        (codes "x")
        (save_binaries
          (codes "x")
          (codes "/tmp/o/p/README" ∷ [])
          binaries
          (record { objects = []; works = [] })).1.objects)
      (bin_found (codes "/tmp/o/p/README" ∷ []) binaries)
unfolding bin_found where_ list_eq nat_eq basename save_binaries
save_binaries-IsStored_example =
    save_binaries-IsStored (codes "x") (codes "/tmp/o/p/README" ∷ []) binaries
      (record { objects = []; works = [] }) ((other_name, tt), (tt, tt)) refl

abbrev strategy : LinuxBuildStrategy
strategy = record { save_assembly = false; num_p_job = 16 }

abbrev shell : Text → Completed
shell cmd = record { returncode = 0; stdout = cmd; stderr = [] }

-- The byte 255 is not in UTF-8.
abbrev decode : Text → Option Text
decode bytes = if contains bytes 255 then none else some bytes

build-script_example :
    build decode shell strategy (codes "/tmp/o/p") (codes "-O2") (codes "/tmp/o/p/Makefile" ∷ [])
    ≡ outcome decode shell (
        script strategy
          (codes "/tmp/o/p")
          (codes "-O2")
          (get_build_system (map file_name (codes "/tmp/o/p/Makefile" ∷ []))))
build-script_example =
    build-script decode shell strategy (codes "/tmp/o/p") (codes "-O2")
      (codes "/tmp/o/p/Makefile" ∷ [])

abbrev prepared : RustPrepared
prepared = record { member_ids = []; member_names = []; failure = none }

abbrev rust_strategy : RustBuildStrategy
rust_strategy = record {
  build_mode = codes "Debug";
  toolchain = codes "nightly";
  backend = RustCodegenBackend.llvm;
  cargo_home = codes "/cargo";
  ir_stages = IrStage.mir ∷ [];
  artifacts = [];
  locked = false;
  last_returncode = 0;
  target_dir = [];
}

-- The locked run fails.
abbrev machine : Machine
machine = record {
  lock_exists = true;
  shell = λ cmd. record {
    returncode = if ends_with (codes "--locked") cmd then 101 else 0;
    stdout = [];
    stderr = codes "ok";
  };
  json = λ line. none;
  quote = λ s. s;
}

abbrev cargo_environment : Environment
cargo_environment =
    (codes "CARGO_PROFILE_DEV_OPT_LEVEL", codes "2")
    ∷ (codes "CARGO_INCREMENTAL", codes "0")
    ∷ (codes "CARGO_HOME", codes "/cargo")
    ∷ (codes "CARGO_TARGET_DIR", codes "/p/target")
    ∷ (codes "RUSTFLAGS", codes "-Csymbol-mangling-version=v0 --emit=link,mir")
    ∷ []

environment_made :
    cargo_env
      (codes "Debug")
      (codes "-O2")
      RustCodegenBackend.llvm
      (codes "/cargo")
      (codes "/p" ++ codes "/target")
      (IrStage.mir ∷ [])
    ≡ some cargo_environment
unfolding cargo_env list_eq nat_eq ir_stage_eq
environment_made = refl

build-expected_example :
    ((text : Text) × ((Strategy.build machine (codes "/p") (codes "-O2") prepared rust_strategy).0
        ≡ some (
          text,
          expected machine
              (machine.shell (cargo_command machine rust_strategy cargo_environment true))
              (machine.shell (cargo_command machine rust_strategy cargo_environment false)),
        )))
    × ((Strategy.build machine (codes "/p") (codes "-O2") prepared rust_strategy).1.locked ≡ (
        true
        && (machine.shell (cargo_command machine rust_strategy cargo_environment true)).returncode
          == 0))
build-expected_example =
    build-expected machine (codes "/p") (codes "-O2") prepared rust_strategy cargo_environment refl
      environment_made

abbrev program : File
program = record { name = codes "a.out"; exists_now = true; is_file = true; executable = some true }

abbrev clone_tree : Folder
clone_tree = folder (codes "p") (program ∷ []) (
    cons (folder (codes "Vendor") (program ∷ []) nil)
      (cons (folder (codes "bin") (program ∷ []) nil) nil))

two_found : length (find_binaries false (codes "/p") clone_tree) ≡ 2
unfolding find_binaries walk is_taken is_skipped list_eq nat_eq
two_found = refl

find_binaries-AreOwn_example : All IsOwn (find_binaries false (codes "/p") clone_tree)
find_binaries-AreOwn_example = find_binaries-AreOwn false (codes "/p") clone_tree
