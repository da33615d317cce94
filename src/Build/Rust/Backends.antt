-- ===== src/Build/Rust/Backends.antt =====
-- The codegen backends of backend/assemblage/build/rust.py, and the environment of a build.
use assemblage.Prelude.{
  Bool, ◌&&◌, ◌==◌, nat_eq, list_eq, if◌then◌else◌, List, [], ◌∷◌, ◌++◌, contains, sort, Option,
  none, some, Text, codes,
}
use assemblage.Str.{text_leb}
use assemblage.Enums.{
  IrStage, ast, hir, thir, mir, llvm_ir, asm, gimple, ir_stage_eq, ir_stage_value, rides_along,
  emit_kind,
}
use assemblage.Db.Query.{where_}

-- `RustCodegenBackend` of enums.py; each has one adapter (`make_adapter`).
pub data RustCodegenBackend : Type 0 where
  llvm cranelift gcc : RustCodegenBackend

abbrev pub opt_level_by_flag : List (Text × Text)
opt_level_by_flag =
    (codes "-O0", codes "0")
    ∷ (codes "-O1", codes "1")
    ∷ (codes "-O2", codes "2")
    ∷ (codes "-O3", codes "3")
    ∷ (codes "-Os", codes "s")
    ∷ (codes "-Oz", codes "z")
    ∷ []

look_up : List (Text × Text) → Text → Option Text
look_up [] key = none
look_up (e ∷ es) key = let rest = look_up es key in if e.0 == key then some e.1 else rest

-- None where it raises `ValueError`.
unfoldable pub opt_level_for_flag : Text → Option Text
unfolding look_up
opt_level_for_flag flag = look_up opt_level_by_flag flag

abbrev frontend_stages : List IrStage
frontend_stages = ast ∷ hir ∷ thir ∷ mir ∷ []

-- The stages of `ir_caps` of each adapter.
unfoldable pub ir_caps : RustCodegenBackend → List IrStage
ir_caps llvm = frontend_stages ++ llvm_ir ∷ asm ∷ []
ir_caps cranelift = frontend_stages
ir_caps gcc = frontend_stages ++ gimple ∷ []

unfoldable pub supports : RustCodegenBackend → IrStage → Bool
unfolding ir_caps
supports backend stage = contains (ir_caps backend) stage

unfoldable pub rustflags : RustCodegenBackend → List Text
rustflags llvm = []
rustflags cranelift = codes "-Zcodegen-backend=cranelift" ∷ []
rustflags gcc = codes "-Zcodegen-backend=gcc" ∷ []

abbrev pub Environment : Type 0
Environment = List (Text × Text)

-- `ir_env`: only gcc needs any.
unfoldable pub ir_env : RustCodegenBackend → List IrStage → Environment
ir_env gcc stages =
    if contains stages gimple
    then (codes "CG_GCCJIT_DUMP_GIMPLE", codes "1")
      ∷ (codes "CG_GCCJIT_DUMP_TO_FILE", codes "1")
      ∷ []
    else []
ir_env _ stages = []

-- set(stages), in the order of the first ones.
unfoldable pub distinct : List IrStage → List IrStage
distinct [] = []
distinct (s ∷ ss) = let rest = distinct ss in if contains ss s then rest else s ∷ rest

unfoldable pub stage_leb : IrStage → IrStage → Bool
unfolding text_leb ir_stage_value
stage_leb a b = text_leb (ir_stage_value a) (ir_stage_value b)

kind_of : Option Text → List Text
kind_of none = []
kind_of (some k) = k ∷ []

unfoldable pub kinds : List IrStage → List Text
unfolding kind_of emit_kind
kinds [] = []
kinds (s ∷ ss) = kind_of (emit_kind s) ++ kinds ss

-- The kinds that `ride_along_emit_flag` asks for.
unfoldable pub ride_along_kinds : List IrStage → RustCodegenBackend → List Text
unfolding where_ rides_along supports distinct stage_leb sort kinds
ride_along_kinds stages backend =
    kinds (where_ (λ s. rides_along s && supports backend s) (sort stage_leb (distinct stages)))

-- sep.join(parts)
unfoldable pub join : Text → List Text → Text
join sep [] = []
join sep (p ∷ []) = p
join sep (p ∷ q ∷ ps) = p ++ (sep ++ join sep (q ∷ ps))

emit_flag : List Text → Option Text
unfolding join
emit_flag [] = none
emit_flag (k ∷ ks) = some (codes "--emit=" ++ join (codes ",") (codes "link" ∷ k ∷ ks))

unfoldable pub ride_along_emit_flag : List IrStage → RustCodegenBackend → Option Text
unfolding emit_flag ride_along_kinds
ride_along_emit_flag stages backend = emit_flag (ride_along_kinds stages backend)

profile_env : Text → Text → Environment
profile_env build_mode opt =
    if build_mode == codes "Debug"
    then (codes "CARGO_PROFILE_DEV_OPT_LEVEL", opt) ∷ []
    else (codes "CARGO_PROFILE_RELEASE_OPT_LEVEL", opt)
      ∷ (
        codes "CARGO_PROFILE_RELEASE_DEBUG",
        if build_mode == codes "RelWithDebInfo" then codes "2" else codes "0",
      )
      ∷ (codes "CARGO_PROFILE_RELEASE_STRIP", codes "none")
      ∷ []

-- With no stages there is no flag, and `ir_env` adds nothing.
unfoldable pub all_rustflags : List IrStage → RustCodegenBackend → List Text
unfolding rustflags kind_of ride_along_emit_flag
all_rustflags stages backend =
    rustflags backend
    ++ (codes "-Csymbol-mangling-version=v0" ∷ kind_of (ride_along_emit_flag stages backend))

env_with : Text → RustCodegenBackend → Text → Text → List IrStage → Option Text → Option Environment
unfolding profile_env all_rustflags ir_env join
env_with build_mode backend cargo_home target_dir stages none = none
env_with build_mode backend cargo_home target_dir stages (some opt) = some (
    profile_env build_mode opt
    ++ ((codes "CARGO_INCREMENTAL", codes "0")
        ∷ (codes "CARGO_HOME", cargo_home)
        ∷ (codes "CARGO_TARGET_DIR", target_dir)
        ∷ (ir_env backend stages
            ++ (codes "RUSTFLAGS", join (codes " ") (all_rustflags stages backend)) ∷ [])))

-- None where the flag has no level and it raises.
unfoldable pub cargo_env :
    Text → Text → RustCodegenBackend → Text → Text → List IrStage → Option Environment
unfolding env_with opt_level_for_flag
cargo_env build_mode compiler_flag backend cargo_home target_dir stages =
    env_with build_mode backend cargo_home target_dir stages (opt_level_for_flag compiler_flag)
