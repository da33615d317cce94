-- ===== src/Enums.antt =====
-- backend/assemblage/enums.py: the enumerations, their wire values and their stored names.
pub mod Wire
use assemblage.Prelude.{Text, codes, Option, Bool, true, false, Eq}

pub data BuildStatus : Type 0 where
  init processing failed success timeout blacklist outdated_msg exclude command_failed : BuildStatus

pub data CloneStatus : Type 0 where
  not_started processing failed success timeout command_failed : CloneStatus

pub data PriorityStatus : Type 0 where
  low mid high : PriorityStatus

pub data ScraperMsgType : Type 0 where
  setup update request_repos : ScraperMsgType

pub data ScraperOutputPolicy : Type 0 where
  continuous on_request : ScraperOutputPolicy

pub data SupportedLanguage : Type 0 where
  cpp rust : SupportedLanguage

pub data IrStage : Type 0 where
  ast hir thir mir llvm_ir asm gimple clif : IrStage

pub data IrScope : Type 0 where
  repo all : IrScope

pub data OptLevel : Type 0 where
  none low medium high : OptLevel

BuildStatus-discrete : Discrete BuildStatus
BuildStatus-discrete = hlevel

CloneStatus-discrete : Discrete CloneStatus
CloneStatus-discrete = hlevel

IrStage-discrete : Discrete IrStage
IrStage-discrete = hlevel

instance unfoldable pub build_status_eq : Eq BuildStatus
unfolding BuildStatus-discrete
build_status_eq = record { dec = BuildStatus-discrete }

instance unfoldable pub clone_status_eq : Eq CloneStatus
unfolding CloneStatus-discrete
clone_status_eq = record { dec = CloneStatus-discrete }

instance unfoldable pub ir_stage_eq : Eq IrStage
unfolding IrStage-discrete
ir_stage_eq = record { dec = IrStage-discrete }

-- A member's `.value`, which the wire carries.
unfoldable pub build_status_value : BuildStatus → Text
build_status_value BuildStatus.init = codes "init"
build_status_value BuildStatus.processing = codes "processing"
build_status_value BuildStatus.failed = codes "failed"
build_status_value BuildStatus.success = codes "success"
build_status_value BuildStatus.timeout = codes "timeout"
build_status_value BuildStatus.blacklist = codes "blacklist"
build_status_value BuildStatus.outdated_msg = codes "outdated_msg"
build_status_value BuildStatus.exclude = codes "exclude"
build_status_value BuildStatus.command_failed = codes "command_failed"

unfoldable pub clone_status_value : CloneStatus → Text
clone_status_value CloneStatus.not_started = codes "not_started"
clone_status_value CloneStatus.processing = codes "processing"
clone_status_value CloneStatus.failed = codes "failed"
clone_status_value CloneStatus.success = codes "success"
clone_status_value CloneStatus.timeout = codes "timeout"
clone_status_value CloneStatus.command_failed = codes "command_failed"

unfoldable pub ir_stage_value : IrStage → Text
ir_stage_value IrStage.ast = codes "ast"
ir_stage_value IrStage.hir = codes "hir"
ir_stage_value IrStage.thir = codes "thir"
ir_stage_value IrStage.mir = codes "mir"
ir_stage_value IrStage.llvm_ir = codes "llvm-ir"
ir_stage_value IrStage.asm = codes "asm"
ir_stage_value IrStage.gimple = codes "gimple"
ir_stage_value IrStage.clif = codes "clif"

-- A member's `.name`, which the database stores.
unfoldable pub ir_stage_name : IrStage → Text
ir_stage_name IrStage.ast = codes "AST"
ir_stage_name IrStage.hir = codes "HIR"
ir_stage_name IrStage.thir = codes "THIR"
ir_stage_name IrStage.mir = codes "MIR"
ir_stage_name IrStage.llvm_ir = codes "LLVM_IR"
ir_stage_name IrStage.asm = codes "ASM"
ir_stage_name IrStage.gimple = codes "GIMPLE"
ir_stage_name IrStage.clif = codes "CLIF"

unfoldable pub ir_scope_name : IrScope → Text
ir_scope_name IrScope.repo = codes "REPO"
ir_scope_name IrScope.all = codes "ALL"

-- `IrStage.rides_along`: the normal build dumps the stage.
unfoldable pub rides_along : IrStage → Bool
rides_along IrStage.mir = true
rides_along IrStage.llvm_ir = true
rides_along IrStage.asm = true
rides_along _ = false

unfoldable pub emit_kind : IrStage → Option Text
emit_kind IrStage.mir = Option.some (codes "mir")
emit_kind IrStage.llvm_ir = Option.some (codes "llvm-ir")
emit_kind IrStage.asm = Option.some (codes "asm")
emit_kind _ = Option.none

unfoldable pub unpretty_mode : IrStage → Option Text
unpretty_mode IrStage.ast = Option.some (codes "ast-tree")
unpretty_mode IrStage.hir = Option.some (codes "hir-tree")
unpretty_mode IrStage.thir = Option.some (codes "thir-tree")
unpretty_mode _ = Option.none

unfoldable pub file_suffix : IrStage → Text
file_suffix IrStage.llvm_ir = codes ".ll"
file_suffix IrStage.mir = codes ".mir"
file_suffix IrStage.asm = codes ".s"
file_suffix IrStage.gimple = codes ".c"
file_suffix IrStage.clif = codes ".clif"
file_suffix _ = codes ".txt"

unfoldable pub to_gnu_opt : OptLevel → Text
to_gnu_opt OptLevel.low = codes "-O1"
to_gnu_opt OptLevel.medium = codes "-O2"
to_gnu_opt OptLevel.high = codes "-O3"
to_gnu_opt _ = codes "-O0"

unfoldable pub to_msvc_opt : OptLevel → Text
to_msvc_opt OptLevel.low = codes "/O1"
to_msvc_opt OptLevel.medium = codes "/O2"
to_msvc_opt OptLevel.high = codes "/Ox"
to_msvc_opt _ = codes "/Od"
