-- ===== src/Build/Rust/Strategy.antt =====
-- `RustBuildStrategy` of backend/assemblage/build/rust.py: the build, with a second run without
-- `--locked`, and the binaries that it reports.
use assemblage.Prelude.{
  ℕ, ◌≡◌, refl, Bool, true, false, not, ◌&&◌, ◌||◌, ◌==◌, nat_eq, list_eq, if◌then◌else◌, List, [],
  ◌∷◌, ◌++◌, sort, Option, none, some, Text, codes,
}
use assemblage.Str.{text_leb}
use assemblage.Enums.{BuildStatus, IrStage}
use assemblage.Db.Query.{where_}
use assemblage.Build.Linux.{Completed}
use assemblage.Build.Rust.Backends.{RustCodegenBackend, Environment, cargo_env, join}
use assemblage.Build.Rust.Cargo.{CargoMessage, parse_cargo_artifacts, rendered_diagnostics}

pub record RustPrepared : Type 0 where
  pub member_ids : List Text
  pub member_names : List Text
  pub failure : Option Text

pub record RustBuildStrategy : Type 0 where
  pub build_mode : Text
  pub toolchain : Text
  pub backend : RustCodegenBackend
  pub cargo_home : Text
  pub ir_stages : List IrStage
  -- `_locked`, `_artifacts`, `_last_returncode` and `_target_dir`, which a build leaves.
  pub artifacts : List Text
  pub locked : Bool
  pub last_returncode : ℕ
  pub target_dir : Text

-- What the machine answers: is there a `Cargo.lock`, what the shell makes of a command (here its
-- output as `decode(errors="ignore")` gives it), the parser of cargo's messages, and `shlex.quote`.
pub record Machine : Type 0 where
  pub lock_exists : Bool
  pub shell : Text → Completed
  pub json : Text → Option CargoMessage
  pub quote : Text → Text

profile_name : Text → Text
profile_name build_mode = if build_mode == codes "Debug" then codes "dev" else codes "release"

env_leb : Text × Text → Text × Text → Bool
unfolding text_leb
env_leb a b = text_leb a.0 b.0

assignments : (Text → Text) → Environment → List Text
assignments quote [] = []
assignments quote (e ∷ es) = (e.0 ++ (codes "=" ++ quote e.1)) ∷ assignments quote es

-- The command of `_run_cargo`, in the folder of the clone.
unfoldable pub cargo_command : Machine → RustBuildStrategy → Environment → Bool → Text
unfolding join assignments sort env_leb profile_name
cargo_command machine s env locked =
    join (codes " ") (assignments machine.quote (sort env_leb env))
    ++ (codes " cargo +"
        ++ (s.toolchain
            ++ (codes " build --workspace --bins --examples --profile "
                ++ (profile_name s.build_mode
                    ++ (codes " --message-format=json-render-diagnostics"
                        ++ (if locked then codes " --locked" else []))))))

-- The result of the run that counts, and whether it was locked.
unfoldable pub run_locked : Machine → RustBuildStrategy → Environment → Completed × Bool
unfolding cargo_command
run_locked machine s env =
    let first = machine.shell (cargo_command machine s env machine.lock_exists) in
    if machine.lock_exists && not (first.returncode == 0)
    then (machine.shell (cargo_command machine s env false), false)
    else (first, machine.lock_exists)

-- The text and the status of a build; none if it raises, since the flag has no level.
abbrev pub Built : Type 0
Built = Option (Text × BuildStatus) × RustBuildStrategy

finished : Machine → RustPrepared → Completed × Bool → RustBuildStrategy → Built
unfolding parse_cargo_artifacts rendered_diagnostics
finished machine prep (r, locked) s = (
  some (
    rendered_diagnostics machine.json r.stdout r.stderr,
    if r.returncode == 0 then BuildStatus.success else BuildStatus.failed,
  ),
  record s {
    artifacts = parse_cargo_artifacts machine.json r.stdout prep.member_ids;
    locked = locked;
    last_returncode = r.returncode;
  },
)

with_env : Machine → RustPrepared → Option Environment → RustBuildStrategy → Built
unfolding finished run_locked
with_env machine prep none s = (none, s)
with_env machine prep (some env) s = finished machine prep (run_locked machine s env) s

prepared_build : Machine → Text → Text → RustPrepared → Option Text → RustBuildStrategy → Built
unfolding with_env cargo_env
prepared_build machine clone_dir compiler_flag prep (some failure) s =
    (some (failure, BuildStatus.failed), s)
prepared_build machine clone_dir compiler_flag prep none s =
    let target = clone_dir ++ codes "/target" in
    with_env machine prep
      (cargo_env s.build_mode compiler_flag s.backend s.cargo_home target s.ir_stages)
      (record s { target_dir = target })

unfoldable pub build : Machine → Text → Text → RustPrepared → RustBuildStrategy → Built
unfolding prepared_build
build machine clone_dir compiler_flag prep s =
    prepared_build machine clone_dir compiler_flag prep prep.failure s

-- `find_binaries`: `is_file` is the file system's test and `fallback` the executables at the top of
-- the target folder.
unfoldable pub find_binaries : (Text → Bool) → List Text → RustBuildStrategy → List Text
unfolding where_
find_binaries is_file fallback s =
    let found = where_ is_file s.artifacts in
    if not (found == [])
    then found
    else if s.last_returncode == 0 && not (s.target_dir == [])
    then fallback
    else []

-- The status that the runs of cargo call for: the second one counts only after a locked first one.
abbrev pub expected : Machine → Completed → Completed → BuildStatus
expected machine first second =
    if first.returncode == 0 || (machine.lock_exists && second.returncode == 0)
    then BuildStatus.success
    else BuildStatus.failed

-- What counts of two runs, the first of them locked or not.
counting :
    (first second : Completed) (lock b : Bool)
    → (first.returncode == 0) ≡ b
    → let r : Completed × Bool = if lock && not b then (second, false) else (first, lock) in
      ((r.0.returncode == 0) ≡ (b || (lock && second.returncode == 0))) × (r.1 ≡ (lock && b))
counting first second true true e = (e, refl)
counting first second true false e = (refl, refl)
counting first second false true e = (e, refl)
counting first second false false e = (e, refl)

-- For a project that could be prepared and a flag that has an environment, a build succeeds exactly if
-- cargo returns 0, locked if there is a lock file, or else, if there is one, when it is run again
-- without `--locked`. The metadata says "locked" exactly if the locked run was the one that succeeded.
pub build-expected :
    (machine : Machine) (clone_dir flag : Text) (prep : RustPrepared) (s : RustBuildStrategy)
    (env : Environment)
    → prep.failure ≡ none
    → cargo_env s.build_mode flag s.backend s.cargo_home (clone_dir ++ codes "/target") s.ir_stages
      ≡ some env
    → ((text : Text) × ((build machine clone_dir flag prep s).0
          ≡ some (
            text,
            expected machine
                (machine.shell (cargo_command machine s env machine.lock_exists))
                (machine.shell (cargo_command machine s env false)),
          )))
      × ((build machine clone_dir flag prep s).1.locked ≡ (
          machine.lock_exists
          && (machine.shell (cargo_command machine s env machine.lock_exists)).returncode == 0))
unfolding build prepared_build with_env finished run_locked
build-expected machine clone_dir flag prep s env ready h =
    let first = machine.shell (cargo_command machine s env machine.lock_exists) in
    let second = machine.shell (cargo_command machine s env false) in
    let (status, locked) = counting first second machine.lock_exists (first.returncode == 0) refl in
    rw (ready, h, status) ((_, refl), locked)
