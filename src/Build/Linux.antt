-- ===== src/Build/Linux.antt =====
-- `LinuxBuildStrategy.build` of backend/assemblage/build/linux.py: the command for the build system
-- that is detected, and what its run makes of the task.
pub mod Commands
use assemblage.Prelude.{
  ℕ, Bool, true, false, ◌==◌, nat_eq, list_eq, if◌then◌else◌, List, [], ◌∷◌, ◌++◌, map, Option,
  none, some, Text, codes, decimal,
}
use assemblage.Str.{is_infix}
use assemblage.Str.Split.{split}
use assemblage.Enums.{BuildStatus}
use assemblage.Build.Detect.{get_build_system}

pub record LinuxBuildStrategy : Type 0 where
  pub save_assembly : Bool
  pub num_p_job : ℕ

abbrev pub build_mode : Text
build_mode = codes "RelWithDebInfo"

-- " ".join(f for f in [a, b] if f)
spaced : Text → Text → Text
spaced [] b = b
spaced (c ∷ a) [] = c ∷ a
spaced (c ∷ a) (d ∷ b) = (c ∷ a) ++ (codes " " ++ (d ∷ b))

unfoldable pub all_flags : LinuxBuildStrategy → Text → Text
unfolding spaced
all_flags s compiler_flag =
    spaced (spaced (codes "-g -DNDEBUG") compiler_flag)
      (if s.save_assembly then codes "-save-temps=obj" else [])

quoted : Text → Text
quoted t = codes "\"" ++ (t ++ codes "\"")

unfoldable pub extra_flags : Text → Text
unfolding quoted
extra_flags flags =
    codes "CFLAGS="
    ++ (quoted (codes "$CFLAGS " ++ flags)
        ++ (codes " CXXFLAGS=" ++ quoted (codes "$CXXFLAGS " ++ flags)))

-- The upper case of `build_mode` stands in the names of the two last variables.
unfoldable pub cmake_flags : Text → Text
unfolding quoted
cmake_flags flags =
    codes "-DCMAKE_BUILD_TYPE="
    ++ (quoted build_mode
        ++ (codes " -DCMAKE_C_FLAGS="
            ++ (quoted flags
                ++ (codes " -DCMAKE_CXX_FLAGS="
                    ++ (quoted flags
                        ++ (codes " -DCMAKE_C_FLAGS_RELWITHDEBINFO="
                            ++ (quoted flags
                                ++ (codes " -DCMAKE_CXX_FLAGS_RELWITHDEBINFO="
                                    ++ quoted flags))))))))

-- `make` with a limit of ten minutes.
unfoldable pub make_part : LinuxBuildStrategy → Text → Text
unfolding decimal
make_part s flags = codes "timeout 10m make " ++ (flags ++ (codes "-j" ++ decimal s.num_p_job))

unfoldable pub command : LinuxBuildStrategy → Text → Text → Text → Text
unfolding all_flags extra_flags cmake_flags make_part is_infix
command s clone_dir compiler_flag build_tool =
    let flags = all_flags s compiler_flag in
    let extra = extra_flags flags in
    let make = make_part s (extra ++ codes " ") in
    let cd = codes "cd " ++ (clone_dir ++ codes " && ") in
    if is_infix (codes "bootstrap") build_tool
    then cd ++ (codes "./bootstrap && bash ./configure " ++ (extra ++ (codes " && " ++ make)))
    else if is_infix (codes "configure") build_tool
    then cd ++ (codes "bash ./configure " ++ (extra ++ (codes " && " ++ make)))
    else if is_infix (codes "cmake") build_tool
    then cd
      ++ (codes "cmake -Bbuild ./ "
          ++ (cmake_flags flags ++ (codes " && cd build && " ++ make_part s [])))
    else if is_infix (codes "make") build_tool
    then cd ++ make
    else []

-- What the shell makes of a command; in this file the output is bytes.
pub record Completed : Type 0 where
  pub returncode : ℕ
  pub stdout : Text
  pub stderr : Text

-- `decode` stands for `bytes.decode()`, which raises (none) on what is not UTF-8.
output_text : (Text → Option Text) → Completed → Option Text
output_text decode r = elim (decode r.stdout) [
  | none ↦ none
  | some out ↦ elim (decode r.stderr) [ none ↦ none | some err ↦ some (out ++ err) ]
]

-- The status is known before the output is output_text; none where that raises.
unfoldable pub run_build :
    (Text → Option Text) → (Text → Completed) → Text → Option (Text × BuildStatus)
unfolding output_text
run_build decode run [] = some (codes "No Build Command Made", BuildStatus.failed)
run_build decode run (c ∷ cmd) = elim (output_text decode (run (c ∷ cmd))) [
  | none ↦ none
  | some text ↦
      some
        (text, if (run (c ∷ cmd)).returncode == 0 then BuildStatus.success else BuildStatus.failed)
]

-- filename.split("/")[-1]
last_part : List Text → Text
last_part [] = []
last_part (p ∷ []) = p
last_part (p ∷ q ∷ ps) = last_part (q ∷ ps)

unfoldable pub file_name : Text → Text
unfolding last_part split
file_name path = last_part (split b'/' path)

unfoldable pub build :
    (Text → Option Text)
    → (Text → Completed)
    → LinuxBuildStrategy
    → Text
    → Text
    → List Text
    → Option (Text × BuildStatus)
unfolding run_build command file_name get_build_system
build decode run s clone_dir compiler_flag paths =
    run_build decode run
      (command s clone_dir compiler_flag (get_build_system (map file_name paths)))
