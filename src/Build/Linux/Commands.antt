-- ===== src/Build/Linux/Commands.antt =====
-- What is run for each build system, and what becomes of the build.
use assemblage.Prelude.{
  ◌≡◌, refl, ap, ◌∙◌, true, false, ◌==◌, if◌then◌else◌, Bool, List, [], ◌∷◌, ◌++◌, map, Option,
  none, some, Text, codes, list_eq, nat_eq,
}
use mathlib.Core.List.{append_assoc}
use assemblage.Str.{is_infix}
use assemblage.Enums.{BuildStatus}
use assemblage.Build.Detect.{get_build_system}
use assemblage.Build.Linux.{
  LinuxBuildStrategy, Completed, command, run_build, build, file_name, all_flags, extra_flags,
  cmake_flags, make_part,
}

-- The commands, each of which runs if the one before it succeeds.
abbrev pub all_of : List Text → Text
all_of [] = []
all_of (c ∷ []) = c
all_of (c ∷ d ∷ cs) = c ++ (codes " && " ++ all_of (d ∷ cs))

abbrev in_folder : Text → Option (List Text) → Option (List Text)
in_folder dir none = none
in_folder dir (some cs) = some ((codes "cd " ++ dir) ∷ cs)

module _ (s : LinuxBuildStrategy) (dir flag : Text) where
  -- The variables for the compiler, before `configure` and before `make`.
  abbrev flags_of : Text
  flags_of = extra_flags (all_flags s flag)

  abbrev make_with_flags : Text
  make_with_flags = make_part s (flags_of ++ codes " ")

  abbrev configured : List Text
  configured = (codes "bash ./configure " ++ flags_of) ∷ make_with_flags ∷ []

  abbrev by_cmake : List Text
  by_cmake =
      (codes "cmake -Bbuild ./ " ++ cmake_flags (all_flags s flag))
      ∷ codes "cd build"
      ∷ make_part s []
      ∷ []

  -- The words that are looked for in the build system's name, the first of them first, and what is
  -- run in the repository for each.
  abbrev recipes : List (Text × List Text)
  recipes =
      (codes "bootstrap", codes "./bootstrap" ∷ configured)
      ∷ (codes "configure", configured)
      ∷ (codes "cmake", by_cmake)
      ∷ (codes "make", make_with_flags ∷ [])
      ∷ []

  abbrev first_recipe : Text → List (Text × List Text) → Option (List Text)
  first_recipe tool [] = none
  first_recipe tool ((word, cs) ∷ rs) =
      let rest = first_recipe tool rs in if is_infix word tool then some cs else rest

  -- The commands for a build system, if it has any.
  unfoldable pub script : Text → Option (List Text)
  script tool = in_folder dir (first_recipe tool recipes)

-- The end of a build whose commands are these: it raises if an output is not UTF-8, whatever the
-- commands return.
unfoldable pub outcome :
    (Text → Option Text) → (Text → Completed) → Option (List Text) → Option (Text × BuildStatus)
outcome decode run none = some (codes "No Build Command Made", BuildStatus.failed)
outcome decode run (some cs) = elim (decode (run (all_of cs)).stdout) [
  | none ↦ none
  | some out ↦ elim (decode (run (all_of cs)).stderr) [
    | none ↦ none
    | some err ↦ some (
      out ++ err,
      if (run (all_of cs)).returncode == 0 then BuildStatus.success else BuildStatus.failed,
    )
  ]
]

module _ (decode : Text → Option Text) (run : Text → Completed) where
  -- A command in the repository's folder.
  run_build-cd :
      (dir c : Text) (cs : List Text)
      → run_build decode run ((codes "cd " ++ (dir ++ codes " && ")) ++ all_of (c ∷ cs))
        ≡ outcome decode run (some ((codes "cd " ++ dir) ∷ c ∷ cs))
  unfolding run_build outcome
  run_build-cd dir c cs =
      ap (λ t. run_build decode run (codes "cd " ++ t))
        (append_assoc dir (codes " && ") (all_of (c ∷ cs)))
      ∙ by (decode (run text).stdout) (decode (run text).stderr)
    where
      text : Text
      text = all_of ((codes "cd " ++ dir) ∷ c ∷ cs)

      by :
          (out err : Option Text)
          → (elim (elim out as (λ _. Option Text) [
            | none ↦ none
            | some o ↦ elim err [ none ↦ none | some e ↦ some (o ++ e) ]
          ])
              as (λ _. Option (Text × BuildStatus)) [
                | none ↦ none
                | some t ↦ some (
                  t,
                  if (run text).returncode == 0 then BuildStatus.success else BuildStatus.failed,
                )
              ])
            ≡ (elim out as (λ _. Option (Text × BuildStatus)) [
              | none ↦ none
              | some o ↦ elim err [
                | none ↦ none
                | some e ↦ some (
                  o ++ e,
                  if (run text).returncode == 0 then BuildStatus.success else BuildStatus.failed,
                )
              ]
            ])
      by none err = refl
      by (some o) none = refl
      by (some o) (some e) = refl

  nothing : run_build decode run [] ≡ outcome decode run none
  unfolding run_build outcome
  nothing = refl

  run_build-script :
      (s : LinuxBuildStrategy) (dir flag tool : Text)
      → run_build decode run (command s dir flag tool) ≡ outcome decode run (script s dir flag tool)
  unfolding command script
  run_build-script s dir flag tool =
      by (is_infix (codes "bootstrap") tool) (is_infix (codes "configure") tool)
        (is_infix (codes "cmake") tool) (is_infix (codes "make") tool)
    where
      flags : Text
      flags = flags_of s dir flag

      make : Text
      make = make_with_flags s dir flag

      cd : Text
      cd = codes "cd " ++ (dir ++ codes " && ")

      Chosen : Bool → Bool → Bool → Bool → Text
      Chosen b c d m =
          if b
          then cd ++ (codes "./bootstrap && bash ./configure " ++ (flags ++ (codes " && " ++ make)))
          else if c
          then cd ++ (codes "bash ./configure " ++ (flags ++ (codes " && " ++ make)))
          else if d
          then cd
            ++ (codes "cmake -Bbuild ./ "
                ++ (cmake_flags (all_flags s flag) ++ (codes " && cd build && " ++ make_part s [])))
          else if m
          then cd ++ make
          else []

      Recipe : Bool → Bool → Bool → Bool → Option (List Text)
      Recipe b c d m =
          if b
          then some (codes "./bootstrap" ∷ configured s dir flag)
          else if c
          then some (configured s dir flag)
          else if d
          then some (by_cmake s dir flag)
          else if m
          then some (make ∷ [])
          else none

      by :
          (b c d m : Bool)
          → run_build decode run (Chosen b c d m)
            ≡ outcome decode run (in_folder dir (Recipe b c d m))
      by true c d m = run_build-cd dir (codes "./bootstrap") (configured s dir flag)
      by false true d m = run_build-cd dir (codes "bash ./configure " ++ flags) (make ∷ [])
      by false false true m =
          run_build-cd dir (codes "cmake -Bbuild ./ " ++ cmake_flags (all_flags s flag))
            (codes "cd build" ∷ make_part s [] ∷ [])
      by false false false true = run_build-cd dir make []
      by false false false false = nothing

  -- The build system is detected from the names of the files. The first of the words "bootstrap",
  -- "configure", "cmake" and "make" in its name decides what is run in the repository: the commands
  -- of `recipes`, each only if the one before it succeeds. The build succeeds if they return 0 and
  -- fails if not; it raises if an output is not UTF-8, even if they return 0. Without such a word
  -- nothing is run and the build fails.
  pub build-script :
      (s : LinuxBuildStrategy) (dir flag : Text) (paths : List Text)
      → build decode run s dir flag paths
        ≡ outcome decode run (script s dir flag (get_build_system (map file_name paths)))
  unfolding build
  build-script s dir flag paths =
      run_build-script s dir flag (get_build_system (map file_name paths))

  -- A repository whose build system is detected as autoconf is never built.
  build-autoconf :
      (s : LinuxBuildStrategy) (dir flag : Text) (paths : List Text)
      → get_build_system (map file_name paths) ≡ codes "autoconf"
      → build decode run s dir flag paths ≡ some (codes "No Build Command Made", BuildStatus.failed)
  unfolding build run_build command is_infix nat_eq
  build-autoconf s dir flag paths h = rw h refl
