-- ===== src/Build/Detect.antt =====
-- `get_build_system` of backend/assemblage/build/detect.py.
pub mod Choice
use assemblage.Prelude.{
  Bool, true, false, ◌||◌, ◌==◌, nat_eq, list_eq, if◌then◌else◌, List, [], ◌∷◌, ◌++◌, contains, map,
  Option, none, some, Text, codes,
}
use assemblage.Str.{lower, strip, is_infix, ends_with}
use assemblage.Db.Query.{exists, where_}

-- `_BUILD_SYSTEMS`: each tool with its keywords, in the order of the dictionary.
abbrev pub Tools : Type 0
Tools = List (Text × List Text)

abbrev pub build_systems : Tools
build_systems =
    (codes "make", codes "makefile" ∷ codes "makefile.in" ∷ codes "makefile.am" ∷ [])
    ∷ (codes "cmake", codes "cmakelists.txt" ∷ [])
    ∷ (codes "sln", codes ".sln" ∷ [])
    ∷ (codes "autoconf", codes "configure" ∷ codes "configure.ac" ∷ codes "configure.in" ∷ [])
    ∷ (codes "bootstrap", codes "bootstrap" ∷ codes "bootstrap.sh" ∷ codes "autogen.sh" ∷ [])
    ∷ (codes "meson", codes "meson.build" ∷ [])
    ∷ (codes "ninja", codes "build.ninja" ∷ codes "ninja" ∷ [])
    ∷ (codes "bazel", codes "build.bazel" ∷ codes "workspace" ∷ codes "WORKSPACE" ∷ [])
    ∷ (codes "buck", codes "BUCK" ∷ [])
    ∷ (codes "scons", codes "sconstruct" ∷ codes "sconscript" ∷ [])
    ∷ (codes "qmake", codes ".pro" ∷ [])
    ∷ (codes "premake", codes "premake4.lua" ∷ codes "premake5.lua" ∷ [])
    ∷ (codes "xcodebuild", codes "project.pbxproj" ∷ [])
    ∷ (codes "cargo", codes "cargo.toml" ∷ [])
    ∷ (codes "gradle", codes "build.gradle" ∷ codes "build.gradle.kts" ∷ [])
    ∷ (codes "maven", codes "pom.xml" ∷ [])
    ∷ (codes "python", codes "setup.py" ∷ codes "pyproject.toml" ∷ codes "requirements.txt" ∷ [])
    ∷ []

-- `_PRIORITY_ORDER`
abbrev pub priority_order : List Text
priority_order =
    codes "cmake"
    ∷ codes "make"
    ∷ codes "scons"
    ∷ codes "meson"
    ∷ codes "ninja"
    ∷ codes "bootstrap"
    ∷ codes "autoconf"
    ∷ codes "sln"
    ∷ codes "bazel"
    ∷ codes "buck"
    ∷ codes "qmake"
    ∷ codes "premake"
    ∷ codes "xcodebuild"
    ∷ codes "cargo"
    ∷ codes "gradle"
    ∷ codes "maven"
    ∷ codes "python"
    ∷ []

-- The tools whose keywords the file name holds, in the order of the dictionary.
unfoldable pub names_tool : Text → Text × List Text → Bool
unfolding exists is_infix lower
names_tool fname t = exists (λ k. is_infix k (lower (strip fname))) t.1

tools_in : Text → List Text
unfolding names_tool where_
tools_in fname = map (λ (t : Text × List Text). t.0) (where_ (names_tool fname) build_systems)

-- The keys of `detected_tools`: `setdefault` leaves a key that is there where it is.
set_defaults : List Text → List Text → List Text
set_defaults [] seen = seen
set_defaults (t ∷ ts) seen = set_defaults ts (if contains seen t then seen else seen ++ t ∷ [])

detect : List Text → List Text → List Text
unfolding tools_in set_defaults
detect [] seen = seen
detect (fname ∷ files) seen = detect files (set_defaults (tools_in fname) seen)

unfoldable pub detected_tools : List Text → List Text
unfolding detect
detected_tools files = detect files []

-- With no build file, the sources decide.
fallback : List Text → Text
unfolding exists ends_with
fallback files =
    let has_cpp =
      exists
        (λ f.
          ends_with (codes ".cpp") f
          || ends_with (codes ".cc") f
          || ends_with (codes ".cxx") f
          || ends_with (codes ".c++") f)
        files in
    let has_c = exists (ends_with (codes ".c")) files in
    let has_python = exists (ends_with (codes ".py")) files in
    if has_cpp || has_c
    then codes "c_fallback"
    else if has_python
    then codes "python"
    else codes "others"

-- The first tool of the order that was detected, or the first one detected.
by_priority : List Text → List Text → Text → Text
by_priority [] detected first = first
by_priority (t ∷ ts) detected first =
    let rest = by_priority ts detected first in if contains detected t then t else rest

choose : List Text → List Text → Text
unfolding fallback by_priority
choose files [] = fallback files
choose files (t ∷ ts) = by_priority priority_order (t ∷ ts) t

unfoldable pub get_build_system : List Text → Text
unfolding detected_tools choose
get_build_system files = choose files (detected_tools files)
