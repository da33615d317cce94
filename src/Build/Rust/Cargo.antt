-- ===== src/Build/Rust/Cargo.antt =====
-- What backend/assemblage/build/rust.py reads from cargo's JSON stream and from source paths.
use assemblage.Prelude.{
  Bool, ◌&&◌, ◌||◌, ◌==◌, nat_eq, list_eq, if◌then◌else◌, List, [], ◌∷◌, ◌++◌, contains, Option,
  none, some, Text, codes,
}
use assemblage.Str.{strip, starts_with, ends_with}
use assemblage.Str.Split.{lines}
use assemblage.Db.Query.{where_, exists}
use assemblage.Build.Rust.Backends.{join}

-- A message of cargo.
pub record CargoMessage : Type 0 where
  pub reason : Text
  pub package_id : Text
  pub kinds : List Text
  pub executable : Option Text
  pub filenames : List Text
  pub rendered : Option Text

or_none : Option Text → List Text
or_none none = []
or_none (some []) = []
or_none (some (c ∷ s)) = (c ∷ s) ∷ []

-- Names that were not seen before.
new_only : List Text → List Text → List Text
new_only [] seen = []
new_only (p ∷ ps) seen =
    let rest = new_only ps seen in
    let more = new_only ps (seen ++ p ∷ []) in if contains seen p then rest else p ∷ more

-- The paths of an artifact, if the message is one of a member's binary, example or library for C.
artifact_paths : List Text → CargoMessage → List Text
unfolding exists where_ ends_with or_none
artifact_paths member_ids m =
    if m.reason == codes "compiler-artifact"
      && (member_ids == [] || contains member_ids m.package_id)
      && exists (contains (codes "bin" ∷ codes "example" ∷ codes "cdylib" ∷ [])) m.kinds
    then or_none m.executable ++ where_ (ends_with (codes ".so")) m.filenames
    else []

rendered_text : CargoMessage → List Text
unfolding or_none
rendered_text m = if m.reason == codes "compiler-message" then or_none m.rendered else []

-- `json` stands for the parser: none where it raises.
module _ (json : Text → Option CargoMessage) where
  parsed : Option CargoMessage → List CargoMessage
  parsed none = []
  parsed (some m) = m ∷ []

  messages : List Text → List CargoMessage
  unfolding parsed strip starts_with
  messages [] = []
  messages (raw ∷ ls) =
      let rest = messages ls in
      if starts_with (codes "{") (strip raw) then parsed (json (strip raw)) ++ rest else rest

  all_paths : List Text → List CargoMessage → List Text
  unfolding artifact_paths
  all_paths member_ids [] = []
  all_paths member_ids (m ∷ ms) = artifact_paths member_ids m ++ all_paths member_ids ms

  all_texts : List CargoMessage → List Text
  unfolding rendered_text
  all_texts [] = []
  all_texts (m ∷ ms) = rendered_text m ++ all_texts ms

  unfoldable pub parse_cargo_artifacts : Text → List Text → List Text
  unfolding new_only all_paths messages lines
  parse_cargo_artifacts stdout member_ids =
      new_only (all_paths member_ids (messages (lines stdout))) []

  unfoldable pub rendered_diagnostics : Text → Text → Text
  unfolding strip join all_texts messages lines
  rendered_diagnostics stdout stderr =
      strip (join (codes "\n") (all_texts (messages (lines stdout)) ++ stderr ∷ []))

-- `classify_origin`: `is_file` is the test in the clone, `joined` is os.path.join(cargo_home,
-- "registry", "src"), and `real` the real path of the clone.
unfoldable pub classify_origin : (Text → Bool) → Text → Text → Text → Text → Text
unfolding starts_with
classify_origin is_file registry clone_dir real source_file =
    if source_file == []
    then codes "other"
    else if starts_with (codes "/rustc/") source_file
    then codes "stdlib"
    else if starts_with registry source_file
    then codes "dependency"
    else if starts_with (codes "/") source_file
    then (if starts_with clone_dir source_file || starts_with real source_file
        then codes "in_repo"
        else codes "other")
    else if is_file source_file
    then codes "in_repo"
    else if starts_with (codes "library/") source_file
    then codes "stdlib"
    else codes "other"
