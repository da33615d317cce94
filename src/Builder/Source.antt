-- ===== src/Builder/Source.antt =====
-- backend/assemblage/builder/source.py: the source of a task comes from the archive of an earlier task
-- or from a clone, which is then archived. Texts stand for the content of files.
pub mod Keys
pub mod Pointers
pub mod Folders
pub mod Restoring
use assemblage.Prelude.{
  ℕ, Bool, true, false, not, ◌&&◌, ◌==◌, nat_eq, list_eq, if◌then◌else◌, List, [], ◌∷◌, ◌++◌,
  length, Option, none, some, Text, codes,
}
use assemblage.Enums.{CloneStatus}
use assemblage.Messages.{BuildTask}
use assemblage.Str.{strip, ends_with, starts_with, without_end}
use assemblage.Str.Split.{split, after_first}
use assemblage.Storage.Bucket.{Bucket, put, download, object_exists}
use assemblage.Storage.Layout.{archive_key, pointer_key, joined}

-- s.rstrip("/") and s.strip("/")
unfoldable pub rstrip_slash : Text → Text
rstrip_slash [] = []
rstrip_slash (c ∷ s) = let rest = rstrip_slash s in if c == b'/' && rest == [] then [] else c ∷ rest

lstrip_slash : Text → Text
lstrip_slash [] = []
lstrip_slash (c ∷ s) = let rest = lstrip_slash s in if c == b'/' then rest else c ∷ s

-- The two first parts, if there are two.
first_two : List Text → Option (Text × Text)
first_two (a ∷ b ∷ ps) = some (a, b)
first_two _ = none

-- `url_path` stands for `urlparse(url).path`.
unfoldable pub parse_github_name : (Text → Text) → Text → Option (Text × Text)
unfolding first_two lstrip_slash rstrip_slash split after_first starts_with ends_with without_end
parse_github_name url_path url =
    let url = if ends_with (codes ".git") url then without_end (codes ".git") url else url in
    let path =
      if starts_with (codes "git@") url then after_first (codes ":") url else url_path url in
    first_two (split b'/' (rstrip_slash (lstrip_slash path)))

-- What the machine does for one task.
pub record Host : Type 0 where
  -- `urlparse(url).path`
  pub url_path : Text → Text
  pub base_path : Text
  -- Names from `os.urandom`, for a URL with no owner or no project.
  pub random_owner : Text
  pub random_project : Text
  -- `shutil.unpack_archive`: what the exception says, if there is one.
  pub unpack : Text → Option Text
  -- `git clone` or `git pull`: did it return 0, and its output.
  pub cloned : Bool
  pub clone_output : Text
  -- `git rev-parse --short=12 HEAD`, none if it fails.
  pub head : Option Text
  -- `shutil.make_archive` of the clone, none if it raises.
  pub make_archive : Option Text

pub record SourceResult : Type 0 where
  pub status : CloneStatus
  pub message : Text
  pub clone_dir : Text
  pub commit_hexsha : Text
  pub restored_from_s3 : Bool
  pub save_path : Text

abbrev or_random : Text → Text → Text
or_random random [] = random
or_random random (c ∷ s) = c ∷ s

-- `owner or os.urandom(8).hex()` and the same for the project.
unfoldable pub known_names : Host → Option (Text × Text) → Text × Text
known_names host none = (host.random_owner, host.random_project)
known_names host (some (owner, project)) =
    (or_random host.random_owner owner, or_random host.random_project project)

unfoldable pub names : Host → Text → Text × Text
unfolding parse_github_name known_names
names host url = known_names host (parse_github_name host.url_path url)

unfoldable pub clone_path : Host → Text → Text
unfolding names
clone_path host url =
    joined (host.base_path ++ codes "/projects") (joined (names host url).0 (names host url).1)

-- The message, the status and the folder.
abbrev Fetched : Type 0
Fetched = Text × CloneStatus × Text

-- `_clone`
unfoldable pub clone : Host → Text → Fetched
unfolding clone_path
clone host url = (
  host.clone_output,
  if host.cloned then CloneStatus.success else CloneStatus.failed,
  clone_path host url,
)

unfoldable pub unpacked : Option Text → Text → Fetched
unpacked none dir = (codes "Restored from S3 archive", CloneStatus.success, dir)
unpacked (some error) dir = (error, CloneStatus.failed, dir)

-- `_restore_archive`
unfoldable pub restore_archive : Host → Text → Text → Fetched
unfolding unpacked clone_path
restore_archive host archive url = unpacked (host.unpack archive) (clone_path host url)

unfoldable pub or_none : Text → Option Text
or_none [] = none
or_none (c ∷ s) = some (c ∷ s)

unfoldable pub commit_in : Option Text → Option Text
unfolding strip or_none
commit_in none = none
commit_in (some content) = or_none (strip content)

-- `_read_pointer`
unfoldable pub read_pointer : Text → Text → Bucket → Option Text × Bucket
unfolding commit_in download pointer_key
read_pointer owner project b =
    let (content, b') = download (pointer_key owner project) b in (commit_in content, b')

-- `_download_archive`
unfoldable pub download_archive : Text → Text → Text → Bucket → Option Text × Bucket
unfolding object_exists download archive_key
download_archive owner project commit b =
    let (here, b') = object_exists (archive_key owner project commit) b in
    if here then download (archive_key owner project commit) b' else (none, b')

-- `_upload_archive`
unfoldable pub upload_archive : Option Text → Text → Text → Text → Bucket → Bool × Bucket
unfolding put archive_key
upload_archive none owner project commit b = (false, b)
upload_archive (some archive) owner project commit b =
    put (archive_key owner project commit) archive b

-- `task.commit_hexsha or _read_pointer(...)`
unfoldable pub pointer_commit : Text → Text → Text → Bucket → Option Text × Bucket
unfolding read_pointer
pointer_commit [] owner project b = read_pointer owner project b
pointer_commit (c ∷ s) owner project b = (some (c ∷ s), b)

unfoldable pub with_archive : Host → Text → Option Text → Option Fetched
unfolding restore_archive
with_archive host url none = none
with_archive host url (some archive) = some (restore_archive host archive url)

unfoldable pub with_commit :
    Host → Text → Text → Text → Option Text × Bucket → Option Fetched × Bucket
unfolding download_archive with_archive
with_commit host url owner project (none, b) = (none, b)
with_commit host url owner project (some commit, b) =
    let (archive, b') = download_archive owner project commit b in
    (with_archive host url archive, b')

-- The attempt to restore, if the URL has an owner and a project.
unfoldable pub restore : Host → BuildTask → Option (Text × Text) → Bucket → Option Fetched × Bucket
unfolding with_commit pointer_commit
restore host task none b = (none, b)
restore host task (some ([], project)) b = (none, b)
restore host task (some (c ∷ owner, [])) b = (none, b)
restore host task (some (c ∷ owner, d ∷ project)) b =
    with_commit host task.url (c ∷ owner) (d ∷ project)
      (pointer_commit task.commit_hexsha (c ∷ owner) (d ∷ project) b)

-- `task.commit_hexsha or get_project_commit(clone_dir)`
unfoldable pub commit_of : Host → Text → Text
commit_of host [] = elim host.head [ none ↦ codes "Unknown" | some out ↦ strip out ]
commit_of host (c ∷ s) = c ∷ s

-- The last two parts of the folder; a path has more.
unfoldable pub last_two : List Text → Text × Text
last_two [] = ([], [])
last_two (a ∷ []) = ([], a)
last_two (a ∷ b ∷ []) = (a, b)
last_two (a ∷ b ∷ c ∷ ps) = last_two (b ∷ c ∷ ps)

unfoldable pub owner_project : Text → Text × Text
unfolding last_two rstrip_slash split
owner_project clone_dir = last_two (split b'/' (rstrip_slash clone_dir))

-- The upload returned true: the pointer follows, whatever becomes of it.
unfoldable pub pointed : Text → Text → Text → Text → Bool × Bucket → Text × Bucket
unfolding put pointer_key archive_key
pointed dir owner project commit (false, b) = (codes "builder:" ++ dir, b)
pointed dir owner project commit (true, b) =
    (archive_key owner project commit, (put (pointer_key owner project) commit b).1)

unfoldable pub archive_up : Host → Text → Text → Bucket → Text × Bucket
unfolding pointed upload_archive owner_project
archive_up host dir commit b =
    let (owner, project) = owner_project dir in
    pointed dir owner project commit (upload_archive host.make_archive owner project commit b)

unfoldable pub result :
    Bool → Text → Text → CloneStatus → Text → Text × Bucket → SourceResult × Bucket
result restored commit message status dir (path, b) = (
  record {
    status = status;
    message = message;
    clone_dir = dir;
    commit_hexsha = commit;
    restored_from_s3 = restored;
    save_path = path;
  },
  b,
)

-- From the status on: `bucket` says whether there is a project bucket.
unfoldable pub finish : Host → BuildTask → Bool → Bool → Fetched → Bucket → SourceResult × Bucket
unfolding result archive_up commit_of
finish host task bucket restored (message, CloneStatus.success, dir) b =
    let commit = commit_of host task.commit_hexsha in
    result restored commit message CloneStatus.success dir (
      if bucket && not restored then archive_up host dir commit b else (codes "builder:" ++ dir, b))
finish host task bucket restored (message, status, dir) b =
    result restored [] message status dir (codes "builder:" ++ dir, b)

-- A restore that succeeded is used; else the repository is cloned.
unfoldable pub fetch : Host → BuildTask → Bool → Option Fetched × Bucket → SourceResult × Bucket
unfolding finish clone
fetch host task bucket (some (message, CloneStatus.success, dir), b) =
    finish host task bucket true (message, CloneStatus.success, dir) b
fetch host task bucket (other, b) = finish host task bucket false (clone host task.url) b

unfoldable pub acquire_source : Host → BuildTask → Bool → Bucket → SourceResult × Bucket
unfolding fetch restore parse_github_name
acquire_source host task bucket b =
    fetch host task bucket
      (if bucket then restore host task (parse_github_name host.url_path task.url) b else (none, b))
