-- ===== src/Builder/Source/Restoring.antt =====
-- What one builder archives, the next one restores.
use assemblage.Prelude.{
  ℕ, ◌≡◌, refl, sym, ap, subst, ◌∙◌, true, false, nat_eq, list_eq, if◌then◌else◌, List, [], ◌∷◌,
  ◌++◌, none, some, Text, codes,
}
use assemblage.Enums.{CloneStatus}
use assemblage.Messages.{BuildTask}
use assemblage.Str.{strip}
use assemblage.Storage.Bucket.{
  Bucket, put, object_at, at-same, at-other, download, object_exists, works_now, is_some,
}
use assemblage.Storage.Layout.{archive_key, pointer_key}
use assemblage.Builder.Source.{
  Host, SourceResult, parse_github_name, acquire_source, finish, restore, fetch, result, archive_up,
  pointed, upload_archive, with_commit, with_archive, pointer_commit, read_pointer,
  download_archive, clone, commit_of, commit_in, owner_project, clone_path, names, known_names,
  restore_archive, unpacked, or_none,
}
use assemblage.Builder.Source.Keys.{pointer_key-in, archive_key-in, keys-differ}
use assemblage.Builder.Source.Folders.{IsName, owner_project-joined}

-- A bucket whose calls work.
abbrev pub working : List (Text × Text) → Bucket
working objects = record { objects = objects; works = [] }

-- The bucket after the archive of a commit and the pointer to it.
abbrev pub archived : Text → Text → Text → Text → List (Text × Text) → List (Text × Text)
archived owner project commit archive objects =
    (pointer_key owner project, commit) ∷ (archive_key owner project commit, archive) ∷ objects

module _ (c : ℕ) (o : Text) (d : ℕ) (p : Text) (e : ℕ) (h : Text) where
  abbrev owner : Text
  owner = c ∷ o

  abbrev project : Text
  project = d ∷ p

  abbrev commit : Text
  commit = e ∷ h

  named_parts :
      (host : Host) (url : Text)
      → parse_github_name host.url_path url ≡ some (owner, project)
      → IsName owner
      → IsName project
      → owner_project (clone_path host url) ≡ (owner, project)
  unfolding clone_path names known_names
  named_parts host url named ho hp =
      rw named (owner_project-joined (host.base_path ++ codes "/projects") owner d p ho hp)

  archive_up-archived :
      (host : Host) (dir archive : Text) (objects : List (Text × Text))
      → owner_project dir ≡ (owner, project)
      → host.make_archive ≡ some archive
      → archive_up host dir commit (working objects) ≡ (
        archive_key owner project commit,
        working (archived owner project commit archive objects),
      )
  unfolding archive_up upload_archive pointed put works_now
  archive_up-archived host dir archive objects parts made = rw (parts, made) refl

  found-archive :
      (archive : Text) (objects : List (Text × Text))
      → object_at (archive_key owner project commit) (archived owner project commit archive objects)
        ≡ some archive
  found-archive archive objects =
      at-other (archive_key owner project commit) (pointer_key owner project) commit
        ((archive_key owner project commit, archive) ∷ objects)
        (λ same.
          keys-differ prefix prefix commit
            (sym (pointer_key-in owner project) ∙ same ∙ archive_key-in owner project commit))
      ∙ at-same (archive_key owner project commit) archive objects
    where
      prefix : Text
      prefix = owner ++ (codes "/" ++ project)

  read_pointer-archived :
      (archive : Text) (objects : List (Text × Text))
      → strip commit ≡ commit
      → read_pointer owner project (working (archived owner project commit archive objects))
        ≡ (some commit, working (archived owner project commit archive objects))
  unfolding read_pointer download works_now commit_in or_none
  read_pointer-archived archive objects clean =
      let found =
        at-same (pointer_key owner project) commit
          ((archive_key owner project commit, archive) ∷ objects) in
      rw (found, clean) refl

  download_archive-archived :
      (archive : Text) (objects : List (Text × Text))
      → download_archive owner project commit
          (working (archived owner project commit archive objects))
        ≡ (some archive, working (archived owner project commit archive objects))
  unfolding download_archive download object_exists works_now is_some
  download_archive-archived archive objects =
      let found = found-archive archive objects in rw found refl

  restored :
      (host : Host) (task : BuildTask) (archive : Text) (objects : List (Text × Text))
      → task.commit_hexsha ≡ []
      → strip commit ≡ commit
      → host.unpack archive ≡ none
      → restore host task
          (some (owner, project))
          (working (archived owner project commit archive objects))
        ≡ (
          some (codes "Restored from S3 archive", CloneStatus.success, clone_path host task.url),
          working (archived owner project commit archive objects),
        )
  unfolding restore with_commit with_archive pointer_commit restore_archive unpacked
  restored host task archive objects fresh clean fine =
      let pointer = read_pointer-archived archive objects clean in
      let loaded = download_archive-archived archive objects in
      rw (fresh, pointer, loaded, fine) refl

  restore_nothing :
      (host : Host) (task : BuildTask) (objects : List (Text × Text))
      → task.commit_hexsha ≡ []
      → object_at (pointer_key owner project) objects ≡ none
      → restore host task (some (owner, project)) (working objects) ≡ (none, working objects)
  unfolding restore with_commit pointer_commit read_pointer download works_now commit_in
  restore_nothing host task objects fresh absent = rw (fresh, absent) refl

  commit_of-head :
      (host : Host) (sha out : Text)
      → sha ≡ []
      → host.head ≡ some out
      → strip out ≡ commit
      → commit_of host sha ≡ commit
  unfolding commit_of
  commit_of-head host sha out fresh head clean = rw (fresh, head) clean

  abbrev pub first_result : Host → BuildTask → SourceResult
  first_result host task = record {
    status = CloneStatus.success;
    message = host.clone_output;
    clone_dir = clone_path host task.url;
    commit_hexsha = commit;
    restored_from_s3 = false;
    save_path = archive_key owner project commit;
  }

  clone-success :
      (host : Host) (url : Text)
      → host.cloned ≡ true
      → clone host url ≡ (host.clone_output, CloneStatus.success, clone_path host url)
  unfolding clone
  clone-success host url cloned =
      ap
        (λ b. (
          host.clone_output,
          if b then CloneStatus.success else CloneStatus.failed,
          clone_path host url,
        ))
        cloned

  finish-archived :
      (host : Host) (task : BuildTask) (message dir path sha : Text) (b b' : Bucket)
      → commit_of host task.commit_hexsha ≡ sha
      → archive_up host dir sha b ≡ (path, b')
      → finish host task true false (message, CloneStatus.success, dir) b
        ≡ result false sha message CloneStatus.success dir (path, b')
  unfolding finish
  finish-archived host task message dir path sha b b' same up =
      ap (λ k. result false k message CloneStatus.success dir (archive_up host dir k b)) same
      ∙ ap (result false sha message CloneStatus.success dir) up

  cloned_first :
      (host : Host) (task : BuildTask) (out archive : Text) (objects : List (Text × Text))
      → parse_github_name host.url_path task.url ≡ some (owner, project)
      → IsName owner
      → IsName project
      → task.commit_hexsha ≡ []
      → host.cloned ≡ true
      → host.head ≡ some out
      → strip out ≡ commit
      → host.make_archive ≡ some archive
      → object_at (pointer_key owner project) objects ≡ none
      → acquire_source host task true (working objects)
        ≡ (first_result host task, working (archived owner project commit archive objects))
  unfolding acquire_source fetch result
  cloned_first host task out archive objects named ho hp fresh cloned head clean made absent =
      ap (fetch host task true) (
        ap (λ n. restore host task n (working objects)) named
        ∙ restore_nothing host task objects fresh absent)
      ∙ ap (λ f. finish host task true false f (working objects))
          (clone-success host task.url cloned)
      ∙ finish-archived host task host.clone_output (clone_path host task.url)
          (archive_key owner project commit) commit (working objects)
          (working (archived owner project commit archive objects))
          (commit_of-head host task.commit_hexsha out fresh head clean)
          (archive_up-archived host (clone_path host task.url) archive objects
            (named_parts host task.url named ho hp) made)

  abbrev pub next_result : Host → BuildTask → SourceResult
  next_result host task = record {
    status = CloneStatus.success;
    message = codes "Restored from S3 archive";
    clone_dir = clone_path host task.url;
    commit_hexsha = commit_of host task.commit_hexsha;
    restored_from_s3 = true;
    save_path = codes "builder:" ++ clone_path host task.url;
  }

  restored_next :
      (host : Host) (task : BuildTask) (archive : Text) (objects : List (Text × Text))
      → parse_github_name host.url_path task.url ≡ some (owner, project)
      → task.commit_hexsha ≡ []
      → strip commit ≡ commit
      → host.unpack archive ≡ none
      → acquire_source host task true (working (archived owner project commit archive objects))
        ≡ (next_result host task, working (archived owner project commit archive objects))
  unfolding acquire_source fetch finish result
  restored_next host task archive objects named fresh clean fine = ap (fetch host task true) (
      ap (λ n. restore host task n (working (archived owner project commit archive objects))) named
      ∙ restored host task archive objects fresh clean fine)

  -- Two builders take the source of one repository, whose URL names an owner and a project and whose
  -- tasks name no commit, one after the other, with a bucket whose calls work and that has no pointer
  -- for it. If the first one's clone, its hash and its archive succeed, and the archive unpacks in the
  -- second, then the second one restores the very archive: it does not clone, and changes no object.
  pub acquire_source-acquire_source :
      (host host' : Host) (task task' : BuildTask) (out archive : Text)
      (objects : List (Text × Text))
      → parse_github_name host.url_path task.url ≡ some (owner, project)
      → parse_github_name host'.url_path task'.url ≡ some (owner, project)
      → IsName owner
      → IsName project
      → task.commit_hexsha ≡ []
      → task'.commit_hexsha ≡ []
      → host.cloned ≡ true
      → host.head ≡ some out
      → strip out ≡ commit
      → strip commit ≡ commit
      → host.make_archive ≡ some archive
      → host'.unpack archive ≡ none
      → object_at (pointer_key owner project) objects ≡ none
      → ((acquire_source host task true (working objects)).0 ≡ first_result host task)
        × (acquire_source host' task' true (acquire_source host task true (working objects)).1
            ≡ (next_result host' task', (acquire_source host task true (working objects)).1))
  acquire_source-acquire_source host host' task task' out archive objects named named' ho hp fresh
        fresh' cloned head clean stable made unpacks absent =
      let first =
        cloned_first host task out archive objects named ho hp fresh cloned head clean made
          absent in
      let second = restored_next host' task' archive objects named' fresh' stable unpacks in
      (
        ap (λ r. r.0) first,
        subst (λ b. acquire_source host' task' true b ≡ (next_result host' task', b))
            (sym (ap (λ r. r.1) first)) second,
      )
