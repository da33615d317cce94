-- ===== src/Builder/Source/Pointers.antt =====
-- The pointer of a project never leads to a missing archive.
use assemblage.Prelude.{
  ◌≡◌, ◌≢◌, refl, sym, ap, ◌∙◌, subst, ◌⊎◌, inl, inr, Bool, true, false, not, ◌&&◌, nat_eq, list_eq,
  if◌then◌else◌, List, [], ◌∷◌, ◌++◌, Option, none, some, Text, codes,
}
use assemblage.Enums.{CloneStatus}
use assemblage.Messages.{BuildTask}
use assemblage.Storage.Bucket.{Bucket, put, put-cases, object_at, at-same, download, object_exists}
use assemblage.Storage.Layout.{archive_key, pointer_key}
use assemblage.Builder.Source.{
  Host, parse_github_name, acquire_source, finish, restore, fetch, result, archive_up, pointed,
  upload_archive, with_commit, pointer_commit, read_pointer, download_archive, clone, commit_of,
  owner_project,
}
use assemblage.Builder.Source.Keys.{
  archive_in, IsPointed, pointer_key-in, archive_key-in, some-here, archive-IsPointed,
  pointer-IsPointed,
}

-- Neither looking nor loading changes the objects.
pointer_commit-objects :
    (commit owner project : Text) (b : Bucket)
    → (pointer_commit commit owner project b).1.objects ≡ b.objects
unfolding pointer_commit read_pointer download
pointer_commit-objects [] owner project b = refl
pointer_commit-objects (c ∷ s) owner project b = refl

download_archive-objects :
    (owner project commit : Text) (b : Bucket)
    → (download_archive owner project commit b).1.objects ≡ b.objects
unfolding download_archive download object_exists
download_archive-objects owner project commit b =
    by (object_exists (archive_key owner project commit) b) refl
  where
    by :
        (r : Bool × Bucket)
        → r.1.objects ≡ b.objects
        → (if r.0 then download (archive_key owner project commit) r.1 else (none, r.1)).1.objects
          ≡ b.objects
    by (true, b') h = h
    by (false, b') h = h

with_commit-objects :
    (host : Host) (url owner project : Text) (r : Option Text × Bucket)
    → (with_commit host url owner project r).1.objects ≡ r.1.objects
unfolding with_commit
with_commit-objects host url owner project (none, b) = refl
with_commit-objects host url owner project (some commit, b) =
    download_archive-objects owner project commit b

restore-objects :
    (host : Host) (task : BuildTask) (names : Option (Text × Text)) (b : Bucket)
    → (restore host task names b).1.objects ≡ b.objects
unfolding restore
restore-objects host task none b = refl
restore-objects host task (some ([], project)) b = refl
restore-objects host task (some (c ∷ owner, [])) b = refl
restore-objects host task (some (c ∷ owner, d ∷ project)) b =
    with_commit-objects host task.url (c ∷ owner) (d ∷ project)
      (pointer_commit task.commit_hexsha (c ∷ owner) (d ∷ project) b)
    ∙ pointer_commit-objects task.commit_hexsha (c ∷ owner) (d ∷ project) b

-- The pointer of a project after its archive, whether or not it is stored.
pointed-IsPointed :
    (dir owner project commit archive : Text) (os : List (Text × Text)) (r : Bool × Bucket)
    → IsPointed os
    → ((r.0 ≡ true) × (r.1.objects ≡ (archive_key owner project commit, archive) ∷ os))
      ⊎ ((r.0 ≡ false) × (r.1.objects ≡ os))
    → IsPointed (pointed dir owner project commit r).1.objects
unfolding pointed
pointed-IsPointed dir owner project commit archive os (false, b) h (inl (e, o)) = absurd (cc)
pointed-IsPointed dir owner project commit archive os (false, b) h (inr (e, o)) =
    subst IsPointed (sym o) h
pointed-IsPointed dir owner project commit archive os (true, b) h (inr (e, o)) = absurd (cc)
pointed-IsPointed dir owner project commit archive os (true, b) h (inl (e, o)) =
    elim (put-cases (pointer_key owner project) commit b) [
      | inl (_, p) ↦
          subst IsPointed
            (sym (p ∙ ap (λ k. (k, commit) ∷ b.objects) (pointer_key-in owner project)))
            (pointer-IsPointed q commit b.objects there archived)
      | inr (_, p) ↦ subst IsPointed (sym p) archived
    ]
  where
    q : Text
    q = owner ++ (codes "/" ++ project)

    o' : b.objects ≡ (archive_in q commit, archive) ∷ os
    o' = o ∙ ap (λ k. (k, archive) ∷ os) (archive_key-in owner project commit)

    archived : IsPointed b.objects
    archived = subst IsPointed (sym o') (archive-IsPointed q commit archive os h)

    there : object_at (archive_in q commit) b.objects ≢ none
    there = some-here _ archive (
        subst (λ os. object_at (archive_in q commit) os ≡ some archive) (sym o')
          (at-same (archive_in q commit) archive os))

archive_up-IsPointed :
    (host : Host) (dir commit : Text) (b : Bucket)
    → IsPointed b.objects
    → IsPointed (archive_up host dir commit b).1.objects
unfolding archive_up
archive_up-IsPointed host dir commit b h = by host.make_archive
  where
    owner : Text
    owner = (owner_project dir).0

    project : Text
    project = (owner_project dir).1

    by :
        (a : Option Text)
        → IsPointed
            (pointed dir owner project commit (upload_archive a owner project commit b)).1.objects
    by none = h
    by (some a) =
        pointed-IsPointed dir owner project commit a b.objects
          (put (archive_key owner project commit) a b) h
          (put-cases (archive_key owner project commit) a b)

finish-IsPointed :
    (host : Host) (task : BuildTask) (bucket restored : Bool) (message : Text)
    (status : CloneStatus) (dir : Text) (b : Bucket)
    → IsPointed b.objects
    → IsPointed (finish host task bucket restored (message, status, dir) b).1.objects
unfolding finish result
finish-IsPointed host task bucket restored message CloneStatus.success dir b h =
    by (bucket && not restored)
  where
    commit : Text
    commit = commit_of host task.commit_hexsha

    by :
        (up : Bool)
        → IsPointed
            (if up then archive_up host dir commit b else (codes "builder:" ++ dir, b)).1.objects
    by true = archive_up-IsPointed host dir commit b h
    by false = h
finish-IsPointed host task bucket restored message CloneStatus.not_started dir b h = h
finish-IsPointed host task bucket restored message CloneStatus.processing dir b h = h
finish-IsPointed host task bucket restored message CloneStatus.failed dir b h = h
finish-IsPointed host task bucket restored message CloneStatus.timeout dir b h = h
finish-IsPointed host task bucket restored message CloneStatus.command_failed dir b h = h

fetch-IsPointed :
    (host : Host) (task : BuildTask) (bucket : Bool)
    (r : Option (Text × CloneStatus × Text) × Bucket)
    → IsPointed r.1.objects
    → IsPointed (fetch host task bucket r).1.objects
unfolding fetch clone
fetch-IsPointed host task bucket (none, b) h = finish-IsPointed host task bucket false _ _ _ b h
fetch-IsPointed host task bucket (some (m, CloneStatus.success, dir), b) h =
    finish-IsPointed host task bucket true m CloneStatus.success dir b h
fetch-IsPointed host task bucket (some (m, CloneStatus.not_started, dir), b) h =
    finish-IsPointed host task bucket false _ _ _ b h
fetch-IsPointed host task bucket (some (m, CloneStatus.processing, dir), b) h =
    finish-IsPointed host task bucket false _ _ _ b h
fetch-IsPointed host task bucket (some (m, CloneStatus.failed, dir), b) h =
    finish-IsPointed host task bucket false _ _ _ b h
fetch-IsPointed host task bucket (some (m, CloneStatus.timeout, dir), b) h =
    finish-IsPointed host task bucket false _ _ _ b h
fetch-IsPointed host task bucket (some (m, CloneStatus.command_failed, dir), b) h =
    finish-IsPointed host task bucket false _ _ _ b h

-- Whatever fails, on the machine, in git or in the store, a builder that takes the source of a task
-- leaves every pointer with an archive: if each pointer of the bucket names a commit whose archive is
-- there, it is so afterwards, for the objects it may have added. So no other builder is sent to an
-- archive that was never stored.
pub acquire_source-IsPointed :
    (host : Host) (task : BuildTask) (bucket : Bool) (b : Bucket)
    → IsPointed b.objects
    → IsPointed (acquire_source host task bucket b).1.objects
unfolding acquire_source
acquire_source-IsPointed host task bucket b h =
    fetch-IsPointed host task bucket (Restored bucket) (by bucket)
  where
    Restored : Bool → Option (Text × CloneStatus × Text) × Bucket
    Restored here =
        if here then restore host task (parse_github_name host.url_path task.url) b else (none, b)

    by : (here : Bool) → IsPointed (Restored here).1.objects
    by true =
        subst IsPointed
          (sym (restore-objects host task (parse_github_name host.url_path task.url) b)) h
    by false = h
