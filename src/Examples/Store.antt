-- ===== src/Examples/Store.antt =====
-- The store at one builder and one repository.
use assemblage.Prelude.{
  ℕ, ◌≡◌, refl, ◌⊎◌, inl, true, false, List, [], ◌∷◌, ◌++◌, map, none, some, codes, arith, list_eq,
  nat_eq, option_eq, ◌==◌,
}
use assemblage.Enums.{build_status_eq, clone_status_eq}
use assemblage.Db.Models.{BuildOpt, RepoDo, Status}
use assemblage.Db.Session.{World, ok, session_scope}
use assemblage.Db.Query.{All, Has, where_, exists, first}
use assemblage.Db.Integrity.{IsConsistent}
use assemblage.Store.Options.{register_build_opt}
use assemblage.Store.Options.Identity.{IsUnique, register_build_opt-IsUnique, register_again}
use assemblage.Store.Options.Registering.{register_build_opt-IsConsistent}
use assemblage.Store.Dispatch.{
  DispatchCandidate, next_dispatchable, dispatchable, not_blocked, get_repo, get_opt,
}
use assemblage.Store.Dispatch.Choosing.{
  next_dispatchable_sound, next_dispatchable_complete, IsPending, Allowed, Describes, Eligible,
}
use assemblage.Store.Repos.{insert_repos, repo_row, covers, upsert_ir_artifacts, IrRow}
use assemblage.Store.Repos.Inserting.{
  insert_repos-IsConsistent, insert_repos-HasUniqueUrls, insert_repos-result, HasUniqueUrls,
  IsFresh,
}
use assemblage.Store.Repos.IrRows.{HasUniqueStages, upsert_ir_artifacts-HasUniqueStages}
use assemblage.Examples.Data.{
  ilike, strftime, accepts, gcc_builder, scraped_repo, task_world, task_row, task_db, empty_db,
  empty_world, task_db-IsConsistent, empty_db-IsConsistent,
}

abbrev the_task : DispatchCandidate
the_task = record {
  task_id = 0;
  opt_id = 0;
  repo_id = 0;
  name = codes "p";
  url = codes "https://github.com/o/p";
  updated_at = codes "2021";
  build_system = codes "make";
  compiler_flag = codes "-O2";
}

the_task_chosen : (next_dispatchable ilike strftime 0 none 0 task_world).0 ≡ ok (some the_task)
unfolding next_dispatchable session_scope first where_ nat_eq option_eq build_status_eq
    clone_status_eq dispatchable not_blocked get_repo get_opt
the_task_chosen = refl

next_dispatchable_sound_example :
    (s : Status) × (r : RepoDo) × (o : BuildOpt) × Has s task_db.statuses
    × IsPending 0 s
    × Has r task_db.repos
    × (r.id ≡ s.repo_id)
    × Allowed ilike strftime none r
    × Has o task_db.opts
    × (o.id ≡ 0)
    × Describes ilike strftime the_task s r o
next_dispatchable_sound_example =
    next_dispatchable_sound ilike strftime 0 none 0 task_world the_task task_db-IsConsistent
      the_task_chosen

none_chosen : (next_dispatchable ilike strftime 0 none 1 task_world).0 ≡ ok none
unfolding next_dispatchable session_scope first where_ nat_eq option_eq build_status_eq
    clone_status_eq dispatchable
none_chosen = refl

next_dispatchable_complete_example : ¬ Eligible ilike strftime none 1 task_db task_row
next_dispatchable_complete_example =
    next_dispatchable_complete ilike strftime 0 none 1 task_world task_row task_db-IsConsistent
      none_chosen (inl refl)

insert_repos-IsConsistent_example :
    IsConsistent (insert_repos accepts 9 scraped_repo task_world).1.db
insert_repos-IsConsistent_example =
    insert_repos-IsConsistent accepts 9 scraped_repo task_world task_db-IsConsistent

empty-HasUniqueUrls : HasUniqueUrls empty_db
unfolding where_
empty-HasUniqueUrls = record { once = λ url. omega arith }

insert_repos-HasUniqueUrls_example :
    HasUniqueUrls (insert_repos accepts 9 scraped_repo empty_world).1.db
insert_repos-HasUniqueUrls_example =
    insert_repos-HasUniqueUrls accepts 9 scraped_repo empty_world empty-HasUniqueUrls

abbrev inserted : World
inserted = (insert_repos accepts 9 scraped_repo task_world).1

stored_already : insert_repos accepts 9 scraped_repo task_world ≡ (ok 0, inserted)
unfolding insert_repos session_scope exists list_eq nat_eq
stored_already = refl

abbrev no_rows : ℕ
no_rows = 0

insert_repos-result_example :
    ((no_rows ≡ 0)
      × (inserted.db ≡ task_db)
      × ((exists (λ (r : RepoDo). r.url == scraped_repo.url) task_db.repos ≡ true)
          ⊎ (accepts (repo_row scraped_repo 1) ≡ false)))
    ⊎ ((no_rows ≡ 1)
        × (exists (λ (r : RepoDo). r.url == scraped_repo.url) task_db.repos ≡ false)
        × (inserted.db.repos ≡ task_db.repos ++ repo_row scraped_repo 1 ∷ [])
        × ((new : List Status) × (inserted.db.statuses ≡ task_db.statuses ++ new)
            × All (IsFresh 1) new
            × (map (λ (s : Status). s.build_opt_id) new
                ≡ map (λ (o : BuildOpt). some o.id) (where_ (covers scraped_repo) task_db.opts))))
insert_repos-result_example =
    insert_repos-result accepts 9 scraped_repo task_world inserted 0 stored_already

empty-IsUnique : IsUnique empty_db
unfolding where_
empty-IsUnique = record { once = λ reg. omega arith }

register_build_opt-IsUnique_example : IsUnique (register_build_opt 0 gcc_builder empty_world).1.db
register_build_opt-IsUnique_example =
    register_build_opt-IsUnique 0 gcc_builder empty_world empty-IsUnique

register_build_opt-IsConsistent_example :
    IsConsistent (register_build_opt 0 gcc_builder empty_world).1.db
register_build_opt-IsConsistent_example =
    register_build_opt-IsConsistent 0 gcc_builder empty_world empty_db-IsConsistent

abbrev registered : World
registered = (register_build_opt 0 gcc_builder empty_world).1

abbrev registered_twice : World
registered_twice = (register_build_opt 0 gcc_builder registered).1

first_registration : register_build_opt 0 gcc_builder empty_world ≡ (ok 0, registered)
unfolding register_build_opt session_scope first where_
first_registration = refl

second_registration : register_build_opt 0 gcc_builder registered ≡ (ok 0, registered_twice)
unfolding register_build_opt session_scope first where_ list_eq nat_eq option_eq
second_registration = refl

register_again_example :
    (no_rows ≡ 0)
    × (registered_twice.db.statuses ≡ registered.db.statuses)
    × (map (λ (o : BuildOpt). o.id) registered_twice.db.opts
        ≡ map (λ (o : BuildOpt). o.id) registered.db.opts)
register_again_example =
    register_again 0 0 gcc_builder empty_world registered registered_twice 0 0 empty-IsUnique
      first_registration second_registration

empty-HasUniqueStages : HasUniqueStages empty_db
unfolding where_
empty-HasUniqueStages = record { once = λ id stage. omega arith }

abbrev mir_row : IrRow
mir_row = record {
  stage = codes "MIR";
  scope = codes "REPO";
  s3_key = codes "k";
  file_count = 1;
  crate_count = 1;
  raw_bytes = 10;
  stored_bytes = 5;
}

upsert_ir_artifacts-HasUniqueStages_example :
    HasUniqueStages (upsert_ir_artifacts 9 0 (mir_row ∷ mir_row ∷ []) empty_world).1.db
upsert_ir_artifacts-HasUniqueStages_example =
    upsert_ir_artifacts-HasUniqueStages 9 0 (mir_row ∷ mir_row ∷ []) empty_world
      empty-HasUniqueStages
