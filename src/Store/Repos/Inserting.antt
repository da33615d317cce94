-- ===== src/Store/Repos/Inserting.antt =====
-- `insert_repos`: what it adds, that a URL is stored once, and consistent keys.
use assemblage.Prelude.{
  ℕ, suc, ◌+◌, ◌≤◌, ◌≡◌, refl, ap, subst, ◌⊎◌, inl, inr, Bool, true, false, ◌==◌, nat_eq, list_eq,
  List, [], ◌∷◌, ◌++◌, map, some, Text, arith, length, length-append, Bool-cases, ==_eq,
}
use mathlib.Core.List.{map-append}
use assemblage.Enums.{BuildStatus, CloneStatus}
use assemblage.Messages.{RepoRecord}
use assemblage.Db.Models.{Db, BuildOpt, RepoDo, Status}
use assemblage.Db.Session.{ok, World, session_scope-keeps, session_scope-result}
use assemblage.Db.Query.{where_, exists, Has, All}
use assemblage.Db.Query.Laws.{All-append, where-append, Has-where, Has-map}
use assemblage.Db.Query.Keys.{Rising, Rising-append}
use assemblage.Db.Integrity.{IsConsistent, HasParents, opt_ids, repo_ids, status_ids}
use assemblage.Store.Integrity.{parents_mono, ids_grow, id_last}
use assemblage.Store.Progress.{Progress, Progress-refl, Progress-append}
use assemblage.Store.Repos.{repo_row, covers, fresh_statuses, with_repo, insert_body, insert_repos}

-- A status row as a new repository gets it: nothing is started.
pub record IsFresh (repo_id : ℕ) (s : Status) : Type 0 where
  pub repo : s.repo_id ≡ repo_id
  pub clone : s.clone_status ≡ CloneStatus.not_started
  pub build : s.build_status ≡ BuildStatus.init

fresh_statuses-IsFresh :
    (now repo_id next : ℕ) (opts : List BuildOpt)
    → All (IsFresh repo_id) (fresh_statuses now repo_id next opts)
unfolding fresh_statuses
fresh_statuses-IsFresh now repo_id next [] = tt
fresh_statuses-IsFresh now repo_id next (o ∷ opts) = (
  record { repo = refl; clone = refl; build = refl },
  fresh_statuses-IsFresh now repo_id (suc next) opts,
)

fresh_statuses-options :
    (now repo_id next : ℕ) (opts : List BuildOpt)
    → map (λ (s : Status). s.build_opt_id) (fresh_statuses now repo_id next opts)
      ≡ map (λ (o : BuildOpt). some o.id) opts
unfolding fresh_statuses
fresh_statuses-options now repo_id next [] = refl
fresh_statuses-options now repo_id next (o ∷ opts) =
    ap (◌∷◌ (some o.id)) (fresh_statuses-options now repo_id (suc next) opts)

fresh_statuses-Rising :
    (now repo_id next : ℕ) (opts : List BuildOpt)
    → Rising next
        (map (λ (s : Status). s.id) (fresh_statuses now repo_id next opts))
        (next + length opts)
unfolding fresh_statuses
fresh_statuses-Rising now repo_id next [] = omega arith
fresh_statuses-Rising now repo_id next (o ∷ opts) = (
  omega arith,
  subst
      (Rising (suc next) (map (λ (s : Status). s.id) (fresh_statuses now repo_id (suc next) opts)))
      (omega arith) (fresh_statuses-Rising now repo_id (suc next) opts),
)

fresh_statuses-parents :
    (db : Db) (now repo_id next : ℕ) (opts : List BuildOpt)
    → Has repo_id (repo_ids db)
    → ((o : BuildOpt) → Has o opts → Has o.id (opt_ids db))
    → All (HasParents db) (fresh_statuses now repo_id next opts)
unfolding fresh_statuses
fresh_statuses-parents db now repo_id next [] r k = tt
fresh_statuses-parents db now repo_id next (o ∷ opts) r k = (
  (r, k o (inl refl)),
  fresh_statuses-parents db now repo_id (suc next) opts r (λ x m. k x (inr m)),
)

with_repo-IsConsistent :
    (now : ℕ) (repo : RepoRecord) (db : Db) → IsConsistent db → IsConsistent (with_repo now repo db)
unfolding with_repo repo_row
with_repo-IsConsistent now repo db v = record {
  opt_keys = v.opt_keys;
  repo_keys =
      rw (map-append (λ (r : RepoDo). r.id) db.repos _)
        (Rising-append 0 db.next_repo (suc db.next_repo) (repo_ids db) _ v.repo_keys (omega arith));
  status_keys = rw (map-append (λ (s : Status). s.id) db.statuses _) (
      Rising-append 0 db.next_status _ (status_ids db) _ v.status_keys
        (fresh_statuses-Rising now db.next_repo db.next_status (where_ (covers repo) db.opts)));
  parents =
      All-append _ db.statuses _
        (parents_mono db (with_repo now repo db) db.statuses
          (ids_grow (λ (r : RepoDo). r.id) db.repos _) (λ k m. m) v.parents)
        (fresh_statuses-parents (with_repo now repo db) now db.next_repo db.next_status
          (where_ (covers repo) db.opts)
          (id_last (λ (r : RepoDo). r.id) db.repos (repo_row repo db.next_repo))
          (λ o m. Has-map (λ (o : BuildOpt). o.id) o db.opts (Has-where _ o db.opts m).0));
}

-- No URL is stored twice.
pub record HasUniqueUrls (db : Db) : Type 0 where
  pub once : (url : Text) → length (where_ (λ (r : RepoDo). r.url == url) db.repos) ≤ 1

no_row :
    (url : Text) (rs : List RepoDo)
    → exists (λ (r : RepoDo). r.url == url) rs ≡ false
    → where_ (λ (r : RepoDo). r.url == url) rs ≡ []
unfolding exists where_
no_row url [] h = refl
no_row url (r ∷ rs) h = ground (arith, no_row url rs)

with_repo-HasUniqueUrls :
    (now : ℕ) (repo : RepoRecord) (db : Db)
    → HasUniqueUrls db
    → exists (λ (r : RepoDo). r.url == repo.url) db.repos ≡ false
    → HasUniqueUrls (with_repo now repo db)
unfolding with_repo repo_row
with_repo-HasUniqueUrls now repo db u h = record {
  once = λ url. rw (where-append (λ (r : RepoDo). r.url == url) db.repos _) (
      rw (length-append (where_ (λ (r : RepoDo). r.url == url) db.repos) _)
        (bound url (Bool-cases (repo.url == url))));
}
  where
    bound :
        (url : Text)
        → ((repo.url == url) ≡ true) ⊎ ((repo.url == url) ≡ false)
        → length (where_ (λ (r : RepoDo). r.url == url) db.repos)
            + length (where_ (λ (r : RepoDo). r.url == url) (repo_row repo db.next_repo ∷ []))
          ≤ 1
    bound url (inl e) =
        let none_stored : length (where_ (λ (r : RepoDo). r.url == url) db.repos) ≡ 0 =
          subst (λ (x : Text). length (where_ (λ (r : RepoDo). r.url == x) db.repos) ≡ 0)
            (==_eq repo.url url e) (ap length (no_row repo.url db.repos h)) in
        unfold where_ in ground (arith, none_stored)
    bound url (inr e) = unfold where_ in ground (arith, u.once url)

module _ (accepts : RepoDo → Bool) where
  insert_body-keeps :
      (P : Db → Type 0) (now : ℕ) (repo : RepoRecord) (db : Db)
      → (exists (λ (r : RepoDo). r.url == repo.url) db.repos ≡ false → P (with_repo now repo db))
      → P db
      → P (insert_body accepts now repo db).1
  unfolding insert_body
  insert_body-keeps P now repo db new old =
      elim (Bool-cases (exists (λ (r : RepoDo). r.url == repo.url) db.repos)) [
        | inl e ↦ rw (e, insert_body) old
        | inr e ↦ elim (Bool-cases (accepts (repo_row repo db.next_repo))) [
          | inl a ↦ rw (e, a, insert_body) (new e)
          | inr a ↦ rw (e, a, insert_body) old
        ]
      ]

  -- If keys rise and foreign keys refer, they do so after an insertion, committed or not.
  pub insert_repos-IsConsistent :
      (now : ℕ) (repo : RepoRecord) (w : World)
      → IsConsistent w.db
      → IsConsistent (insert_repos accepts now repo w).1.db
  unfolding insert_repos
  insert_repos-IsConsistent now repo w v =
      session_scope-keeps (insert_body accepts now repo) w IsConsistent
        (λ v.
          insert_body-keeps IsConsistent now repo w.db (λ _. with_repo-IsConsistent now repo w.db v)
            v)
        v

  -- If no URL is stored twice, none is after an insertion, whatever arrives.
  pub insert_repos-HasUniqueUrls :
      (now : ℕ) (repo : RepoRecord) (w : World)
      → HasUniqueUrls w.db
      → HasUniqueUrls (insert_repos accepts now repo w).1.db
  unfolding insert_repos
  insert_repos-HasUniqueUrls now repo w u =
      session_scope-keeps (insert_body accepts now repo) w HasUniqueUrls
        (λ u.
          insert_body-keeps HasUniqueUrls now repo w.db
            (λ e. with_repo-HasUniqueUrls now repo w.db u e) u)
        u

  -- An insertion that returns has found the URL stored, or the row refused, and returns 0 with the
  -- tables as they were; or it returns 1 and has added the repository and, for exactly the build
  -- options that cover it and in their order, one status row on which nothing is started.
  pub insert_repos-result :
      (now : ℕ) (repo : RepoRecord) (w w' : World) (n : ℕ)
      → insert_repos accepts now repo w ≡ (ok n, w')
      → ((n ≡ 0)
          × (w'.db ≡ w.db)
          × ((exists (λ (r : RepoDo). r.url == repo.url) w.db.repos ≡ true)
              ⊎ (accepts (repo_row repo w.db.next_repo) ≡ false)))
        ⊎ ((n ≡ 1)
            × (exists (λ (r : RepoDo). r.url == repo.url) w.db.repos ≡ false)
            × (w'.db.repos ≡ w.db.repos ++ repo_row repo w.db.next_repo ∷ [])
            × ((new : List Status) × (w'.db.statuses ≡ w.db.statuses ++ new)
                × All (IsFresh w.db.next_repo) new
                × (map (λ (s : Status). s.build_opt_id) new
                    ≡ map (λ (o : BuildOpt). some o.id) (where_ (covers repo) w.db.opts))))
  unfolding insert_repos insert_body with_repo
  insert_repos-result now repo w w' n h =
      let (r, e) = session_scope-result (insert_body accepts now repo) w h in
      elim (Bool-cases (exists (λ (r : RepoDo). r.url == repo.url) w.db.repos)) [
        | inl stored ↦ inl (ground arith, ground arith, inl stored)
        | inr fresh ↦ elim (Bool-cases (accepts (repo_row repo w.db.next_repo))) [
          | inr refused ↦ inl (ground arith, ground arith, inr refused)
          | inl taken ↦ inr (
            ground arith,
            fresh,
            ground arith,
            (
              fresh_statuses now w.db.next_repo w.db.next_status (where_ (covers repo) w.db.opts),
              ground arith,
              fresh_statuses-IsFresh now w.db.next_repo w.db.next_status _,
              fresh_statuses-options now w.db.next_repo w.db.next_status _,
            ),
          )
        ]
      ]

  pub insert_repos-Progress :
      (now : ℕ) (repo : RepoRecord) (w : World)
      → Progress w.db (insert_repos accepts now repo w).1.db
  unfolding insert_repos with_repo
  insert_repos-Progress now repo w =
      session_scope-keeps (insert_body accepts now repo) w (Progress w.db)
        (λ _.
          insert_body-keeps (Progress w.db) now repo w.db
            (λ _.
              Progress-append w.db (with_repo now repo w.db) _ refl
                (fresh_statuses-Rising now w.db.next_repo w.db.next_status _) (omega arith))
            (Progress-refl w.db))
        (Progress-refl w.db)
