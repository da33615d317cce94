-- ===== src/Store/Dispatch/Choosing.antt =====
-- Which task `next_dispatchable` returns.
use assemblage.Prelude.{
  ℕ, ◌≡◌, refl, inl, inr, Bool, true, false, ◌&&◌, ◌==◌, nat_eq, ==_eq, option_eq, List, [], map,
  Option, none, some, Text, arith, sym, ◌∙◌, subst, Option-cases, List-cases,
}
use assemblage.Enums.{BuildStatus, CloneStatus, build_status_eq, clone_status_eq}
use assemblage.Blocklist.{Blocklist, like_patterns}
use assemblage.Db.Models.{Db, BuildOpt, RepoDo, Status}
use assemblage.Db.Session.{
  ok, World, session_scope-commits, session_scope-keeps, session_scope-commits_left,
}
use assemblage.Db.Integrity.{IsConsistent, HasParents, Refers, opt_ids}
use mathlib.Core.Bool.{false≢true}
use assemblage.Db.Query.Keys.{Rising-unique}
use assemblage.Db.Query.{exists, first, Has}
use assemblage.Db.Query.Laws.{
  Has-where, Has-first, first-none, map-Has, Has-exists, exists-Has, All-has, first-where,
  where-nil,
}
use assemblage.Store.Dispatch.{
  DispatchCandidate, is_pending, joined, not_blocked, dispatchable, get_repo, get_opt, candidate,
  or_empty, next_body, next_dispatchable,
}

-- The row is unstarted in both columns and stands for this option.
pub record IsPending (opt_id : ℕ) (s : Status) : Type 0 where
  pub clone : s.clone_status ≡ CloneStatus.not_started
  pub build : s.build_status ≡ BuildStatus.init
  pub option : s.build_opt_id ≡ some opt_id

is_pending_lem : (opt_id : ℕ) (s : Status) → is_pending opt_id s ≡ true → IsPending opt_id s
unfolding is_pending
is_pending_lem opt_id s h = record {
  clone = ground arith;
  build = ground arith;
  option = ground arith;
}

module _ (ilike : Text → Text → Bool) (strftime : Text → Text) where
  -- The repository is not excluded by a pattern of the blocklist.
  abbrev pub Allowed : Option Blocklist → RepoDo → Type 0
  Allowed none r = Unit
  Allowed (some b) r = exists (ilike r.url) (like_patterns b) ≡ false

  -- What a row needs to be dispatched for an option: a repository that is not excluded.
  abbrev pub Eligible : Option Blocklist → ℕ → Db → Status → Type 0
  Eligible b opt_id db s =
      IsPending opt_id s × ((r : RepoDo) × Has r db.repos × (r.id ≡ s.repo_id) × Allowed b r)

  joined-Allowed :
      (b : Option Blocklist) (repos : List RepoDo) (s : Status)
      → joined ilike repos (not_blocked ilike b) s ≡ true
      → Has s.repo_id (map (λ (r : RepoDo). r.id) repos)
      → (r : RepoDo) × Has r repos × (r.id ≡ s.repo_id) × Allowed b r
  unfolding joined not_blocked
  joined-Allowed none repos s h m = let (r, i, e) = map-Has _ _ repos m in (r, i, sym e, tt)
  joined-Allowed (some b) repos s h m = elim (List-cases (like_patterns b)) [
    | inl e ↦ let (r, i, q) = map-Has _ _ repos m in (r, i, sym q, rw e (unfold exists in refl))
    | inr (p, ps, e) ↦
        let (r, i, t) = Has-exists _ repos (rw (e, not_blocked) at h) in
        (r, i, ==_eq _ _ (ground arith), rw e (ground arith))
  ]

  Allowed-joined :
      (b : Option Blocklist) (repos : List RepoDo) (s : Status) (r : RepoDo)
      → Has r repos
      → r.id ≡ s.repo_id
      → Allowed b r
      → joined ilike repos (not_blocked ilike b) s ≡ true
  unfolding joined not_blocked
  Allowed-joined none repos s r i e a = refl
  Allowed-joined (some b) repos s r i e a = elim (List-cases (like_patterns b)) [
    | inl q ↦ rw (q, not_blocked) refl
    | inr (p, ps, q) ↦ rw (q, not_blocked) (exists-Has _ r repos i (ground (arith, e, a, q)))
  ]

  dispatchable-Eligible :
      (b : Option Blocklist) (opt_id : ℕ) (db : Db) (s : Status)
      → IsConsistent db
      → Has s (dispatchable ilike b opt_id db)
      → Has s db.statuses × Eligible b opt_id db s
  unfolding dispatchable
  dispatchable-Eligible b opt_id db s v m =
      let (i, t) = Has-where _ s db.statuses m in
      (
        i,
        (
          is_pending_lem opt_id s (ground arith),
          joined-Allowed b db.repos s (ground arith)
              (All-has (HasParents db) db.statuses v.parents i).0,
        ),
      )

  Eligible-dispatchable :
      (b : Option Blocklist) (opt_id : ℕ) (db : Db) (s : Status)
      → Eligible b opt_id db s
      → (is_pending opt_id s && joined ilike db.repos (not_blocked ilike b) s) ≡ true
  unfolding is_pending
  Eligible-dispatchable b opt_id db s (p, (r, i, e, a)) =
      ground (arith, p.clone, p.build, p.option, Allowed-joined b db.repos s r i e a)

  -- The candidate is made of this row, its repository and its option.
  abbrev pub Describes : DispatchCandidate → Status → RepoDo → BuildOpt → Type 0
  Describes c s r o = c ≡ record {
    task_id = s.id;
    opt_id = o.id;
    repo_id = r.id;
    name = r.name;
    url = r.url;
    updated_at = strftime r.updated_at;
    build_system = r.build_system;
    compiler_flag = or_empty o.compiler_flag;
  }

  parents_found :
      (db : Db) (s : Status) (opt_id : ℕ)
      → HasParents db s
      → s.build_opt_id ≡ some opt_id
      → (r : RepoDo) × (o : BuildOpt) × (get_repo ilike s.repo_id db.repos ≡ some r)
        × (get_opt ilike s.build_opt_id db.opts ≡ some o)
        × Has r db.repos
        × (r.id ≡ s.repo_id)
        × Has o db.opts
        × (o.id ≡ opt_id)
  unfolding get_repo get_opt
  parents_found db s opt_id (m, n) e =
      let (r, i, q) = map-Has _ _ db.repos m in
      let (r', fr, ir, tr) =
        first-where 0 (λ (x : RepoDo). x.id == s.repo_id) r db.repos i (ground arith) in
      let n' : Refers (some opt_id) (opt_ids db) = subst (λ x. Refers x (opt_ids db)) e n in
      let (o, j, q') = map-Has _ _ db.opts n' in
      let (o', fo, jo, to) =
        first-where 0 (λ (x : BuildOpt). x.id == opt_id) o db.opts j (ground arith) in
      (r', o', fr, rw (e, get_opt) fo, ir, ==_eq _ _ tr, jo, ==_eq _ _ to)

  -- What a choice of `next_body` stands for.
  Chosen : ℕ → Option Blocklist → ℕ → Db → DispatchCandidate → Type 0
  Chosen row b opt_id db c =
      (s : Status) × (r : RepoDo) × (o : BuildOpt) × Has s db.statuses
      × IsPending opt_id s
      × Has r db.repos
      × (r.id ≡ s.repo_id)
      × Allowed b r
      × Has o db.opts
      × (o.id ≡ opt_id)
      × Describes c s r o

  chosen :
      (row : ℕ) (b : Option Blocklist) (opt_id : ℕ) (db : Db) (s : Status)
      → IsConsistent db
      → Has s (dispatchable ilike b opt_id db)
      → (c : DispatchCandidate) × (candidate ilike strftime s
            (get_repo ilike s.repo_id db.repos)
            (get_opt ilike s.build_opt_id db.opts)
          ≡ some c)
        × Chosen row b opt_id db c
  unfolding candidate Chosen
  chosen row b opt_id db s v m =
      let (i, (p, (r, j, e, a))) = dispatchable-Eligible b opt_id db s v m in
      let (r', o, fr, fo, ir, er, io, eo) =
        parents_found db s opt_id (All-has (HasParents db) db.statuses v.parents i) p.option in
      let same : r ≡ r' =
        Rising-unique (λ (x : RepoDo). x.id) 0 db.next_repo db.repos r r' v.repo_keys j ir
          (e ∙ sym er) in
      (_, rw (fr, fo) refl, (s, r', o, i, p, ir, er, subst (Allowed b) same a, io, eo, refl))

  next_body-some :
      (row : ℕ) (b : Option Blocklist) (opt_id : ℕ) (db : Db) (c : DispatchCandidate)
      → IsConsistent db
      → (next_body ilike strftime row b opt_id db).0 ≡ ok (some c)
      → Chosen row b opt_id db c
  unfolding next_body
  next_body-some row b opt_id db c v h =
      elim (Option-cases (first row (dispatchable ilike b opt_id db))) [
        | inl e ↦ ground arith
        | inr (s, e) ↦
            let (c', q, right) = chosen row b opt_id db s v (Has-first row s _ e) in
            subst (Chosen row b opt_id db) (ground arith) right
      ]

  next_body-none :
      (row : ℕ) (b : Option Blocklist) (opt_id : ℕ) (db : Db)
      → IsConsistent db
      → (next_body ilike strftime row b opt_id db).0 ≡ ok none
      → dispatchable ilike b opt_id db ≡ []
  unfolding next_body
  next_body-none row b opt_id db v h =
      elim (Option-cases (first row (dispatchable ilike b opt_id db))) [
        | inl e ↦ first-none row _ e
        | inr (s, e) ↦
            let (c', q, right) = chosen row b opt_id db s v (Has-first row s _ e) in ground arith
      ]

  pub next_body-db :
      (row : ℕ) (b : Option Blocklist) (opt_id : ℕ) (db : Db)
      → (next_body ilike strftime row b opt_id db).1 ≡ db
  unfolding next_body
  next_body-db row b opt_id db = ground arith

  -- When a task is returned it is that of a stored row that is unstarted in both columns, stands for
  -- this option, and whose repository is not blocked; every column of the task is that row's, its
  -- repository's and its option's. The row that the database picks, the
  -- blocklist and the tables are arbitrary; the keys of the tables are consistent.
  pub next_dispatchable_sound :
      (row : ℕ) (b : Option Blocklist) (opt_id : ℕ) (w : World) (c : DispatchCandidate)
      → IsConsistent w.db
      → (next_dispatchable ilike strftime row b opt_id w).0 ≡ ok (some c)
      → (s : Status) × (r : RepoDo) × (o : BuildOpt) × Has s w.db.statuses
        × IsPending opt_id s
        × Has r w.db.repos
        × (r.id ≡ s.repo_id)
        × Allowed b r
        × Has o w.db.opts
        × (o.id ≡ opt_id)
        × Describes c s r o
  unfolding next_dispatchable Chosen
  next_dispatchable_sound row b opt_id w c v h =
      next_body-some row b opt_id w.db c v
        (session_scope-commits (next_body ilike strftime row b opt_id) w h).0

  -- When none is returned and the keys of the tables are consistent, no stored row is eligible.
  pub next_dispatchable_complete :
      (row : ℕ) (b : Option Blocklist) (opt_id : ℕ) (w : World) (s : Status)
      → IsConsistent w.db
      → (next_dispatchable ilike strftime row b opt_id w).0 ≡ ok none
      → Has s w.db.statuses
      → ¬ Eligible b opt_id w.db s
  unfolding next_dispatchable dispatchable
  next_dispatchable_complete row b opt_id w s v h m e = false≢true (
      sym (
        where-nil _ s w.db.statuses
          (next_body-none row b opt_id w.db v
            (session_scope-commits (next_body ilike strftime row b opt_id) w h).0)
          m)
      ∙ Eligible-dispatchable b opt_id w.db s e)

  -- Looking for a task changes no table, whether or not it raises.
  pub next_dispatchable-db :
      (row : ℕ) (b : Option Blocklist) (opt_id : ℕ) (w : World)
      → (next_dispatchable ilike strftime row b opt_id w).1.db ≡ w.db
  unfolding next_dispatchable
  next_dispatchable-db row b opt_id w =
      session_scope-keeps (next_body ilike strftime row b opt_id) w (λ db. db ≡ w.db)
        (λ _. next_body-db row b opt_id w.db) refl

  pub next_dispatchable-commits :
      (row : ℕ) (b : Option Blocklist) (opt_id : ℕ) (w : World)
      → w.commits ≡ []
      → (next_dispatchable ilike strftime row b opt_id w).1.commits ≡ []
  unfolding next_dispatchable
  next_dispatchable-commits row b opt_id w =
      session_scope-commits_left (next_body ilike strftime row b opt_id) w
