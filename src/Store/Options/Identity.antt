-- ===== src/Store/Options/Identity.antt =====
-- A build option is identified by nine columns: it is created once, and found by every later
-- registration.
use assemblage.Prelude.{
  ℕ, ◌≤◌, ◌≡◌, refl, ap, ◌∙◌, ◌⊎◌, inl, inr, true, false, ◌==◌, nat_eq, list_eq, option_eq, List,
  [], ◌∷◌, ◌++◌, map, some, arith, length, length-append, Bool-cases, Option-cases,
}
use assemblage.Messages.{BuilderRegistration}
use assemblage.Db.Models.{Db, BuildOpt}
use assemblage.Db.Session.{ok, World, session_scope-keeps, session_scope-result}
use assemblage.Db.Query.{where_, first}
use assemblage.Db.Query.Laws.{
  where-append, where-cong, length-where-update, first-none, map-where-update, map-update,
  first_only, first_found,
}
use assemblage.Store.Options.{
  same_option, new_option, create_option, re_enable, register_body, register_build_opt,
}

-- No two build options agree in the nine columns.
pub record IsUnique (db : Db) : Type 0 where
  pub once : (reg : BuilderRegistration) → length (where_ (same_option reg) db.opts) ≤ 1

new_option_same : (reg : BuilderRegistration) (id : ℕ) → same_option reg (new_option reg id) ≡ true
unfolding same_option new_option
new_option_same reg id = ground arith

-- Two registrations of one build option.
record SameOption (r q : BuilderRegistration) : Type 0 where
  platform : q.platform ≡ r.platform
  language : q.language ≡ r.language
  compiler : q.compiler ≡ r.compiler
  compiler_flag : q.compiler_flag ≡ r.compiler_flag
  build_system : q.build_system ≡ r.build_system
  build_command : q.build_command ≡ r.build_command
  library : q.library ≡ r.library
  build_mode : q.build_mode ≡ r.build_mode
  codegen_backend : q.codegen_backend ≡ r.codegen_backend

same_option_of :
    (r q : BuilderRegistration) (id : ℕ) → same_option r (new_option q id) ≡ true → SameOption r q
unfolding same_option new_option
same_option_of r q id h = record {
  platform = ground arith;
  language = ground arith;
  compiler = ground arith;
  compiler_flag = ground arith;
  build_system = ground arith;
  build_command = ground arith;
  library = ground arith;
  build_mode = ground arith;
  codegen_backend = ground arith;
}

same_option_agree :
    (r q : BuilderRegistration) (o : BuildOpt) → SameOption r q → same_option r o ≡ same_option q o
unfolding same_option
same_option_agree r q o e = simp (
  e.platform, e.language, e.compiler, e.compiler_flag, e.build_system, e.build_command, e.library,
  e.build_mode, e.codegen_backend,
)

create_option-IsUnique :
    (reg : BuilderRegistration) (db : Db)
    → IsUnique db
    → where_ (same_option reg) db.opts ≡ []
    → IsUnique (create_option reg db)
unfolding create_option
create_option-IsUnique reg db u none_yet = record {
  once = λ r. bound r (Bool-cases (same_option r (new_option reg db.next_opt)));
}
  where
    bound :
        (r : BuilderRegistration)
        → (same_option r (new_option reg db.next_opt) ≡ true)
          ⊎ (same_option r (new_option reg db.next_opt) ≡ false)
        → length (where_ (same_option r) (db.opts ++ new_option reg db.next_opt ∷ [])) ≤ 1
    bound r (inl e) = rw (where-append (same_option r) db.opts _) (
        rw
          (
            where-cong (same_option r) (same_option reg) db.opts
                (λ o. same_option_agree r reg o (same_option_of r reg db.next_opt e)),
            none_yet,
          )
          (unfold where_ in ground arith))
    bound r (inr e) = rw (where-append (same_option r) db.opts _) (
        rw (length-append (where_ (same_option r) db.opts) _)
          (unfold where_ in ground (arith, u.once r)))

re_enable-IsUnique : (id : ℕ) (db : Db) → IsUnique db → IsUnique (re_enable id db)
unfolding re_enable same_option
re_enable-IsUnique id db u = record {
  once = λ reg.
      rw
        (length-where-update (same_option reg) (λ (o : BuildOpt). o.id == id)
          (λ o. record o { enable = true }) db.opts (λ o. refl))
        (u.once reg);
}

abbrev matching : BuilderRegistration → Db → List ℕ
matching reg db = map (λ (o : BuildOpt). o.id) (where_ (same_option reg) db.opts)

-- What is returned is the key of the one row that matches afterwards.
register_body-matching :
    (row : ℕ) (reg : BuilderRegistration) (db : Db) (id : ℕ)
    → IsUnique db
    → (register_body row reg db).0 ≡ ok id
    → matching reg (register_body row reg db).1 ≡ id ∷ []
unfolding register_body
register_body-matching row reg db id u h =
    elim (Option-cases (first row (where_ (same_option reg) db.opts))) [
      | inl e ↦ rw (e, register_body) (created (first-none row _ e) (ground arith))
      | inr (o, e) ↦ rw (e, register_body) (kept o e (ground arith))
    ]
  where
    created :
        where_ (same_option reg) db.opts ≡ []
        → db.next_opt ≡ id
        → matching reg (create_option reg db) ≡ id ∷ []
    created none_yet e =
        unfold create_option in
        rw (where-append (same_option reg) db.opts _) (
          rw none_yet (
            unfold where_ in
            rw (new_option_same reg db.next_opt) (unfold new_option in ap (λ k. k ∷ []) e)))

    kept :
        (o : BuildOpt)
        → first row (where_ (same_option reg) db.opts) ≡ some o
        → o.id ≡ id
        → matching reg (re_enable o.id db) ≡ id ∷ []
    kept o e q =
        unfold re_enable in
        map-where-update (λ (x : BuildOpt). x.id) (same_option reg) (λ (x : BuildOpt). x.id == o.id)
          (λ x. record x { enable = true }) db.opts (λ x. unfold same_option in refl) (λ x. refl)
        ∙ first_only (λ (x : BuildOpt). x.id) row o _ (u.once reg) e
        ∙ ap (λ k. k ∷ []) q

found_again :
    (row : ℕ) (reg : BuilderRegistration) (db : Db) (id id' : ℕ)
    → matching reg db ≡ id ∷ []
    → (register_body row reg db).0 ≡ ok id'
    → (id' ≡ id) × ((register_body row reg db).1 ≡ re_enable id db)
unfolding register_body
found_again row reg db id id' m h =
    elim (Option-cases (first row (where_ (same_option reg) db.opts))) [
      | inl e ↦ absurd (no_rows (first-none row _ e) m)
      | inr (o, e) ↦
          let q : o.id ≡ id = first_found (λ (x : BuildOpt). x.id) row o id _ m e in
          (ground arith, rw (e, register_body) (ap (λ k. re_enable k db) q))
    ]
  where
    no_rows : where_ (same_option reg) db.opts ≡ [] → ¬ (matching reg db ≡ id ∷ [])
    no_rows none_yet k = ground (arith, none_yet)

-- If no two build options agree in the nine columns, none do after a registration, whatever row the
-- database picks.
pub register_build_opt-IsUnique :
    (row : ℕ) (reg : BuilderRegistration) (w : World)
    → IsUnique w.db
    → IsUnique (register_build_opt row reg w).1.db
unfolding register_build_opt register_body
register_build_opt-IsUnique row reg w u =
    session_scope-keeps (register_body row reg) w IsUnique
      (λ u. elim (Option-cases (first row (where_ (same_option reg) w.db.opts))) [
        | inl e ↦ rw (e, register_body) (create_option-IsUnique reg w.db u (first-none row _ e))
        | inr (o, e) ↦ rw (e, register_body) (re_enable-IsUnique o.id w.db u)
      ])
      u

-- Registering again, as a redelivered message or a restarted builder does, returns the same build
-- option, whatever row the database picks, and adds no build option and no status row. Both
-- registrations are committed, and at first no two build options agree in the nine columns.
pub register_again :
    (row row' : ℕ) (reg : BuilderRegistration) (w w' w'' : World) (id id' : ℕ)
    → IsUnique w.db
    → register_build_opt row reg w ≡ (ok id, w')
    → register_build_opt row' reg w' ≡ (ok id', w'')
    → (id' ≡ id)
      × (w''.db.statuses ≡ w'.db.statuses)
      × (map (λ (o : BuildOpt). o.id) w''.db.opts ≡ map (λ (o : BuildOpt). o.id) w'.db.opts)
unfolding register_build_opt
register_again row row' reg w w' w'' id id' u h h' =
    let (r, e) = session_scope-result (register_body row reg) w h in
    let (r', e') = session_scope-result (register_body row' reg) w' h' in
    let m : matching reg w'.db ≡ id ∷ [] =
      ap (matching reg) e ∙ register_body-matching row reg w.db id u r in
    let (same, same_db) = found_again row' reg w'.db id id' m r' in
    (
      same,
      ap (λ (d : Db). d.statuses) (e' ∙ same_db),
      ap (λ (d : Db). map (λ (o : BuildOpt). o.id) d.opts) (e' ∙ same_db)
          ∙ unfold re_enable in
            map-update (λ (o : BuildOpt). o.id) (λ (o : BuildOpt). o.id == id)
              (λ o. record o { enable = true }) w'.db.opts (λ o. refl),
    )
