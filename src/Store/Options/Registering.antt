-- ===== src/Store/Options/Registering.antt =====
-- `register_build_opt`: the new rows, consistent keys, and a second registration.
use assemblage.Prelude.{
  ℕ, suc, ◌+◌, refl, sym, subst, inl, inr, true, ◌==◌, nat_eq, list_eq, option_eq, List, [], ◌∷◌,
  map, arith, length, Option-cases,
}
use mathlib.Core.List.{map-append}
use assemblage.Messages.{BuilderRegistration}
use assemblage.Db.Models.{Db, BuildOpt, RepoDo, Status}
use assemblage.Db.Session.{World, session_scope-keeps}
use assemblage.Db.Query.{where_, first, Has, All}
use assemblage.Db.Query.Laws.{All-append, map-update, Has-where, Has-map}
use assemblage.Db.Query.Keys.{Rising, Rising-append}
use assemblage.Db.Integrity.{IsConsistent, HasParents, opt_ids, repo_ids, status_ids}
use assemblage.Store.Integrity.{parents_mono, ids_grow, id_last}
use assemblage.Store.Progress.{Progress, Progress-refl, Progress-append, Progress-same}
use assemblage.Store.Options.{
  same_option, new_option, back_fills, status_rows, create_option, re_enable, register_body,
  register_build_opt,
}

status_rows-Rising :
    (opt next : ℕ) (repos : List RepoDo)
    → Rising next (map (λ (s : Status). s.id) (status_rows opt next repos)) (next + length repos)
unfolding status_rows
status_rows-Rising opt next [] = omega arith
status_rows-Rising opt next (r ∷ repos) = (
  omega arith,
  subst (Rising (suc next) (map (λ (s : Status). s.id) (status_rows opt (suc next) repos)))
      (omega arith) (status_rows-Rising opt (suc next) repos),
)

status_rows-parents :
    (db : Db) (opt next : ℕ) (repos : List RepoDo)
    → Has opt (opt_ids db)
    → ((r : RepoDo) → Has r repos → Has r.id (repo_ids db))
    → All (HasParents db) (status_rows opt next repos)
unfolding status_rows
status_rows-parents db opt next [] o k = tt
status_rows-parents db opt next (r ∷ repos) o k =
    ((k r (inl refl), o), status_rows-parents db opt (suc next) repos o (λ x m. k x (inr m)))

create_option-IsConsistent :
    (reg : BuilderRegistration) (db : Db) → IsConsistent db → IsConsistent (create_option reg db)
unfolding create_option new_option
create_option-IsConsistent reg db v = record {
  opt_keys =
      rw (map-append (λ (o : BuildOpt). o.id) db.opts _)
        (Rising-append 0 db.next_opt (suc db.next_opt) (opt_ids db) _ v.opt_keys (omega arith));
  repo_keys = v.repo_keys;
  status_keys = rw (map-append (λ (s : Status). s.id) db.statuses _) (
      Rising-append 0 db.next_status _ (status_ids db) _ v.status_keys
        (status_rows-Rising db.next_opt db.next_status (where_ (back_fills reg) db.repos)));
  parents =
      All-append _ db.statuses _
        (parents_mono db (create_option reg db) db.statuses (λ k m. m)
          (ids_grow (λ (o : BuildOpt). o.id) db.opts _) v.parents)
        (status_rows-parents (create_option reg db) db.next_opt db.next_status
          (where_ (back_fills reg) db.repos)
          (id_last (λ (o : BuildOpt). o.id) db.opts (new_option reg db.next_opt))
          (λ r m. Has-map (λ (r : RepoDo). r.id) r db.repos (Has-where _ r db.repos m).0));
}

re_enable-IsConsistent : (id : ℕ) (db : Db) → IsConsistent db → IsConsistent (re_enable id db)
unfolding re_enable
re_enable-IsConsistent id db v =
    let same =
      map-update (λ (o : BuildOpt). o.id) (λ (o : BuildOpt). o.id == id)
        (λ o. record o { enable = true }) db.opts (λ o. refl) in
    record {
      opt_keys = subst (λ ids. Rising 0 ids db.next_opt) (sym same) v.opt_keys;
      repo_keys = v.repo_keys;
      status_keys = v.status_keys;
      parents =
          parents_mono db (re_enable id db) db.statuses (λ k m. m)
            (λ k m. subst (Has k) (sym same) m) v.parents;
    }

register_body-IsConsistent :
    (row : ℕ) (reg : BuilderRegistration) (db : Db)
    → IsConsistent db
    → IsConsistent (register_body row reg db).1
unfolding register_body
register_body-IsConsistent row reg db v =
    elim (Option-cases (first row (where_ (same_option reg) db.opts))) [
      | inl e ↦ rw (e, register_body) (create_option-IsConsistent reg db v)
      | inr (o, e) ↦ rw (e, register_body) (re_enable-IsConsistent o.id db v)
    ]

-- If keys rise and foreign keys refer, they do so after a registration, committed or not.
pub register_build_opt-IsConsistent :
    (row : ℕ) (reg : BuilderRegistration) (w : World)
    → IsConsistent w.db
    → IsConsistent (register_build_opt row reg w).1.db
unfolding register_build_opt
register_build_opt-IsConsistent row reg w v =
    session_scope-keeps (register_body row reg) w IsConsistent
      (register_body-IsConsistent row reg w.db) v

pub register_build_opt-Progress :
    (row : ℕ) (reg : BuilderRegistration) (w : World)
    → Progress w.db (register_build_opt row reg w).1.db
unfolding register_build_opt register_body
register_build_opt-Progress row reg w =
    session_scope-keeps (register_body row reg) w (Progress w.db)
      (λ _. elim (Option-cases (first row (where_ (same_option reg) w.db.opts))) [
        | inl e ↦
            rw (e, register_body)
              (unfold create_option in
                Progress-append w.db (create_option reg w.db) _ refl
                  (status_rows-Rising w.db.next_opt w.db.next_status _) (omega arith))
        | inr (o, e) ↦
            rw (e, register_body)
              (unfold re_enable in Progress-same w.db (re_enable o.id w.db) refl refl)
      ])
      (Progress-refl w.db)
