-- ===== src/Db/Session.antt =====
-- backend/assemblage/db/engine.py: a unit of work that commits, or rolls back and raises again.
use assemblage.Prelude.{◌≡◌, ap, Bool, true, false, List, [], ◌∷◌, arith}
use assemblage.Db.Models.{Db}

-- What a method of the store may raise.
pub data Failure : Type 0 where
  value_error database_error : Failure

pub data Result {ℓ} (A : Type ℓ) : Type ℓ where
  ok : A → Result A
  err : Failure → Result A

-- The database, and whether it accepts each coming commit; past the list it accepts.
pub record World : Type 0 where
  pub db : Db
  pub commits : List Bool

-- What a handler does to the world, and what it returns or raises.
abbrev pub Action : Type 0 → Type 0
Action A = World → Result A × World

infixl 5 ◌>>=◌ ◌>>◌
abbrev pub ◌>>=◌ : {A B : Type 0} → Action A → (A → Action B) → Action B
◌>>=◌ m f w = let (r, w') = m w in elim r [ ok a ↦ f a w' | err e ↦ (err e, w') ]

abbrev pub ◌>>◌ : {A B : Type 0} → Action A → Action B → Action B
m >> k = m >>= λ _. k

abbrev pub pure : {A : Type 0} → A → Action A
pure a w = (ok a, w)

-- A session: what the database holds, and the tables as the session sees them.
pub record Session : Type 0 where
  pub committed : Db
  pub seen : Db

-- `Session(engine)`: it sees what is committed.
abbrev open_session : Db → Session
open_session db = record { committed = db; seen = db }

-- `session.commit()` where the database accepts it.
abbrev commit : Session → Session
commit s = record s { committed = s.seen }

-- `session.rollback()`: the session sees again what is committed.
abbrev rollback : Session → Session
rollback s = record s { seen = s.committed }

-- `session.close()`: what is not committed is lost.
abbrev closed : Session → Db
closed s = s.committed

-- From the end of the body on: `try` commits, `except` rolls back and raises again, `finally` closes.
close_session : {A : Type 0} → Result A → Session → List Bool → Result A × World
close_session (ok a) s [] = (ok a, record { db = closed (commit s); commits = [] })
close_session (ok a) s (true ∷ rest) = (ok a, record { db = closed (commit s); commits = rest })
close_session (ok a) s (false ∷ rest) =
    (err database_error, record { db = closed (rollback s); commits = rest })
close_session (err e) s cs = (err e, record { db = closed (rollback s); commits = cs })

-- The body works on the tables that the session sees.
unfoldable pub session_scope : {A : Type 0} → (Db → Result A × Db) → Action A
unfolding close_session
session_scope body w =
    let s = open_session w.db in
    let (r, seen) = body s.seen in close_session r (record s { seen = seen }) w.commits

module _ {A : Type 0} (body : Db → Result A × Db) (w : World) where
  -- One that returns has committed what its body made of the tables.
  pub session_scope-commits :
      {a : A}
      → (session_scope body w).0 ≡ ok a
      → ((body w.db).0 ≡ ok a) × ((session_scope body w).1.db ≡ (body w.db).1)
  unfolding session_scope
  session_scope-commits h = ground arith

  -- What the body keeps of the tables, the unit of work keeps, committed or not.
  pub session_scope-keeps :
      (P : Db → Type 0) → (P w.db → P (body w.db).1) → P w.db → P (session_scope body w).1.db
  unfolding session_scope
  session_scope-keeps P k h = close_session-keeps (body w.db).0 w.commits h (k h)
    where
      close_session-keeps :
          (r : Result A) (cs : List Bool)
          → P w.db
          → P (body w.db).1
          → P (close_session r (record { committed = w.db; seen = (body w.db).1 }) cs).1.db
      close_session-keeps (ok a) [] old new = new
      close_session-keeps (ok a) (true ∷ cs) old new = new
      close_session-keeps (ok a) (false ∷ cs) old new = old
      close_session-keeps (err e) cs old new = old

  -- A database that takes every commit goes on to take every commit.
  pub session_scope-commits_left : w.commits ≡ [] → (session_scope body w).1.commits ≡ []
  unfolding session_scope
  session_scope-commits_left h = ground arith

  -- If it does, the unit of work returns what its body returns.
  pub session_scope-returns : w.commits ≡ [] → (session_scope body w).0 ≡ (body w.db).0
  unfolding session_scope
  session_scope-returns h = ground arith

  pub session_scope-result :
      {a : A} {w' : World}
      → session_scope body w ≡ (ok a, w')
      → ((body w.db).0 ≡ ok a) × (w'.db ≡ (body w.db).1)
  unfolding session_scope
  session_scope-result h = ground arith

  -- A body that succeeds, on a database that accepts, is committed.
  pub session_scope_run :
      {a : A} {db : Db}
      → body w.db ≡ (ok a, db)
      → w.commits ≡ []
      → session_scope body w ≡ (ok a, record { db = db; commits = [] })
  unfolding session_scope
  session_scope_run h c = ground arith

  pub session_scope_raise :
      {e : Failure} {db : Db}
      → body w.db ≡ (err e, db)
      → w.commits ≡ []
      → session_scope body w ≡ (err e, record { db = w.db; commits = [] })
  unfolding session_scope
  session_scope_raise h c = ground arith

-- The steps of a chain of actions.
pub bind_run :
    {A B : Type 0} (m : Action A) (f : A → Action B) (w w' : World) (a : A)
    → m w ≡ (ok a, w')
    → (m >>= f) w ≡ f a w'
bind_run {A = A} {B = B} m f w w' a e =
    ap
      (λ (r : Result A × World). elim r.0 as (λ _. Result B × World) [
        | ok a ↦ f a r.1
        | err e ↦ (err e, r.1)
      ])
      e

pub bind_raise :
    {A B : Type 0} (m : Action A) (f : A → Action B) (w w' : World) (x : Failure)
    → m w ≡ (err x, w')
    → (m >>= f) w ≡ (err x, w')
bind_raise {A = A} {B = B} m f w w' x e =
    ap
      (λ (r : Result A × World). elim r.0 as (λ _. Result B × World) [
        | ok a ↦ f a r.1
        | err e ↦ (err e, r.1)
      ])
      e
