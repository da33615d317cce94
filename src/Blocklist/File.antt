-- ===== src/Blocklist/File.antt =====
-- `FileBlocklist` of backend/assemblage/blocklist.py: a list that follows a file. Times and the
-- interval are in one unit; what `stat` and `read_text` answer is an argument of each call.
use assemblage.Prelude.{
  ℕ, ◌+◌, ◌≡◌, ◌≢◌, refl, Bool, true, false, if◌then◌else◌, leb, nat_eq, [], Text, Bool-cases,
  Option, none, some, arith, ite, ◌⊎◌, inl, inr,
}
use assemblage.Prelude.{ℕ_discrete}
use assemblage.Blocklist.{Blocklist, empty, parse, matches}
use assemblage.Blocklist.Matching.{parse-nil, matches-empty}

-- st_mtime_ns and st_size.
pub record Stamp : Type 0 where
  pub mtime : ℕ
  pub size : ℕ

pub data Stat : Type 0 where
  missing unreadable : Stat
  found : Stamp → Stat

-- `undecodable` is a `UnicodeDecodeError`, which is no `OSError`.
pub data Read : Type 0 where
  text : Text → Read
  read_error undecodable : Read

pub record FileBlocklist : Type 0 where
  pub interval : ℕ
  pub current : Blocklist
  pub stamp : Option Stamp
  -- `none` is minus infinity.
  pub checked_at : Option ℕ

Stamp-discrete : Discrete Stamp
Stamp-discrete = hlevel ℕ_discrete

same_stamp : Option Stamp → Stamp → Bool
unfolding Stamp-discrete
same_stamp none s = false
same_stamp (some r) s = ite (Stamp-discrete r s) true false

load : FileBlocklist → Stamp → Read → Bool × FileBlocklist
load f s (text t) = (true, record f { stamp = some s; current = parse t })
load f s read_error = (true, f)
load f s undecodable = (false, f)

-- `_reload_locked`; the flag is false where it raises.
reload : FileBlocklist → Stat → Read → Bool × FileBlocklist
unfolding load same_stamp
reload f missing r = (true, f)
reload f unreadable r = (true, f)
reload f (found s) r = if same_stamp f.stamp s then (true, f) else load f s r

abbrev pub due : Option ℕ → ℕ → ℕ → Bool
due none now interval = true
due (some t) now interval = leb (t + interval) now

-- The method `current`: the list in force, unless the read raises, and the object after the call.
pub check : FileBlocklist → ℕ → Stat → Read → Option Blocklist × FileBlocklist
unfolding reload
check f now st r =
    if due f.checked_at now f.interval
    then (let (returned, g) = reload (record f { checked_at = some now }) st r in
        (if returned then some g.current else none, g))
    else (some f.current, f)

-- `__init__`: the first check is made at once.
pub create : ℕ → ℕ → Stat → Read → FileBlocklist
unfolding check
create interval now st r =
    (check (record { interval = interval; current = empty; stamp = none; checked_at = none }) now st
      r).1

same_stamp-eq : (o : Option Stamp) (s : Stamp) → same_stamp o s ≡ true → o ≡ some s
unfolding same_stamp
same_stamp-eq none s h = cc
same_stamp-eq (some r) s h = ground arith

same_stamp_refl : (s : Stamp) → same_stamp (some s) s ≡ true
unfolding same_stamp
same_stamp_refl s = ground arith

-- Whatever the file and the clock do, a check keeps the list in force, or it was due, the file
-- carries a new stamp and its text was read: then the parse of that text is returned and in force,
-- and the stamp is kept.
pub check-current :
    (f : FileBlocklist) (now : ℕ) (st : Stat) (r : Read)
    → ((check f now st r).1.current ≡ f.current) × ((check f now st r).1.stamp ≡ f.stamp)
      ⊎ ((t : Text) × (s : Stamp) × (r ≡ text t)
          × (st ≡ found s)
          × (f.stamp ≢ some s)
          × (due f.checked_at now f.interval ≡ true)
          × ((check f now st r).0 ≡ some (parse t))
          × ((check f now st r).1.current ≡ parse t)
          × ((check f now st r).1.stamp ≡ some s))
unfolding check
check-current f now missing r = ground arith
check-current f now unreadable r = ground arith
check-current f now (found s) read_error = ground arith
check-current f now (found s) undecodable = ground arith
check-current f now (found s) (text t) = elim (Bool-cases (due f.checked_at now f.interval)) [
  | inl d ↦ elim (Bool-cases (same_stamp f.stamp s)) [
    | inl same ↦ inl (ground arith)
    | inr fresh ↦ inr (
      t,
      s,
      refl,
      refl,
      λ e. ground (arith, same_stamp_refl s),
      d,
      ground arith,
      ground arith,
      ground arith,
    )
  ]
  | inr d ↦ inl (ground arith)
]

-- A due check that reads a text under a new stamp returns the parse of that text.
pub check_loads :
    (f : FileBlocklist) (now : ℕ) (s : Stamp) (t : Text)
    → due f.checked_at now f.interval ≡ true
    → f.stamp ≢ some s
    → (check f now (found s) (text t)).0 ≡ some (parse t)
unfolding check
check_loads f now s t d fresh = ground (arith, same_stamp-eq f.stamp s)

-- The documentation says that a truncated file cannot re-admit a repository. An empty text under
-- a new stamp does: at a due check it unblocks every URL, whatever was blocked before.
pub check_truncated :
    (f : FileBlocklist) (now : ℕ) (s : Stamp) (url : Text)
    → due f.checked_at now f.interval ≡ true
    → f.stamp ≢ some s
    → matches (check f now (found s) (text [])).1.current url ≡ false
unfolding check
check_truncated f now s url d fresh =
    ground (arith, same_stamp-eq f.stamp s, parse-nil, matches-empty url)
