-- ===== src/Builder/Ir/Grouping.antt =====
-- Groups of dumps by stage, and their order.
use assemblage.Prelude.{
  insert, sort, ◌≡◌, refl, sym, ap, ◌∙◌, inl, inr, Bool, true, false, ◌==◌, nat_eq, if◌then◌else◌,
  List, [], ◌∷◌, ◌++◌, Option, none, some, Bool-cases, arith,
}
use mathlib.Core.List.{append_assoc, append-nil}
use assemblage.Enums.{IrStage, ir_stage_eq}
use assemblage.Db.Query.{where_}
use assemblage.Builder.Ir.{IrDump, Groups, add_dump, group, stage_leb}

-- What an association list of stages holds for a stage.
unfoldable pub find : {A : Type 0} → IrStage → List (IrStage × A) → Option A
find s [] = none
find s (g ∷ gs) = let rest = find s gs in if g.0 == s then some g.1 else rest

-- The dumps of a stage, if there are any.
abbrev pub of_stage : IrStage → IrDump → Bool
of_stage s d = d.stage == s

abbrev pub nonempty : {A : Type 0} → List A → Option (List A)
nonempty [] = none
nonempty (x ∷ xs) = some (x ∷ xs)

or_nil : Option (List IrDump) → List IrDump
or_nil none = []
or_nil (some ds) = ds

find-add_dump :
    (s : IrStage) (d : IrDump) (gs : Groups)
    → find s (add_dump d gs)
      ≡ (if d.stage == s then some (or_nil (find s gs) ++ d ∷ []) else find s gs)
unfolding find add_dump or_nil
find-add_dump s d [] = refl
find-add_dump s d (g ∷ gs) = ground (arith, find-add_dump s d gs)

unfoldable pub IsDistinct : Groups → Type 0
IsDistinct [] = Unit
IsDistinct (g ∷ gs) = (find g.0 gs ≡ none) × IsDistinct gs

other-stage : (s t : IrStage) → (s == t) ≡ false → (t == s) ≡ false
other-stage s t h = ground arith

add_dump-IsDistinct : (d : IrDump) (gs : Groups) → IsDistinct gs → IsDistinct (add_dump d gs)
unfolding add_dump IsDistinct find
add_dump-IsDistinct d [] h = (refl, tt)
add_dump-IsDistinct d (g ∷ gs) (h, hs) = elim (Bool-cases (g.0 == d.stage)) [
  | inl e ↦ rw e (h, hs)
  | inr e ↦ rw e (ground (arith, find-add_dump g.0 d gs), add_dump-IsDistinct d gs hs)
]

pub group-IsDistinct : (ds : List IrDump) (gs : Groups) → IsDistinct gs → IsDistinct (group ds gs)
unfolding group
group-IsDistinct [] gs h = h
group-IsDistinct (d ∷ ds) gs h = group-IsDistinct ds (add_dump d gs) (add_dump-IsDistinct d gs h)

absent-cons :
    (s : IrStage) (k : IrStage × List IrDump) (gs : Groups)
    → find s (k ∷ gs) ≡ none
    → ((k.0 == s) ≡ false) × (find s gs ≡ none)
unfolding find
absent-cons s k gs h = by (k.0 == s) refl h
  where
    by :
        (b : Bool)
        → (k.0 == s) ≡ b
        → (if b then some k.1 else find s gs) ≡ none
        → ((k.0 == s) ≡ false) × (find s gs ≡ none)
    by true e h = absurd (cc)
    by false e h = (e, h)

insert-find :
    (s : IrStage) (g : IrStage × List IrDump) (gs : Groups)
    → find g.0 gs ≡ none
    → find s (insert stage_leb g gs) ≡ find s (g ∷ gs)
unfolding insert find
insert-find s g [] h = refl
insert-find s g (k ∷ gs) h =
    let (ne, h') = absent-cons g.0 k gs h in let ih = insert-find s g gs h' in ground (arith, ih)

insert-IsDistinct :
    (g : IrStage × List IrDump) (gs : Groups)
    → find g.0 gs ≡ none
    → IsDistinct gs
    → IsDistinct (insert stage_leb g gs)
unfolding insert IsDistinct find
insert-IsDistinct g [] h d = (refl, tt)
insert-IsDistinct g (k ∷ gs) h (d, ds) =
    let (ne, h') = absent-cons g.0 k gs h in
    elim (Bool-cases (stage_leb g k)) [
      | inl e ↦ rw e (h, (d, ds))
      | inr e ↦ rw e (
        ground (arith, insert-find k.0 g gs h', other-stage k.0 g.0 ne),
        insert-IsDistinct g gs h' ds,
      )
    ]

pub sort-find :
    (s : IrStage) (gs : Groups)
    → IsDistinct gs
    → (find s (sort stage_leb gs) ≡ find s gs) × IsDistinct (sort stage_leb gs)
unfolding sort find IsDistinct
sort-find s [] h = (refl, tt)
sort-find s (g ∷ gs) (h, hs) =
    let (_, d) = sort-find s gs hs in
    let (a, _) = sort-find g.0 gs hs in
    let (e, _) = sort-find s gs hs in
    (
      insert-find s g (sort stage_leb gs) (a ∙ h) ∙ ap (λ o. if g.0 == s then some g.1 else o) e,
      insert-IsDistinct g (sort stage_leb gs) (a ∙ h) d,
    )

-- What an association list has for a stage, with more dumps of the stage.
unfoldable pub extend : Option (List IrDump) → List IrDump → Option (List IrDump)
extend none ds = nonempty ds
extend (some es) ds = some (es ++ ds)

extend-first :
    (o : Option (List IrDump)) (d : IrDump) (ds : List IrDump)
    → extend (some (or_nil o ++ d ∷ [])) ds ≡ extend o (d ∷ ds)
unfolding extend or_nil
extend-first none d ds = refl
extend-first (some es) d ds = ap some (append_assoc es (d ∷ []) ds)

extend-nil : (o : Option (List IrDump)) → extend o [] ≡ o
unfolding extend
extend-nil none = refl
extend-nil (some es) = ap some (append-nil es)

pub group-find :
    (s : IrStage) (ds : List IrDump) (gs : Groups)
    → find s (group ds gs) ≡ extend (find s gs) (where_ (of_stage s) ds)
unfolding group where_
group-find s [] gs = sym (extend-nil (find s gs))
group-find s (d ∷ ds) gs =
    group-find s ds (add_dump d gs)
    ∙ ap (λ o. extend o (where_ (of_stage s) ds)) (find-add_dump s d gs)
    ∙ by (d.stage == s)
  where
    rest : List IrDump
    rest = where_ (of_stage s) ds

    by :
        (b : Bool)
        → extend (if b then some (or_nil (find s gs) ++ d ∷ []) else find s gs) rest
          ≡ extend (find s gs) (if b then d ∷ rest else rest)
    by true = extend-first (find s gs) d rest
    by false = refl
