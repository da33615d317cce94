-- ===== src/Builder/Ir/Packing.antt =====
-- One tarball for each stage: of all its dumps, or none.
use assemblage.Prelude.{
  sort, ℕ, ◌≡◌, refl, sym, ap, ◌∙◌, subst, inl, inr, Bool, true, false, ◌==◌, ==_eq, nat_eq,
  if◌then◌else◌, List, [], ◌∷◌, ◌++◌, Option, none, some, Text,
}
use mathlib.Core.Option.{some-injective}
use assemblage.Enums.{IrStage, ir_stage_eq, ir_stage_value}
use assemblage.Db.Query.{where_, Has}
use assemblage.Builder.Ir.{
  IrDump, IrBundle, Groups, group, stage_leb, blob_of, too_large, reason, add_stage, pack_groups,
  pack,
}
use assemblage.Builder.Ir.Grouping.{
  find, of_stage, nonempty, IsDistinct, group-IsDistinct, sort-find, extend, group-find,
}

module _ (readable : IrDump → Bool) (tar_gz : List IrDump → Text) (max_bytes : ℕ) where
  -- The tarball of the dumps of a stage: none if there are no dumps, or if it is too large.
  unfoldable pub tarball : Option (List IrDump) → Option Text
  unfolding blob_of too_large
  tarball none = none
  tarball (some es) =
      if too_large readable tar_gz max_bytes (blob_of readable tar_gz max_bytes es)
      then none
      else some (blob_of readable tar_gz max_bytes es)

  pub pack_groups-find :
      (s : IrStage) (gs : Groups)
      → IsDistinct gs
      → find s (pack_groups readable tar_gz max_bytes gs).tarballs ≡ tarball (find s gs)
  unfolding pack_groups add_stage find IsDistinct tarball
  pack_groups-find s [] h = refl
  pack_groups-find s (g ∷ gs) (h, hs) =
      by (too_large readable tar_gz max_bytes blob) refl (g.0 == s) refl (pack_groups-find s gs hs)
    where
      blob : Text
      blob = blob_of readable tar_gz max_bytes g.1

      rest : IrBundle
      rest = pack_groups readable tar_gz max_bytes gs

      by :
          (big : Bool)
          → too_large readable tar_gz max_bytes blob ≡ big
          → (here : Bool) → (g.0 == s) ≡ here
          → find s rest.tarballs ≡ tarball (find s gs)
          → find s (add_stage readable tar_gz max_bytes g.0 g.1 rest).tarballs
            ≡ tarball (if here then some g.1 else find s gs)
      by true e true f ih =
          let none_later = subst (λ t. find t gs ≡ none) (==_eq g.0 s f) h in
          rw e (ih ∙ ap tarball none_later)
      by true e false f ih = rw e ih
      by false e true f ih = rw (e, f) refl
      by false e false f ih = rw (e, f) ih

  -- The record of a stage that is too large.
  abbrev pub dropped : IrStage → List IrDump → Text × Text
  dropped s es =
      (ir_stage_value s, reason readable tar_gz max_bytes (blob_of readable tar_gz max_bytes es))

  abbrev pub IsTooLarge : List IrDump → Type 0
  IsTooLarge es = too_large readable tar_gz max_bytes (blob_of readable tar_gz max_bytes es) ≡ true

  add_stage-skipped :
      (s : IrStage) (es : List IrDump) (rest : IrBundle)
      → IsTooLarge es
      → Has (dropped s es) (add_stage readable tar_gz max_bytes s es rest).skipped
  unfolding add_stage
  add_stage-skipped s es rest big = rw big (inl refl)

  add_stage-later :
      (s : IrStage) (es : List IrDump) (rest : IrBundle) (x : Text × Text)
      → Has x rest.skipped
      → Has x (add_stage readable tar_gz max_bytes s es rest).skipped
  unfolding add_stage
  add_stage-later s es rest x h = by (too_large readable tar_gz max_bytes blob)
    where
      blob : Text
      blob = blob_of readable tar_gz max_bytes es

      Result : Bool → IrBundle
      Result big =
          if big
          then record rest {
            skipped = (ir_stage_value s, reason readable tar_gz max_bytes blob) ∷ rest.skipped;
          }
          else record rest { tarballs = (s, blob) ∷ rest.tarballs; dumps = es ++ rest.dumps }

      by : (big : Bool) → Has x (Result big).skipped
      by true = inr h
      by false = h

  pack_groups-skipped :
      (s : IrStage) (gs : Groups) (es : List IrDump)
      → find s gs ≡ some es
      → IsTooLarge es
      → Has (dropped s es) (pack_groups readable tar_gz max_bytes gs).skipped
  unfolding pack_groups find
  pack_groups-skipped s [] es e big = absurd (cc)
  pack_groups-skipped s (g ∷ gs) es e big =
      by (g.0 == s) refl e (λ e. pack_groups-skipped s gs es e big)
    where
      rest : IrBundle
      rest = pack_groups readable tar_gz max_bytes gs

      by :
          (here : Bool)
          → (g.0 == s) ≡ here
          → (if here then some g.1 else find s gs) ≡ some es
          → (find s gs ≡ some es → Has (dropped s es) rest.skipped)
          → Has (dropped s es) (add_stage readable tar_gz max_bytes g.0 g.1 rest).skipped
      by true f e later =
          let own : g.1 ≡ es = some-injective g.1 es e in
          subst (λ t. Has (dropped t es) (add_stage readable tar_gz max_bytes g.0 g.1 rest).skipped)
            (==_eq g.0 s f)
            (subst
              (λ ds.
                Has (dropped g.0 ds) (add_stage readable tar_gz max_bytes g.0 g.1 rest).skipped)
              own (add_stage-skipped g.0 g.1 rest (subst IsTooLarge (sym own) big)))
      by false f e later = add_stage-later g.0 g.1 rest (dropped s es) (later e)

  -- The dumps of a stage after the sort by stages.
  pub sorted-find :
      (dumps : List IrDump) (s : IrStage)
      → (find s (sort stage_leb (group dumps [])) ≡ nonempty (where_ (of_stage s) dumps))
        × IsDistinct (sort stage_leb (group dumps []))
  unfolding IsDistinct extend find
  sorted-find dumps s =
      let (e, d) = sort-find s (group dumps []) (group-IsDistinct dumps [] tt) in
      (e ∙ group-find s dumps [], d)

  -- For every stage, the bundle has one tarball with the readable dumps of that stage, in the order in
  -- which they were found: none if the stage has no dumps or the tarball is over the cap.
  pub pack-find :
      (dumps : List IrDump) (s : IrStage)
      → find s (pack readable tar_gz max_bytes dumps).tarballs
        ≡ tarball (nonempty (where_ (of_stage s) dumps))
  unfolding pack
  pack-find dumps s =
      let (e, d) = sorted-find dumps s in
      pack_groups-find s (sort stage_leb (group dumps [])) d ∙ ap tarball e

  -- A stage that is over the cap is recorded as skipped, with its size.
  pack-skipped :
      (dumps : List IrDump) (s : IrStage) (es : List IrDump)
      → nonempty (where_ (of_stage s) dumps) ≡ some es
      → IsTooLarge es
      → Has (dropped s es) (pack readable tar_gz max_bytes dumps).skipped
  unfolding pack
  pack-skipped dumps s es h big =
      pack_groups-skipped s (sort stage_leb (group dumps [])) es ((sorted-find dumps s).0 ∙ h) big
