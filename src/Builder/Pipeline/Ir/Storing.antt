-- ===== src/Builder/Pipeline/Ir/Storing.antt =====
-- What `_persist_ir` leaves in the bucket, and what it reports.
use assemblage.Prelude.{
  ℕ, ◌≡◌, ◌≢◌, refl, sym, ap, ◌∙◌, subst, inl, inr, Bool, true, false, ◌==◌, ==_eq, nat_eq, list_eq,
  if◌then◌else◌, Bool-cases, List, [], ◌∷◌, ◌++◌, Option, none, some, Text, codes, sort, arith,
}
use mathlib.Core.List.{append_cancel_left, append_cancel_right}
use assemblage.Enums.{IrStage, ir_stage_eq, ir_stage_value}
use assemblage.Db.Query.{where_}
use assemblage.Storage.Bucket.{Bucket, put, works_now, object_at, at-same, at-other}
use assemblage.Storage.Layout.{ir_tarball_key, ir_manifest_key}
use assemblage.Builder.Source.Keys.{last_char, last_char-append}
use assemblage.Builder.Source.Restoring.{working}
use assemblage.Builder.Ir.{
  IrDump, IrBundle, Groups, blob_of, too_large, add_stage, pack_groups, pack, group, stage_leb,
}
use assemblage.Builder.Ir.Grouping.{find, of_stage, nonempty, IsDistinct}
use assemblage.Builder.Ir.Packing.{tarball, pack_groups-find, pack-find, sorted-find}
use assemblage.Builder.Pipeline.Ir.{
  Collected, IrStrategy, no_hook, raised, returned, put_stages, persist_bundle, persist_ir,
}

-- What is reported, and what the build counts as stored, does not depend on the bucket: a stage whose
-- upload failed is reported like one that was stored.
pub persist_ir-reports :
    (manifest : IrBundle → IrStrategy → Text) (strategy : IrStrategy) (prefix : Text)
    (c : Collected) (b b' : Bucket)
    → ((persist_ir manifest strategy prefix c b).report
        ≡ (persist_ir manifest strategy prefix c b').report)
      × ((persist_ir manifest strategy prefix c b).stored
          ≡ (persist_ir manifest strategy prefix c b').stored)
unfolding persist_ir persist_bundle
persist_ir-reports manifest strategy prefix no_hook b b' = (refl, refl)
persist_ir-reports manifest strategy prefix raised b b' = (refl, refl)
persist_ir-reports manifest strategy prefix (returned none) b b' = (refl, refl)
persist_ir-reports manifest strategy prefix (returned (some bundle)) b b' = by bundle.tarballs
  where
    by :
        (ts : List (IrStage × Text))
        → ((persist_bundle manifest strategy prefix bundle ts b).report
            ≡ (persist_bundle manifest strategy prefix bundle ts b').report)
          × ((persist_bundle manifest strategy prefix bundle ts b).stored
              ≡ (persist_bundle manifest strategy prefix bundle ts b').stored)
    by [] = (refl, refl)
    by (t ∷ ts) = (refl, refl)

ir_stage_value-injective : (s t : IrStage) → ir_stage_value s ≡ ir_stage_value t → s ≡ t
unfolding ir_stage_value
ir_stage_value-injective s t h = ground arith

ir_tarball_key-injective :
    (prefix a b : Text) → ir_tarball_key prefix a ≡ ir_tarball_key prefix b → a ≡ b
unfolding ir_tarball_key
ir_tarball_key-injective prefix a b h = append_cancel_right a b (codes ".tar.gz") (
    append_cancel_left (codes "/") (a ++ codes ".tar.gz") (b ++ codes ".tar.gz") (
      append_cancel_left (prefix ++ codes "/ir") (codes "/" ++ (a ++ codes ".tar.gz"))
        (codes "/" ++ (b ++ codes ".tar.gz")) h))

ir_manifest_key-other : (prefix stage : Text) → ir_manifest_key prefix ≢ ir_tarball_key prefix stage
unfolding ir_manifest_key ir_tarball_key last_char
ir_manifest_key-other prefix stage e =
    let ends_in_n : last_char (ir_manifest_key prefix) ≡ b'n' =
      last_char-append (prefix ++ codes "/ir") (codes "manifest.json") b'/' in
    let ends_in_z : last_char (ir_tarball_key prefix stage) ≡ b'z' =
      last_char-append (prefix ++ codes "/ir") (stage ++ codes ".tar.gz") b'/'
      ∙ last_char-append (codes "/" ++ stage) (codes "tar.gz") b'.' in
    ne (sym ends_in_n ∙ ap last_char e ∙ ends_in_z)
  where
    ne : ◌≢◌ {A = ℕ} b'n' b'z'
    ne h = omega (arith, h)

differ : (s t : IrStage) → (s == t) ≡ false → s ≢ t
differ s t e same = ground arith

unfoldable pub HasUniqueStages : List (IrStage × Text) → Type 0
HasUniqueStages [] = Unit
HasUniqueStages (t ∷ ts) = (find t.0 ts ≡ none) × HasUniqueStages ts

add_stage-HasUniqueStages :
    (readable : IrDump → Bool) (tar_gz : List IrDump → Text) (max_bytes : ℕ) (s : IrStage)
    (es : List IrDump) (later : IrBundle)
    → find s later.tarballs ≡ none
    → HasUniqueStages later.tarballs
    → HasUniqueStages (add_stage readable tar_gz max_bytes s es later).tarballs
unfolding add_stage HasUniqueStages
add_stage-HasUniqueStages readable tar_gz max_bytes s es later h hs =
    elim (Bool-cases (too_large readable tar_gz max_bytes (blob_of readable tar_gz max_bytes es))) [
      | inl e ↦ rw e hs
      | inr e ↦ rw e (h, hs)
    ]

pack_groups-HasUniqueStages :
    (readable : IrDump → Bool) (tar_gz : List IrDump → Text) (max_bytes : ℕ) (gs : Groups)
    → IsDistinct gs
    → HasUniqueStages (pack_groups readable tar_gz max_bytes gs).tarballs
unfolding pack_groups IsDistinct tarball HasUniqueStages
pack_groups-HasUniqueStages readable tar_gz max_bytes [] h = tt
pack_groups-HasUniqueStages readable tar_gz max_bytes (g ∷ gs) (h, hs) =
    add_stage-HasUniqueStages readable tar_gz max_bytes g.0 g.1
      (pack_groups readable tar_gz max_bytes gs)
      (pack_groups-find readable tar_gz max_bytes g.0 gs hs
        ∙ ap (tarball readable tar_gz max_bytes) h)
      (pack_groups-HasUniqueStages readable tar_gz max_bytes gs hs)

pack-HasUniqueStages :
    (readable : IrDump → Bool) (tar_gz : List IrDump → Text) (max_bytes : ℕ) (dumps : List IrDump)
    → HasUniqueStages (pack readable tar_gz max_bytes dumps).tarballs
unfolding pack
pack-HasUniqueStages readable tar_gz max_bytes dumps =
    pack_groups-HasUniqueStages readable tar_gz max_bytes (sort stage_leb (group dumps []))
      (sorted-find readable tar_gz max_bytes dumps IrStage.ast).1

-- What is in the bucket under a key once the tarball is put there, if there is one.
unfoldable pub replaced : Option Text → Option Text → Option Text
replaced none before = before
replaced (some blob) before = some blob

put-working :
    (key content : Text) (objects : List (Text × Text))
    → (put key content (working objects)).1 ≡ working ((key, content) ∷ objects)
unfolding put works_now
put-working key content objects = refl

replaced-same :
    (o before : Option Text) (blob : Text) → o ≡ none → replaced o (some blob) ≡ some blob
unfolding replaced
replaced-same o before blob e = rw e refl

module _ (prefix : Text) (s : IrStage) where
  abbrev key_of : IrStage → Text
  key_of t = ir_tarball_key prefix (ir_stage_value t)

  put_stages-at :
      (ts : List (IrStage × Text)) (objects : List (Text × Text))
      → HasUniqueStages ts
      → (rest : List (Text × Text)) × (put_stages prefix ts (working objects) ≡ working rest)
        × (object_at (key_of s) rest ≡ replaced (find s ts) (object_at (key_of s) objects))
  unfolding put_stages HasUniqueStages find replaced
  put_stages-at [] objects h = (objects, refl, refl)
  put_stages-at ((t, blob) ∷ ts) objects (h, hs) =
      let (rest, e, at) = put_stages-at ts ((key_of t, blob) ∷ objects) hs in
      (
        rest,
        ap (put_stages prefix ts) (put-working (key_of t) blob objects) ∙ e,
        at ∙ by (t == s) refl,
      )
    where
      by :
          (here : Bool)
          → (t == s) ≡ here
          → replaced (find s ts) (object_at (key_of s) ((key_of t, blob) ∷ objects))
            ≡ replaced (if here then some blob else find s ts) (object_at (key_of s) objects)
      by true e =
          let same : t ≡ s = ==_eq t s e in
          ap (λ k. replaced (find s ts) (object_at (key_of s) ((key_of k, blob) ∷ objects))) same
          ∙ ap (replaced (find s ts)) (at-same (key_of s) blob objects)
          ∙ replaced-same (find s ts) none blob (subst (λ k. find k ts ≡ none) same h)
      by false e = ap (replaced (find s ts)) (
          at-other (key_of s) (key_of t) blob objects (λ same.
            let again : t ≡ s =
              ir_stage_value-injective t s
                (ir_tarball_key-injective prefix (ir_stage_value t) (ir_stage_value s) same) in
            absurd (differ t s e again)))

module _ (manifest : IrBundle → IrStrategy → Text) (strategy : IrStrategy) where
  persist_bundle-at :
      (prefix : Text) (s : IrStage) (bundle : IrBundle) (ts : List (IrStage × Text))
      (objects : List (Text × Text))
      → HasUniqueStages ts
      → object_at
          (ir_tarball_key prefix (ir_stage_value s))
          (persist_bundle manifest strategy prefix bundle ts (working objects)).bucket.objects
        ≡ replaced (find s ts) (object_at (ir_tarball_key prefix (ir_stage_value s)) objects)
  unfolding persist_bundle find replaced
  persist_bundle-at prefix s bundle [] objects h = refl
  persist_bundle-at prefix s bundle (t ∷ ts) objects h =
      let (rest, e, at) = put_stages-at prefix s (t ∷ ts) objects h in
      let text = manifest bundle strategy in
      ap
        (λ b.
          object_at (ir_tarball_key prefix (ir_stage_value s))
            (put (ir_manifest_key prefix) text b).1.objects)
        e
      ∙ ap (λ b. object_at (ir_tarball_key prefix (ir_stage_value s)) b.objects)
          (put-working (ir_manifest_key prefix) text rest)
      ∙ at-other (ir_tarball_key prefix (ir_stage_value s)) (ir_manifest_key prefix) text rest
          (ir_manifest_key-other prefix (ir_stage_value s))
      ∙ at

  -- With a bucket whose calls work, packing the dumps and storing the bundle leaves under the key of
  -- every stage the tarball of its readable dumps, in the order in which they were found. Where the
  -- stage has no dumps, or its tarball is over the cap, the object of that key is as it was.
  pub persist_ir-pack :
      (readable : IrDump → Bool) (tar_gz : List IrDump → Text) (max_bytes : ℕ) (dumps : List IrDump)
      (prefix : Text) (s : IrStage) (objects : List (Text × Text))
      → object_at
          (ir_tarball_key prefix (ir_stage_value s))
          (persist_ir manifest strategy prefix
            (returned (some (pack readable tar_gz max_bytes dumps)))
            (working objects)).bucket.objects
        ≡ replaced
            (tarball readable tar_gz max_bytes (nonempty (where_ (of_stage s) dumps)))
            (object_at (ir_tarball_key prefix (ir_stage_value s)) objects)
  unfolding persist_ir
  persist_ir-pack readable tar_gz max_bytes dumps prefix s objects =
      let bundle = pack readable tar_gz max_bytes dumps in
      persist_bundle-at prefix s bundle bundle.tarballs objects
        (pack-HasUniqueStages readable tar_gz max_bytes dumps)
      ∙ ap (λ o. replaced o (object_at (ir_tarball_key prefix (ir_stage_value s)) objects))
          (pack-find readable tar_gz max_bytes dumps s)
