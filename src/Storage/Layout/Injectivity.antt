-- ===== src/Storage/Layout/Injectivity.antt =====
-- When two builds of one project have one directory.
use assemblage.Prelude.{
  ◌≡◌, refl, nat_eq, false, contains, length, [], ◌∷◌, ◌++◌, Text, codes, arith,
}
use assemblage.Storage.Layout.{build_dir, without_dashes, under, dashed}

append-cancel : (a x y : Text) → a ++ x ≡ a ++ y → x ≡ y
append-cancel [] x y e = e
append-cancel (c ∷ a) x y e = append-cancel a x y (ground (arith, e))

append-split : (a b x y : Text) → length a ≡ length b → a ++ x ≡ b ++ y → (a ≡ b) × (x ≡ y)
append-split [] [] x y n e = (refl, e)
append-split [] (d ∷ b) x y n e = absurd (omega (arith, n))
append-split (c ∷ a) [] x y n e = absurd (omega (arith, n))
append-split (c ∷ a) (d ∷ b) x y n e =
    let (p, q) = append-split a b x y (omega (arith, n)) (ground (arith, e)) in
    (ground (arith, e, p), q)

-- The first dash separates, if there is none in the parts.
dash-split :
    (a b x y : Text)
    → contains a b'-' ≡ false
    → contains b b'-' ≡ false
    → a ++ b'-' ∷ x ≡ b ++ b'-' ∷ y
    → (a ≡ b) × (x ≡ y)
dash-split [] [] x y h k e = (refl, ground (arith, e))
dash-split [] (d ∷ b) x y h k e = absurd (ground (arith, k, e))
dash-split (c ∷ a) [] x y h k e = absurd (ground (arith, h, e))
dash-split (c ∷ a) (d ∷ b) x y h k e =
    let (p, q) = dash-split a b x y (ground (arith, h)) (ground (arith, k)) (ground (arith, e)) in
    (ground (arith, e, p), q)

-- The part of the name that tells the builds of one project apart.
abbrev own : Text → Text → Text → Text → Text
own s f b m = dashed s (dashed (without_dashes f) (dashed b m))

-- Two builds of one project that share a directory have the same commit, backend and mode, and their
-- flags are the same behind the leading dashes: the commits are of one length, and neither the flag
-- behind its leading dashes nor the backend holds a dash. So Debug and Release builds of one commit do not collide.
pub build_dir-injective :
    (owner project : Text) (s s' f f' b b' m m' : Text)
    → length s ≡ length s'
    → contains (without_dashes f) b'-' ≡ false
    → contains (without_dashes f') b'-' ≡ false
    → contains b b'-' ≡ false
    → contains b' b'-' ≡ false
    → build_dir owner project s f b m ≡ build_dir owner project s' f' b' m'
    → (s ≡ s') × (without_dashes f ≡ without_dashes f') × (b ≡ b') × (m ≡ m')
unfolding build_dir
build_dir-injective owner project s s' f f' b b' m m' n hf hf' hb hb' e =
    let e1 : under project (own s f b m) ≡ under project (own s' f' b' m') =
      append-cancel (codes "_") _ _ (
        append-cancel owner (codes "_" ++ under project (own s f b m))
          (codes "_" ++ under project (own s' f' b' m')) e) in
    let e2 =
      append-cancel (codes "_") (own s f b m) (own s' f' b' m')
        (append-cancel project (codes "_" ++ own s f b m) (codes "_" ++ own s' f' b' m') e1) in
    let (p, e3) =
      append-split s s' (b'-' ∷ dashed (without_dashes f) (dashed b m))
        (b'-' ∷ dashed (without_dashes f') (dashed b' m')) n e2 in
    let (q, e4) =
      dash-split (without_dashes f) (without_dashes f') (dashed b m) (dashed b' m') hf hf' (
        append-cancel (codes "-") (dashed (without_dashes f) (dashed b m))
          (dashed (without_dashes f') (dashed b' m')) e3) in
    let (r, t) = dash-split b b' m m' hb hb' e4 in (p, q, r, t)
