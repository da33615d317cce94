-- ===== src/Db/Query/Keys.antt =====
-- Primary keys: they rise along a table and stay under the next key.
use assemblage.Prelude.{
  ℕ, suc, ◌≤◌, ◌<◌, ◌≡◌, List, [], ◌∷◌, ◌++◌, map, arith, inl, inr, ◌∙◌, sym, ap,
}
use assemblage.Db.Query.{Has}
use assemblage.Db.Query.Laws.{Has-map}

-- From `lo` on, and below `hi`.
abbrev pub Rising : ℕ → List ℕ → ℕ → Type 0
Rising lo [] hi = lo ≤ hi
Rising lo (k ∷ ks) hi = (lo ≤ k) × Rising (suc k) ks hi

pub Rising-append :
    (lo mid hi : ℕ) (ks js : List ℕ) → Rising lo ks mid → Rising mid js hi → Rising lo (ks ++ js) hi
Rising-append lo mid hi [] [] h k = omega arith
Rising-append lo mid hi [] (j ∷ js) h k = (omega arith, k.1)
Rising-append lo mid hi (x ∷ ks) js h k = (h.0, Rising-append (suc x) mid hi ks js h.1 k)

pub Rising-lt : (lo hi : ℕ) (ks : List ℕ) (k : ℕ) → Rising lo ks hi → Has k ks → (lo ≤ k) × (k < hi)
Rising-lt lo hi [] k h m = elim m [ ]
Rising-lt lo hi (x ∷ ks) k h (inl e) = ground (arith, Rising-le (suc x) hi ks h.1)
  where
    Rising-le : (lo hi : ℕ) (ks : List ℕ) → Rising lo ks hi → lo ≤ hi
    Rising-le lo hi [] h = h
    Rising-le lo hi (x ∷ ks) h = omega (arith, Rising-le (suc x) hi ks h.1)
Rising-lt lo hi (x ∷ ks) k h (inr i) = omega (arith, Rising-lt (suc x) hi ks k h.1 i)

-- Rows of a table with rising keys that have one key are one row.
pub Rising-unique :
    {A : Type 0} (key : A → ℕ) (lo hi : ℕ) (xs : List A) (a b : A)
    → Rising lo (map key xs) hi
    → Has a xs
    → Has b xs
    → key a ≡ key b
    → a ≡ b
Rising-unique key lo hi [] a b h i j e = elim i [ ]
Rising-unique key lo hi (x ∷ xs) a b h (inl p) (inl q) e = p ∙ sym q
Rising-unique key lo hi (x ∷ xs) a b h (inl p) (inr j) e = absurd (
    omega (
      arith,
      Rising-lt (suc (key x)) hi (map key xs) (key b) h.1 (Has-map key b xs j),
      ap key p,
      e,
    ))
Rising-unique key lo hi (x ∷ xs) a b h (inr i) (inl q) e = absurd (
    omega (
      arith,
      Rising-lt (suc (key x)) hi (map key xs) (key a) h.1 (Has-map key a xs i),
      ap key q,
      e,
    ))
Rising-unique key lo hi (x ∷ xs) a b h (inr i) (inr j) e =
    Rising-unique key (suc (key x)) hi xs a b h.1 i j e
