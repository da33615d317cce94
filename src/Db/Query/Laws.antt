-- ===== src/Db/Query/Laws.antt =====
-- What the clauses of the queries return.
use assemblage.Prelude.{
  ℕ, zero, suc, ◌≤◌, ◌≡◌, refl, ap, ◌∙◌, ◌⊎◌, inl, inr, Bool, true, false, ◌||◌, if◌then◌else◌,
  List, [], ◌∷◌, ◌++◌, map, none, some, length, arith, Bool-cases, Option-cases, sym, subst,
}
use mathlib.Core.Option.{some-injective}
use mathlib.Core.Bool.{false≢true}
use assemblage.Db.Query.{where_, exists, update, nth, first, Has, All}

module _ {A : Type 0} where
  -- A row of a selection is a row of the table that passes the test.
  pub Has-where :
      (p : A → Bool) (a : A) (xs : List A) → Has a (where_ p xs) → Has a xs × (p a ≡ true)
  unfolding where_
  Has-where p a [] h = absurd h
  Has-where p a (x ∷ xs) h = elim (Bool-cases (p x)) [
    | inl e ↦ Has-where_here p a x xs e (rw (e, where_) at h) (Has-where p a xs)
    | inr e ↦ let (i, t) = Has-where p a xs (rw (e, where_) at h) in (inr i, t)
  ]
    where
      Has-where_here :
          (p : A → Bool) (a x : A) (xs : List A)
          → p x ≡ true
          → (a ≡ x) ⊎ Has a (where_ p xs)
          → (Has a (where_ p xs) → Has a xs × (p a ≡ true))
          → Has a (x ∷ xs) × (p a ≡ true)
      Has-where_here p a x xs e (inl q) ih = (inl q, ap p q ∙ e)
      Has-where_here p a x xs e (inr i) ih = let (j, t) = ih i in (inr j, t)

  Has-nth : (n : ℕ) (x : A) (xs : List A) → Has (nth n x xs) (x ∷ xs)
  unfolding nth
  Has-nth zero x xs = inl refl
  Has-nth (suc n) x [] = inl refl
  Has-nth (suc n) x (y ∷ ys) = inr (Has-nth n y ys)

  -- Whatever row the database picks, it is one of the rows.
  pub Has-first : (row : ℕ) (a : A) (xs : List A) → first row xs ≡ some a → Has a xs
  unfolding first
  Has-first row a [] h = cc
  Has-first row a (x ∷ xs) h = subst (λ b. Has b (x ∷ xs)) (some-injective _ _ h) (Has-nth _ x xs)

  -- It finds none only among no rows.
  pub first-none : (row : ℕ) (xs : List A) → first row xs ≡ none → xs ≡ []
  unfolding first
  first-none row [] h = refl
  first-none row (x ∷ xs) h = cc

  pub All-has : (P : A → Type 0) {a : A} (xs : List A) → All P xs → Has a xs → P a
  All-has P [] h m = elim m [ ]
  All-has P (x ∷ xs) h (inl e) = subst P (sym e) h.0
  All-has P (x ∷ xs) h (inr i) = All-has P xs h.1 i

  pub All-append : (P : A → Type 0) (xs ys : List A) → All P xs → All P ys → All P (xs ++ ys)
  All-append P [] ys hx hy = hy
  All-append P (x ∷ xs) ys hx hy = (hx.0, All-append P xs ys hx.1 hy)

  pub All-mono : {P Q : A → Type 0} (xs : List A) → ((a : A) → P a → Q a) → All P xs → All Q xs
  All-mono [] f h = tt
  All-mono (x ∷ xs) f h = (f x h.0, All-mono xs f h.1)

  -- An update keeps what it keeps of each row that it meets.
  pub All-update :
      {P : A → Type 0} (p : A → Bool) (f : A → A) (xs : List A)
      → ((a : A) → p a ≡ true → P a → P (f a))
      → All P xs
      → All P (update p f xs)
  unfolding update
  All-update p f [] k h = tt
  All-update {P} p f (x ∷ xs) k h = (All-update_row (p x) refl h.0, All-update p f xs k h.1)
    where
      All-update_row : (b : Bool) → p x ≡ b → P x → P (if b then f x else x)
      All-update_row true e px = k x e px
      All-update_row false e px = px

  pub map-update :
      {B : Type 0} (g : A → B) (p : A → Bool) (f : A → A) (xs : List A)
      → ((a : A) → g (f a) ≡ g a)
      → map g (update p f xs) ≡ map g xs
  unfolding update
  map-update g p f [] k = refl
  map-update g p f (x ∷ xs) k = ground (arith, k x, map-update g p f xs k)

  pub length-update : (p : A → Bool) (f : A → A) (xs : List A) → length (update p f xs) ≡ length xs
  unfolding update
  length-update p f [] = refl
  length-update p f (x ∷ xs) = ap suc (length-update p f xs)

  pub exists-Has : (p : A → Bool) (a : A) (xs : List A) → Has a xs → p a ≡ true → exists p xs ≡ true
  unfolding exists
  exists-Has p a [] m h = elim m [ ]
  exists-Has p a (x ∷ xs) (inl e) h = ground (arith, ap p e)
  exists-Has p a (x ∷ xs) (inr i) h = ground (arith, exists-Has p a xs i h)

  pub exists-append :
      (p : A → Bool) (xs ys : List A) → exists p (xs ++ ys) ≡ (exists p xs || exists p ys)
  unfolding exists
  exists-append p [] ys = refl
  exists-append p (x ∷ xs) ys = ground (arith, exists-append p xs ys)

  -- A second update by the same test changes nothing more, if the first leaves no row as the
  -- second would have it otherwise.
  pub update-update :
      (p : A → Bool) (f g : A → A) (xs : List A)
      → ((a : A) → p (f a) ≡ p a)
      → ((a : A) → g (f a) ≡ g a)
      → update p g (update p f xs) ≡ update p g xs
  unfolding update
  update-update p f g [] kp kg = refl
  update-update p f g (x ∷ xs) kp kg = ground (arith, kp x, kg x, update-update p f g xs kp kg)

  pub Has-exists :
      (p : A → Bool) (xs : List A) → exists p xs ≡ true → (a : A) × Has a xs × (p a ≡ true)
  unfolding exists
  Has-exists p [] h = cc
  Has-exists p (x ∷ xs) h = elim (Bool-cases (p x)) [
    | inl e ↦ (x, inl refl, e)
    | inr e ↦ let (a, i, t) = Has-exists p xs (ground arith) in (a, inr i, t)
  ]

  -- Nothing is selected only if no row passes.
  pub where-nil : (p : A → Bool) (a : A) (xs : List A) → where_ p xs ≡ [] → Has a xs → p a ≡ false
  unfolding where_
  where-nil p a [] h m = elim m [ ]
  where-nil p a (x ∷ xs) h (inl e) = ap p e ∙ ground arith
  where-nil p a (x ∷ xs) h (inr i) = where-nil p a xs (ground arith) i

  -- A lookup by a test that some row passes finds a row that passes it.
  pub first-where :
      (row : ℕ) (p : A → Bool) (a : A) (xs : List A)
      → Has a xs
      → p a ≡ true
      → (b : A) × (first row (where_ p xs) ≡ some b) × Has b xs × (p b ≡ true)
  first-where row p a xs m h = elim (Option-cases (first row (where_ p xs))) [
    | inl e ↦ absurd (false≢true (sym (where-nil p a xs (first-none row _ e) m) ∙ h))
    | inr (b, e) ↦ let (i, t) = Has-where p b xs (Has-first row b _ e) in (b, e, i, t)
  ]

  pub Has-map : {B : Type 0} (g : A → B) (a : A) (xs : List A) → Has a xs → Has (g a) (map g xs)
  Has-map g a [] m = elim m [ ]
  Has-map g a (x ∷ xs) (inl e) = inl (ap g e)
  Has-map g a (x ∷ xs) (inr i) = inr (Has-map g a xs i)

  pub map-Has :
      {B : Type 0} (g : A → B) (b : B) (xs : List A)
      → Has b (map g xs)
      → (a : A) × Has a xs × (b ≡ g a)
  map-Has g b [] m = elim m [ ]
  map-Has g b (x ∷ xs) (inl e) = (x, inl refl, e)
  map-Has g b (x ∷ xs) (inr i) = let (a, j, e) = map-Has g b xs i in (a, inr j, e)

  pub Has-append_left : (a : A) (xs ys : List A) → Has a xs → Has a (xs ++ ys)
  Has-append_left a [] ys m = elim m [ ]
  Has-append_left a (x ∷ xs) ys (inl e) = inl e
  Has-append_left a (x ∷ xs) ys (inr i) = inr (Has-append_left a xs ys i)

  pub Has-append_right : (a : A) (xs ys : List A) → Has a ys → Has a (xs ++ ys)
  Has-append_right a [] ys m = m
  Has-append_right a (x ∷ xs) ys m = inr (Has-append_right a xs ys m)

  pub where-append :
      (p : A → Bool) (xs ys : List A) → where_ p (xs ++ ys) ≡ where_ p xs ++ where_ p ys
  unfolding where_
  where-append p [] ys = refl
  where-append p (x ∷ xs) ys = ground (arith, where-append p xs ys)

  pub where-cong :
      (p q : A → Bool) (xs : List A) → ((a : A) → p a ≡ q a) → where_ p xs ≡ where_ q xs
  unfolding where_
  where-cong p q [] h = refl
  where-cong p q (x ∷ xs) h = ground (arith, h x, where-cong p q xs h)

  -- An update that the test does not see changes no count.
  pub length-where-update :
      (p q : A → Bool) (f : A → A) (xs : List A)
      → ((a : A) → p (f a) ≡ p a)
      → length (where_ p (update q f xs)) ≡ length (where_ p xs)
  unfolding where_ update
  length-where-update p q f [] h = refl
  length-where-update p q f (x ∷ xs) h = ground (arith, h x, length-where-update p q f xs h)

  pub map-where-update :
      {B : Type 0} (g : A → B) (p q : A → Bool) (f : A → A) (xs : List A)
      → ((a : A) → p (f a) ≡ p a)
      → ((a : A) → g (f a) ≡ g a)
      → map g (where_ p (update q f xs)) ≡ map g (where_ p xs)
  unfolding where_ update
  map-where-update g p q f [] h k = refl
  map-where-update g p q f (x ∷ xs) h k = ground (arith, h x, k x, map-where-update g p q f xs h k)

  first_one : (row : ℕ) (a x : A) → first row (x ∷ []) ≡ some a → x ≡ a
  first_one row a x e = elim (Has-first row a (x ∷ []) e) [ inl q ↦ sym q | inr m ↦ absurd m ]

  first_nil : (row : ℕ) (a : A) → ¬ (first row [] ≡ some a)
  unfolding first
  first_nil row a e = cc

  -- The only row of a selection is the one that is found.
  pub first_only :
      {B : Type 0} (g : A → B) (row : ℕ) (a : A) (xs : List A)
      → length xs ≤ 1
      → first row xs ≡ some a
      → map g xs ≡ g a ∷ []
  first_only g row a [] h e = absurd (first_nil row a e)
  first_only g row a (x ∷ []) h e = ap (λ y. g y ∷ []) (first_one row a x e)
  first_only g row a (x ∷ y ∷ xs) h e = absurd (omega arith)

  pub first_found :
      {B : Type 0} (g : A → B) (row : ℕ) (a : A) (b : B) (xs : List A)
      → map g xs ≡ b ∷ []
      → first row xs ≡ some a
      → g a ≡ b
  first_found g row a b [] h e = cc
  first_found g row a b (x ∷ []) h e = ap g (sym (first_one row a x e)) ∙ ground arith
  first_found g row a b (x ∷ y ∷ xs) h e = cc

  pub Has-update :
      (p : A → Bool) (f : A → A) (a : A) (xs : List A)
      → Has a xs
      → p a ≡ true
      → Has (f a) (update p f xs)
  unfolding update
  Has-update p f a [] m h = elim m [ ]
  Has-update p f a (x ∷ xs) (inl e) h =
      inl (ap f e ∙ sym (ap (λ b. if b then f x else x) (ap p (sym e) ∙ h)))
  Has-update p f a (x ∷ xs) (inr i) h = inr (Has-update p f a xs i h)

  -- Every row after an update comes from one before it.
  pub update-Has :
      (p : A → Bool) (f : A → A) (b : A) (xs : List A)
      → Has b (update p f xs)
      → (a : A) × Has a xs × ((b ≡ a) ⊎ (b ≡ f a))
  unfolding update
  update-Has p f b [] m = elim m [ ]
  update-Has p f b (x ∷ xs) (inl e) = elim (Bool-cases (p x)) [
    | inl t ↦ (x, inl refl, inr (e ∙ ap (λ c. if c then f x else x) t))
    | inr t ↦ (x, inl refl, inl (e ∙ ap (λ c. if c then f x else x) t))
  ]
  update-Has p f b (x ∷ xs) (inr i) = let (a, j, t) = update-Has p f b xs i in (a, inr j, t)

  pub length-where-update_unseen :
      (p q : A → Bool) (f : A → A) (xs : List A)
      → ((a : A) → q a ≡ true → p (f a) ≡ p a)
      → length (where_ p (update q f xs)) ≡ length (where_ p xs)
  unfolding where_ update
  length-where-update_unseen p q f [] h = refl
  length-where-update_unseen p q f (x ∷ xs) h = elim (Bool-cases (q x)) [
    | inl e ↦ ground (arith, e, h x e, length-where-update_unseen p q f xs h)
    | inr e ↦ ground (arith, e, length-where-update_unseen p q f xs h)
  ]
