-- ===== src/Storage/Bucket.antt =====
-- `S3Bucket` of backend/assemblage/storage/s3.py: a bucket as its objects. Each call reaches the store
-- or ends in a `ClientError`, which is caught.
use assemblage.Prelude.{
  Bool, true, false, ◌==◌, ==_refl, ==_eq, Bool-cases, nat_eq, list_eq, if◌then◌else◌, List, [],
  ◌∷◌, Option, none, some, Text, ◌≡◌, ◌≢◌, refl, ◌⊎◌, inl, inr,
}

-- The objects by key, and whether each coming call works (past the list it does).
pub record Bucket : Type 0 where
  pub objects : List (Text × Text)
  pub works : List Bool

unfoldable pub works_now : List Bool → Bool × List Bool
works_now [] = (true, [])
works_now (b ∷ bs) = (b, bs)

unfoldable pub object_at : Text → List (Text × Text) → Option Text
object_at key [] = none
object_at key ((k, v) ∷ os) = let rest = object_at key os in if k == key then some v else rest

-- `upload_file` and `put_bytes` of the content: an object with that key is replaced.
unfoldable pub put : Text → Text → Bucket → Bool × Bucket
unfolding works_now
put key content b =
    let (fine, rest) = works_now b.works in
    (
      fine,
      if fine
          then record { objects = (key, content) ∷ b.objects; works = rest }
          else record b { works = rest },
    )

-- `download_file`: the content, or none where there is no such object.
unfoldable pub download : Text → Bucket → Option Text × Bucket
unfolding works_now object_at
download key b =
    let (fine, rest) = works_now b.works in
    (if fine then object_at key b.objects else none, record b { works = rest })

unfoldable pub is_some : Option Text → Bool
is_some none = false
is_some (some v) = true

unfoldable pub object_exists : Text → Bucket → Bool × Bucket
unfolding works_now object_at is_some
object_exists key b =
    let (fine, rest) = works_now b.works in
    (if fine then is_some (object_at key b.objects) else false, record b { works = rest })

-- A call to put an object adds it, or fails and changes none.
pub put-cases :
    (key content : Text) (b : Bucket)
    → (((put key content b).0 ≡ true)
        × ((put key content b).1.objects ≡ (key, content) ∷ b.objects))
      ⊎ (((put key content b).0 ≡ false) × ((put key content b).1.objects ≡ b.objects))
unfolding put
put-cases key content b = by (works_now b.works)
  where
    Result : Bool × List Bool → Bool × Bucket
    Result w = (
      w.0,
      if w.0
          then record { objects = (key, content) ∷ b.objects; works = w.1 }
          else record b { works = w.1 },
    )

    by :
        (w : Bool × List Bool)
        → (((Result w).0 ≡ true) × ((Result w).1.objects ≡ (key, content) ∷ b.objects))
          ⊎ (((Result w).0 ≡ false) × ((Result w).1.objects ≡ b.objects))
    by (true, rest) = inl (refl, refl)
    by (false, rest) = inr (refl, refl)

pub at-same :
    (key content : Text) (os : List (Text × Text))
    → object_at key ((key, content) ∷ os) ≡ some content
unfolding object_at
at-same key content os = rw (==_refl key) refl

pub at-other :
    (key k content : Text) (os : List (Text × Text))
    → k ≢ key
    → object_at key ((k, content) ∷ os) ≡ object_at key os
unfolding object_at
at-other key k content os ne = elim (Bool-cases (k == key)) [
  | inl e ↦ absurd (ne (==_eq k key e))
  | inr e ↦ rw e refl
]
