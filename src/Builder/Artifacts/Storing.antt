-- ===== src/Builder/Artifacts/Storing.antt =====
-- What `all_saved` promises.
use assemblage.Prelude.{
  ℕ, ◌≡◌, ◌≢◌, refl, ap, ◌∙◌, inl, inr, Bool, true, false, ◌&&◌, nat_eq, list_eq, List, [], ◌∷◌,
  ◌++◌, Option, none, some, Text, codes,
}
use mathlib.Core.List.{append_cancel_left, append_cancel_right}
use assemblage.Db.Query.{All}
use assemblage.Storage.Bucket.{Bucket, put, put-cases, object_at, at-same, at-other}
use assemblage.Storage.Layout.{binary_key}
use assemblage.Builder.Ir.{basename}
use assemblage.Builder.Artifacts.{
  Binary, with_file, save_file, save_files, bin_found, saved_found, save_binaries,
}

and_true : (a b : Bool) → (a && b) ≡ true → (a ≡ true) × (b ≡ true)
and_true true b h = (refl, h)
and_true false b h = absurd (cc)

-- The compressed content of the file is in the bucket, under the name of the file.
abbrev pub IsStored : Text → List (Text × Text) → Binary → Type 0
IsStored prefix objects f =
    (raw : ℕ) × (packed : Text) × (f.packed ≡ some (raw, packed))
    × (object_at (binary_key prefix (basename f.path)) objects ≡ some packed)

-- No two files have one name.
abbrev pub HasUniqueNames : List Binary → Type 0
HasUniqueNames [] = Unit
HasUniqueNames (f ∷ fs) =
    All (λ (g : Binary). basename g.path ≢ basename f.path) fs × HasUniqueNames fs

binary_key-injective : (prefix a b : Text) → binary_key prefix a ≡ binary_key prefix b → a ≡ b
unfolding binary_key
binary_key-injective prefix a b h = append_cancel_right a b (codes ".zst") (
    append_cancel_left (codes "/binaries/") (a ++ codes ".zst") (b ++ codes ".zst") (
      append_cancel_left prefix (codes "/binaries/" ++ (a ++ codes ".zst"))
        (codes "/binaries/" ++ (b ++ codes ".zst")) h))

put-others :
    (key k content : Text) (b : Bucket)
    → k ≢ key
    → object_at key (put k content b).1.objects ≡ object_at key b.objects
put-others key k content b ne = elim (put-cases k content b) [
  | inl (_, o) ↦ ap (object_at key) o ∙ at-other key k content b.objects ne
  | inr (_, o) ↦ ap (object_at key) o
]

-- Other names leave an object as it is.
save_files-others :
    (prefix name : Text) (fs : List Binary) (b : Bucket)
    → All (λ (g : Binary). basename g.path ≢ name) fs
    → object_at (binary_key prefix name) (save_files prefix fs b).1.objects
      ≡ object_at (binary_key prefix name) b.objects
unfolding save_files save_file
save_files-others prefix name [] b h = refl
save_files-others prefix name (f ∷ fs) b (h, hs) =
    by f.packed (λ b'. save_files-others prefix name fs b' hs)
  where
    key : Text
    key = binary_key prefix name

    by :
        (p : Option (ℕ × Text))
        → ((b' : Bucket)
            → object_at key (save_files prefix fs b').1.objects ≡ object_at key b'.objects)
        → object_at key (save_file prefix f (save_files prefix fs) p b).1.objects
          ≡ object_at key b.objects
    by none later = later b
    by (some (raw, packed)) later =
        later _
        ∙ put-others key (binary_key prefix (basename f.path)) packed b
            (λ d. h (binary_key-injective prefix (basename f.path) name d))

save_files-IsStored :
    (prefix : Text) (fs : List Binary) (b : Bucket)
    → HasUniqueNames fs
    → (save_files prefix fs b).0.all_saved ≡ true
    → All (IsStored prefix (save_files prefix fs b).1.objects) fs
unfolding save_files save_file with_file
save_files-IsStored prefix [] b u e = tt
save_files-IsStored prefix (f ∷ fs) b (u, us) e =
    by f.packed refl e (λ b'. save_files-IsStored prefix fs b' us)
  where
    name : Text
    name = basename f.path

    by :
        (p : Option (ℕ × Text))
        → f.packed ≡ p
        → (save_file prefix f (save_files prefix fs) p b).0.all_saved ≡ true
        → ((b' : Bucket)
            → (save_files prefix fs b').0.all_saved ≡ true
            → All (IsStored prefix (save_files prefix fs b').1.objects) fs)
        → IsStored prefix (save_file prefix f (save_files prefix fs) p b).1.objects f
          × All (IsStored prefix (save_file prefix f (save_files prefix fs) p b).1.objects) fs
    by none p e later = absurd (cc)
    by (some (raw, packed)) p e later =
        let (good, rest) =
          and_true (put (binary_key prefix name) packed b).0
            (save_files prefix fs (put (binary_key prefix name) packed b).1).0.all_saved e in
        elim (put-cases (binary_key prefix name) packed b) [
          | inl (fine, o) ↦ (
            (
              raw,
              packed,
              p,
              save_files-others prefix name fs _ u
                  ∙ ap (object_at (binary_key prefix name)) o
                  ∙ at-same (binary_key prefix name) packed b.objects,
            ),
            later (put (binary_key prefix name) packed b).1 rest,
          )
          | inr (bad, o) ↦ absurd (cc)
        ]

saved_found-IsStored :
    (prefix : Text) (fs : List Binary) (b : Bucket)
    → HasUniqueNames fs
    → (saved_found prefix fs b).0.all_saved ≡ true
    → All (IsStored prefix (saved_found prefix fs b).1.objects) fs
unfolding saved_found
saved_found-IsStored prefix [] b u e = tt
saved_found-IsStored prefix (f ∷ fs) b u e = save_files-IsStored prefix (f ∷ fs) b u e

-- If no two binaries of a build have one name, then `all_saved` means that each of them is in the
-- bucket with its compressed content, under the key of its name, whatever the store answered before.
-- Binaries of one name in two folders share a key.
pub save_binaries-IsStored :
    (prefix : Text) (original_files : List Text) (found : List Binary) (b : Bucket)
    → HasUniqueNames (bin_found original_files found)
    → (save_binaries prefix original_files found b).0.all_saved ≡ true
    → All
        (IsStored prefix (save_binaries prefix original_files found b).1.objects)
        (bin_found original_files found)
unfolding save_binaries
save_binaries-IsStored prefix original_files found b u e =
    saved_found-IsStored prefix (bin_found original_files found) b u e
