-- ===== src/Prelude/Sorting.antt =====
-- `Array.prototype.sort` with a comparator: the stable sort. `precedes x y` is `compare(x, y) < 0`.
use mathlib.Core.Path.{◌≡◌, refl}
use mathlib.Core.Bool.{Bool}
use mathlib.Core.List.{List, [], ◌∷◌, Perm}
use mathlib.Core.List.Perm
use native.Mathlib.Omega.{arith}
use ocash_sdk.Prelude.Tests.{if◌then◌else◌, Bool-cases}
use ocash_sdk.Prelude.Lists.{length, All}
use ocash_sdk.Prelude.Int.{ℤ, ◌+ℤ◌, sum_by, int_laws}
use mathlib.Core.Logic.{inl, inr}
use Prim.Native.Nat.{suc}

module _ {ℓ} {A : Type ℓ} (precedes : A → A → Bool) where
  -- An element goes in front of the first one that does not precede it, so equals keep their order.
  abbrev pub insert_sorted : A → List A → List A
  insert_sorted x [] = x ∷ []
  insert_sorted x (y ∷ ys) = if precedes y x then y ∷ insert_sorted x ys else x ∷ y ∷ ys

  abbrev pub sort : List A → List A
  sort [] = []
  sort (x ∷ xs) = insert_sorted x (sort xs)

  insert_sorted-perm : (x : A) (ys : List A) → Perm (insert_sorted x ys) (x ∷ ys)
  insert_sorted-perm x [] = Perm.rfl
  insert_sorted-perm x (y ∷ ys) = elim (Bool-cases (precedes y x)) [
    | inl later ↦ rw (later) (Perm.trans (Perm.cons y (insert_sorted-perm x ys)) (Perm.swap x y ys))
    | inr here ↦ rw (here) Perm.rfl
  ]

  -- Sorting rearranges its input.
  pub sort-perm : (xs : List A) → Perm (sort xs) xs
  sort-perm [] = Perm.rfl
  sort-perm (x ∷ xs) = Perm.trans (insert_sorted-perm x (sort xs)) (Perm.cons x (sort-perm xs))

  length-insert_sorted : (x : A) (ys : List A) → length (insert_sorted x ys) ≡ suc (length ys)
  length-insert_sorted x [] = refl
  length-insert_sorted x (y ∷ ys) = ground (arith, length-insert_sorted x ys)

  pub length-sort : (xs : List A) → length (sort xs) ≡ length xs
  length-sort [] = refl
  length-sort (x ∷ xs) = omega (arith, length-insert_sorted x (sort xs), length-sort xs)

  sum_by-insert_sorted :
      (f : A → ℤ) (x : A) (ys : List A) → sum_by f (insert_sorted x ys) ≡ f x +ℤ sum_by f ys
  sum_by-insert_sorted f x [] = refl
  sum_by-insert_sorted f x (y ∷ ys) = elim (Bool-cases (precedes y x)) [
    | inl later ↦ rw (later) (rw (sum_by-insert_sorted f x ys) (omega int_laws))
    | inr here ↦ rw (here)
  ]

  pub sum_by-sort : (f : A → ℤ) (xs : List A) → sum_by f (sort xs) ≡ sum_by f xs
  sum_by-sort f [] = refl
  sum_by-sort f (x ∷ xs) = rw (sum_by-insert_sorted f x (sort xs), sum_by-sort f xs) refl

  pub All-insert_sorted {κ} :
      (P : A → Type κ) (x : A) (ys : List A) → P x → All P ys → All P (insert_sorted x ys)
  All-insert_sorted P x [] px h = (px, tt)
  All-insert_sorted P x (y ∷ ys) px h = elim (Bool-cases (precedes y x)) [
    | inl later ↦ rw (later) (h.0, All-insert_sorted P x ys px h.1)
    | inr here ↦ rw (here) (px, h)
  ]

  pub All-sort {κ} : (P : A → Type κ) (xs : List A) → All P xs → All P (sort xs)
  All-sort P [] h = tt
  All-sort P (x ∷ xs) h = All-insert_sorted P x (sort xs) h.0 (All-sort P xs h.1)

  All-insert_sorted_inverse {κ} :
      (P : A → Type κ) (x : A) (ys : List A) → All P (insert_sorted x ys) → P x × All P ys
  All-insert_sorted_inverse P x [] h = h
  All-insert_sorted_inverse P x (y ∷ ys) h = elim (Bool-cases (precedes y x)) [
    | inl later ↦
        let moved = rw (later) at h in
        let below = All-insert_sorted_inverse P x ys moved.1 in (below.0, (moved.0, below.1))
    | inr here ↦ rw (here) at h
  ]

  -- What holds of every element of the sorted list holds of the list's.
  pub All-sort_inverse {κ} : (P : A → Type κ) (xs : List A) → All P (sort xs) → All P xs
  All-sort_inverse P [] h = tt
  All-sort_inverse P (x ∷ xs) h =
      let split = All-insert_sorted_inverse P x (sort xs) h in
      (split.0, All-sort_inverse P xs split.1)
