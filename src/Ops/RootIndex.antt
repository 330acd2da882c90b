-- ===== src/Ops/RootIndex.antt =====
-- src/ops/pickMerkleRootIndex.ts: the search for the on-chain root that a remote proof is for.
use ocash_sdk.Prelude.{
  ℕ, zero, suc, ◌+◌, ◌≡◌, ◌≢◌, ◌<◌, refl, ap, Option-cases, inl, inr, ◌⊎◌, Bool, true, false, List,
  [], ◌∷◌, ◌++◌, Option, none, some, All, All-append, if◌then◌else◌, arith, Bool-cases,
}
use ocash_sdk.Prelude.Int.{
  ℤ, pos, negsuc, pos_part, neg_part, leb_ℤ, eq_of_parts, ◌+ℤ◌, ◌-ℤ◌, ◌≤ℤ◌, eqb_ℤ, int_laws,
}
use ocash_sdk.Prelude.Results.{Result, ok, err}

-- "Failed to read on-chain merkleRoots" or a root that is no integer, and "Remote merkle root not found".
pub data RootError : Type 0 where
  read_failed : ℕ → RootError
  not_found : RootError

-- `i, i + 1, …`, `n` of them, and `i, i - 1, …`.
abbrev pub upwards : ℤ → ℕ → List ℤ
upwards i zero = []
upwards i (suc n) = i ∷ upwards (i +ℤ pos 1) n

abbrev pub downwards : ℤ → ℕ → List ℤ
downwards i zero = []
downwards i (suc n) = i ∷ downwards (i -ℤ pos 1) n

-- `Math.max(0, Math.floor(value ?? default))`.
abbrev pub window : Option ℤ → ℕ → ℕ
window none default = default
window (some n) default = pos_part n

abbrev pub indices : ℤ → ℕ → ℕ → List ℤ
indices current back forward = upwards current (suc forward) ++ downwards (current -ℤ pos 1) back

-- `rootDec === remoteRootDec`; a remote root that is no integer is equal to none.
abbrev pub same_root : Option ℤ → ℤ → Bool
same_root none root = false
same_root (some remote) root = eqb_ℤ remote root

-- `read` is `readContract` of `merkleRoots` and the conversion of its result; `none` is an error of either.
module _ (read : ℕ → Option ℤ) (remote : Option ℤ) where
  -- What follows a read, where `rest` is the search of the other indices.
  abbrev pub check_root : ℕ → Option ℤ → Result RootError ℕ → Result RootError ℕ
  check_root n none rest = err (read_failed n)
  check_root n (some root) rest = if same_root remote root then ok n else rest

  unfoldable pub search_roots : List ℤ → Result RootError ℕ
  search_roots [] = err not_found
  search_roots (negsuc i ∷ is) = search_roots is
  search_roots (pos n ∷ is) = check_root n (read n) (search_roots is)

  unfoldable pub pick_merkle_root_index : ℤ → Option ℤ → Option ℤ → Result RootError ℕ
  unfolding search_roots
  pick_merkle_root_index current back forward =
      search_roots (indices current (window back 2) (window forward 8))

  -- The contract's root at `n` is the remote root.
  abbrev pub Matches : ℕ → Type 0
  Matches n = (root : ℤ) × (read n ≡ some root) × (same_root remote root ≡ true)

  abbrev Finds : (ℤ → Type 0) → Result RootError ℕ → Type 0
  Finds P (ok n) = Matches n × P (pos n)
  Finds P (err e) = Unit

  check_root-Finds :
      (P : ℤ → Type 0) (n : ℕ) (rest : Result RootError ℕ)
      → P (pos n)
      → Finds P rest
      → Finds P (check_root n (read n) rest)
  check_root-Finds P n rest at h = go (read n) refl
    where
      go : (o : Option ℤ) → read n ≡ o → Finds P (check_root n o rest)
      go none e = tt
      go (some root) e = elim (Bool-cases (same_root remote root)) [
        | inl same ↦ rw (same) ((root, e, same), at)
        | inr other ↦ rw (other) h
      ]

  search_roots-Finds : (P : ℤ → Type 0) (is : List ℤ) → All P is → Finds P (search_roots is)
  unfolding search_roots
  search_roots-Finds P [] h = tt
  search_roots-Finds P (negsuc i ∷ is) h = search_roots-Finds P is h.1
  search_roots-Finds P (pos n ∷ is) h =
      check_root-Finds P n (search_roots is) h.0 (search_roots-Finds P is h.1)

  abbrev pub InWindow : ℤ → ℕ → ℕ → ℤ → Type 0
  InWindow current back forward i = (current -ℤ pos back ≤ℤ i) × (i ≤ℤ current +ℤ pos forward)

  All-upwards :
      (low high i : ℤ) (n : ℕ)
      → low ≤ℤ i
      → i +ℤ pos n ≤ℤ high +ℤ pos 1
      → All (λ j. (low ≤ℤ j) × (j ≤ℤ high)) (upwards i n)
  All-upwards low high i zero below above = tt
  All-upwards low high i (suc n) below above = (
    (below, omega int_laws),
    All-upwards low high (i +ℤ pos 1) n (omega int_laws) (omega int_laws),
  )

  All-downwards :
      (low high i : ℤ) (n : ℕ)
      → i ≤ℤ high
      → low +ℤ pos n ≤ℤ i +ℤ pos 1
      → All (λ j. (low ≤ℤ j) × (j ≤ℤ high)) (downwards i n)
  All-downwards low high i zero above below = tt
  All-downwards low high i (suc n) above below = (
    (omega int_laws, above),
    All-downwards low high (i -ℤ pos 1) n (omega int_laws) (omega int_laws),
  )

  indices-InWindow :
      (current : ℤ) (back forward : ℕ)
      → All (InWindow current back forward) (indices current back forward)
  indices-InWindow current back forward =
      All-append (InWindow current back forward) (upwards current (suc forward)) _
        (All-upwards (current -ℤ pos back) (current +ℤ pos forward) current (suc forward)
          (omega int_laws) (omega int_laws))
        (All-downwards (current -ℤ pos back) (current +ℤ pos forward) (current -ℤ pos 1) back
          (omega int_laws) (omega int_laws))

  -- An index that is picked lies in the window around the current one, and the contract's root there is
  -- the remote root.
  pub pick_merkle_root_index-Matches :
      (current : ℤ) (back forward : Option ℤ) (n : ℕ)
      → pick_merkle_root_index current back forward ≡ ok n
      → Matches n × InWindow current (window back 2) (window forward 8) (pos n)
  unfolding pick_merkle_root_index
  pick_merkle_root_index-Matches current back forward n h =
      let P = InWindow current (window back 2) (window forward 8) in
      let is = indices current (window back 2) (window forward 8) in
      let found : Finds P (search_roots is) =
        search_roots-Finds P is (indices-InWindow current (window back 2) (window forward 8)) in
      rw h at found

  abbrev Has : ℤ → List ℤ → Type 0
  Has i [] = ⊥
  Has i (j ∷ js) = (j ≡ i) ⊎ Has i js

  Has-append : (i : ℤ) (xs ys : List ℤ) → Has i xs ⊎ Has i ys → Has i (xs ++ ys)
  Has-append i [] ys (inl h) = absurd h
  Has-append i [] ys (inr h) = h
  Has-append i (x ∷ xs) ys (inl (inl e)) = inl e
  Has-append i (x ∷ xs) ys (inl (inr h)) = inr (Has-append i xs ys (inl h))
  Has-append i (x ∷ xs) ys (inr h) = inr (Has-append i xs ys (inr h))

  upwards-Has : (j i : ℤ) (n : ℕ) → i ≤ℤ j → j +ℤ pos 1 ≤ℤ i +ℤ pos n → Has j (upwards i n)
  upwards-Has j i zero below above = absurd (omega int_laws)
  upwards-Has j i (suc n) below above = elim (Bool-cases (eqb_ℤ i j)) [
    | inl here ↦ inl (eq_of_parts i j (ground arith))
    | inr later ↦
        let apart : pos_part i + neg_part j ≢ pos_part j + neg_part i = ground arith in
        inr (upwards-Has j (i +ℤ pos 1) n (omega int_laws) (omega int_laws))
  ]

  downwards-Has : (j i : ℤ) (n : ℕ) → j ≤ℤ i → i +ℤ pos 1 ≤ℤ j +ℤ pos n → Has j (downwards i n)
  downwards-Has j i zero above below = absurd (omega int_laws)
  downwards-Has j i (suc n) above below = elim (Bool-cases (eqb_ℤ i j)) [
    | inl here ↦ inl (eq_of_parts i j (ground arith))
    | inr later ↦
        let apart : pos_part i + neg_part j ≢ pos_part j + neg_part i = ground arith in
        inr (downwards-Has j (i -ℤ pos 1) n (omega int_laws) (omega int_laws))
  ]

  indices-Has :
      (current : ℤ) (back forward : ℕ) (i : ℤ)
      → InWindow current back forward i
      → Has i (indices current back forward)
  indices-Has current back forward i (low, high) =
      Has-append i (upwards current (suc forward)) (downwards (current -ℤ pos 1) back)
        (elim (Bool-cases (leb_ℤ current i)) [
          | inl above ↦ inl (upwards-Has i current (suc forward) (ground arith) (omega int_laws))
          | inr below ↦
              let lt : pos_part i + neg_part current < pos_part current + neg_part i =
                ground arith in
              inr (downwards-Has i (current -ℤ pos 1) back (omega int_laws) (omega int_laws))
        ])

  search_roots-total :
      (n : ℕ) (is : List ℤ)
      → ((k : ℕ) → read k ≢ none)
      → Matches n
      → Has (pos n) is
      → (k : ℕ) × (search_roots is ≡ ok k)
  unfolding search_roots
  search_roots-total n [] readable m h = absurd h
  search_roots-total n (negsuc i ∷ is) readable m (inl e) = cc
  search_roots-total n (negsuc i ∷ is) readable m (inr h) = search_roots-total n is readable m h
  search_roots-total n (pos j ∷ is) readable (root, found, same) (inl e) =
      let here : j ≡ n = ap pos_part e in
      let at : read j ≡ some root = rw (here) found in (j, rw (at) (rw (same)))
  search_roots-total n (pos j ∷ is) readable m (inr h) = elim (Option-cases (read j)) [
    | inl missing ↦ absurd (readable j missing)
    | inr (root, found) ↦ elim (Bool-cases (same_root remote root)) [
      | inl same ↦ (j, rw (found) (rw (same)))
      | inr other ↦ rw (found) (rw (other) (search_roots-total n is readable m h))
    ]
  ]

  -- If the contract can be read at every index, and its root at some index of the window is the remote
  -- root, then an index is picked.
  pub pick_merkle_root_index-total :
      (current : ℤ) (back forward : Option ℤ) (n : ℕ)
      → ((k : ℕ) → read k ≢ none)
      → Matches n
      → InWindow current (window back 2) (window forward 8) (pos n)
      → (k : ℕ) × (pick_merkle_root_index current back forward ≡ ok k)
  unfolding pick_merkle_root_index
  pick_merkle_root_index-total current back forward n readable m inside =
      search_roots-total n (indices current (window back 2) (window forward 8)) readable m
        (indices-Has current (window back 2) (window forward 8) (pos n) inside)
