-- ===== src/Store/Memory/Contiguous.antt =====
-- The stored Merkle leaves: the leaf at position `i` has the cid `i`, also after an append that fails.
use ocash_sdk.Prelude.{
  ℕ, zero, suc, ◌+◌, ◌≡◌, ◌≢◌, refl, sym, ◌∙◌, ap, inl, inr, ◌==◌, Bool, true, false, List, [], ◌∷◌,
  ◌++◌, Option, none, some, length, get_elem?, filter, leb, length-append, arith, Bool-cases,
  ==_iff,
}
use mathlib.Core.List.{append-nil, append_assoc}
use ocash_sdk.Prelude.Maps.{lookup, insert, lookup-insert, lookup-insert_self, nat_eq}
use ocash_sdk.Prelude.Sorting.{sort}
use ocash_sdk.Store.Memory.{
  Leaf, MemoryStore, push_leaves, existing_leaves, store_leaves, append_merkle_leaves, cid_precedes,
  get_merkle_leaf,
}

-- The cids count up from `next`.
abbrev pub Counts : ℕ → List Leaf → Type 0
Counts next [] = Unit
Counts next (l ∷ ls) = (l.cid ≡ next) × Counts (suc next) ls

-- The leaves of every chain count from 0.
abbrev pub Contiguous : MemoryStore → Type 0
Contiguous s = (chain_id : ℕ) → Counts 0 (existing_leaves (lookup chain_id s.merkle_leaves))

Counts-snoc :
    (next : ℕ) (ls : List Leaf) (l : Leaf)
    → Counts next ls
    → l.cid ≡ next + length ls
    → Counts next (ls ++ l ∷ [])
Counts-snoc next [] l h e = (omega arith, tt)
Counts-snoc next (k ∷ ls) l h e = (h.0, Counts-snoc (suc next) ls l h.1 (omega arith))

Counts-get :
    (next i : ℕ) (ls : List Leaf) (l : Leaf)
    → Counts next ls
    → get_elem? ls i ≡ some l
    → l.cid ≡ next + i
Counts-get next i [] l h e = cc
Counts-get next zero (k ∷ ls) l h e = ground arith
Counts-get next (suc i) (k ∷ ls) l h e = omega (arith, Counts-get (suc next) i ls l h.1 e)

-- What a run of the loop leaves: the old rows in front, counted on.
abbrev Extends : List Leaf → List Leaf × Bool → Type 0
Extends existing (rows, failed) = Counts 0 rows × (more : List Leaf) × (rows ≡ existing ++ more)

push_leaves-Extends :
    (existing : List Leaf) (next : ℕ) (fresh : List Leaf)
    → Counts 0 existing
    → next ≡ length existing
    → Extends existing (push_leaves existing next fresh)
unfolding push_leaves
push_leaves-Extends existing next [] h e = (h, [], sym (append-nil existing))
push_leaves-Extends existing next (l ∷ fresh) h e = elim (Bool-cases (l.cid == next)) [
  | inl fits ↦
      let at = (==_iff l.cid next).0 fits in
      let grown = length-append existing (l ∷ []) in
      let (counts, more, rows) =
        push_leaves-Extends (existing ++ l ∷ []) (next + 1) fresh
          (Counts-snoc 0 existing l h (omega arith)) (omega arith) in
      rw (fits) (counts, l ∷ more, rows ∙ append_assoc existing (l ∷ []) more)
  | inr gap ↦ rw (gap) (h, [], sym (append-nil existing))
]

-- Without an error, the loop stores every fresh leaf.
push_leaves-all :
    (existing : List Leaf) (next : ℕ) (fresh : List Leaf)
    → (push_leaves existing next fresh).1 ≡ false
    → (push_leaves existing next fresh).0 ≡ existing ++ fresh
unfolding push_leaves
push_leaves-all existing next [] h = sym (append-nil existing)
push_leaves-all existing next (l ∷ fresh) h = elim (Bool-cases (l.cid == next)) [
  | inl fits ↦ rw (fits) (
      push_leaves-all (existing ++ l ∷ []) (next + 1) fresh (rw (fits) at h)
      ∙ append_assoc existing (l ∷ []) fresh)
  | inr gap ↦ let thrown : true ≡ false = rw (gap) at h in cc
]

get_elem?-append :
    (xs ys : List Leaf) (i : ℕ) (l : Leaf)
    → get_elem? xs i ≡ some l
    → get_elem? (xs ++ ys) i ≡ some l
get_elem?-append [] ys i l h = cc
get_elem?-append (x ∷ xs) ys zero l h = h
get_elem?-append (x ∷ xs) ys (suc i) l h = get_elem?-append xs ys i l h

-- The rows of a chain after an append to `chain_id`.
abbrev rows_of : ℕ → MemoryStore → List Leaf
rows_of chain_id s = existing_leaves (lookup chain_id s.merkle_leaves)

store_leaves-rows :
    (chain_id chain : ℕ) (pushed : List Leaf × Bool) (s : MemoryStore)
    → Extends (rows_of chain_id s) pushed
    → Counts 0 (rows_of chain s)
    → let after =
        rows_of chain (store_leaves chain_id (lookup chain_id s.merkle_leaves) pushed s) in
      Extends (rows_of chain s) (after, false)
store_leaves-rows chain_id chain pushed s = go chain_id chain pushed s _ refl
  where
    put :
        (chain_id chain : ℕ) (rows : List Leaf) (s : MemoryStore)
        → Counts 0 rows × (more : List Leaf) × (rows ≡ rows_of chain_id s ++ more)
        → Counts 0 (rows_of chain s)
        → Extends
            (rows_of chain s)
            (existing_leaves (lookup chain (insert chain_id rows s.merkle_leaves)), false)
    put chain_id chain rows s ext h =
        let at = lookup-insert chain_id chain rows s.merkle_leaves in
        elim (Bool-cases (chain == chain_id)) [
          | inl same ↦
              let equal = (==_iff chain chain_id).0 same in rw (at) (rw (same) (rw (equal) ext))
          | inr other ↦ rw (at) (rw (other) (h, [], sym (append-nil (rows_of chain s))))
        ]

    go :
        (chain_id chain : ℕ) (pushed : List Leaf × Bool) (s : MemoryStore) (o : Option (List Leaf))
        → o ≡ lookup chain_id s.merkle_leaves
        → Extends (rows_of chain_id s) pushed
        → Counts 0 (rows_of chain s)
        → Extends (rows_of chain s) (rows_of chain (store_leaves chain_id o pushed s), false)
    go chain_id chain (rows, true) s none e ext h = (h, [], sym (append-nil (rows_of chain s)))
    go chain_id chain (rows, false) s none e ext h = put chain_id chain rows s ext h
    go chain_id chain (rows, failed) s (some old) e ext h = put chain_id chain rows s ext h

append_merkle_leaves-rows :
    (chain_id chain : ℕ) (leaves : List Leaf) (s : MemoryStore)
    → Contiguous s
    → Extends (rows_of chain s) (rows_of chain (append_merkle_leaves chain_id leaves s).0, false)
unfolding append_merkle_leaves
append_merkle_leaves-rows chain_id chain [] s h = (h chain, [], sym (append-nil (rows_of chain s)))
append_merkle_leaves-rows chain_id chain (l ∷ ls) s h =
    store_leaves-rows chain_id chain _ s
      (push_leaves-Extends (rows_of chain_id s) (length (rows_of chain_id s)) _ (h chain_id) refl)
      (h chain)

-- From a store where every chain's leaves count from 0, appending leaves, with or without an
-- error, keeps them so.
pub append_merkle_leaves-Contiguous :
    (chain_id : ℕ) (leaves : List Leaf) (s : MemoryStore)
    → Contiguous s
    → Contiguous (append_merkle_leaves chain_id leaves s).0
append_merkle_leaves-Contiguous chain_id leaves s h chain =
    (append_merkle_leaves-rows chain_id chain leaves s h).0

-- In a contiguous store, a leaf that is read under a cid has that cid, and appending leaves to any chain,
-- with or without an error, does not change it.
pub get_merkle_leaf-append :
    (chain_id chain cid : ℕ) (leaves : List Leaf) (s : MemoryStore) (l : Leaf)
    → Contiguous s
    → get_merkle_leaf chain cid s ≡ some l
    → (l.cid ≡ cid)
      × (get_merkle_leaf chain cid (append_merkle_leaves chain_id leaves s).0 ≡ some l)
get_merkle_leaf-append chain_id chain cid leaves s l h found =
    let (counts, more, rows) = append_merkle_leaves-rows chain_id chain leaves s h in
    (
      Counts-get 0 cid (rows_of chain s) l (h chain) found ∙ omega arith,
      rw (rows) (get_elem?-append (rows_of chain s) more cid l found),
    )

store_leaves-done :
    (chain_id : ℕ) (o : Option (List Leaf)) (pushed : List Leaf × Bool) (s : MemoryStore)
    → pushed.1 ≡ false
    → existing_leaves (lookup chain_id (store_leaves chain_id o pushed s).merkle_leaves) ≡ pushed.0
store_leaves-done chain_id none (rows, true) s h = cc
store_leaves-done chain_id none (rows, false) s h =
    ap existing_leaves (lookup-insert_self chain_id rows s.merkle_leaves)
store_leaves-done chain_id (some old) (rows, failed) s h =
    ap existing_leaves (lookup-insert_self chain_id rows s.merkle_leaves)

-- An append of some leaves without an error stores every one that is not behind the stored leaves,
-- in the order of cids.
pub append_merkle_leaves-all :
    (chain_id : ℕ) (leaves : List Leaf) (s : MemoryStore)
    → leaves ≢ []
    → (append_merkle_leaves chain_id leaves s).1 ≡ false
    → let old = existing_leaves (lookup chain_id s.merkle_leaves) in
      existing_leaves (lookup chain_id (append_merkle_leaves chain_id leaves s).0.merkle_leaves)
      ≡ old ++ filter (λ (l : Leaf). leb (length old) l.cid) (sort cid_precedes leaves)
unfolding append_merkle_leaves
append_merkle_leaves-all chain_id [] s nonempty done = absurd (nonempty refl)
append_merkle_leaves-all chain_id (l ∷ ls) s nonempty done =
    let old = rows_of chain_id s in
    let fresh = filter (λ (l : Leaf). leb (length old) l.cid) (sort cid_precedes (l ∷ ls)) in
    store_leaves-done chain_id (lookup chain_id s.merkle_leaves)
      (push_leaves old (length old) fresh) s done
    ∙ push_leaves-all old (length old) fresh done
