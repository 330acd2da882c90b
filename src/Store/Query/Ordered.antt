-- ===== src/Store/Query/Ordered.antt =====
-- The order of the row queries, said apart from their comparator.
use ocash_sdk.Prelude.{
  ℕ, ◌<◌, ◌≡◌, refl, sym, ap, ◌⊎◌, inl, inr, true, false, List, [], ◌∷◌, Option, none, some, arith,
  Bool-cases,
}
use ocash_sdk.Prelude.Int.{ℤ, pos, ◌-ℤ◌, ◌*ℤ◌, ltb_ℤ, eqb_ℤ}
use ocash_sdk.Prelude.Sorting.{sort, insert_sorted}
use ocash_sdk.Store.Query.{
  OrderBy, or_else, by_index, by_created_at, Order, asc, desc, order_factor, compare_index,
  compare_created_at, compare_rows, row_precedes,
}

-- Strictly before, in the direction of the order.
abbrev pub Below : Order → ℕ → ℕ → Type 0
Below asc a b = a < b
Below desc a b = b < a

-- A row without a time comes after those with one, in both directions.
abbrev pub Earlier : Order → Option ℕ → Option ℕ → Type 0
Earlier order none _ = ⊥
Earlier order (some a) none = Unit
Earlier order (some a) (some b) = Below order a b

-- The key that is asked for decides, and the other one where they are equal.
abbrev pub Before : OrderBy → Order → ℕ × Option ℕ → ℕ × Option ℕ → Type 0
Before by_index order (i, t) (j, u) = Below order i j ⊎ ((i ≡ j) × Earlier order t u)
Before by_created_at order (i, t) (j, u) = Earlier order t u ⊎ ((t ≡ u) × Below order i j)

abbrev pub InOrder : OrderBy → Order → ℕ × Option ℕ → ℕ × Option ℕ → Type 0
InOrder order_by order a b = Before order_by order a b ⊎ (a ≡ b)

-- Each row is in order with the one after it.
abbrev pub AreInOrder {ℓ} : {A : Type ℓ} → (A → ℕ × Option ℕ) → OrderBy → Order → List A → Type 0
AreInOrder key order_by order [] = Unit
AreInOrder key order_by order (a ∷ []) = Unit
AreInOrder key order_by order (a ∷ b ∷ rows) =
    InOrder order_by order (key a) (key b) × AreInOrder key order_by order (b ∷ rows)

-- The sign of a comparison: equal, before, or after.
abbrev Decides : ℤ → Type 0 → Type 0 → Type 0 → Type 0
Decides n same before after =
    ((n ≡ pos 0) × same)
    ⊎ ((eqb_ℤ n (pos 0) ≡ false) × (ltb_ℤ n (pos 0) ≡ true) × before)
    ⊎ ((eqb_ℤ n (pos 0) ≡ false) × (ltb_ℤ n (pos 0) ≡ false) × after)

compare_index-Decides :
    (order : Order) (a b : ℕ)
    → Decides (compare_index a b (order_factor order)) (a ≡ b) (Below order a b) (Below order b a)
unfolding ◌-ℤ◌ ◌*ℤ◌
compare_index-Decides asc a b = ground arith
compare_index-Decides desc a b = ground arith

compare_created_at-Decides :
    (order : Order) (t u : Option ℕ)
    → Decides
        (compare_created_at t u (order_factor order))
        (t ≡ u)
        (Earlier order t u)
        (Earlier order u t)
compare_created_at-Decides order none none = inl (refl, refl)
compare_created_at-Decides order (some a) none = inr (inl (refl, refl, tt))
compare_created_at-Decides order none (some b) = inr (inr (refl, refl, tt))
compare_created_at-Decides order (some a) (some b) = elim (compare_index-Decides order a b) [
  | inl (zero, same) ↦ inl (zero, ap some same)
  | inr rest ↦ inr rest
]

-- The second comparison decides where the first is 0.
or_else-Decides :
    (m n : ℤ) (same before after same_too before_too after_too : Type 0)
    → Decides m same before after
    → Decides n same_too before_too after_too
    → Decides
        (or_else m n)
        (same × same_too)
        (before ⊎ (same × before_too))
        (after ⊎ (same × after_too))
or_else-Decides m n _ _ _ _ _ _ (inl (zero, same)) second = rw (zero) (elim second [
  | inl (z, too) ↦ inl (z, (same, too))
  | inr (inl (z, s, too)) ↦ inr (inl (z, s, inr (same, too)))
  | inr (inr (z, s, too)) ↦ inr (inr (z, s, inr (same, too)))
])
or_else-Decides m n _ _ _ _ _ _ (inr (inl (z, s, before))) second =
    rw (z) (inr (inl (z, s, inl before)))
or_else-Decides m n _ _ _ _ _ _ (inr (inr (z, s, after))) second =
    rw (z) (inr (inr (z, s, inl after)))

abbrev Earliest : OrderBy → Order → ℕ × Option ℕ → ℕ × Option ℕ → Type 0
Earliest order_by order a b =
    ((ltb_ℤ (compare_rows order_by order a b) (pos 0) ≡ true) × InOrder order_by order a b)
    ⊎ ((ltb_ℤ (compare_rows order_by order a b) (pos 0) ≡ false) × InOrder order_by order b a)

-- The comparator is negative only on rows in order, and otherwise they are in order the other way round.
earliest : (order_by : OrderBy) (order : Order) (a b : ℕ × Option ℕ) → Earliest order_by order a b
earliest by_index order (i, t) (j, u) =
    elim (or_else-Decides _ _ _ _ _ _ _ _ (compare_index-Decides order i j)
      (compare_created_at-Decides order t u)) [
        | inl (z, (p, q)) ↦ inr (rw (z) (refl, inr (λ k. (sym p k, sym q k))))
        | inr (inl (z, s, before)) ↦ inl (s, inl before)
        | inr (inr (z, s, inl after)) ↦ inr (s, inl (inl after))
        | inr (inr (z, s, inr (p, after))) ↦ inr (s, inl (inr (sym p, after)))
      ]
earliest by_created_at order (i, t) (j, u) =
    elim (or_else-Decides _ _ _ _ _ _ _ _ (compare_created_at-Decides order t u)
      (compare_index-Decides order i j)) [
        | inl (z, (q, p)) ↦ inr (rw (z) (refl, inr (λ k. (sym p k, sym q k))))
        | inr (inl (z, s, before)) ↦ inl (s, inl before)
        | inr (inr (z, s, inl after)) ↦ inr (s, inl (inl after))
        | inr (inr (z, s, inr (p, after))) ↦ inr (s, inl (inr (sym p, after)))
      ]

module _ {A : Type 0} (key : A → ℕ × Option ℕ) (order_by : OrderBy) (order : Order) where
  -- A list in order that begins with a row in order after `a`.
  Continues : A → List A → Type 0
  Continues a rows = AreInOrder key order_by order (a ∷ rows)

  Continues-insert :
      (b a : A) (rows : List A)
      → InOrder order_by order (key b) (key a)
      → Continues b rows
      → AreInOrder key order_by order (insert_sorted (row_precedes key order_by order) a rows)
      → Continues b (insert_sorted (row_precedes key order_by order) a rows)
  unfolding Continues
  Continues-insert b a [] first h inserted = (first, tt)
  Continues-insert b a (c ∷ rows) first h inserted =
      elim (Bool-cases (row_precedes key order_by order c a)) [
        | inl later ↦ rw (later) (h.0, rw (later) at inserted)
        | inr here ↦ rw (here) (first, rw (here) at inserted)
      ]

  insert_sorted-AreInOrder :
      (a : A) (rows : List A)
      → AreInOrder key order_by order rows
      → AreInOrder key order_by order (insert_sorted (row_precedes key order_by order) a rows)
  unfolding Continues
  insert_sorted-AreInOrder a [] h = tt
  insert_sorted-AreInOrder a (b ∷ rows) h = elim (earliest order_by order (key b) (key a)) [
    | inl (later, first) ↦
        rw (later)
          (Continues-insert b a rows first h (insert_sorted-AreInOrder a rows (rest b rows h)))
    | inr (here, first) ↦ rw (here) (first, h)
  ]
    where
      rest :
          (b : A) (rows : List A)
          → AreInOrder key order_by order (b ∷ rows)
          → AreInOrder key order_by order rows
      rest b [] h = tt
      rest b (c ∷ rows) h = h.1

  pub sort-AreInOrder :
      (rows : List A) → AreInOrder key order_by order (sort (row_precedes key order_by order) rows)
  sort-AreInOrder [] = tt
  sort-AreInOrder (a ∷ rows) =
      insert_sorted-AreInOrder a (sort (row_precedes key order_by order) rows)
        (sort-AreInOrder rows)
