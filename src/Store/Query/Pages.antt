-- ===== src/Store/Query/Pages.antt =====
-- What the row queries return: which rows, how many, and that pages fit together.
use ocash_sdk.Prelude.{
  ℕ, ◌+◌, ◌≡◌, refl, inl, inr, Bool, true, false, not, ◌&&◌, ◌==◌, ==_iff, ◌↔◌, ◌≢◌, ◌⊎◌, arith,
  All-weaken, List, [], ◌∷◌, ◌++◌, Option, none, some, length, drop, filter, All, take-append-drop,
  drop-drop, Bool-cases,
}
use mathlib.Core.List.{Perm, perm_middle}
use mathlib.Core.List.Perm
use Prim.Native.String.{String}
use text.Mathlib.Text.{◌==◌ as str_eq}
use text.Mathlib.TextEquality.{eq_iff}
use ocash_sdk.Prelude.Int.{pos}
use ocash_sdk.Prelude.Sorting.{sort-perm, All-sort}
use ocash_sdk.Types.{UtxoRecord}
use ocash_sdk.Store.Query.Ordered.{AreInOrder, sort-AreInOrder}
use ocash_sdk.Store.Query.{
  ListUtxosQuery, Paged, page, passes, flag_passes, utxo_passes, apply_utxo_query, row_precedes,
  utxo_key,
}

All-filter {ℓ} : {A : Type ℓ} (p : A → Bool) (xs : List A) → All (λ x. p x ≡ true) (filter p xs)
All-filter p [] = tt
All-filter p (x ∷ xs) = elim (Bool-cases (p x)) [
  | inl kept ↦ rw (kept) (kept, All-filter p xs)
  | inr dropped ↦ rw (dropped) (All-filter p xs)
]

-- What a query asks of a flag: the value of `spent` where it is given, and else nothing or that the flag
-- is not set.
abbrev pub WantsFlag : Option Bool → Bool → Bool → Type 0
WantsFlag none include flag = (include ≡ true) ⊎ (flag ≡ false)
WantsFlag (some wanted) include flag = flag ≡ wanted

abbrev pub Equals {ℓ} : {A : Type ℓ} → Option A → A → Type ℓ
Equals none a = Unit
Equals (some wanted) a = a ≡ wanted

-- What the query asks of a UTXO.
abbrev pub Wants : ListUtxosQuery → UtxoRecord → Type 0
Wants q u =
    Equals q.chain_id u.chain_id
    × Equals q.asset_id u.asset_id
    × WantsFlag q.spent q.include_spent u.is_spent
    × WantsFlag q.frozen q.include_frozen u.is_frozen

flag_passes_iff :
    (wanted : Option Bool) (include flag : Bool)
    → (flag_passes wanted include flag ≡ true) ↔ WantsFlag wanted include flag
flag_passes_iff none include flag = ground arith
flag_passes_iff (some true) include flag = ground arith
flag_passes_iff (some false) include flag = ground arith

chain_iff :
    (wanted : Option ℕ) (c : ℕ) → (passes (λ (w : ℕ). c == w) wanted ≡ true) ↔ Equals wanted c
chain_iff none c = (λ h. tt, λ h. refl)
chain_iff (some w) c = ==_iff c w

asset_iff :
    (wanted : Option String) (a : String)
    → (passes (λ (w : String). str_eq a w) wanted ≡ true) ↔ Equals wanted a
asset_iff none a = (λ h. tt, λ h. refl)
asset_iff (some w) a = eq_iff a w

all_iff :
    (a b c d : Bool)
    → ((a && b && c && d) ≡ true) ↔ ((a ≡ true) × (b ≡ true) × (c ≡ true) × (d ≡ true))
all_iff true b c d = ground arith
all_iff false b c d = ground arith

utxo_passes_iff : (q : ListUtxosQuery) (u : UtxoRecord) → (utxo_passes q u ≡ true) ↔ Wants q u
utxo_passes_iff q u =
    let tests =
      all_iff (passes (λ (c : ℕ). u.chain_id == c) q.chain_id)
        (passes (λ (a : String). str_eq u.asset_id a) q.asset_id)
        (flag_passes q.spent q.include_spent u.is_spent)
        (flag_passes q.frozen q.include_frozen u.is_frozen) in
    let chain = chain_iff q.chain_id u.chain_id in
    let asset = asset_iff q.asset_id u.asset_id in
    let spent = flag_passes_iff q.spent q.include_spent u.is_spent in
    let frozen = flag_passes_iff q.frozen q.include_frozen u.is_frozen in
    (
      λ h. let (a, b, c, d) = tests.0 h in (chain.0 a, asset.0 b, spent.0 c, frozen.0 d),
      λ (a, b, c, d). tests.1 (chain.1 a, asset.1 b, spent.1 c, frozen.1 d),
    )

not-true : (b : Bool) → not b ≡ true → b ≢ true
not-true b h e = ground arith

Perm-filter {ℓ} :
    {A : Type ℓ} (p : A → Bool) (xs : List A) → Perm (filter p xs ++ filter (λ x. not (p x)) xs) xs
Perm-filter p [] = Perm.rfl
Perm-filter p (x ∷ xs) = elim (Bool-cases (p x)) [
  | inl kept ↦ rw (kept) (Perm.cons x (Perm-filter p xs))
  | inr dropped ↦ rw (dropped) (
      Perm.trans (perm_middle (filter p xs) (filter (λ y. not (p y)) xs))
        (Perm.cons x (Perm-filter p xs)))
]

-- The query without its page.
abbrev pub unpaged : ListUtxosQuery → ListUtxosQuery
unpaged q = record q { offset = none; limit = none }

-- What the answer `out` to a query has to do with the stored rows; `all` is the answer without a page.
abbrev pub Lists : ListUtxosQuery → List UtxoRecord → List UtxoRecord → Paged UtxoRecord → Type 0
Lists q rows all out =
    (others : List UtxoRecord) × Perm (all ++ others) rows
    × All (Wants q) all
    × All (λ u. ¬ Wants q u) others
    × AreInOrder utxo_key q.order_by q.order all
    × (out.rows ≡ page q.offset q.limit all)
    × (out.total ≡ length all)

-- Without a page, a query lists exactly the stored UTXOs that are of the chain and asset it names, if it
-- names one, and whose spent and frozen flags it asks for: together with the others they are a
-- rearrangement of the stored ones. They are listed in the order of the key it names, ties by
-- the other key, rows without a time last. With a page, it lists that part of them; the total is their
-- number in both cases.
pub apply_utxo_query-Lists :
    (rows : List UtxoRecord) (q : ListUtxosQuery)
    → Lists q rows (apply_utxo_query rows (unpaged q)).rows (apply_utxo_query rows q)
unfolding apply_utxo_query
apply_utxo_query-Lists rows q =
    let kept = filter (utxo_passes q) rows in
    let others = filter (λ u. not (utxo_passes q u)) rows in
    (
      others,
      Perm.trans
          (Perm.append_right others (sort-perm (row_precedes utxo_key q.order_by q.order) kept))
          (Perm-filter (utxo_passes q) rows),
      All-sort _ _ _ (
          All-weaken _ (Wants q) kept (λ u. (utxo_passes_iff q u).0)
            (All-filter (utxo_passes q) rows)),
      All-weaken _ _ others
          (λ u fails wants. not-true (utxo_passes q u) fails ((utxo_passes_iff q u).1 wants))
          (All-filter (λ u. not (utxo_passes q u)) rows),
      sort-AreInOrder utxo_key q.order_by q.order kept,
      refl,
      refl,
    )

-- A page of at most `n` rows, followed by the rows from `n` further on, is all the rows from the
-- offset: no row is lost or listed twice between pages.
pub page-page {ℓ} :
    {A : Type ℓ} (offset n : ℕ) (xs : List A)
    → page (some (pos offset)) (some (pos n)) xs ++ page (some (pos (offset + n))) none xs
      ≡ page (some (pos offset)) none xs
page-page offset n xs =
    rw (← drop-drop offset n (offset + n) xs refl) (take-append-drop n (drop offset xs))
