-- ===== src/Sync/Memos.antt =====
-- src/sync/syncEngine.ts: `sanitizeContiguousMemos` and the small helpers on pages, and the rows of
-- src/sync/entryClient.ts, where a `cid` is null or an integer from 0.
use mathlib.Core.Path.{subst}
use Prim.Native.String.{String}
use text.Mathlib.Text.{◌==◌ as str_eq}
use ocash_sdk.Prelude.{
  ℕ, suc, ◌+◌, ◌≤◌, ◌≡◌, ◌≢◌, refl, sym, Bool, true, false, ◌||◌, List, [], ◌∷◌, map, Option, none,
  some, length, take, All, All-weaken, ltb, if◌then◌else◌, Bool-cases, inl, inr, arith,
}
use ocash_sdk.Prelude.Sorting.{insert_sorted, sort, All-insert_sorted, All-sort_inverse}

pub record EntryMemo : Type 0 where
  pub commitment : String
  pub memo : String
  pub cid : Option ℕ
  pub is_transparent : Option Bool
  pub asset_id : Option String
  pub amount : Option String
  pub partial_hash : Option String
  pub txhash : Option String
  pub created_at : Option ℕ

pub record EntryNullifier : Type 0 where
  pub nullifier : String
  pub created_at : Option ℕ

-- A memo whose `cid` is a number.
pub record Numbered : Type 0 where
  pub cid : ℕ
  pub entry : EntryMemo

abbrev pub numbered_or : Option ℕ → EntryMemo → List Numbered → List Numbered
numbered_or none memo rest = rest
numbered_or (some cid) memo rest = record { cid = cid; entry = memo } ∷ rest

-- The `filter` on `typeof m.cid === 'number'`.
abbrev pub numbered : List EntryMemo → List Numbered
numbered [] = []
numbered (memo ∷ memos) = numbered_or memo.cid memo (numbered memos)

abbrev pub smaller_cid : Numbered → Numbered → Bool
smaller_cid a b = ltb a.cid b.cid

-- The `for`, which skips what is behind `next` and stops at a gap.
unfoldable pub keep_contiguous : ℕ → List Numbered → List Numbered
keep_contiguous next [] = []
keep_contiguous next (memo ∷ memos) =
    let skipped = keep_contiguous next memos in
    let pushed = keep_contiguous (next + 1) memos in
    if ltb memo.cid next then skipped else if ltb next memo.cid then [] else memo ∷ pushed

unfoldable pub sanitize_contiguous_memos : List EntryMemo → ℕ → List Numbered
sanitize_contiguous_memos memos expected_cid =
    keep_contiguous expected_cid (sort smaller_cid (numbered memos))

-- `if (min == null || cid < min) min = cid`.
abbrev pub smaller_of : Option ℕ → ℕ → Option ℕ
smaller_of none cid = some cid
smaller_of (some m) cid = if ltb cid m then some cid else some m

unfoldable pub min_cid_from : Option ℕ → List Numbered → Option ℕ
min_cid_from least [] = least
min_cid_from least (memo ∷ memos) = min_cid_from (smaller_of least memo.cid) memos

abbrev pub min_cid : List EntryMemo → Option ℕ
min_cid memos = min_cid_from none (numbered memos)

abbrev pub cid_of : Numbered → ℕ
cid_of memo = memo.cid

-- `limit` is 10 where it is left out, as every call does.
abbrev pub sample_cids : List EntryMemo → List ℕ
sample_cids memos = take 10 (sort ltb (map cid_of (numbered memos)))

abbrev pub has_seen : String → List String → Bool
has_seen key [] = false
has_seen key (seen ∷ others) = str_eq key seen || has_seen key others

-- `to_lower` is JavaScript's `toLowerCase`.
module _ (to_lower : String → String) where
  unfoldable pub duplicate_from : List String → List String → Option String
  duplicate_from seen [] = none
  duplicate_from seen (v ∷ vs) =
      let rest = duplicate_from (to_lower v ∷ seen) vs in
      if has_seen (to_lower v) seen then some v else rest

  abbrev pub find_duplicate : List String → Option String
  find_duplicate values = duplicate_from [] values

-- The cids count up from `next`.
abbrev pub CountsFrom : ℕ → List Numbered → Type 0
CountsFrom next [] = Unit
CountsFrom next (memo ∷ memos) = (memo.cid ≡ next) × CountsFrom (next + 1) memos

keep_contiguous-CountsFrom :
    (next : ℕ) (memos : List Numbered) → CountsFrom next (keep_contiguous next memos)
unfolding keep_contiguous
keep_contiguous-CountsFrom next [] = tt
keep_contiguous-CountsFrom next (m ∷ ms) = elim (Bool-cases (ltb m.cid next)) [
  | inl behind ↦ rw (behind) (keep_contiguous-CountsFrom next ms)
  | inr reached ↦ elim (Bool-cases (ltb next m.cid)) [
    | inl gap ↦ rw (reached, gap) tt
    | inr here ↦ rw (reached, here) (ground arith, keep_contiguous-CountsFrom (next + 1) ms)
  ]
]

-- In the order of cids.
abbrev Ascending : List Numbered → Type 0
Ascending [] = Unit
Ascending (m ∷ ms) = All (λ (later : Numbered). m.cid ≤ later.cid) ms × Ascending ms

insert_sorted-Ascending :
    (m : Numbered) (ms : List Numbered) → Ascending ms → Ascending (insert_sorted smaller_cid m ms)
insert_sorted-Ascending m [] h = (tt, tt)
insert_sorted-Ascending m (x ∷ xs) h = elim (Bool-cases (ltb x.cid m.cid)) [
  | inl later ↦ rw (later) (
    All-insert_sorted smaller_cid (λ (n : Numbered). x.cid ≤ n.cid) m xs (ground arith) h.0,
    insert_sorted-Ascending m xs h.1,
  )
  | inr here ↦ rw (here) (
    (
      ground arith,
      All-weaken (λ (n : Numbered). x.cid ≤ n.cid) (λ (n : Numbered). m.cid ≤ n.cid) xs
          (λ n le. ground arith) h.0,
    ),
    h,
  )
]

sort-Ascending : (ms : List Numbered) → Ascending (sort smaller_cid ms)
sort-Ascending [] = tt
sort-Ascending (m ∷ ms) = insert_sorted-Ascending m (sort smaller_cid ms) (sort-Ascending ms)

-- No memo has the cid after the run.
abbrev Lacks : ℕ → List Numbered → Type 0
Lacks cid ms = All (λ (m : Numbered). m.cid ≢ cid) ms

-- The three steps of the loop.
module _ (next : ℕ) (m : Numbered) (ms : List Numbered) where
  keep_contiguous_behind :
      ltb m.cid next ≡ true → keep_contiguous next (m ∷ ms) ≡ keep_contiguous next ms
  unfolding keep_contiguous
  keep_contiguous_behind h = rw (h) refl

  keep_contiguous_gap :
      ltb m.cid next ≡ false → ltb next m.cid ≡ true → keep_contiguous next (m ∷ ms) ≡ []
  unfolding keep_contiguous
  keep_contiguous_gap h g = rw (h, g) refl

  keep_contiguous_here :
      ltb m.cid next ≡ false
      → ltb next m.cid ≡ false
      → keep_contiguous next (m ∷ ms) ≡ m ∷ keep_contiguous (next + 1) ms
  unfolding keep_contiguous
  keep_contiguous_here h g = rw (h, g) refl

keep_contiguous-Lacks :
    (next : ℕ) (ms : List Numbered)
    → Ascending ms
    → Lacks (next + length (keep_contiguous next ms)) ms
keep_contiguous-Lacks next [] h = tt
keep_contiguous-Lacks next (m ∷ ms) h =
    let After = λ (kept : List Numbered). Lacks (next + length kept) (m ∷ ms) in
    elim (Bool-cases (ltb m.cid next)) [
      | inl behind ↦
          subst After (sym (keep_contiguous_behind next m ms behind))
            (λ e. ground arith, keep_contiguous-Lacks next ms h.1)
      | inr reached ↦ elim (Bool-cases (ltb next m.cid)) [
        | inl gap ↦ subst After (sym (keep_contiguous_gap next m ms reached gap)) (
          λ e. ground arith,
          All-weaken (λ (n : Numbered). m.cid ≤ n.cid) (λ (n : Numbered). n.cid ≢ next + 0) ms
              (λ n le e. ground arith) h.0,
        )
        | inr here ↦ subst After (sym (keep_contiguous_here next m ms reached here)) (
          λ e. ground arith,
          All-weaken (λ (n : Numbered). n.cid ≢ next + 1 + length (keep_contiguous (next + 1) ms))
              (λ (n : Numbered). n.cid ≢ next + suc (length (keep_contiguous (next + 1) ms))) ms
              (λ n other e. other (omega arith)) (keep_contiguous-Lacks (next + 1) ms h.1),
        )
      ]
    ]

-- The kept memos have the cids `expected_cid`, `expected_cid + 1` and so on, and the run is as long as
-- the page allows: no memo of the page has the next cid.
pub sanitize_contiguous_memos-maximal :
    (memos : List EntryMemo) (expected_cid : ℕ)
    → let kept = sanitize_contiguous_memos memos expected_cid in
      CountsFrom expected_cid kept
      × All (λ (m : Numbered). m.cid ≢ expected_cid + length kept) (numbered memos)
unfolding sanitize_contiguous_memos
sanitize_contiguous_memos-maximal memos e =
    let sorted = sort smaller_cid (numbered memos) in
    (
      keep_contiguous-CountsFrom e sorted,
      All-sort_inverse smaller_cid (λ (m : Numbered). m.cid ≢ e + length (keep_contiguous e sorted))
          (numbered memos) (keep_contiguous-Lacks e sorted (sort-Ascending (numbered memos))),
    )
