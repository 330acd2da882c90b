-- ===== src/Sync/Log.antt =====
-- The entry service as a list of memos that are numbered from 0, and what `sanitizeContiguousMemos`
-- does with its pages.
use ocash_sdk.Prelude.{
  ℕ, zero, suc, ◌+◌, ◌≡◌, refl, ap, ◌∙◌, false, List, [], ◌∷◌, some, length, take, drop, ltb, arith,
}
use ocash_sdk.Prelude.Sorting.{sort}
use ocash_sdk.Sync.Memos.{
  EntryMemo, Numbered, numbered, smaller_cid, keep_contiguous, sanitize_contiguous_memos,
  CountsFrom,
}

-- The memos have the cids from `k` on.
abbrev pub IsLog : ℕ → List EntryMemo → Type 0
IsLog k [] = Unit
IsLog k (m ∷ ms) = (m.cid ≡ some k) × IsLog (k + 1) ms

IsLog-drop : (k n : ℕ) (ms : List EntryMemo) → IsLog k ms → IsLog (k + n) (drop n ms)
IsLog-drop k zero ms h = let same : k + 0 ≡ k = omega arith in rw (same) h
IsLog-drop k (suc n) [] h = tt
IsLog-drop k (suc n) (m ∷ ms) h =
    let shift : k + suc n ≡ k + 1 + n = omega arith in rw (shift) (IsLog-drop (k + 1) n ms h.1)

IsLog-take : (k n : ℕ) (ms : List EntryMemo) → IsLog k ms → IsLog k (take n ms)
IsLog-take k zero ms h = tt
IsLog-take k (suc n) [] h = tt
IsLog-take k (suc n) (m ∷ ms) h = (h.0, IsLog-take (k + 1) n ms h.1)

numbered-CountsFrom :
    (k : ℕ) (ms : List EntryMemo)
    → IsLog k ms
    → CountsFrom k (numbered ms) × (length (numbered ms) ≡ length ms)
numbered-CountsFrom k [] h = (tt, refl)
numbered-CountsFrom k (m ∷ ms) h =
    let (counts, same) = numbered-CountsFrom (k + 1) ms h.1 in
    rw (h.0) ((refl, counts), ap suc same)

sort-CountsFrom : (k : ℕ) (ms : List Numbered) → CountsFrom k ms → sort smaller_cid ms ≡ ms
sort-CountsFrom k [] h = refl
sort-CountsFrom k (m ∷ []) h = refl
sort-CountsFrom k (m ∷ n ∷ ms) h =
    let later : ltb n.cid m.cid ≡ false = ground arith in
    rw (sort-CountsFrom (k + 1) (n ∷ ms) h.1, later) refl

keep_contiguous_all : (k : ℕ) (ms : List Numbered) → CountsFrom k ms → keep_contiguous k ms ≡ ms
unfolding keep_contiguous
keep_contiguous_all k [] h = refl
keep_contiguous_all k (m ∷ ms) h =
    let reached : ltb m.cid k ≡ false = ground arith in
    let here : ltb k m.cid ≡ false = ground arith in
    rw (reached, here) (ap (◌∷◌ m) (keep_contiguous_all (k + 1) ms h.1))

-- A page of the log is kept whole.
pub sanitize_contiguous_memos-IsLog :
    (k : ℕ) (ms : List EntryMemo) → IsLog k ms → length (sanitize_contiguous_memos ms k) ≡ length ms
unfolding sanitize_contiguous_memos
sanitize_contiguous_memos-IsLog k ms h =
    let (counts, same) = numbered-CountsFrom k ms h in
    ap length (
      ap (keep_contiguous k) (sort-CountsFrom k (numbered ms) counts)
      ∙ keep_contiguous_all k (numbered ms) counts)
    ∙ same

pub IsLog-page :
    (limit offset : ℕ) (log : List EntryMemo)
    → IsLog 0 log
    → IsLog offset (take limit (drop offset log))
IsLog-page limit offset log h =
    IsLog-take offset limit (drop offset log)
      (let same : 0 + offset ≡ offset = omega arith in rw (same) at (IsLog-drop 0 offset log h))
