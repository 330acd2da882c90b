-- ===== src/Merkle/Tree.antt =====
-- The tree that a version stands for: a complete binary tree over a function that gives each leaf.
use ocash_sdk.Prelude.{
  ℕ, zero, suc, ◌+◌, ◌^◌, ◌≤◌, ◌<◌, ◌≡◌, refl, ◌∙◌, ap, Bool, true, ◌&&◌, ◌==◌, arith,
  if◌then◌else◌,
}
use ocash_sdk.Crypto.Poseidon2.{hash_domain}
use ocash_sdk.Merkle.Zeros.{get_zero_hash, tree_depth_default}
use ocash_sdk.Merkle.Nodes.{hash_pair}

-- The root of height `h` over the leaves `f 0 … f (2 ^ h - 1)`.
unfoldable pub root : ℕ → (ℕ → ℕ) → ℕ
root zero f = f 0
root (suc h) f = hash_pair (root h f) (root h (λ i. f (2 ^ h + i)))

-- The leaves with one of them replaced.
abbrev pub update : (ℕ → ℕ) → ℕ → ℕ → ℕ → ℕ
update f i v j = if j == i then v else f j

pub root_ext : (h : ℕ) (f g : ℕ → ℕ) → ((i : ℕ) → i < 2 ^ h → f i ≡ g i) → root h f ≡ root h g
unfolding root
root_ext zero f g e = e 0 (omega arith)
root_ext (suc h) f g e = rw (
  root_ext h f g λ i lt. e i (half-lt h i lt),
  root_ext h (λ i. f (2 ^ h + i)) (λ i. g (2 ^ h + i)) λ i lt. e (2 ^ h + i) (upper-lt h i lt),
)
  where
    half-lt : (h i : ℕ) → i < 2 ^ h → i < 2 ^ suc h
    half-lt h i lt = omega arith

    upper-lt : (h i : ℕ) → i < 2 ^ h → 2 ^ h + i < 2 ^ suc h
    upper-lt h i lt = omega arith

zeros_chain : ℕ → Bool
zeros_chain zero = true
zeros_chain (suc n) =
    (get_zero_hash (suc n) == hash_pair (get_zero_hash n) (get_zero_hash n)) && zeros_chain n

zeros_chain_checked : zeros_chain tree_depth_default ≡ true
unfolding zeros_chain get_zero_hash hash_pair hash_domain
zeros_chain_checked = refl

zeros_chain-at :
    (n k : ℕ)
    → zeros_chain n ≡ true
    → k < n
    → get_zero_hash (suc k) ≡ hash_pair (get_zero_hash k) (get_zero_hash k)
unfolding zeros_chain
zeros_chain-at zero k h lt = absurd (omega arith)
zeros_chain-at (suc n) k h lt = ground (arith, zeros_chain-at n k)

-- Each of the zero hashes of the levels 1 to 32 is the hash of a pair of the one below.
pub get_zero_hash-suc :
    (level : ℕ)
    → level < 32
    → get_zero_hash (suc level) ≡ hash_pair (get_zero_hash level) (get_zero_hash level)
get_zero_hash-suc level lt = zeros_chain-at 32 level zeros_chain_checked lt

-- A subtree whose leaves are all the zero hash of their level has the zero hash of its own level, which
-- is at most 32.
pub root_zero :
    (h base : ℕ) (f : ℕ → ℕ)
    → base + h ≤ 32
    → ((i : ℕ) → i < 2 ^ h → f i ≡ get_zero_hash base)
    → root h f ≡ get_zero_hash (base + h)
unfolding root
root_zero zero base f le e = e 0 (omega arith) ∙ ap get_zero_hash (omega arith)
root_zero (suc h) base f le e =
    let lower = root_zero h base f (omega arith) λ i lt. e i (omega arith) in
    let upper =
      root_zero h base (λ i. f (2 ^ h + i)) (omega arith) λ i lt. e (2 ^ h + i) (omega arith) in
    let pair = get_zero_hash-suc (base + h) (omega arith) in
    rw (lower, upper, ← pair) (ap get_zero_hash (omega arith))
