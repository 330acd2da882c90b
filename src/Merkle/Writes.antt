-- ===== src/Merkle/Writes.antt =====
-- Writing nodes to storage, and replacing one leaf of a tree.
use ocash_sdk.Prelude.{ℕ, ◌+◌, ◌≤◌, ◌<◌, ◌≡◌, ◌≢◌, refl, ◌∙◌, List, [], ◌∷◌, ◌++◌, All, arith}
use ocash_sdk.Prelude.Maps.{lookup, insert, lookup-insert}
use ocash_sdk.Merkle.Nodes.{NodeId, st, cm, node_id_eq, same_id_iff, Node}
use ocash_sdk.Merkle.Tree.{update}
use ocash_sdk.Merkle.Insert.{NodeStore, put_nodes}
use ocash_sdk.Merkle.Represents.{Below}

-- A node of the version that is made, at a level up to a bound.
abbrev pub IsNew : ℕ → ℕ → Node → Type 0
IsNew version level n = (l : ℕ) × (n.id ≡ cm version l) × (l ≤ level)

pub IsNew-mono :
    (version level level' : ℕ) (nodes : List Node)
    → level ≤ level'
    → All (IsNew version level) nodes
    → All (IsNew version level') nodes
IsNew-mono version level level' [] le h = tt
IsNew-mono version level level' (n ∷ nodes) le ((l, e, below), h) =
    ((l, e, omega arith), IsNew-mono version level level' nodes le h)

pub put_nodes-append :
    (xs ys : List Node) (m : NodeStore) → put_nodes (xs ++ ys) m ≡ put_nodes ys (put_nodes xs m)
put_nodes-append [] ys m = refl
put_nodes-append (n ∷ xs) ys m = put_nodes-append xs ys (insert n.id n m)

pub lookup-insert_ne :
    (k j : NodeId) (n : Node) (m : NodeStore) → j ≢ k → lookup j (insert k n m) ≡ lookup j m
lookup-insert_ne k j n m ne = ground (arith, lookup-insert k j n m, same_id_iff j k)

pub Below-ne :
    (version level l : ℕ) (k : NodeId) → Below version level k → level ≤ l → k ≢ cm version l
Below-ne version level l (cm w i) below le e = ground arith
Below-ne version level l (st i p) below le e = absurd below

-- Writing new nodes leaves the older versions' nodes.
pub put_nodes-old :
    (version level : ℕ) (nodes : List Node) (m : NodeStore) (k : NodeId)
    → All (IsNew version level) nodes
    → Below version 0 k
    → lookup k (put_nodes nodes m) ≡ lookup k m
put_nodes-old version level [] m k h below = refl
put_nodes-old version level (n ∷ nodes) m k ((l, e, le), h) below =
    put_nodes-old version level nodes (insert n.id n m) k h below
    ∙ lookup-insert_ne n.id k n m (λ same. Below-ne version 0 l k below (omega arith) (same ∙ e))

pub Below-mono :
    (version level level' : ℕ) (k : NodeId)
    → level ≤ level'
    → Below version level k
    → Below version level' k
Below-mono version level level' (cm w i) le below = ground arith
Below-mono version level level' (st i p) le below = absurd below

pub update_below : (f : ℕ → ℕ) (b v i : ℕ) → i < b → update f b v i ≡ f i
update_below f b v i lt = ground arith

pub update_above : (f : ℕ → ℕ) (b v i : ℕ) → b < i → update f b v i ≡ f i
update_above f b v i lt = ground arith

pub update_shift :
    (f : ℕ → ℕ) (p b c v i : ℕ) → b ≡ p + c → update f b v (p + i) ≡ update (λ j. f (p + j)) c v i
update_shift f p b c v i e = ground arith
