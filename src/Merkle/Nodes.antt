-- ===== src/Merkle/Nodes.antt =====
-- src/merkle/merkleEngine.ts: node ids and node records, and the hash of a pair. A canonical 32-byte
-- hex string stands for its number.
use ocash_sdk.Prelude.{ℕ, ◌==◌, ==_iff, ◌≡◌, ◌↔◌, Bool, true, false, ◌&&◌, Option, arith}
use ocash_sdk.Prelude.Int.{pos}
use ocash_sdk.Prelude.Maps.{Eq}
use ocash_sdk.Crypto.Poseidon2.{hash_domain, merkle_domain}

-- The ids `st-${level}-${position}` and `cm-${version}-${level}`.
pub data NodeId : Type 0 where
  st : ℕ → ℕ → NodeId
  cm : ℕ → ℕ → NodeId

abbrev pub same_id : NodeId → NodeId → Bool
same_id (st l p) (st m q) = l == m && p == q
same_id (cm v l) (cm w m) = v == w && l == m
same_id _ _ = false

pub same_id_iff : (a b : NodeId) → (same_id a b ≡ true) ↔ (a ≡ b)
same_id_iff (st l p) (st m q) = ground (arith, ==_iff l m, ==_iff p q)
same_id_iff (st l p) (cm w m) = ground arith
same_id_iff (cm v l) (st m q) = ground arith
same_id_iff (cm v l) (cm w m) = ground (arith, ==_iff v w, ==_iff l m)

instance abbrev pub node_id_eq : Eq NodeId
node_id_eq = record { beq = same_id; beq_iff = same_id_iff }

-- `ChairmanMerkleNodeRecord`.
pub record Node : Type 0 where
  pub id : NodeId
  pub hash : ℕ
  pub left_id : Option NodeId
  pub right_id : Option NodeId

-- `ChairmanMerkleVersionRecord`.
pub record Version : Type 0 where
  pub version : ℕ
  pub root_id : NodeId
  pub root_hash : ℕ

-- `MerkleEngine.hashPair`.
unfoldable pub hash_pair : ℕ → ℕ → ℕ
hash_pair left right = hash_domain (pos left) (pos right) merkle_domain
