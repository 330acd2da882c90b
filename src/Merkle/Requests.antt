-- ===== src/Merkle/Requests.antt =====
-- src/merkle/merkleEngine.ts: `totalElementsInTree` and `getProofByCids`, for one chain. The proof
-- service is a parameter. A hex string stands for its number, in a path too.
pub mod Entries
pub mod Local
use ocash_sdk.Prelude.{
  ℕ, zero, suc, ◌+◌, ◌-◌, ◌*◌, ◌/◌, Bool, true, false, ◌&&◌, ◌||◌, not, ◌==◌, List, [], ◌∷◌, Option,
  none, some, length, replicate, filter, get_elem?, ltb, leb, if◌then◌else◌,
}
use ocash_sdk.Prelude.Int.{ℤ, pos, negsuc}
use ocash_sdk.Prelude.Maps.{lookup, nat_eq}
use ocash_sdk.Prelude.Results.{Result, ok, err, ◌>>=◌}
use ocash_sdk.Merkle.Zeros.{get_zero_hash}
use ocash_sdk.Merkle.Nodes.{NodeId, Version}
use ocash_sdk.Merkle.Insert.{NodeStore, subtree_depth}
use ocash_sdk.Merkle.Proof.{build_local_proof_path}
use ocash_sdk.Merkle.Ingest.{prev_root}
use ocash_sdk.Merkle.Hydration.{
  MerkleMode, remote, local, hybrid, is_remote, ChainTree, hydrate_from_storage,
}
use ocash_sdk.Store.Memory.{Leaf, existing_leaves}

pub record ProofEntry : Type 0 where
  pub leaf_index : ℕ
  pub path : List ℕ

pub record ProofResponse : Type 0 where
  pub proof : List ProofEntry
  pub merkle_root : ℕ
  pub latest_cid : ℤ

pub data ProofError : Type 0 where
  bad_temp_array_size no_cids behind_contract build_failed : ProofError
  local_unavailable entry_missing missing_merkle_proof_url service_failed : ProofError

-- The default of `tempArraySize` is 32.
unfoldable pub total_elements_in_tree : ℤ → ℕ → Result ProofError ℕ
total_elements_in_tree total zero = err bad_temp_array_size
total_elements_in_tree (negsuc n) (suc k) = ok 0
total_elements_in_tree (pos zero) (suc k) = ok 0
total_elements_in_tree (pos (suc n)) (suc k) = ok (n / suc k * suc k)

abbrev pub latest_cid_of : ℤ → ℤ
latest_cid_of (negsuc n) = negsuc 0
latest_cid_of (pos zero) = negsuc 0
latest_cid_of (pos (suc n)) = pos n

-- `path: new Array(this.treeDepth + 1).fill('0')`, for a leaf that is not in the contract's tree yet.
abbrev pub buffered_entry : ℕ → ℕ → ProofEntry
buffered_entry tree_depth cid = record { leaf_index = cid; path = replicate (tree_depth + 1) 0 }

abbrev pub found_commitment : Option Leaf → Option ℕ
found_commitment none = none
found_commitment (some l) = some l.commitment

-- `getMerkleLeaf`.
abbrev pub leaf_commitment : ChainTree → ℕ → Option ℕ
leaf_commitment c cid = found_commitment (get_elem? (existing_leaves c.leaves) cid)

abbrev pub proof_entry : ℕ → Option (List ℕ) → Option ProofEntry
proof_entry cid none = none
proof_entry cid (some path) = some (record { leaf_index = cid; path = path })

abbrev pub prepended : Option ProofEntry → Option (List ProofEntry) → Option (List ProofEntry)
prepended (some entry) (some entries) = some (entry ∷ entries)
prepended (some entry) none = none
prepended none _ = none

-- The response of a source that has no tree: `getZeroHash(treeDepth)` where the contract's is empty.
abbrev pub version_root : ℕ → Option Version → ℕ
version_root tree_depth none = get_zero_hash tree_depth
version_root tree_depth (some v) = v.root_hash

abbrev pub is_there : Option Version → Bool
is_there none = false
is_there (some v) = true

-- An error of the local source ends the call in local mode; in hybrid mode the service is asked.
abbrev pub unless_hybrid : MerkleMode → ProofError → Option (Result ProofError ProofResponse)
unless_hybrid local e = some (err e)
unless_hybrid _ e = none

module _ (tree_depth : ℕ) (tree_elements : ℕ) where
  unfoldable pub local_entry : ChainTree → Option Version → ℕ → Option ProofEntry
  local_entry c version cid =
      if leb tree_elements cid
      then some (buffered_entry tree_depth cid)
      else proof_entry cid (
          build_local_proof_path (leaf_commitment c) c.engine.nodes (tree_depth - subtree_depth) cid
            (prev_root version))

  -- The `for` over the cids; none where a leaf is missing.
  unfoldable pub local_entries : ChainTree → Option Version → List ℕ → Option (List ProofEntry)
  local_entries c version [] = some []
  local_entries c version (cid ∷ cids) =
      prepended (local_entry c version cid) (local_entries c version cids)

  -- `version`; with no element in the tree it is undefined.
  abbrev pub contract_version : ChainTree → Option Version
  contract_version c = if tree_elements == 0 then none else lookup tree_elements c.engine.versions

  abbrev pub local_response :
      MerkleMode
      → ℤ
      → Option Version
      → Option (List ProofEntry)
      → Option (Result ProofError ProofResponse)
  local_response mode total version none = unless_hybrid mode build_failed
  local_response mode total version (some entries) = some (
      ok (record {
        proof = entries;
        merkle_root = version_root tree_depth version;
        latest_cid = latest_cid_of total;
      }))

  -- What the local source answers; none for the fallback to the service.
  unfoldable pub ask_local :
      MerkleMode → ChainTree → List ℕ → ℤ → Option (Result ProofError ProofResponse)
  ask_local remote c cids total = none
  ask_local mode c cids total =
      let version = contract_version c in
      if (tree_elements == 0) || is_there version
      then (if ltb c.engine.merged tree_elements
          then unless_hybrid mode behind_contract
          else local_response mode total version (local_entries c version cids))
      else if ltb 0 (length (filter (λ (cid : ℕ). ltb cid tree_elements) cids))
      then unless_hybrid mode local_unavailable
      else none

  -- `remote.proof[remoteIdx++]` for each cid that is in the tree.
  unfoldable pub merge_entries : List ℕ → List ProofEntry → Result ProofError (List ProofEntry)
  merge_entries [] hits = ok []
  merge_entries (cid ∷ cids) hits = elim (leb tree_elements cid) [
    | true ↦ merge_entries cids hits >>= λ rest. ok (buffered_entry tree_depth cid ∷ rest)
    | false ↦ elim hits [
      | [] ↦ err entry_missing
      | hit ∷ more ↦ merge_entries cids more >>= λ rest. ok (hit ∷ rest)
    ]
  ]

-- `fetchRemoteProofFromService`; `service` is the client of the chain's url, none where it has none.
abbrev pub fetch_remote :
    Option (List ℕ → Result ProofError ProofResponse) → List ℕ → Result ProofError ProofResponse
fetch_remote none cids = err missing_merkle_proof_url
fetch_remote (some service) cids = service cids

module _ (service : Option (List ℕ → Result ProofError ProofResponse)) (tree_depth : ℕ) where
  abbrev pub root_only : ℕ → Result ProofError ℕ
  root_only zero = ok (get_zero_hash tree_depth)
  root_only (suc n) = fetch_remote service (0 ∷ []) >>= λ answer. ok answer.merkle_root

  abbrev pub buffered_entries : List ℕ → List ProofEntry
  buffered_entries [] = []
  buffered_entries (cid ∷ cids) = buffered_entry tree_depth cid ∷ buffered_entries cids

  abbrev pub ask_service : ℕ → List ℕ → List ℕ → ℤ → Result ProofError ProofResponse
  ask_service tree_elements cids [] total = root_only tree_elements >>= λ root. ok (record {
    proof = buffered_entries cids;
    merkle_root = root;
    latest_cid = latest_cid_of total;
  })
  ask_service tree_elements cids (needed ∷ more) total =
      fetch_remote service (needed ∷ more) >>= λ answer.
      merge_entries tree_depth tree_elements cids answer.proof >>= λ entries.
      ok (record {
        proof = entries;
        merkle_root = answer.merkle_root;
        latest_cid = answer.latest_cid;
      })

  abbrev pub or_else_service :
      Option (Result ProofError ProofResponse)
      → Result ProofError ProofResponse
      → Result ProofError ProofResponse
  or_else_service none fallback = fallback
  or_else_service (some r) fallback = r

  abbrev pub answer_for :
      MerkleMode → ChainTree → List ℕ → ℤ → Result ProofError ℕ → Result ProofError ProofResponse
  answer_for mode c cids total (err e) = err e
  answer_for mode c cids total (ok tree_elements) =
      or_else_service (ask_local tree_depth tree_elements mode c cids total)
        (ask_service tree_elements cids (filter (λ (cid : ℕ). ltb cid tree_elements) cids) total)

  -- The chain after the hydration, and the answer.
  unfoldable pub get_proof_by_cids :
      MerkleMode → List ℕ → ℤ → ChainTree → ChainTree × Result ProofError ProofResponse
  get_proof_by_cids mode [] total c = (c, err no_cids)
  get_proof_by_cids mode (cid ∷ cids) total c =
      let hydrated = hydrate_from_storage mode c in
      (hydrated, answer_for mode hydrated (cid ∷ cids) total (total_elements_in_tree total 32))

  abbrev pub get_proof_by_cid :
      MerkleMode → ℕ → ℤ → ChainTree → ChainTree × Result ProofError ProofResponse
  get_proof_by_cid mode cid total c = get_proof_by_cids mode (cid ∷ []) total c
